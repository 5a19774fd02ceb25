-- ===== src/Legacy/Session/Dropped.antt =====
-- Data that the old channel does not accept.
use qtalk.Base.{
  ℕ, suc, ◌<◌, ◌≡◌, refl, List, ◌∷◌, ◌++◌, some, get_elem?, set-get_elem?, arith, ltb, Bool-cases,
  inl, inr,
}
use qtalk.Base.Throws.{Error, ok, err, payload_too_large, wrote_too_much}
use qtalk.Bytes.{IsU32, u32_bytes, get_uint32}
use qtalk.Conn.{Source}
use qtalk.Channel.{Channel}
use qtalk.Codec.{data_message, IsValid, data_id}
use qtalk.Codec.Marshal.{wire}
use qtalk.Codec.Decoder.{read_packet}
use qtalk.Codec.Decoder.Frames.{IsFramed, read_packet-wire}
use qtalk.Session.State.{Session, load, store}
use qtalk.Session.Table.{lookup}
use qtalk.Session.Dispatch.{get_ch}
use qtalk.Legacy.Channel.{handle_data}
use qtalk.Legacy.Session.{handle_packet, dispatch, loop}
use qtalk.Legacy.Session.Same.{second_u32}

handle_data_refused :
    (len : ℕ) (bytes : List ℕ) (ch : Channel)
    → 0 < len
    → ch.my_window < len
    → (e : Error) × (handle_data len bytes ch ≡ (err e, ch))
unfolding handle_data
handle_data_refused len bytes ch pos over = elim (Bool-cases (ltb ch.max_incoming_payload len)) [
  | inl large ↦ (payload_too_large, ground arith)
  | inr fits ↦ (wrote_too_much, ground arith)
]

third_u32 :
    (type id len : ℕ) (rest : List ℕ)
    → IsU32 len
    → get_uint32 (type ∷ u32_bytes id ++ u32_bytes len ++ rest) 5 ≡ ok len
unfolding get_uint32
third_u32 type id len rest small = ground arith

handle_packet_refused :
    (id len ref : ℕ) (bytes : List ℕ) (ch : Channel) (s : Session)
    → IsValid (data_message id len bytes)
    → get_elem? s.objects ref ≡ some ch
    → 0 < len
    → ch.my_window < len
    → handle_packet ref data_id (wire (data_message id len bytes)) s ≡ (ok tt, s)
unfolding handle_packet load store
handle_packet_refused id len ref bytes ch s valid at pos over =
    let (e, refused) = handle_data_refused len bytes ch pos over in
    rw (third_u32 data_id id len bytes valid.1)
      (rw (at, refused, set-get_elem? s.objects ref ch at))

dispatch_refused :
    (id len ref : ℕ) (bytes : List ℕ) (ch : Channel) (s : Session)
    → IsValid (data_message id len bytes)
    → lookup id s.channels ≡ some ref
    → get_elem? s.objects ref ≡ some ch
    → 0 < len
    → ch.my_window < len
    → dispatch (wire (data_message id len bytes)) s ≡ (ok tt, s)
unfolding dispatch get_ch
dispatch_refused id len ref bytes ch s valid listed at pos over =
    rw (second_u32 data_id id (u32_bytes len ++ bytes) valid.0)
      (rw listed (handle_packet_refused id len ref bytes ch s valid at pos over))

module _ {S : Type 0} (src : Source S) where
  loop-step :
      (fuel : ℕ) (c c' : S) (s : Session) (packet : List ℕ)
      → read_packet src c ≡ (ok (some packet), c')
      → dispatch packet s ≡ (ok tt, s)
      → loop src (suc fuel) c s ≡ loop src fuel c' s
  unfolding loop
  loop-step fuel c c' s packet reads does = rw reads (rw does refl)

  -- Data beyond the window of a channel in the table does not end the old read loop: the bytes are
  -- lost, neither the sender nor a reader is told, and the loop goes on with the rest of the stream in
  -- the same state.
  pub loop-dropped :
      (fuel id len ref : ℕ) (bytes tail : List ℕ) (ch : Channel) (c : S) (s : Session)
      → src.IsReady c
      → src.remaining c ≡ wire (data_message id len bytes) ++ tail
      → IsFramed (data_message id len bytes)
      → lookup id s.channels ≡ some ref
      → get_elem? s.objects ref ≡ some ch
      → ch.my_window < len
      → (c' : S) × src.IsReady c'
        × (src.remaining c' ≡ tail)
        × (loop src (suc fuel) c s ≡ loop src fuel c' s)
  loop-dropped fuel id len ref bytes tail ch c s ready left framed listed at over =
      let m = data_message id len bytes in
      let (c', reads, ready', left') = read_packet-wire src c m tail ready framed left in
      let does = dispatch_refused id len ref bytes ch s framed.0 listed at framed.1 over in
      (c', ready', left', loop-step fuel c c' s (wire m) reads does)
