-- ===== src/Rpc/Frame/Crossing.antt =====
-- A value from `encode` on one session to `decode` on the other.
use qtalk.Base.{
  ℕ, ◌≤◌, ◌≡◌, refl, ap, ◌∙◌, false, ◌⊎◌, List, [], ◌∷◌, some, length, take, flatten, arith,
  append-nil, get_elem?,
}
use qtalk.Base.Throws.{Result, ok, err}
use qtalk.Bytes.{IsU32, u32_bytes}
use qtalk.Util.Queue.Fifo.{pairs}
use qtalk.Channel.{Channel, channel_max_packet}
use qtalk.Channel.Feed.{Link, IsOpen, link_source}
use qtalk.Session.State.{Session, M, pure, ◌>>◌, continue}
use qtalk.Session.Table.{lookup}
use qtalk.Session.Methods.{write}
use qtalk.Session.Transfer.{
  write_all, dispatch_all, data_messages, AreSendable, after_writes, buffered,
  write_all-dispatch_all,
}
use qtalk.Rpc.Frame.{Codec, new_frame_codec, encode_frame}
use qtalk.Rpc.Frame.Writes.{bytes_lem}
use qtalk.Rpc.Frame.Delivery.{messages, flatten-messages, Fits, Fits-IsSized, messages_small}
use qtalk.Rpc.Frame.Ops.{Event, rounds, readers}
use qtalk.Rpc.Frame.Order.{run, run-new_frame_codec}

continue_assoc :
    (k l : M (Unit {0})) (r : Result (Unit {0}) × Session)
    → continue (λ _. l) (continue (λ _. k) r) ≡ continue (λ _. k >> l) r
continue_assoc k l (ok u, s) = refl
continue_assoc k l (err e, s) = refl

module _ {V : Type 0} (codec : Codec V) where
  -- `encode`, one value after the other
  abbrev pub encode_all : ℕ → List V → M (Unit {0})
  encode_all ref [] = pure tt
  encode_all ref (v ∷ vs) = encode_frame codec ref v >> encode_all ref vs

  pub encode_all-write_all :
      (vs : List V) (ref : ℕ) (s : Session)
      → encode_all ref vs s ≡ write_all ref (messages codec vs) s
  unfolding encode_frame
  encode_all-write_all [] ref s = refl
  encode_all-write_all (v ∷ vs) ref s =
      let prefix = u32_bytes (length (codec.encode v)) in
      continue_assoc (write ref (codec.encode v)) (encode_all ref vs) (write ref prefix s)
      ∙ ap (λ (k : M (Unit {0})). (write ref prefix >> (write ref (codec.encode v) >> k)) s)
          (λ i s'. encode_all-write_all vs ref s' i)

  pub Fits-AreSendable : (vs : List V) → Fits codec vs → AreSendable (messages codec vs)
  Fits-AreSendable [] fits = tt
  Fits-AreSendable (v ∷ vs) fits = (
    (omega arith, bytes_lem (length (codec.encode v))),
    ((omega (arith, fits.0.1), codec.encode_bytes v fits.0.0), Fits-AreSendable vs fits.1),
  )

  -- What the frame codec of a channel of the session gives, with what is in its buffer.
  abbrev pub Gives :
      {W : Type 0} → ℕ → List (Event W) → ℕ → List V → Result (Unit {0}) × Session → Type 0
  Gives ref es limit vs r =
      (r.0 ≡ ok tt)
      × ((ch : Channel) × (get_elem? r.1.objects ref ≡ some ch)
          × (run link_source codec es (record { channel = ch; arrivals = [] })
                (new_frame_codec limit)
              ≡ pairs (readers es) (take (rounds es) vs)))

  pub run-buffered :
      {W : Type 0} (es : List (Event W)) (vs : List V) (limit : ℕ) (ch : Channel)
      → (limit ≡ 0) ⊎ (rounds es ≤ limit)
      → rounds es ≤ length vs
      → ch.readers ≡ []
      → ch.got_eof ≡ false
      → Fits codec vs
      → run link_source codec es
          (record { channel = buffered ch [] (flatten (messages codec vs)); arrivals = [] })
          (new_frame_codec limit)
        ≡ pairs (readers es) (take (rounds es) vs)
  run-buffered es vs limit ch within enough idle going fits =
      let bytes = flatten (messages codec vs) in
      let link : Link = record { channel = buffered ch [] bytes; arrivals = [] } in
      let ready : IsOpen link = (idle, going, (bytes, refl), tt, omega arith) in
      run-new_frame_codec link_source codec es vs link limit within ready
        (append-nil bytes ∙ flatten-messages codec vs) enough (Fits-IsSized codec vs fits)

  -- Values that one side encodes onto a channel that has sent neither its end nor its close go out as
  -- data messages, which is all that changes of its session, and if the other session has a channel
  -- under their id, with an empty buffer, no reader and no end, then once it has been given these
  -- messages, a frame codec of that channel resolves the n-th call of `decode` with the n-th value, as
  -- far as `readLoop` has come, if no value is longer than a packet and all fit the window.
  pub encode_all-Gives :
      {W : Type 0} (es : List (Event W)) (vs : List V) (limit : ℕ) (s t : Session) (ref ref' : ℕ)
      (ch ch' : Channel)
      → get_elem? s.objects ref ≡ some ch
      → ch.sent_eof ≡ false
      → ch.sent_close ≡ false
      → IsU32 ch.remote_id
      → Fits codec vs
      → lookup ch.remote_id t.channels ≡ some ref'
      → get_elem? t.objects ref' ≡ some ch'
      → ch'.readers ≡ []
      → ch'.got_eof ≡ false
      → ch'.read_buf ≡ some []
      → ch'.max_incoming_payload ≡ channel_max_packet
      → length (flatten (messages codec vs)) ≤ ch'.my_window
      → (limit ≡ 0) ⊎ (rounds es ≤ limit)
      → rounds es ≤ length vs
      → let ms = data_messages ch.remote_id (messages codec vs) in
        (encode_all ref vs s ≡ (ok tt, after_writes ms s))
        × Gives ref' es limit vs (dispatch_all ms t)
  encode_all-Gives es vs limit s t ref ref' ch ch' at no_eof no_close small fits listed at' idle
        going has size window within enough =
      let (sent, arrived) =
        write_all-dispatch_all (messages codec vs) s t ref ref' ch ch' [] at no_eof no_close small
          (Fits-AreSendable vs fits) listed at' idle has (rw size (messages_small codec vs fits))
          window in
      (
        encode_all-write_all vs ref s ∙ sent,
        (
          arrived.0,
          (
            buffered ch' [] (flatten (messages codec vs)),
            arrived.1,
            run-buffered es vs limit ch' within enough idle going fits,
          ),
        ),
      )
