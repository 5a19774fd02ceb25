-- ===== src/Session/Oversized.antt =====
-- Data that is longer than a packet: `write` of javascript/mux/channel.ts sends it as one message.
use qtalk.Base.{
  ℕ, suc, ◌<◌, ◌≡◌, refl, ◌∙◌, false, List, [], ◌∷◌, ◌++◌, some, length, All, get_elem?, arith,
}
use qtalk.Base.Throws.{ok, err, payload_too_large}
use qtalk.Bytes.{IsByte, IsU32}
use qtalk.Conn.{Source}
use qtalk.Channel.{Channel, handle_data}
use qtalk.Codec.{data_message}
use qtalk.Codec.Marshal.{wire}
use qtalk.Codec.Decoder.Frames.{decode-wire}
use qtalk.Session.State.{Session, load}
use qtalk.Session.Table.{lookup}
use qtalk.Session.Methods.{write, handle}
use qtalk.Session.Dispatch.{get_ch, dispatch, loop}
use qtalk.Session.Loop.{loop-step}
use qtalk.Session.Transfer.{after_writes, write_lem}

handle_data_oversized :
    (ch : Channel) (bytes : List ℕ)
    → ch.max_incoming_payload < length bytes
    → handle_data (length bytes) bytes ch ≡ err payload_too_large
unfolding handle_data
handle_data_oversized ch bytes over = ground arith

dispatch_oversized :
    (id ref : ℕ) (ch : Channel) (bytes : List ℕ) (t : Session)
    → lookup id t.channels ≡ some ref
    → get_elem? t.objects ref ≡ some ch
    → ch.max_incoming_payload < length bytes
    → dispatch (data_message id (length bytes) bytes) t ≡ (err payload_too_large, t)
unfolding dispatch get_ch handle load
dispatch_oversized id ref ch bytes t listed at over =
    rw listed (rw at (rw (handle_data_oversized ch bytes over)))

module _ {S : Type 0} (src : Source S) where
  -- Bytes that are longer than the packets of the other side are written as one message all the same,
  -- and the promise of `write` is resolved; but that message ends the read loop of the other session with
  -- an error, for all of its channels, whatever comes behind it.
  pub write-loop :
      (fuel ref ref' : ℕ) (bytes tail : List ℕ) (ch ch' : Channel) (s t : Session) (c : S)
      → get_elem? s.objects ref ≡ some ch
      → ch.sent_eof ≡ false
      → ch.sent_close ≡ false
      → IsU32 ch.remote_id
      → IsU32 (length bytes)
      → All IsByte bytes
      → lookup ch.remote_id t.channels ≡ some ref'
      → get_elem? t.objects ref' ≡ some ch'
      → ch'.max_incoming_payload < length bytes
      → src.IsReady c
      → src.remaining c ≡ wire (data_message ch.remote_id (length bytes) bytes) ++ tail
      → (write ref bytes s
          ≡ (ok tt, after_writes (data_message ch.remote_id (length bytes) bytes ∷ []) s))
        × (loop src (suc fuel) c t ≡ some (err payload_too_large, t))
  write-loop fuel ref ref' bytes tail ch ch' s t c at no_eof no_close small sized are_bytes listed
        at' over ready left =
      let m = data_message ch.remote_id (length bytes) bytes in
      let (c', e, ready', left') =
        decode-wire src c m tail ready ((small, sized, refl, are_bytes), omega arith) left in
      (
        write_lem s ref ch bytes at no_eof no_close (small, sized, refl, are_bytes),
        loop-step src fuel c t e
            ∙ rw (dispatch_oversized ch.remote_id ref' ch' bytes t listed at' over) refl,
      )
