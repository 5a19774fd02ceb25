-- ===== src/Legacy/Writes.antt =====
-- `write` and `sendPacket` of a channel of javascript/legacy/qmux/src/qmux.ts, on the state of
-- Session.
use qtalk.Base.{
  ℕ, ◌≡◌, refl, Bool, false, List, [], ◌∷◌, ◌++◌, length, get_elem?, ◌==◌, if◌then◌else◌,
  Bool-cases, Option-cases, inl, inr,
}
use qtalk.Base.Throws.{Result, ok, err, eof_sent}
use qtalk.Codec.{data_message, close_id}
use qtalk.Codec.Marshal.{marshal, data_packet}
use qtalk.Codec.RoundTrip.{header, data_packet_lem}
use qtalk.Legacy.Packets.{data_message_packet}
use qtalk.Session.State.{Session, M, throw, ◌>>=◌, ◌>>◌, load, store}
use qtalk.Session.Methods.{send, encode, write_buffer}
use qtalk.Session.Methods

abbrev is_close : List ℕ → Bool
is_close [] = false
is_close (type ∷ rest) = type == close_id

-- `sendPacket`
unfoldable pub send_packet : ℕ → List ℕ → M (Unit {0})
send_packet ref packet = do
  ch ← load ref
  if ch.sent_close
      then throw eof_sent
      else do store ref (record ch { sent_close = is_close packet }); write_buffer (ok packet)

abbrev pub send_built : ℕ → Result (List ℕ) → M (Unit {0})
send_built ref (err e) = throw e
send_built ref (ok packet) = send_packet ref packet

unfoldable pub write : ℕ → List ℕ → M (Unit {0})
write ref buffer = do
  ch ← load ref
  if ch.sent_eof then throw eof_sent else send_built ref (data_message_packet ch.remote_id buffer)

-- Both build the same packet.
packet-marshal :
    (id : ℕ) (buffer : List ℕ)
    → data_message_packet id buffer ≡ marshal (data_message id (length buffer) buffer)
unfolding data_message_packet marshal data_packet
packet-marshal id buffer = refl

marshal_built :
    (id : ℕ) (buffer : List ℕ)
    → marshal (data_message id (length buffer) buffer) ≡ ok (header id (length buffer) ++ buffer)
unfolding marshal
marshal_built id buffer =
    data_packet_lem (header id (length buffer)) buffer (length buffer) refl refl

send-same :
    (s : Session) (ref id : ℕ) (buffer : List ℕ)
    → send_packet ref (header id (length buffer) ++ buffer) s
      ≡ send ref (data_message id (length buffer) buffer) s
unfolding send_packet send encode load store
send-same s ref id buffer = rw (marshal_built id buffer)

-- In every state, `write` does the same as that of the current implementation: it writes the same
-- packet, throws the same, and leaves the same state.
pub write-same :
    (s : Session) (ref : ℕ) (buffer : List ℕ) → write ref buffer s ≡ Methods.write ref buffer s
unfolding write Methods.write load
write-same s ref buffer = elim (Option-cases (get_elem? s.objects ref)) [
  | inl missing ↦ rw (missing, load)
  | inr (ch, at) ↦ elim (Bool-cases ch.sent_eof) [
    | inl sent ↦ rw (at, load) (rw sent)
    | inr open_end ↦
        rw (at, load)
          (rw open_end (
            rw (packet-marshal ch.remote_id buffer, marshal_built ch.remote_id buffer)
              (send-same s ref ch.remote_id buffer)))
  ]
]
