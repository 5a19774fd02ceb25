-- ===== src/Tests/TransferRuns.antt =====
-- Data from one session of javascript/mux to another.
use qtalk.Base.{ℕ, zero, suc, ◌+◌, ◌≡◌, refl, false, some, List, [], ◌∷◌, length, All, arith}
use qtalk.Bytes.{IsByte, new_buffer}
use qtalk.Bytes.Laws.{length-new_buffer}
use qtalk.Codec.{data_message}
use qtalk.Codec.Marshal.{wire}
use qtalk.Conn.WebSocket.Stream.{Feed, feed_source}
use qtalk.Session.Methods.{write}
use qtalk.Session.Dispatch.{loop}
use qtalk.Session.Oversized.{write-loop}
use qtalk.Base.Throws.{ok, err, payload_too_large}
use qtalk.Channel.{new_object, channel_max_packet}
use qtalk.Session.State.{Session, new_session, unset, object}
use qtalk.Session.Table.{lookup}
use qtalk.Session.Opening.{confirmed}
use qtalk.Session.Transfer.{
  write_all, dispatch_all, data_messages, Arrived, after_writes, write_all-dispatch_all,
}

-- The sender has a channel that the other side calls 2, the receiver has it at that place.
abbrev pub sender : Session
unfolding new_session
sender = record new_session { objects = confirmed 0 2 ∷ []; channels = object 0 ∷ [] }

abbrev pub receiver : Session
unfolding new_session
receiver = record new_session {
  objects = confirmed 2 0 ∷ [];
  channels = unset ∷ unset ∷ object 0 ∷ [];
}

write_all-dispatch_all_example :
    let ms = data_messages 2 ((7 ∷ []) ∷ (8 ∷ 9 ∷ []) ∷ []) in
    (write_all 0 ((7 ∷ []) ∷ (8 ∷ 9 ∷ []) ∷ []) sender ≡ (ok tt, after_writes ms sender))
    × Arrived 0 (confirmed 2 0) [] (7 ∷ 8 ∷ 9 ∷ []) (dispatch_all ms receiver)
unfolding new_session new_object lookup
write_all-dispatch_all_example =
    write_all-dispatch_all ((7 ∷ []) ∷ (8 ∷ 9 ∷ []) ∷ []) sender receiver 0 0 (confirmed 0 2)
      (confirmed 2 0) [] refl refl refl (omega arith) (omega arith) refl refl refl refl
      (omega arith) (omega arith)

-- One byte more than a packet
zeros : List ℕ
zeros = new_buffer (channel_max_packet + 1)

zeros_long : length zeros ≡ channel_max_packet + 1
unfolding zeros
zeros_long = length-new_buffer (channel_max_packet + 1)

zeros_bytes : All IsByte zeros
unfolding zeros
zeros_bytes = bytes_of (channel_max_packet + 1)
  where
    bytes_of : (n : ℕ) → All IsByte (new_buffer n)
    bytes_of zero = tt
    bytes_of (suc n) = (omega arith, bytes_of n)

abbrev flooded : Feed
flooded = record {
  conn = record { buf = []; waiters = []; is_closed = false; sent = []; socket_closed = false };
  arrivals = wire (data_message 2 (length zeros) zeros) ∷ [];
}

write-loop_example :
    (write 0 zeros sender ≡ (ok tt, after_writes (data_message 2 (length zeros) zeros ∷ []) sender))
    × (loop feed_source 1 flooded receiver ≡ some (err payload_too_large, receiver))
unfolding new_session new_object lookup
write-loop_example =
    write-loop feed_source 0 0 0 zeros [] (confirmed 0 2) (confirmed 2 0) sender receiver flooded
      refl refl refl (omega arith) (omega (arith, zeros_long)) zeros_bytes refl refl
      (omega (arith, zeros_long)) (refl, refl) refl
