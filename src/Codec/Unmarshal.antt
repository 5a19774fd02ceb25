-- ===== src/Codec/Unmarshal.antt =====
-- javascript/mux/codec/decoder.ts: `Unmarshal`.
use qtalk.Base.{ℕ, List, [], ◌∷◌, drop, ◌==◌, if◌then◌else◌}
use qtalk.Base.Throws.{Result, ok, err, unknown_type, ◌>>=◌}
use qtalk.Bytes.{get_uint32}
use qtalk.Codec.{
  Message, open_message, open_confirm, open_failure, window_adjust, data_message, eof_message,
  close_message, open_id, open_confirm_id, open_failure_id, window_adjust_id, data_id, eof_id,
  close_id,
}

unmarshal_open : List ℕ → Result Message
unfolding get_uint32
unmarshal_open packet = do
  sender_id ← get_uint32 packet 1
  window_size ← get_uint32 packet 5
  max_packet_size ← get_uint32 packet 9
  ok (open_message sender_id window_size max_packet_size)

unmarshal_open_confirm : List ℕ → Result Message
unfolding get_uint32
unmarshal_open_confirm packet = do
  channel_id ← get_uint32 packet 1
  sender_id ← get_uint32 packet 5
  window_size ← get_uint32 packet 9
  max_packet_size ← get_uint32 packet 13
  ok (open_confirm channel_id sender_id window_size max_packet_size)

-- `length` is what the packet says, and the data is all that follows it.
unmarshal_data : List ℕ → Result Message
unfolding get_uint32
unmarshal_data packet = do
  data_length ← get_uint32 packet 5
  channel_id ← get_uint32 packet 1
  ok (data_message channel_id data_length (drop 9 packet))

unmarshal_window_adjust : List ℕ → Result Message
unfolding get_uint32
unmarshal_window_adjust packet = do
  channel_id ← get_uint32 packet 1
  additional_bytes ← get_uint32 packet 5
  ok (window_adjust channel_id additional_bytes)

unmarshal_plain : (ℕ → Message) → List ℕ → Result Message
unfolding get_uint32
unmarshal_plain message packet = do channel_id ← get_uint32 packet 1; ok (message channel_id)

-- The `switch` on `packet[0]`.
abbrev unmarshal_by : ℕ → List ℕ → Result Message
unmarshal_by id packet =
    if id == close_id
    then unmarshal_plain close_message packet
    else if id == data_id
    then unmarshal_data packet
    else if id == eof_id
    then unmarshal_plain eof_message packet
    else if id == open_id
    then unmarshal_open packet
    else if id == open_confirm_id
    then unmarshal_open_confirm packet
    else if id == open_failure_id
    then unmarshal_plain open_failure packet
    else if id == window_adjust_id
    then unmarshal_window_adjust packet
    else err unknown_type

unfoldable pub unmarshal : List ℕ → Result Message
unfolding unmarshal_open unmarshal_open_confirm unmarshal_data unmarshal_window_adjust
    unmarshal_plain
unmarshal [] = err unknown_type
unmarshal (id ∷ rest) = unmarshal_by id (id ∷ rest)
