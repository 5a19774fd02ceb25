-- ===== src/Legacy/Packets.antt =====
-- `encode` and `decode` of javascript/legacy/qmux/src/qmux.ts. An object of one of its message types,
-- with the number of the type, is a message of Codec: `peersID` is the channel's id, but the
-- sender's in an open.
use qtalk.Base.{ℕ, length, ◌+◌, List, [], ◌∷◌, drop, ◌==◌, if◌then◌else◌}
use qtalk.Base.Throws.{Result, ok, err, unknown_type, ◌>>=◌}
use qtalk.Bytes.{new_buffer, set_uint8, set_uint32, set_bytes, get_uint32}
use qtalk.Codec.{
  Message, open_message, open_confirm, open_failure, window_adjust, data_message, eof_message,
  close_message, open_id, open_confirm_id, open_failure_id, window_adjust_id, data_id, eof_id,
  close_id,
}

-- The packets that hold an id only.
abbrev encode_plain : ℕ → ℕ → Result (List ℕ)
encode_plain type id = do view ← set_uint8 0 type (new_buffer 5); set_uint32 1 id view

unfoldable pub encode : Message → Result (List ℕ)
unfolding set_uint8 set_uint32
encode (close_message id) = encode_plain close_id id
encode (data_message id len bytes) = do
  view ← set_uint8 0 data_id (new_buffer 9)
  view ← set_uint32 1 id view
  view ← set_uint32 5 len view
  buf ← set_bytes view 0 (new_buffer (9 + len))
  set_bytes bytes 9 buf
encode (eof_message id) = encode_plain eof_id id
encode (open_message id window size) = do
  view ← set_uint8 0 open_id (new_buffer 13)
  view ← set_uint32 1 id view
  view ← set_uint32 5 window view
  set_uint32 9 size view
encode (open_confirm id my_id window size) = do
  view ← set_uint8 0 open_confirm_id (new_buffer 17)
  view ← set_uint32 1 id view
  view ← set_uint32 5 my_id view
  view ← set_uint32 9 window view
  set_uint32 13 size view
encode (open_failure id) = encode_plain open_failure_id id
encode (window_adjust id n) = do
  view ← set_uint8 0 window_adjust_id (new_buffer 9)
  view ← set_uint32 1 id view
  set_uint32 5 n view

abbrev decode_plain : (ℕ → Message) → List ℕ → Result Message
decode_plain message packet = do id ← get_uint32 packet 1; ok (message id)

-- `rest` is as long as the packet says, and what follows the header is copied into it.
abbrev decode_data : List ℕ → Result Message
decode_data packet = do
  len ← get_uint32 packet 5
  id ← get_uint32 packet 1
  rest ← set_bytes (drop 9 packet) 0 (new_buffer len)
  ok (data_message id len rest)

abbrev decode_open : List ℕ → Result Message
decode_open packet = do
  id ← get_uint32 packet 1
  window ← get_uint32 packet 5
  size ← get_uint32 packet 9
  ok (open_message id window size)

abbrev decode_confirm : List ℕ → Result Message
decode_confirm packet = do
  id ← get_uint32 packet 1
  my_id ← get_uint32 packet 5
  window ← get_uint32 packet 9
  size ← get_uint32 packet 13
  ok (open_confirm id my_id window size)

abbrev decode_adjust : List ℕ → Result Message
decode_adjust packet = do id ← get_uint32 packet 1; n ← get_uint32 packet 5; ok (window_adjust id n)

abbrev decode_by : ℕ → List ℕ → Result Message
decode_by type packet =
    if type == close_id
    then decode_plain close_message packet
    else if type == data_id
    then decode_data packet
    else if type == eof_id
    then decode_plain eof_message packet
    else if type == open_id
    then decode_open packet
    else if type == open_confirm_id
    then decode_confirm packet
    else if type == open_failure_id
    then decode_plain open_failure packet
    else if type == window_adjust_id
    then decode_adjust packet
    else err unknown_type

unfoldable pub decode : List ℕ → Result Message
unfolding get_uint32
decode [] = err unknown_type
decode (type ∷ rest) = decode_by type (type ∷ rest)

-- The packet that `write` builds: a header of nine bytes, and the buffer behind it.
unfoldable pub data_message_packet : ℕ → List ℕ → Result (List ℕ)
unfolding set_uint8 set_uint32
data_message_packet remote_id buffer = do
  header ← set_uint8 0 data_id (new_buffer 9)
  header ← set_uint32 1 remote_id header
  header ← set_uint32 5 (length buffer) header
  packet ← set_bytes header 0 (new_buffer (9 + length buffer))
  set_bytes buffer 9 packet
