-- ===== src/Codec/Marshal.antt =====
-- javascript/mux/codec/encoder.ts: `Marshal`, one branch for each message.
use qtalk.Base.{ℕ, ◌+◌, List, ◌∷◌, ◌++◌}
use qtalk.Base.Throws.{Result, ◌>>=◌}
use qtalk.Bytes.{u32_bytes, new_buffer, set_uint8, set_uint32, set_bytes}
use qtalk.Codec.{
  Message, open_message, open_confirm, open_failure, window_adjust, data_message, eof_message,
  close_message, open_id, open_confirm_id, open_failure_id, window_adjust_id, data_id, eof_id,
  close_id,
}

-- The data branch from `new Uint8Array(9+m.length)` on: the header, then the bytes behind it.
unfoldable pub data_packet : ℕ → List ℕ → List ℕ → Result (List ℕ)
data_packet len bytes view = do buf ← set_bytes view 0 (new_buffer (9 + len)); set_bytes bytes 9 buf

unfoldable pub marshal : Message → Result (List ℕ)
unfolding set_uint8 set_uint32
marshal (close_message channel_id) = do
  view ← set_uint8 0 close_id (new_buffer 5)
  set_uint32 1 channel_id view
marshal (data_message channel_id len bytes) = do
  view ← set_uint8 0 data_id (new_buffer 9)
  view ← set_uint32 1 channel_id view
  view ← set_uint32 5 len view
  data_packet len bytes view
marshal (eof_message channel_id) = do
  view ← set_uint8 0 eof_id (new_buffer 5)
  set_uint32 1 channel_id view
marshal (open_message sender_id window_size max_packet_size) = do
  view ← set_uint8 0 open_id (new_buffer 13)
  view ← set_uint32 1 sender_id view
  view ← set_uint32 5 window_size view
  set_uint32 9 max_packet_size view
marshal (open_confirm channel_id sender_id window_size max_packet_size) = do
  view ← set_uint8 0 open_confirm_id (new_buffer 17)
  view ← set_uint32 1 channel_id view
  view ← set_uint32 5 sender_id view
  view ← set_uint32 9 window_size view
  set_uint32 13 max_packet_size view
marshal (open_failure channel_id) = do
  view ← set_uint8 0 open_failure_id (new_buffer 5)
  set_uint32 1 channel_id view
marshal (window_adjust channel_id additional_bytes) = do
  view ← set_uint8 0 window_adjust_id (new_buffer 9)
  view ← set_uint32 1 channel_id view
  set_uint32 5 additional_bytes view

-- The wire format of spec/qmux.md: a byte for the kind, 32-bit fields, and the data.
abbrev pub wire : Message → List ℕ
wire (open_message s w m) = open_id ∷ u32_bytes s ++ u32_bytes w ++ u32_bytes m
wire (open_confirm c s w m) =
    open_confirm_id ∷ u32_bytes c ++ u32_bytes s ++ u32_bytes w ++ u32_bytes m
wire (open_failure c) = open_failure_id ∷ u32_bytes c
wire (window_adjust c n) = window_adjust_id ∷ u32_bytes c ++ u32_bytes n
wire (data_message c len bytes) = (data_id ∷ u32_bytes c ++ u32_bytes len) ++ bytes
wire (eof_message c) = eof_id ∷ u32_bytes c
wire (close_message c) = close_id ∷ u32_bytes c
