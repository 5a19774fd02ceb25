-- ===== src/Codec.antt =====
-- javascript/mux/codec: the messages of the qmux protocol and their bytes.
pub mod Marshal
pub mod Unmarshal
pub mod RoundTrip
pub mod Decoder
use qtalk.Base.{ℕ, ◌≡◌, List, length, All}
use qtalk.Bytes.{IsByte, IsU32}

-- message.ts: the message numbers
abbrev pub open_id : ℕ
open_id = 100

abbrev pub open_confirm_id : ℕ
open_confirm_id = 101

abbrev pub open_failure_id : ℕ
open_failure_id = 102

abbrev pub window_adjust_id : ℕ
window_adjust_id = 103

abbrev pub data_id : ℕ
data_id = 104

abbrev pub eof_id : ℕ
eof_id = 105

abbrev pub close_id : ℕ
close_id = 106

-- message.ts: the union `AnyMessage`. The arguments are the interfaces' fields in their order.
pub data Message : Type 0 where
  open_message : (sender_id window_size max_packet_size : ℕ) → Message
  open_confirm : (channel_id sender_id window_size max_packet_size : ℕ) → Message
  open_failure : (channel_id : ℕ) → Message
  window_adjust : (channel_id additional_bytes : ℕ) → Message
  data_message : (channel_id len : ℕ) → List ℕ → Message
  eof_message : (channel_id : ℕ) → Message
  close_message : (channel_id : ℕ) → Message

-- What a peer may put in a message: 32-bit fields, and a data message as long as it says.
abbrev pub IsValid : Message → Type 0
IsValid (open_message s w m) = IsU32 s × IsU32 w × IsU32 m
IsValid (open_confirm c s w m) = IsU32 c × IsU32 s × IsU32 w × IsU32 m
IsValid (open_failure c) = IsU32 c
IsValid (window_adjust c n) = IsU32 c × IsU32 n
IsValid (data_message c len bytes) = IsU32 c × IsU32 len × (length bytes ≡ len) × All IsByte bytes
IsValid (eof_message c) = IsU32 c
IsValid (close_message c) = IsU32 c
