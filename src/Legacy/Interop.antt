-- ===== src/Legacy/Interop.antt =====
-- The legacy codec and the current one understand each other.
use qtalk.Base.{ℕ, ◌≡◌, refl, sym, ap, ◌∙◌, List, [], length, arith, append-nil}
use qtalk.Base.Throws.{ok, ◌>>=◌}
use qtalk.Bytes.{new_buffer, set_bytes}
use qtalk.Bytes.Laws.{set_bytes-append, length-new_buffer}
use qtalk.Codec.{
  Message, open_message, open_confirm, open_failure, window_adjust, data_message, eof_message,
  close_message, IsValid,
}
use qtalk.Codec.Marshal.{marshal, data_packet, wire}
use qtalk.Codec.Unmarshal.{unmarshal}
use qtalk.Codec.RoundTrip.{marshal-wire, unmarshal-marshal}
use qtalk.Legacy.Packets.{encode, decode}

pub encode-marshal : (m : Message) → encode m ≡ marshal m
unfolding encode marshal data_packet
encode-marshal (open_message s w x) = refl
encode-marshal (open_confirm c s w x) = refl
encode-marshal (open_failure c) = refl
encode-marshal (window_adjust c n) = refl
encode-marshal (data_message c len bytes) = refl
encode-marshal (eof_message c) = refl
encode-marshal (close_message c) = refl

copy_whole :
    (bytes : List ℕ) (len : ℕ) → length bytes ≡ len → set_bytes bytes 0 (new_buffer len) ≡ ok bytes
copy_whole bytes len same =
    rw (append-nil (new_buffer len), append-nil bytes) at
      (set_bytes-append [] (new_buffer len) [] bytes 0 refl (same ∙ sym (length-new_buffer len)))

pub decode_wire : (m : Message) → IsValid m → decode (wire m) ≡ ok m
unfolding decode
decode_wire (open_message s w x) h = ground arith
decode_wire (open_confirm c s w x) h = ground arith
decode_wire (open_failure c) h = ground arith
decode_wire (window_adjust c n) h = ground arith
decode_wire (data_message c len bytes) h = ground (arith, copy_whole bytes len h.2)
decode_wire (eof_message c) h = ground arith
decode_wire (close_message c) h = ground arith

-- Each implementation reads what the other writes: `decode` of the old one gives back a message that
-- the new one encodes, and `Unmarshal` of the new one a message that the old one encodes, if its
-- fields fit their 32 bits and a data message is as long as it says.
pub decode-marshal :
    (m : Message) → IsValid m → ((marshal m >>= decode) ≡ ok m) × ((encode m >>= unmarshal) ≡ ok m)
decode-marshal m h = (
  rw (marshal-wire m h) (decode_wire m h),
  ap (λ r. r >>= unmarshal) (encode-marshal m) ∙ unmarshal-marshal m h,
)
