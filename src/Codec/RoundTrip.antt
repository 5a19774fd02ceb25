-- ===== src/Codec/RoundTrip.antt =====
-- Decoding undoes encoding.
use qtalk.Base.{
  ℕ, ◌+◌, ◌<◌, ◌≡◌, refl, sym, ◌∙◌, List, [], ◌∷◌, ◌++◌, length, append-nil, arith, length-append,
}
use qtalk.Base.Throws.{ok, err, range_error, ◌>>=◌}
use qtalk.Bytes.{new_buffer, u32_bytes, set_bytes}
use qtalk.Bytes.Laws.{new_buffer-add, set_bytes-append, set_bytes_overrun, length-new_buffer}
use qtalk.Codec.{
  Message, open_message, open_confirm, open_failure, window_adjust, data_message, eof_message,
  close_message, IsValid, data_id,
}
use qtalk.Codec.Marshal.{data_packet, marshal, wire}
use qtalk.Codec.Unmarshal.{unmarshal}

pub data_packet_lem :
    (view bytes : List ℕ) (len : ℕ)
    → length view ≡ 9
    → length bytes ≡ len
    → data_packet len bytes view ≡ ok (view ++ bytes)
unfolding data_packet
data_packet_lem view bytes len head body =
    rw (new_buffer-add 9 len, set_bytes-append [] (new_buffer 9) (new_buffer len) view 0 refl head)
      (rw (append-nil (new_buffer len)) at spread)
  where
    spread : set_bytes bytes 9 (view ++ (new_buffer len ++ [])) ≡ ok (view ++ bytes)
    spread = rw (
      set_bytes-append view (new_buffer len) [] bytes 9 (sym head)
          (body ∙ sym (length-new_buffer len)),
      append-nil,
    )

pub marshal-wire : (m : Message) → IsValid m → marshal m ≡ ok (wire m)
unfolding marshal
marshal-wire (open_message s w m) h = refl
marshal-wire (open_confirm c s w m) h = refl
marshal-wire (open_failure c) h = refl
marshal-wire (window_adjust c n) h = refl
marshal-wire (data_message c len bytes) (_, _, same, _) = data_packet_lem _ bytes len refl same
marshal-wire (eof_message c) h = refl
marshal-wire (close_message c) h = refl

pub unmarshal-wire : (m : Message) → IsValid m → unmarshal (wire m) ≡ ok m
unfolding unmarshal
unmarshal-wire (open_message s w m) h = ground arith
unmarshal-wire (open_confirm c s w m) h = ground arith
unmarshal-wire (open_failure c) h = ground arith
unmarshal-wire (window_adjust c n) h = ground arith
unmarshal-wire (data_message c len bytes) h = ground arith
unmarshal-wire (eof_message c) h = ground arith
unmarshal-wire (close_message c) h = ground arith

-- `Unmarshal` gives back each message that `Marshal` encodes, if its fields fit their 32 bits and a
-- data message is as long as it says.
pub unmarshal-marshal : (m : Message) → IsValid m → (marshal m >>= unmarshal) ≡ ok m
unmarshal-marshal m h = rw (marshal-wire m h) (unmarshal-wire m h)

-- The header of a data message.
abbrev pub header : ℕ → ℕ → List ℕ
header c len = data_id ∷ u32_bytes c ++ u32_bytes len

spread_header :
    (c len : ℕ)
    → set_bytes (header c len) 0 (new_buffer (9 + len)) ≡ ok (header c len ++ new_buffer len)
spread_header c len = rw (
  new_buffer-add 9 len,
  set_bytes-append [] (new_buffer 9) (new_buffer len) (header c len) 0 refl refl,
)

data_packet_padded :
    (c n rest : ℕ) (bytes : List ℕ)
    → n ≡ length bytes
    → data_packet (n + rest) bytes (header c (n + rest))
      ≡ ok (header c (n + rest) ++ (bytes ++ new_buffer rest))
unfolding data_packet
data_packet_padded c n rest bytes same = rw (spread_header c (n + rest)) (
    rw (new_buffer-add n rest) (
      set_bytes-append (header c (n + rest)) (new_buffer n) (new_buffer rest) bytes 9 refl
        (sym same ∙ sym (length-new_buffer n))))

data_packet_overrun :
    (c len : ℕ) (bytes : List ℕ)
    → len < length bytes
    → data_packet len bytes (header c len) ≡ err range_error
unfolding data_packet
data_packet_overrun c len bytes more = rw (spread_header c len) (
    set_bytes_overrun bytes (header c len ++ new_buffer len) 9
      (omega (arith, length-append (header c len) (new_buffer len), length-new_buffer len)))

-- `Marshal` trusts `length`: with more data than that it throws a RangeError.
pub marshal_overrun :
    (c len : ℕ) (bytes : List ℕ)
    → len < length bytes
    → marshal (data_message c len bytes) ≡ err range_error
unfolding marshal
marshal_overrun c len bytes more = data_packet_overrun c len bytes more

-- With less data than `length` says, `Marshal` fills up with zeros.
pub marshal_padded :
    (c len rest : ℕ) (bytes : List ℕ)
    → len ≡ length bytes + rest
    → marshal (data_message c len bytes) ≡ ok (header c len ++ (bytes ++ new_buffer rest))
unfolding marshal
marshal_padded c len rest bytes e = rw e (data_packet_padded c (length bytes) rest bytes refl)
