-- ===== src/Codec/Decoder/Empty.antt =====
-- A data message with no data over a WebSocket: `read(0)` of javascript/mux/transport/websocket.ts
-- takes whatever is buffered.
use qtalk.Base.{
  ℕ, ◌<◌, ◌≡◌, refl, false, List, [], ◌∷◌, ◌++◌, Option, some, length, arith, length-append,
  take-append, drop-append,
}
use qtalk.Base.Throws.{Result, ok, err, range_error}
use qtalk.Bytes.{IsU32, u32_bytes, set_bytes}
use qtalk.Util.Concat.{concat}
use qtalk.Conn.WebSocket.{try_read}
use qtalk.Conn.WebSocket.Stream.{Feed, read_next, feed_source}
use qtalk.Codec.{Message, data_message, data_id}
use qtalk.Codec.Marshal.{wire}
use qtalk.Codec.RoundTrip.{unmarshal-wire}
use qtalk.Codec.Decoder.{join_data, read_head, read_body, read_packet, decode_packet, decode}
use qtalk.Codec.Decoder.Frames.{second_u32-u32_bytes}

-- The connection with other bytes in its buffer.
abbrev pub with_buffer : Feed → List ℕ → Feed
with_buffer f bytes = record f { conn = record f.conn { buf = bytes } }

-- Where enough is buffered, a read takes it from the buffer and leaves the rest alone.
read_buffered :
    (f : Feed) (n : ℕ) (front back : List ℕ)
    → f.conn.is_closed ≡ false
    → 0 < n
    → n ≡ length front
    → read_next n (with_buffer f (front ++ back)) ≡ (some front, with_buffer f back)
unfolding read_next try_read
read_buffered f n front back opened pos size =
    ground (arith, take-append front back n, drop-append front back n, length-append front back)

read_zero :
    (f : Feed) (x : ℕ) (back : List ℕ)
    → f.conn.is_closed ≡ false
    → read_next 0 (with_buffer f (x ∷ back)) ≡ (some (x ∷ back), with_buffer f [])
unfolding read_next try_read
read_zero f x back opened = ground arith

read_zero-nil :
    (f : Feed)
    → f.conn.is_closed ≡ false
    → read_next 0 (with_buffer f []) ≡ (some [], with_buffer f [])
unfolding read_next try_read
read_zero-nil f opened = ground arith

abbrev pub verdict : ℕ → List ℕ → Result (Option Message)
verdict c [] = ok (some (data_message c 0 []))
verdict c (x ∷ back) = err range_error

concat_spills :
    (c x : ℕ) (back : List ℕ)
    → concat ((data_id ∷ []) ∷ (u32_bytes c ++ u32_bytes 0) ∷ (x ∷ back) ∷ []) 9 ≡ err range_error
unfolding concat set_bytes
concat_spills c x back = ground arith

concat_empty :
    (c : ℕ)
    → concat ((data_id ∷ []) ∷ (u32_bytes c ++ u32_bytes 0) ∷ [] ∷ []) 9
      ≡ ok (wire (data_message c 0 []))
unfolding concat set_bytes
concat_empty c = refl

module _ (f : Feed) (c : ℕ) (opened : f.conn.is_closed ≡ false) where
  read_both_heads :
      (tail : List ℕ)
      → read_packet feed_source (with_buffer f (wire (data_message c 0 []) ++ tail))
        ≡ join_data feed_source
            (data_id ∷ [])
            (u32_bytes c ++ u32_bytes 0)
            0
            (read_next 0 (with_buffer f tail))
  unfolding read_packet
  read_both_heads tail =
      let rest = u32_bytes c ++ u32_bytes 0 in
      rw (read_buffered f 1 (data_id ∷ []) (rest ++ tail) opened (omega arith) refl, read_head)
        (rw (read_buffered f 8 rest tail opened (omega arith) refl, read_body)
          (rw (second_u32-u32_bytes c 0 (omega arith))))

  -- An empty data message is decoded if nothing is buffered behind it. If anything is, `read(0)`
  -- takes that too, and the copy into the packet throws a RangeError.
  pub decode_empty_data :
      IsU32 c
      → (tail : List ℕ)
      → (decode feed_source (with_buffer f (wire (data_message c 0 []) ++ tail))).0 ≡ verdict c tail
  unfolding decode join_data
  decode_empty_data small [] =
      rw (read_both_heads [], decode_packet)
        (rw (read_zero-nil f opened, join_data)
          (rw (concat_empty c)
            (rw (unmarshal-wire (data_message c 0 []) (small, omega arith, refl, tt)))))
  decode_empty_data small (x ∷ back) =
      rw (read_both_heads (x ∷ back), decode_packet)
        (rw (read_zero f x back opened, join_data) (rw (concat_spills c x back)))
