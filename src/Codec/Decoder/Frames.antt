-- ===== src/Codec/Decoder/Frames.antt =====
-- What the decoder makes of a stream of encoded messages.
use qtalk.Base.{
  ℕ, ◌+◌, ◌<◌, ◌≡◌, refl, sym, ap, false, ◌||◌, List, [], ◌∷◌, ◌++◌, none, some, length, ltb, ◌==◌,
  arith, append-nil, length-append,
}
use qtalk.Base.Throws.{ok}
use qtalk.Bytes.{IsU32, get_uint32, u32_bytes}
use qtalk.Util.Concat.{concat-flatten}
use qtalk.Conn.{Source}
use qtalk.Conn.Exact.{read_exact}
use qtalk.Codec.{
  Message, open_message, open_confirm, open_failure, window_adjust, data_message, eof_message,
  close_message, IsValid, open_id, open_confirm_id, open_failure_id, window_adjust_id, data_id,
  eof_id, close_id,
}
use qtalk.Codec.Marshal.{wire}
use qtalk.Codec.RoundTrip.{unmarshal-wire}
use qtalk.Codec.Decoder.{
  payload_sizes, lookup, Decodes, join_data, read_head, read_body, read_packet, decode_packet,
  decode,
}

-- A data message with no data is left out: see Decoder.Empty.
abbrev pub IsFramed : Message → Type 0
IsFramed (data_message c len bytes) = IsValid (data_message c len bytes) × (0 < len)
IsFramed (open_message s w m) = IsValid (open_message s w m)
IsFramed (open_confirm c s w m) = IsValid (open_confirm c s w m)
IsFramed (open_failure c) = IsValid (open_failure c)
IsFramed (window_adjust c n) = IsValid (window_adjust c n)
IsFramed (eof_message c) = IsValid (eof_message c)
IsFramed (close_message c) = IsValid (close_message c)

abbrev pub IsFramed-IsValid : (m : Message) → IsFramed m → IsValid m
IsFramed-IsValid (data_message c len bytes) h = h.0
IsFramed-IsValid (open_message s w m) h = h
IsFramed-IsValid (open_confirm c s w m) h = h
IsFramed-IsValid (open_failure c) h = h
IsFramed-IsValid (window_adjust c n) h = h
IsFramed-IsValid (eof_message c) h = h
IsFramed-IsValid (close_message c) h = h

pub second_u32-u32_bytes :
    (c len : ℕ) → IsU32 len → get_uint32 (u32_bytes c ++ u32_bytes len) 4 ≡ ok len
unfolding get_uint32
second_u32-u32_bytes c len small = ground arith

module _ {S : Type 0} (src : Source S) where
  abbrev pub Yields : {A : Type 0} → (S → Decodes S A) → S → A → List ℕ → Type 0
  Yields f s a tail =
      (s' : S) × (f s ≡ (ok (some a), s')) × src.IsReady s' × (src.remaining s' ≡ tail)

  read_packet_plain :
      (s s1 s2 : S) (id size : ℕ) (rest : List ℕ)
      → lookup id payload_sizes ≡ some size
      → (ltb id open_id || ltb close_id id) ≡ false
      → (id == data_id) ≡ false
      → src.read 1 s ≡ (some (id ∷ []), s1)
      → src.read size s1 ≡ (some rest, s2)
      → read_packet src s ≡ (ok (some (id ∷ rest)), s2)
  unfolding read_packet
  read_packet_plain s s1 s2 id size rest found guard plain e1 e2 =
      rw (e1, read_head)
        (rw found (
          rw guard (
            rw (e2, read_body)
              (rw plain (
                rw
                  (concat-flatten ((id ∷ []) ∷ rest ∷ []) (length rest + 1)
                    (omega (arith, ap length (append-nil rest))))
                  (rw (append-nil rest)))))))

  read_packet_data :
      (s s1 s2 s3 : S) (rest bytes : List ℕ) (len : ℕ)
      → get_uint32 rest 4 ≡ ok len
      → len ≡ length bytes
      → src.read 1 s ≡ (some (data_id ∷ []), s1)
      → src.read 8 s1 ≡ (some rest, s2)
      → src.read len s2 ≡ (some bytes, s3)
      → read_packet src s ≡ (ok (some (data_id ∷ rest ++ bytes)), s3)
  unfolding read_packet
  read_packet_data s s1 s2 s3 rest bytes len says same e1 e2 e3 =
      rw (e1, read_head)
        (rw (e2, read_body)
          (rw says (
            rw (e3, join_data)
              (rw
                (concat-flatten ((data_id ∷ []) ∷ rest ∷ bytes ∷ []) (len + length rest + 1)
                  (omega (arith, length-append rest (bytes ++ []), length-append bytes [])))
                (rw (append-nil bytes))))))

  plain-Yields :
      (s : S) (id size : ℕ) (rest tail : List ℕ)
      → src.IsReady s
      → lookup id payload_sizes ≡ some size
      → (ltb id open_id || ltb close_id id) ≡ false
      → (id == data_id) ≡ false
      → 0 < size
      → size ≡ length rest
      → src.remaining s ≡ id ∷ rest ++ tail
      → Yields (read_packet src) s (id ∷ rest) tail
  plain-Yields s id size rest tail ready found guard plain pos same left =
      let (s1, e1, r1, l1) =
        read_exact src 1 s (id ∷ []) (rest ++ tail) ready (omega arith) refl left in
      let (s2, e2, r2, l2) = read_exact src size s1 rest tail r1 pos same l1 in
      (s2, read_packet_plain s s1 s2 id size rest found guard plain e1 e2, r2, l2)

  data-Yields :
      (s : S) (c len : ℕ) (bytes tail : List ℕ)
      → src.IsReady s
      → IsFramed (data_message c len bytes)
      → src.remaining s ≡ wire (data_message c len bytes) ++ tail
      → Yields (read_packet src) s (wire (data_message c len bytes)) tail
  data-Yields s c len bytes tail ready ((_, small, same, _), pos) left =
      let rest = u32_bytes c ++ u32_bytes len in
      let (s1, e1, r1, l1) =
        read_exact src 1 s (data_id ∷ []) (rest ++ (bytes ++ tail)) ready (omega arith) refl left in
      let (s2, e2, r2, l2) = read_exact src 8 s1 rest (bytes ++ tail) r1 (omega arith) refl l1 in
      let (s3, e3, r3, l3) = read_exact src len s2 bytes tail r2 pos (sym same) l2 in
      (
        s3,
        read_packet_data s s1 s2 s3 rest bytes len (second_u32-u32_bytes c len small) (sym same) e1
            e2 e3,
        r3,
        l3,
      )

  -- On a stream that begins with an encoded message, `readPacket` takes exactly that message's bytes.
  pub read_packet-wire :
      (s : S) (m : Message) (tail : List ℕ)
      → src.IsReady s
      → IsFramed m
      → src.remaining s ≡ wire m ++ tail
      → Yields (read_packet src) s (wire m) tail
  read_packet-wire s (open_message w x y) tail ready h left =
      plain-Yields s open_id 12 _ tail ready refl refl refl (omega arith) refl left
  read_packet-wire s (open_confirm c w x y) tail ready h left =
      plain-Yields s open_confirm_id 16 _ tail ready refl refl refl (omega arith) refl left
  read_packet-wire s (open_failure c) tail ready h left =
      plain-Yields s open_failure_id 4 _ tail ready refl refl refl (omega arith) refl left
  read_packet-wire s (window_adjust c n) tail ready h left =
      plain-Yields s window_adjust_id 8 _ tail ready refl refl refl (omega arith) refl left
  read_packet-wire s (data_message c len bytes) tail ready h left =
      data-Yields s c len bytes tail ready h left
  read_packet-wire s (eof_message c) tail ready h left =
      plain-Yields s eof_id 4 _ tail ready refl refl refl (omega arith) refl left
  read_packet-wire s (close_message c) tail ready h left =
      plain-Yields s close_id 4 _ tail ready refl refl refl (omega arith) refl left

  decode_packet-wire :
      (s s' : S) (m : Message)
      → IsValid m
      → read_packet src s ≡ (ok (some (wire m)), s')
      → decode src s ≡ (ok (some m), s')
  unfolding decode
  decode_packet-wire s s' m valid e = rw (e, decode_packet) (rw (unmarshal-wire m valid))

  -- Where a source starts with the encoding of a message that is framed, `decode` gives this message
  -- and leaves the source behind its last byte.
  pub decode-wire :
      (s : S) (m : Message) (tail : List ℕ)
      → src.IsReady s
      → IsFramed m
      → src.remaining s ≡ wire m ++ tail
      → Yields (decode src) s m tail
  decode-wire s m tail ready h left =
      let (s', e, ready', left') = read_packet-wire s m tail ready h left in
      (s', decode_packet-wire s s' m (IsFramed-IsValid m h) e, ready', left')

  decode_end-eq : (s s' : S) → src.read 1 s ≡ (none, s') → decode src s ≡ (ok none, s')
  unfolding decode read_packet
  decode_end-eq s s' e = rw (e, read_head)

  -- At the end of the stream the decoder gives `undefined`.
  pub decode_end : (s : S) → src.IsReady s → src.remaining s ≡ [] → (decode src s).0 ≡ ok none
  decode_end s ready left =
      let e : (src.read 1 s).0 ≡ none =
        src.read_short 1 s ready (omega arith) (omega (arith, ap length left)) in
      ap (λ (r : Decodes S Message). r.0)
        (decode_end-eq s (src.read 1 s).1 (λ i. (e i, (src.read 1 s).1)))
