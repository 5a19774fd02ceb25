-- ===== src/Codec/Decoder/Progress.antt =====
-- The decoder on any stream, well formed or not: each message that it gives has used up bytes.
use qtalk.Base.{
  ℕ, zero, suc, ◌+◌, ◌≤◌, ◌≡◌, ap, ◌⊎◌, inl, inr, Bool, ◌||◌, List, [], ◌∷◌, Option, none, some,
  length, arith, length-append, length-drop, dec_lt, ltb, ◌==◌, if◌then◌else◌, true, false,
}
use qtalk.Base.Throws.{Result, ok, err, bad_packet, ◌>>=◌}
use qtalk.Bytes.{get_uint32}
use qtalk.Util.Concat.{concat}
use qtalk.Conn.{Source}
use qtalk.Codec.{open_id, close_id, data_id}
use qtalk.Codec.Unmarshal.{unmarshal}
use qtalk.Codec.Decoder.{
  payload_sizes, lookup, Decodes, join_data, read_data, read_body, read_sized, read_head,
  read_packet, decode_packet, decode,
}

module _ {S : Type 0} (src : Source S) where
  -- The connection is ready, and has no more bytes left than that.
  abbrev pub Has : ℕ → S → Type 0
  Has b s = src.IsReady s × (length (src.remaining s) ≤ b)

  abbrev Gave : ℕ → Option (List ℕ) × S → Type 0
  Gave b (none, s) = Unit {0}
  Gave b (some bytes, s) = Has b s

  Gave-of : (b : ℕ) (r : Option (List ℕ) × S) → (r.0 ≡ none) ⊎ Has b r.1 → Gave b r
  Gave-of b (none, s) h = tt
  Gave-of b (some bytes, s) (inl e) = cc
  Gave-of b (some bytes, s) (inr h) = h

  read-Gave : (b n : ℕ) (s : S) → Has b s → Gave b (src.read n s)
  read-Gave b zero s (ready, left) =
      let (front, e, ready', rest) = src.read_zero s ready in
      Gave-of b (src.read 0 s) (
        inr (
          ready',
          omega (arith, ap length rest, length-append front (src.remaining (src.read 0 s).1)),
        ))
  read-Gave b (suc n) s (ready, left) = elim (dec_lt (length (src.remaining s)) (suc n)) [
    | yes short ↦
        Gave-of b (src.read (suc n) s) (inl (src.read_short (suc n) s ready (omega arith) short))
    | no enough ↦
        let (e, ready', rest) = src.read_enough (suc n) s ready (omega arith) (omega arith) in
        Gave-of b (src.read (suc n) s)
          (inr (ready', omega (arith, ap length rest, length-drop (suc n) (src.remaining s))))
  ]

  -- A result that a caller goes on from leaves the connection ready.
  abbrev pub Went {ℓ} : {A : Type ℓ} → ℕ → Decodes S A → Type 0
  Went b (err e, s) = Unit {0}
  Went b (ok none, s) = Unit {0}
  Went b (ok (some v), s) = Has b s

  Went-of : {A : Type 0} (b : ℕ) (r : Result (Option A)) (s : S) → Has b s → Went b (r, s)
  Went-of b (err e) s h = tt
  Went-of b (ok none) s h = tt
  Went-of b (ok (some v)) s h = h

  Went-if :
      {A : Type 0} (b : ℕ) (test : Bool) (x y : Decodes S A)
      → Went b x
      → Went b y
      → Went b (if test then x else y)
  Went-if b false x y hx hy = hy
  Went-if b true x y hx hy = hx

  join_data-Went :
      (b : ℕ) (head rest : List ℕ) (size : ℕ) (r : Option (List ℕ) × S)
      → Gave b r
      → Went b (join_data src head rest size r)
  unfolding join_data
  join_data-Went b head rest size (none, s) h = tt
  join_data-Went b head rest size (some bytes, s) h =
      Went-of b
        (concat (head ∷ rest ∷ bytes ∷ []) (size + length rest + 1) >>= λ packet. ok (some packet))
        s h

  read_data-Went :
      (b : ℕ) (head rest : List ℕ) (size : Result ℕ) (s : S)
      → Has b s
      → Went b (read_data src head rest size s)
  unfolding read_data
  read_data-Went b head rest (err e) s h = tt
  read_data-Went b head rest (ok size) s h =
      join_data-Went b head rest size (src.read size s) (read-Gave b size s h)

  read_body-Went :
      (b : ℕ) (head : List ℕ) (id : ℕ) (r : Option (List ℕ) × S)
      → Gave b r
      → Went b (read_body src head id r)
  unfolding read_body
  read_body-Went b head id (none, s) h = tt
  read_body-Went b head id (some rest, s) h =
      Went-if b (id == data_id) (read_data src head rest (get_uint32 rest 4) s)
        (concat (head ∷ rest ∷ []) (length rest + 1) >>= λ packet. ok (some packet), s)
        (read_data-Went b head rest (get_uint32 rest 4) s h)
        (Went-of b (concat (head ∷ rest ∷ []) (length rest + 1) >>= λ packet. ok (some packet)) s h)

  read_sized-Went :
      (b : ℕ) (head : List ℕ) (id : ℕ) (size : Option ℕ) (s : S)
      → Has b s
      → Went b (read_sized src head id size s)
  unfolding read_sized
  read_sized-Went b head id none s h = tt
  read_sized-Went b head id (some size) s h =
      Went-if b (ltb id open_id || ltb close_id id) (err (bad_packet (some id)), s)
        (read_body src head id (src.read size s)) tt
        (read_body-Went b head id (src.read size s) (read-Gave b size s h))

  read_head-Went : (b : ℕ) (r : Option (List ℕ) × S) → Gave b r → Went b (read_head src r)
  unfolding read_head
  read_head-Went b (none, s) h = tt
  read_head-Went b (some [], s) h = tt
  read_head-Went b (some (id ∷ more), s) h =
      read_sized-Went b (id ∷ more) id (lookup id payload_sizes) s h

  -- The first read takes a byte, where one is left.
  read_first-Gave : (b : ℕ) (s : S) → Has (suc b) s → Gave b (src.read 1 s)
  read_first-Gave b s (ready, left) = elim (dec_lt (length (src.remaining s)) 1) [
    | yes short ↦ Gave-of b (src.read 1 s) (inl (src.read_short 1 s ready (omega arith) short))
    | no enough ↦
        let (e, ready', rest) = src.read_enough 1 s ready (omega arith) (omega arith) in
        Gave-of b (src.read 1 s)
          (inr (ready', omega (arith, ap length rest, length-drop 1 (src.remaining s))))
  ]

  read_packet-Went : (b : ℕ) (s : S) → Has (suc b) s → Went b (read_packet src s)
  unfolding read_packet
  read_packet-Went b s h = read_head-Went b (src.read 1 s) (read_first-Gave b s h)

  decode_packet-Went : (b : ℕ) (r : Decodes S (List ℕ)) → Went b r → Went b (decode_packet src r)
  unfolding decode_packet
  decode_packet-Went b (err e, s) h = tt
  decode_packet-Went b (ok none, s) h = tt
  decode_packet-Went b (ok (some packet), s) h =
      Went-of b (unmarshal packet >>= λ message. ok (some message)) s h

  -- Whatever the bytes are, a message that is decoded leaves fewer of them.
  pub decode-Went : (b : ℕ) (s : S) → Has (suc b) s → Went b (decode src s)
  unfolding decode
  decode-Went b s h = decode_packet-Went b (read_packet src s) (read_packet-Went b s h)
