-- ===== src/Rpc/Utf8/RoundTrip.antt =====
-- The decoder gives back a text whose surrogates are paired.
use qtalk.Base.{
  ℕ, ◌<◌, ◌≤◌, ◌≡◌, refl, ap, ◌∙◌, ◌⊎◌, inl, inr, Bool, true, false, List, [], ◌∷◌, ◌++◌, Option,
  none, some, arith, ltb, Bool-cases, All, All-append, length,
}
use qtalk.Bytes.{IsByte}
use qtalk.Rpc.Text.{Text}
use qtalk.Rpc.Utf8.{
  is_high, is_low, IsPaired, code_point, scalar, encode_from, encode_text, started, units_of,
  decode_from, decode_text, without_mark,
}

decode-scalar_one :
    (cp : ℕ) (bytes : List ℕ)
    → cp < 0x80
    → decode_from started (scalar cp ++ bytes) ≡ cp ∷ decode_from started bytes
unfolding decode_from scalar
decode-scalar_one cp bytes h = ground arith

decode-scalar_two :
    (cp : ℕ) (bytes : List ℕ)
    → 0x80 ≤ cp
    → cp < 0x800
    → decode_from started (scalar cp ++ bytes) ≡ cp ∷ decode_from started bytes
unfolding decode_from scalar
decode-scalar_two cp bytes l h = ground arith

decode-scalar_three :
    (cp : ℕ) (bytes : List ℕ)
    → 0x800 ≤ cp
    → cp < 0x10000
    → (cp < 0xD800) ⊎ (0xE000 ≤ cp)
    → decode_from started (scalar cp ++ bytes) ≡ cp ∷ decode_from started bytes
unfolding decode_from scalar
decode-scalar_three cp bytes l h s = ground arith

decode-scalar_four :
    (cp : ℕ) (bytes : List ℕ)
    → 0x10000 ≤ cp
    → cp < 0x110000
    → decode_from started (scalar cp ++ bytes) ≡ units_of cp ++ decode_from started bytes
unfolding decode_from scalar
decode-scalar_four cp bytes l h = ground arith

decode-scalar :
    (c : ℕ) (bytes : List ℕ)
    → c < 0x10000
    → is_high c ≡ false
    → is_low c ≡ false
    → decode_from started (scalar c ++ bytes) ≡ c ∷ decode_from started bytes
decode-scalar c bytes small not_high not_low = elim (Bool-cases (ltb c 0x80)) [
  | inl one ↦ decode-scalar_one c bytes (ground arith)
  | inr more ↦ elim (Bool-cases (ltb c 0x800)) [
    | inl two ↦ decode-scalar_two c bytes (ground arith) (ground arith)
    | inr three ↦
        decode-scalar_three c bytes (ground arith) small (elim (Bool-cases (ltb c 0xD800)) [
          | inl below ↦ inl (ground arith)
          | inr above ↦ inr (ground arith)
        ])
  ]
]

units_of-code_point :
    (high low : ℕ)
    → is_high high ≡ true
    → is_low low ≡ true
    → units_of (code_point high low) ≡ high ∷ low ∷ []
units_of-code_point high low h l = ground arith

decode-code_point :
    (high low : ℕ) (bytes : List ℕ)
    → is_high high ≡ true
    → is_low low ≡ true
    → decode_from started (scalar (code_point high low) ++ bytes)
      ≡ high ∷ low ∷ decode_from started bytes
decode-code_point high low bytes h l =
    decode-scalar_four (code_point high low) bytes (ground arith) (ground arith)
    ∙ ap (λ units. units ++ decode_from started bytes) (units_of-code_point high low h l)

abbrev waits : Option ℕ → Bool
waits none = false
waits (some high) = true

abbrev held : Option ℕ → Text
held none = []
held (some high) = high ∷ []

abbrev IsHeld : Option ℕ → Type 0
IsHeld none = Unit
IsHeld (some high) = is_high high ≡ true

decode_from-encode_from :
    (text : Text) (pending : Option ℕ)
    → IsPaired (waits pending) text
    → IsHeld pending
    → decode_from started (encode_from pending text) ≡ held pending ++ text
unfolding encode_from
decode_from-encode_from [] none paired ok = unfold decode_from in refl
decode_from-encode_from [] (some high) paired ok = cc
decode_from-encode_from (c ∷ text) none (small, low, paired) ok = elim (Bool-cases (is_high c)) [
  | inl high ↦ rw high (decode_from-encode_from text (some c) (rw high at paired) high)
  | inr other ↦
      rw (other, low)
        (decode-scalar c (encode_from none text) small other low
          ∙ ap (◌∷◌ c) (decode_from-encode_from text none (rw other at paired) tt))
]
decode_from-encode_from (c ∷ text) (some high) (small, low, paired) ok =
    let other : is_high c ≡ false = ground arith in
    rw low (
      decode-code_point high c (encode_from none text) ok low
      ∙ ap (λ t. high ∷ c ∷ t) (decode_from-encode_from text none (rw other at paired) tt))

-- What the encoder makes of a text with paired surrogates, which does not start with a byte order
-- mark, the decoder turns into that text.
pub decode_text-encode_text :
    (text : Text)
    → IsPaired false text
    → without_mark text ≡ text
    → decode_text (encode_text text) ≡ text
unfolding decode_text encode_text
decode_text-encode_text text paired unmarked =
    ap without_mark (decode_from-encode_from text none paired tt) ∙ unmarked

scalar_bytes : (cp : ℕ) → cp < 0x110000 → All IsByte (scalar cp)
unfolding scalar
scalar_bytes cp small = ground arith

encode_from_bytes :
    (text : Text) (pending : Option ℕ)
    → IsPaired (waits pending) text
    → IsHeld pending
    → All IsByte (encode_from pending text)
unfolding encode_from
encode_from_bytes [] none paired ok = tt
encode_from_bytes [] (some high) paired ok = cc
encode_from_bytes (c ∷ text) none (small, low, paired) ok = elim (Bool-cases (is_high c)) [
  | inl high ↦ rw high (encode_from_bytes text (some c) (rw high at paired) high)
  | inr other ↦
      rw (other, low)
        (All-append IsByte (scalar c) (encode_from none text) (scalar_bytes c (omega arith))
          (encode_from_bytes text none (rw other at paired) tt))
]
encode_from_bytes (c ∷ text) (some high) (small, low, paired) ok =
    let other : is_high c ≡ false = ground arith in
    rw low (
      All-append IsByte (scalar (code_point high c)) (encode_from none text)
        (scalar_bytes (code_point high c) (ground arith))
        (encode_from_bytes text none (rw other at paired) tt))

pub encode_text_bytes : (text : Text) → IsPaired false text → All IsByte (encode_text text)
unfolding encode_text
encode_text_bytes text paired = encode_from_bytes text none paired tt

pub encode_text_some : (c : ℕ) (text : Text) → c < 0x80 → 0 < length (encode_text (c ∷ text))
unfolding encode_text encode_from scalar
encode_text_some c text small = ground arith
