-- ===== src/Rpc/Json/Paired.antt =====
-- The text of a value has no lone surrogate, so that the text encoder leaves it as it is.
use qtalk.Base.{
  ℕ, ◌<◌, ◌≤◌, ◌/◌, ◌%◌, ◌≡◌, refl, ◌⊎◌, inl, inr, Bool, true, false, ◌&&◌, ◌||◌, List, [], ◌∷◌,
  ◌++◌, Option, none, some, All, append_assoc, Bool-cases, arith, ltb,
}
use qtalk.Rpc.Text.{Text, units}
use qtalk.Rpc.Utf8.{is_high, is_low, IsPaired}
use qtalk.Rpc.Json.{
  Numbers, Json, Items, Fields, null, bool, number, string, array, object, no_items, item,
  no_fields, field,
}
use qtalk.Rpc.Json.Numerals.{AreNumberChars, is_numeral-AreNumberChars, is_numeral_start}
use qtalk.Rpc.Json.Print.{
  hex_digit, hex, starts_low, is_lone, short_escape, escape, unit_text, quoted, quote, comma, word,
  stringify, stringify_items, stringify_fields,
}
use qtalk.Rpc.Json.Strings.{AreUnits}
use qtalk.Rpc.Json.Proper.{IsProper, AreProper, AreOrdered, append_twice, append_entry}

abbrev ArePlain : Text → Type 0
ArePlain t = All (λ u. (u < 0x10000) × (is_low u ≡ false) × (is_high u ≡ false)) t

IsPaired-append : (t rest : Text) → ArePlain t → IsPaired false rest → IsPaired false (t ++ rest)
IsPaired-append [] rest plain paired = paired
IsPaired-append (u ∷ t) rest ((small, low, high), plain) paired =
    (small, low, rw high (IsPaired-append t rest plain paired))

AreNumberChars-ArePlain : (t : Text) → AreNumberChars t → ArePlain t
AreNumberChars-ArePlain [] chars = tt
AreNumberChars-ArePlain (c ∷ t) chars =
    ((ground arith, ground arith, ground arith), AreNumberChars-ArePlain t chars.1)

hex_digit-lt : (n : ℕ) → n < 16 → hex_digit n < 0x80
hex_digit-lt n small = ground arith

hex-ArePlain : (c : ℕ) → c < 0x10000 → ArePlain (hex c)
hex-ArePlain c small =
    let a = hex_digit-lt (c / 0x1000) (omega arith) in
    let b = hex_digit-lt (c / 0x100 % 16) (omega arith) in
    let d = hex_digit-lt (c / 16 % 16) (omega arith) in
    let e = hex_digit-lt (c % 16) (omega arith) in ground arith

escape-ArePlain :
    (c : ℕ) (lone : Bool) (e : Option ℕ)
    → short_escape c ≡ e
    → c < 0x10000
    → ((is_high c ≡ false) × (is_low c ≡ false)) ⊎ (lone ≡ true)
    → ArePlain (escape e lone c)
escape-ArePlain c lone (some d) found small safe = ground arith
escape-ArePlain c lone none found small safe = elim (Bool-cases (ltb c 32 || lone)) [
  | inl hard ↦
      rw hard ((omega arith, refl, refl), ((omega arith, refl, refl), hex-ArePlain c small))
  | inr soft ↦ ground arith
]

-- A high surrogate with its low one behind it, or a low one behind its high one, is left as it is.
raw_unit :
    (c : ℕ) (after : Bool) (u rest : Text)
    → 0xD800 ≤ c
    → c < 0x10000
    → is_low c ≡ after
    → IsPaired (is_high c) (u ++ rest)
    → IsPaired after ((unit_text false c ++ u) ++ rest)
raw_unit c after u rest large small low paired =
    let raw : unit_text false c ≡ c ∷ [] = ground arith in rw raw (small, low, paired)

lone_or_plain :
    (c : ℕ) (t : Text)
    → (is_high c && starts_low t) ≡ false
    → ((is_high c ≡ false) × (is_low c ≡ false)) ⊎ (is_lone false c t ≡ true)
lone_or_plain c t alone = elim (Bool-cases (is_high c || is_low c)) [
  | inl one ↦ inr (ground arith)
  | inr plain ↦ inl (ground arith)
]

quoted-IsPaired :
    (t : Text) (after : Bool) (rest : Text)
    → AreUnits t
    → (after ≡ false) ⊎ (starts_low t ≡ true)
    → IsPaired false rest
    → IsPaired after (quoted after t ++ rest)
unfolding quoted
quoted-IsPaired [] false rest small begins paired = (omega arith, refl, paired)
quoted-IsPaired [] true rest small begins paired = ground arith
quoted-IsPaired (c ∷ t) true rest small begins paired =
    let low : is_low c ≡ true = ground arith in
    let high : is_high c ≡ false = ground arith in
    rw (high, low)
      (raw_unit c true (quoted false t) rest (ground arith) small.0 low
        (rw high (quoted-IsPaired t false rest small.1 (inl refl) paired)))
quoted-IsPaired (c ∷ t) false rest small begins paired =
    elim (Bool-cases (is_high c && starts_low t)) [
      | inl pair ↦
          let high : is_high c ≡ true = ground arith in
          let low : is_low c ≡ false = ground arith in
          let next : starts_low t ≡ true = ground arith in
          rw (high, next, low)
            (raw_unit c false (quoted true t) rest (ground arith) small.0 low
              (rw high (quoted-IsPaired t true rest small.1 (inr next) paired)))
      | inr alone ↦
          rw (alone, append_assoc (unit_text (is_lone false c t) c) (quoted false t) rest)
            (IsPaired-append (unit_text (is_lone false c t) c) (quoted false t ++ rest)
              (escape-ArePlain c (is_lone false c t) (short_escape c) refl small.0
                (lone_or_plain c t alone))
              (quoted-IsPaired t false rest small.1 (inl refl) paired))
    ]

word-ArePlain : (b : Bool) → ArePlain (word b)
word-ArePlain true = ground arith
word-ArePlain false = ground arith

comma-ArePlain : (first : Bool) → ArePlain (comma first)
comma-ArePlain true = tt
comma-ArePlain false = ground arith

cons-IsPaired : (c : ℕ) (text : Text) → c < 0x80 → IsPaired false text → IsPaired false (c ∷ text)
cons-IsPaired c text small paired =
    let high : is_high c ≡ false = ground arith in (omega arith, ground arith, rw high paired)

module _ {N : Type 0} (numbers : Numbers N) where
  mutual
    unfolding stringify IsProper

    pub stringify-IsPaired :
        (v : Json N) (rest : Text)
        → IsProper v
        → IsPaired false rest
        → IsPaired false (stringify numbers v ++ rest)
    stringify-IsPaired null rest proper paired =
        IsPaired-append (units "null") rest (ground arith) paired
    stringify-IsPaired (bool b) rest proper paired =
        IsPaired-append (word b) rest (word-ArePlain b) paired
    stringify-IsPaired (number n) rest proper paired =
        IsPaired-append (numbers.print n) rest
          (AreNumberChars-ArePlain (numbers.print n)
            (is_numeral-AreNumberChars (numbers.print n) (numbers.print-numeral n)))
          paired
    stringify-IsPaired (string text) rest proper paired =
        cons-IsPaired b'"' (quoted false text ++ rest) (omega arith)
          (quoted-IsPaired text false rest proper (inl refl) paired)
    stringify-IsPaired (array items) rest proper paired =
        cons-IsPaired b'[' (stringify_items numbers true items ++ rest) (omega arith)
          (stringify_items-IsPaired items true rest proper paired)
    stringify-IsPaired (object fs) rest proper paired =
        cons-IsPaired b'{' (stringify_fields numbers true fs ++ rest) (omega arith)
          (stringify_fields-IsPaired fs true [] rest proper paired)

    stringify_items-IsPaired :
        (items : Items N) (first : Bool) (rest : Text)
        → AreProper items
        → IsPaired false rest
        → IsPaired false (stringify_items numbers first items ++ rest)
    stringify_items-IsPaired no_items first rest proper paired =
        cons-IsPaired b']' rest (omega arith) paired
    stringify_items-IsPaired (item v items) first rest proper paired =
        let later = stringify_items numbers false items in
        rw (append_twice (comma first) (stringify numbers v) later rest) (
          IsPaired-append (comma first) (stringify numbers v ++ (later ++ rest))
            (comma-ArePlain first)
            (stringify-IsPaired v (later ++ rest) proper.0
              (stringify_items-IsPaired items false rest proper.1 paired)))

    stringify_fields-IsPaired :
        (fs : Fields N) (first : Bool) (before : List (Text × Json N)) (rest : Text)
        → AreOrdered before fs
        → IsPaired false rest
        → IsPaired false (stringify_fields numbers first fs ++ rest)
    stringify_fields-IsPaired no_fields first before rest proper paired =
        cons-IsPaired b'}' rest (omega arith) paired
    stringify_fields-IsPaired (field k v fs) first before rest proper paired =
        let later = stringify_fields numbers false fs in
        rw (append_entry (comma first) (quoted false k) (stringify numbers v) later rest) (
          IsPaired-append (comma first) (quote k ++ b':' ∷ (stringify numbers v ++ (later ++ rest)))
            (comma-ArePlain first)
            (cons-IsPaired b'"' (quoted false k ++ b':' ∷ (stringify numbers v ++ (later ++ rest)))
              (omega arith)
              (quoted-IsPaired k false (b':' ∷ (stringify numbers v ++ (later ++ rest))) proper.0
                (inl refl)
                (cons-IsPaired b':' (stringify numbers v ++ (later ++ rest)) (omega arith) (
                  stringify-IsPaired v (later ++ rest) proper.2 (
                    stringify_fields-IsPaired fs false (before ++ (k, v) ∷ []) rest proper.3
                      paired))))))

  -- The text starts with a unit of ASCII.
  pub stringify_start :
      (v : Json N) → (c : ℕ) × (text : Text) × (stringify numbers v ≡ c ∷ text) × (c < 0x80)
  unfolding stringify
  stringify_start null = (_, _, refl, omega arith)
  stringify_start (bool true) = (_, _, refl, omega arith)
  stringify_start (bool false) = (_, _, refl, omega arith)
  stringify_start (number n) =
      let (c, t, printed, start) = is_numeral_start (numbers.print n) (numbers.print-numeral n) in
      (c, t, printed, ground arith)
  stringify_start (string text) = (_, _, refl, omega arith)
  stringify_start (array items) = (_, _, refl, omega arith)
  stringify_start (object fs) = (_, _, refl, omega arith)
