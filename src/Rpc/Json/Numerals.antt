-- ===== src/Rpc/Json/Numerals.antt =====
-- Which units a number is made of.
use qtalk.Base.{ℕ, ◌≡◌, refl, true, [], ◌∷◌, All, arith}
use qtalk.Rpc.Text.{Text}
use qtalk.Rpc.Json.{
  is_number_char, is_number_start, exponent_digits, exponent_first, exponent, fraction_digits,
  fraction, after_digits, digits, unsigned, is_numeral,
}

-- The units that a number is made of
abbrev pub AreNumberChars : Text → Type 0
AreNumberChars text = All (λ c. is_number_char c ≡ true) text

exponent_digits-AreNumberChars : (t : Text) → exponent_digits t ≡ true → AreNumberChars t
unfolding exponent_digits
exponent_digits-AreNumberChars [] h = tt
exponent_digits-AreNumberChars (c ∷ t) h = ground (arith, exponent_digits-AreNumberChars t)

exponent_first-AreNumberChars : (t : Text) → exponent_first t ≡ true → AreNumberChars t
unfolding exponent_first
exponent_first-AreNumberChars [] h = tt
exponent_first-AreNumberChars (c ∷ t) h = ground (arith, exponent_digits-AreNumberChars t)

exponent-AreNumberChars : (t : Text) → exponent t ≡ true → AreNumberChars t
unfolding exponent
exponent-AreNumberChars [] h = tt
exponent-AreNumberChars (c ∷ t) h =
    ground (arith, exponent_digits-AreNumberChars t, exponent_first-AreNumberChars t)

fraction_digits-AreNumberChars : (t : Text) → fraction_digits t ≡ true → AreNumberChars t
unfolding fraction_digits
fraction_digits-AreNumberChars [] h = tt
fraction_digits-AreNumberChars (c ∷ t) h =
    ground (arith, exponent-AreNumberChars t, fraction_digits-AreNumberChars t)

fraction-AreNumberChars : (t : Text) → fraction t ≡ true → AreNumberChars t
unfolding fraction
fraction-AreNumberChars [] h = tt
fraction-AreNumberChars (c ∷ t) h = ground (arith, fraction_digits-AreNumberChars t)

after_digits-AreNumberChars : (t : Text) → after_digits t ≡ true → AreNumberChars t
unfolding after_digits
after_digits-AreNumberChars [] h = tt
after_digits-AreNumberChars (c ∷ t) h =
    ground (arith, fraction-AreNumberChars t, exponent-AreNumberChars t)

digits-AreNumberChars : (t : Text) → digits t ≡ true → AreNumberChars t
unfolding digits
digits-AreNumberChars [] h = tt
digits-AreNumberChars (c ∷ t) h =
    ground (arith, digits-AreNumberChars t, after_digits-AreNumberChars (c ∷ t))

unsigned-AreNumberChars : (t : Text) → unsigned t ≡ true → AreNumberChars t
unfolding unsigned
unsigned-AreNumberChars [] h = tt
unsigned-AreNumberChars (c ∷ t) h =
    ground (arith, digits-AreNumberChars t, after_digits-AreNumberChars t)

pub is_numeral-AreNumberChars : (t : Text) → is_numeral t ≡ true → AreNumberChars t
unfolding is_numeral
is_numeral-AreNumberChars [] h = tt
is_numeral-AreNumberChars (c ∷ t) h =
    ground (arith, unsigned-AreNumberChars t, unsigned-AreNumberChars (c ∷ t))

-- A number starts with a digit or a minus sign.
pub is_numeral_start :
    (t : Text)
    → is_numeral t ≡ true
    → (c : ℕ) × (rest : Text) × (t ≡ c ∷ rest) × (is_number_start c ≡ true)
unfolding is_numeral unsigned
is_numeral_start [] h = cc
is_numeral_start (c ∷ t) h = (c, t, refl, ground arith)
