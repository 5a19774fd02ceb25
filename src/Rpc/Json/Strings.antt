-- ===== src/Rpc/Json/Strings.antt =====
-- What the automaton makes of a quoted text and of a number.
use qtalk.Base.{
  ℕ, ◌+◌, ◌*◌, ◌/◌, ◌%◌, ◌<◌, ◌≡◌, refl, ap, sym, ◌∙◌, inl, inr, Bool, true, false, ◌&&◌, List, [],
  ◌∷◌, ◌++◌, Option, none, some, All, append_assoc, append-nil, Bool-cases, arith, ltb, ◌||◌, ◌==◌,
}
use qtalk.Base.Throws.{◌>>=◌}
use qtalk.Rpc.Text.{Text}
use qtalk.Rpc.Utf8.{is_high}
use qtalk.Rpc.Json.{Numbers, Json, number, is_number_char, is_numeral}
use qtalk.Rpc.Json.Numerals.{AreNumberChars, is_numeral-AreNumberChars}
use qtalk.Rpc.Json.Print.{
  hex_digit, hex, starts_low, is_lone, short_escape, escape, unit_text, quoted,
}
use qtalk.Rpc.Json.Parse.{
  Frame, in_array, in_object, at_key, in_text, in_unicode, in_number, hex_value, unescaped,
  complete, end_text, step_next, step, value_of, run,
}

-- The units of a text
abbrev pub AreUnits : Text → Type 0
AreUnits text = All (λ c. c < 0x10000) text

hex_value-hex_digit : (n : ℕ) → n < 16 → hex_value (hex_digit n) ≡ some n
hex_value-hex_digit n small = ground arith

short_escape-ne-u : (c d : ℕ) → short_escape c ≡ some d → (d == b'u') ≡ false
short_escape-ne-u c d found = ground arith

unescaped-short_escape : (c d : ℕ) → short_escape c ≡ some d → unescaped d ≡ some c
unescaped-short_escape c d found = ground arith

-- No number goes on here.
abbrev pub IsEnd : Text → Type 0
IsEnd [] = Unit
IsEnd (c ∷ rest) = is_number_char c ≡ false

module _ {N : Type 0} (numbers : Numbers N) where
  run-hex :
      (c : ℕ) (acc rest : Text) (stack : List (Frame N))
      → c < 0x10000
      → run numbers (hex c ++ rest) (in_unicode acc 3 0, stack)
        ≡ run numbers rest (in_text (acc ++ c ∷ []), stack)
  unfolding run step
  run-hex c acc rest stack small =
      let value : ((((0 * 16 + c / 0x1000) * 16 + c / 0x100 % 16) * 16 + c / 16 % 16) * 16 + c % 16)
          ≡ c =
        omega arith in
      rw (
        hex_value-hex_digit (c / 0x1000) (omega arith),
        hex_value-hex_digit (c / 0x100 % 16) (omega arith),
        hex_value-hex_digit (c / 16 % 16) (omega arith),
        hex_value-hex_digit (c % 16) (omega arith),
        value,
      )

  run-escape :
      (e : Option ℕ) (lone : Bool) (c : ℕ) (acc rest : Text) (stack : List (Frame N))
      → short_escape c ≡ e
      → c < 0x10000
      → run numbers (escape e lone c ++ rest) (in_text acc, stack)
        ≡ run numbers rest (in_text (acc ++ c ∷ []), stack)
  unfolding run step
  run-escape (some d) lone c acc rest stack found small =
      rw (short_escape-ne-u c d found, unescaped-short_escape c d found)
  run-escape none lone c acc rest stack plain small = elim (Bool-cases (ltb c 32 || lone)) [
    | inl hard ↦ rw hard (run-hex c acc rest stack small)
    | inr soft ↦ rw soft (ground arith)
  ]

  -- The text goes on, up to its closing quote.
  pub run-quoted :
      (t : Text) (after : Bool) (acc rest : Text) (stack : List (Frame N))
      → AreUnits t
      → run numbers (quoted after t ++ rest) (in_text acc, stack)
        ≡ (end_text (acc ++ t) stack >>= run numbers rest)
  unfolding quoted
  run-quoted [] after acc rest stack small = rw append-nil (unfold run step in refl)
  run-quoted (c ∷ t) after acc rest stack small =
      let later = is_high c && starts_low t in
      let lone = is_lone after c t in
      ap (λ u. run numbers u (in_text acc, stack))
        (append_assoc (unit_text lone c) (quoted later t) rest)
      ∙ run-escape (short_escape c) lone c acc (quoted later t ++ rest) stack refl small.0
      ∙ run-quoted t later (acc ++ c ∷ []) rest stack small.1
      ∙ ap (λ u. end_text u stack >>= run numbers rest) (append_assoc acc (c ∷ []) t)

  -- The digits of a number, up to its end.
  run-AreNumberChars :
      (t acc rest : Text) (stack : List (Frame N))
      → AreNumberChars t
      → run numbers (t ++ rest) (in_number acc, stack)
        ≡ run numbers rest (in_number (acc ++ t), stack)
  unfolding run step
  run-AreNumberChars [] acc rest stack chars = rw append-nil
  run-AreNumberChars (c ∷ t) acc rest stack chars = rw (chars.0) (
      run-AreNumberChars t (acc ++ c ∷ []) rest stack chars.1
      ∙ ap (λ u. run numbers rest (in_number u, stack)) (append_assoc acc (c ∷ []) t))

  step-complete :
      (v : Json N) (stack : List (Frame N)) (c : ℕ) (rest : Text)
      → ((complete v stack >>= step_next c) >>= run numbers rest)
        ≡ (complete v stack >>= run numbers (c ∷ rest))
  unfolding complete run step
  step-complete v [] c rest = refl
  step-complete v (in_array items ∷ stack) c rest = refl
  step-complete v (in_object entries ∷ stack) c rest = refl
  step-complete v (at_key entries k ∷ stack) c rest = refl

  finish-complete :
      (v : Json N) (stack : List (Frame N))
      → (complete v stack >>= value_of) ≡ (complete v stack >>= run numbers [])
  unfolding complete run
  finish-complete v [] = refl
  finish-complete v (in_array items ∷ stack) = refl
  finish-complete v (in_object entries ∷ stack) = refl
  finish-complete v (at_key entries k ∷ stack) = refl

  run-in_number :
      (t rest : Text) (stack : List (Frame N))
      → is_numeral t ≡ true
      → IsEnd rest
      → run numbers rest (in_number t, stack)
        ≡ (complete (number (numbers.read t)) stack >>= run numbers rest)
  run-in_number t [] stack numeral end =
      unfold run in rw numeral (finish-complete (number (numbers.read t)) stack)
  run-in_number t (c ∷ rest) stack numeral end =
      unfold run step in rw (end, numeral) (step-complete (number (numbers.read t)) stack c rest)

  pub run-print :
      (n : N) (rest : Text) (stack : List (Frame N)) (c : ℕ) (t : Text)
      → numbers.print n ≡ c ∷ t
      → IsEnd rest
      → run numbers (t ++ rest) (in_number (c ∷ []), stack)
        ≡ (complete (number n) stack >>= run numbers rest)
  run-print n rest stack c t printed end =
      let numeral = rw printed at (numbers.print-numeral n) in
      let chars = is_numeral-AreNumberChars (c ∷ t) numeral in
      run-AreNumberChars t (c ∷ []) rest stack chars.1
      ∙ run-in_number (c ∷ t) rest stack numeral end
      ∙ ap (λ m. complete (number m) stack >>= run numbers rest)
          (ap numbers.read (sym printed) ∙ numbers.read-print n)
