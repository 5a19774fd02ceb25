-- ===== src/Rpc/Json/Parse.antt =====
-- `JSON.parse(text)` as an automaton with a stack, one step for each code unit.
use qtalk.Base.{
  ℕ, suc, zero, ◌+◌, ◌-◌, ◌*◌, Bool, true, false, ◌&&◌, ◌||◌, List, [], ◌∷◌, ◌++◌, Option, none,
  some, ltb, leb, ◌==◌, if◌then◌else◌,
}
use qtalk.Base.Throws.{Result, ok, err, syntax_error, ◌>>=◌}
use qtalk.Rpc.Text.{Text, units}
use qtalk.Rpc.Mux.{has_key, replace, add_key, array_index}
use qtalk.Rpc.Json.{
  Numbers, Json, null, bool, number, string, array, object, items_of, fields_of, is_number_start,
  is_number_char, is_numeral, is_digit,
}

-- An array or an object that is being read, with what it has so far; in front of a value, an object has
-- the key too.
pub data Frame (N : Type 0) : Type 0 where
  in_array : List (Json N) → Frame N
  in_object : List (Text × Json N) → Frame N
  at_key : List (Text × Json N) → Text → Frame N

-- What comes next: a value, the first item or key or the end, a key, a colon, what follows an item or an
-- entry, nothing, the rest of a word, of a number, or of a quoted text with its escapes.
pub data Mode (N : Type 0) : Type 0 where
  value first_item first_key key colon next_item next_entry : Mode N
  done : Json N → Mode N
  in_word : Text → Json N → Mode N
  in_number : Text → Mode N
  in_text : Text → Mode N
  in_escape : Text → Mode N
  in_unicode : Text → ℕ → ℕ → Mode N

abbrev pub State : Type 0 → Type 0
State N = Mode N × List (Frame N)

-- A property of an object: its own keys that are array indices come first, in ascending order.
abbrev pub put : {N : Type 0} → Text → Json N → List (Text × Json N) → List (Text × Json N)
put k v es = if has_key k es then replace k v es else add_key (array_index k) (k, v) es

abbrev pub is_space : ℕ → Bool
is_space c = c == b' ' || (c == 9 || (c == 10 || c == 13))

abbrev pub hex_value : ℕ → Option ℕ
hex_value c =
    if is_digit c
    then some (c - b'0')
    else if leb b'a' c && leb c b'f'
    then some (c - 87)
    else if leb b'A' c && leb c b'F'
    then some (c - 55)
    else none

abbrev pub unescaped : ℕ → Option ℕ
unescaped c =
    if c == b'"' || (c == b'\\' || c == b'/')
    then some c
    else if c == b'b'
    then some 8
    else if c == b'f'
    then some 12
    else if c == b'n'
    then some 10
    else if c == b'r'
    then some 13
    else if c == b't'
    then some 9
    else none

module _ {N : Type 0} where
  abbrev pub fail : Result (State N)
  fail = err syntax_error

  -- A value is complete.
  unfoldable pub complete : Json N → List (Frame N) → Result (State N)
  complete v [] = ok (done v, [])
  complete v (in_array items ∷ stack) = ok (next_item, in_array (items ++ v ∷ []) ∷ stack)
  complete v (in_object entries ∷ stack) = fail
  complete v (at_key entries k ∷ stack) = ok (next_entry, in_object (put k v entries) ∷ stack)

  unfoldable pub end_array : List (Frame N) → Result (State N)
  unfolding complete
  end_array (in_array items ∷ stack) = complete (array (items_of items)) stack
  end_array _ = fail

  unfoldable pub end_object : List (Frame N) → Result (State N)
  unfolding complete
  end_object (in_object entries ∷ stack) = complete (object (fields_of entries)) stack
  end_object _ = fail

  -- The quote at the end of a text: of a key, in front of a colon, or of a value
  unfoldable pub end_text : Text → List (Frame N) → Result (State N)
  unfolding complete
  end_text text (in_object entries ∷ stack) = ok (colon, at_key entries text ∷ stack)
  end_text text stack = complete (string text) stack

  abbrev pub start_value : ℕ → List (Frame N) → Result (State N)
  start_value c stack =
      if is_space c
      then ok (value, stack)
      else if c == b'"'
      then ok (in_text [], stack)
      else if c == b'{'
      then ok (first_key, in_object [] ∷ stack)
      else if c == b'['
      then ok (first_item, in_array [] ∷ stack)
      else if c == b't'
      then ok (in_word (units "rue") (bool true), stack)
      else if c == b'f'
      then ok (in_word (units "alse") (bool false), stack)
      else if c == b'n'
      then ok (in_word (units "ull") null, stack)
      else if is_number_start c
      then ok (in_number (c ∷ []), stack)
      else fail

  abbrev pub start_key : ℕ → List (Frame N) → Result (State N)
  start_key c stack =
      if is_space c then ok (key, stack) else if c == b'"' then ok (in_text [], stack) else fail

  -- What may follow a value
  abbrev pub step_next : ℕ → State N → Result (State N)
  step_next c (next_item, stack) =
      if is_space c
      then ok (next_item, stack)
      else if c == b','
      then ok (value, stack)
      else if c == b']'
      then end_array stack
      else fail
  step_next c (next_entry, stack) =
      if is_space c
      then ok (next_entry, stack)
      else if c == b','
      then ok (key, stack)
      else if c == b'}'
      then end_object stack
      else fail
  step_next c (done v, stack) = if is_space c then ok (done v, stack) else fail
  step_next c (mode, stack) = fail

  abbrev pub escape_with : Text → List (Frame N) → Option ℕ → Result (State N)
  escape_with text stack none = fail
  escape_with text stack (some c) = ok (in_text (text ++ c ∷ []), stack)

  abbrev pub unicode_with : Text → ℕ → ℕ → List (Frame N) → Option ℕ → Result (State N)
  unicode_with text n code stack none = fail
  unicode_with text zero code stack (some d) = ok (in_text (text ++ (code * 16 + d) ∷ []), stack)
  unicode_with text (suc n) code stack (some d) = ok (in_unicode text n (code * 16 + d), stack)

  unfoldable pub step_word : ℕ → Text → Json N → List (Frame N) → Result (State N)
  unfolding complete
  step_word c [] v stack = fail
  step_word c (d ∷ []) v stack = if c == d then complete v stack else fail
  step_word c (d ∷ e ∷ ds) v stack = if c == d then ok (in_word (e ∷ ds) v, stack) else fail

  abbrev pub value_of : State N → Result (Json N)
  value_of (done v, stack) = ok v
  value_of _ = err syntax_error

module _ {N : Type 0} (numbers : Numbers N) where
  unfoldable pub end_number : Text → List (Frame N) → Result (State N)
  unfolding complete is_numeral
  end_number text stack =
      if is_numeral text then complete (number (numbers.read text)) stack else fail

  unfoldable pub step : ℕ → State N → Result (State N)
  unfolding end_number end_array end_object end_text step_word
  step c (value, stack) = start_value c stack
  step c (first_item, stack) =
      if is_space c
      then ok (first_item, stack)
      else if c == b']'
      then end_array stack
      else start_value c stack
  step c (first_key, stack) =
      if is_space c
      then ok (first_key, stack)
      else if c == b'}'
      then end_object stack
      else start_key c stack
  step c (key, stack) = start_key c stack
  step c (colon, stack) =
      if is_space c then ok (colon, stack) else if c == b':' then ok (value, stack) else fail
  step c (in_word text v, stack) = step_word c text v stack
  step c (in_number text, stack) =
      if is_number_char c
      then ok (in_number (text ++ c ∷ []), stack)
      else end_number text stack >>= step_next c
  step c (in_text text, stack) =
      if c == b'"'
      then end_text text stack
      else if c == b'\\'
      then ok (in_escape text, stack)
      else if ltb c 32
      then fail
      else ok (in_text (text ++ c ∷ []), stack)
  step c (in_escape text, stack) =
      if c == b'u' then ok (in_unicode text 3 0, stack) else escape_with text stack (unescaped c)
  step c (in_unicode text n code, stack) = unicode_with text n code stack (hex_value c)
  step c (next_item, stack) = step_next c (next_item, stack)
  step c (next_entry, stack) = step_next c (next_entry, stack)
  step c (done v, stack) = step_next c (done v, stack)

  -- The end of the text
  abbrev pub finish : State N → Result (Json N)
  unfolding end_number
  finish (in_number text, stack) = end_number text stack >>= value_of
  finish state = value_of state

  unfoldable pub run : Text → State N → Result (Json N)
  unfolding step finish
  run [] state = finish state
  run (c ∷ text) state = step c state >>= run text

  -- `JSON.parse`
  unfoldable pub parse : Text → Result (Json N)
  unfolding run
  parse text = run text (value, [])
