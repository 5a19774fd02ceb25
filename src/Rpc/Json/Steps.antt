-- ===== src/Rpc/Json/Steps.antt =====
-- The steps of the automaton over the text of a value.
use qtalk.Base.{ℕ, ◌≡◌, refl, sym, ◌∙◌, Bool, true, false, List, [], ◌∷◌, ◌++◌, arith}
use qtalk.Base.Throws.{◌>>=◌}
use qtalk.Rpc.Text.{Text, units}
use qtalk.Rpc.Json.{
  Numbers, Json, Items, Fields, null, bool, number, string, array, object, no_items, item,
  no_fields, field, items_of, fields_of, is_number_start,
}
use qtalk.Rpc.Json.Numerals.{is_numeral_start}
use qtalk.Rpc.Json.Print.{comma, quote, quoted, word, stringify, stringify_items, stringify_fields}
use qtalk.Rpc.Json.Parse.{
  Frame, in_array, in_object, at_key, value, first_item, first_key, key, next_item, next_entry,
  in_number, in_text, colon, end_text, complete, step, run,
}
use qtalk.Rpc.Json.Strings.{AreUnits, run-quoted, IsEnd}
use qtalk.Rpc.Json.Proper.{items_mode, fields_mode}

module _ {N : Type 0} where
  -- A value may come here: what is read is no object in front of a key.
  abbrev pub Takes : List (Frame N) → Type 0
  Takes [] = Unit
  Takes (in_array items ∷ stack) = Unit
  Takes (in_object entries ∷ stack) = ⊥
  Takes (at_key entries k ∷ stack) = Unit

module _ {N : Type 0} (numbers : Numbers N) where
  pub stringify_items-IsEnd :
      (items : Items N) (rest : Text) → IsEnd (stringify_items numbers false items ++ rest)
  unfolding stringify
  stringify_items-IsEnd no_items rest = refl
  stringify_items-IsEnd (item v items) rest = refl

  pub stringify_fields-IsEnd :
      (fs : Fields N) (rest : Text) → IsEnd (stringify_fields numbers false fs ++ rest)
  unfolding stringify
  stringify_fields-IsEnd no_fields rest = refl
  stringify_fields-IsEnd (field k v fs) rest = refl

  -- A number's first unit opens it, in front of a value and in front of a first item.
  pub run-number_start :
      (c : ℕ) (rest : Text) (stack : List (Frame N))
      → is_number_start c ≡ true
      → (run numbers (c ∷ rest) (value, stack) ≡ run numbers rest (in_number (c ∷ []), stack))
        × (run numbers (c ∷ rest) (first_item, stack)
            ≡ run numbers rest (in_number (c ∷ []), stack))
  unfolding run step
  run-number_start c rest stack start = (ground arith, ground arith)

  -- A value that is printed is no end of the array and no space.
  pub run-first_item :
      (v : Json N) (rest : Text) (stack : List (Frame N))
      → run numbers (stringify numbers v ++ rest) (first_item, stack)
        ≡ run numbers (stringify numbers v ++ rest) (value, stack)
  unfolding stringify run step
  run-first_item null rest stack = refl
  run-first_item (bool true) rest stack = refl
  run-first_item (bool false) rest stack = refl
  run-first_item (number n) rest stack =
      let (c, t, printed, start) = is_numeral_start (numbers.print n) (numbers.print-numeral n) in
      let (at_value, at_item) = run-number_start c (t ++ rest) stack start in
      rw printed (at_item ∙ sym at_value)
  run-first_item (string text) rest stack = refl
  run-first_item (array items) rest stack = refl
  run-first_item (object fs) rest stack = refl

  pub run_null :
      (rest : Text) (stack : List (Frame N))
      → run numbers (units "null" ++ rest) (value, stack)
        ≡ (complete null stack >>= run numbers rest)
  unfolding run step
  run_null rest stack = refl

  pub run-word :
      (b : Bool) (rest : Text) (stack : List (Frame N))
      → run numbers (word b ++ rest) (value, stack) ≡ (complete (bool b) stack >>= run numbers rest)
  unfolding run step
  run-word true rest stack = refl
  run-word false rest stack = refl

  pub end_text-Takes :
      (text : Text) (stack : List (Frame N))
      → Takes stack
      → end_text text stack ≡ complete (string text) stack
  unfolding end_text
  end_text-Takes text [] takes = refl
  end_text-Takes text (in_array items ∷ stack) takes = refl
  end_text-Takes text (in_object entries ∷ stack) takes = absurd takes
  end_text-Takes text (at_key entries k ∷ stack) takes = refl

  pub run_open :
      (text : Text) (stack : List (Frame N))
      → (run numbers (b'"' ∷ text) (value, stack) ≡ run numbers text (in_text [], stack))
        × (run numbers (b'"' ∷ text) (first_key, stack) ≡ run numbers text (in_text [], stack))
        × (run numbers (b'"' ∷ text) (key, stack) ≡ run numbers text (in_text [], stack))
        × (run numbers (b'[' ∷ text) (value, stack)
            ≡ run numbers text (first_item, in_array [] ∷ stack))
        × (run numbers (b'{' ∷ text) (value, stack)
            ≡ run numbers text (first_key, in_object [] ∷ stack))
  unfolding run step
  run_open text stack = (refl, refl, refl, refl, refl)

  pub run_close :
      (first : Bool) (before : List (Json N)) (entries : List (Text × Json N)) (rest : Text)
      (stack : List (Frame N))
      → (run numbers (b']' ∷ rest) (items_mode first, in_array before ∷ stack)
          ≡ (complete (array (items_of before)) stack >>= run numbers rest))
        × (run numbers (b'}' ∷ rest) (fields_mode first, in_object entries ∷ stack)
            ≡ (complete (object (fields_of entries)) stack >>= run numbers rest))
  unfolding run step
  run_close true before entries rest stack = (refl, refl)
  run_close false before entries rest stack = (refl, refl)

  -- The comma in front of an item or a key, if it is not the first
  pub run_comma :
      (v : Json N) (text rest : Text) (stack : List (Frame N))
      → (run numbers (b',' ∷ text) (next_item, stack) ≡ run numbers text (value, stack))
        × (run numbers (b',' ∷ text) (next_entry, stack) ≡ run numbers text (key, stack))
        × (run numbers (b':' ∷ text) (colon, stack) ≡ run numbers text (value, stack))
  unfolding run step
  run_comma v text rest stack = (refl, refl, refl)

  pub run_key :
      (first : Bool) (k rest : Text) (entries : List (Text × Json N)) (stack : List (Frame N))
      → AreUnits k
      → run numbers
          (comma first ++ (quote k ++ b':' ∷ rest))
          (fields_mode first, in_object entries ∷ stack)
        ≡ run numbers rest (value, at_key entries k ∷ stack)
  unfolding end_text
  run_key true k rest entries stack small =
      (run_open (quoted false k ++ b':' ∷ rest) (in_object entries ∷ stack)).1
      ∙ run-quoted numbers k false [] (b':' ∷ rest) (in_object entries ∷ stack) small
      ∙ (run_comma null rest rest (at_key entries k ∷ stack)).2
  run_key false k rest entries stack small =
      (run_comma null (quote k ++ b':' ∷ rest) rest (in_object entries ∷ stack)).1
      ∙ (run_open (quoted false k ++ b':' ∷ rest) (in_object entries ∷ stack)).2
      ∙ run-quoted numbers k false [] (b':' ∷ rest) (in_object entries ∷ stack) small
      ∙ (run_comma null rest rest (at_key entries k ∷ stack)).2

  pub run_item :
      (first : Bool) (v : Json N) (rest : Text) (stack : List (Frame N))
      → run numbers (comma first ++ (stringify numbers v ++ rest)) (items_mode first, stack)
        ≡ run numbers (stringify numbers v ++ rest) (value, stack)
  run_item true v rest stack = run-first_item v rest stack
  run_item false v rest stack = (run_comma v (stringify numbers v ++ rest) rest stack).0
