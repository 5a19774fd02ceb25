-- ===== src/Rpc/Json/RoundTrip.antt =====
-- `JSON.parse` gives back what `JSON.stringify` was given.
use qtalk.Base.{
  ◌≡◌, refl, ap, sym, ◌∙◌, Bool, true, false, List, [], ◌∷◌, ◌++◌, append_assoc, append-nil,
}
use qtalk.Base.Throws.{ok, ◌>>=◌}
use qtalk.Rpc.Text.{Text}
use qtalk.Rpc.Json.{
  Numbers, Json, Items, Fields, null, bool, number, string, array, object, no_items, item,
  no_fields, field, items_of, fields_of,
}
use qtalk.Rpc.Json.Numerals.{is_numeral_start}
use qtalk.Rpc.Json.Print.{comma, quoted, stringify, stringify_items, stringify_fields}
use qtalk.Rpc.Json.Parse.{
  Frame, in_array, in_object, at_key, value, next_entry, complete, run, parse,
}
use qtalk.Rpc.Json.Strings.{run-quoted, IsEnd, run-print}
use qtalk.Rpc.Json.Proper.{
  IsProper, AreProper, AreOrdered, put-append, items_list, fields_list, items_of-items_list,
  fields_of-fields_list, items_mode, fields_mode, append_twice, append_entry,
}
use qtalk.Rpc.Json.Steps.{
  stringify_items-IsEnd, stringify_fields-IsEnd, run-number_start, Takes, run_null, run-word,
  end_text-Takes, run_open, run_close, run_key, run_item,
}

module _ {N : Type 0} (numbers : Numbers N) where
  mutual
    unfolding stringify IsProper complete

    run-stringify :
        (v : Json N) (rest : Text) (stack : List (Frame N))
        → IsProper v
        → Takes stack
        → IsEnd rest
        → run numbers (stringify numbers v ++ rest) (value, stack)
          ≡ (complete v stack >>= run numbers rest)
    run-stringify null rest stack proper takes end = run_null numbers rest stack
    run-stringify (bool b) rest stack proper takes end = run-word numbers b rest stack
    run-stringify (number n) rest stack proper takes end =
        let (c, t, printed, start) = is_numeral_start (numbers.print n) (numbers.print-numeral n) in
        rw printed (
          (run-number_start numbers c (t ++ rest) stack start).0
          ∙ run-print numbers n rest stack c t printed end)
    run-stringify (string text) rest stack proper takes end =
        (run_open numbers (quoted false text ++ rest) stack).0
        ∙ run-quoted numbers text false [] rest stack proper
        ∙ ap (λ r. r >>= run numbers rest) (end_text-Takes numbers text stack takes)
    run-stringify (array items) rest stack proper takes end =
        (run_open numbers (stringify_items numbers true items ++ rest) stack).3
        ∙ run-stringify_items items true [] rest stack proper
        ∙ ap (λ xs. complete (array xs) stack >>= run numbers rest) (items_of-items_list items)
    run-stringify (object fs) rest stack proper takes end =
        (run_open numbers (stringify_fields numbers true fs ++ rest) stack).4
        ∙ run-stringify_fields fs true [] rest stack proper
        ∙ ap (λ xs. complete (object xs) stack >>= run numbers rest) (fields_of-fields_list fs)

    run-stringify_items :
        (items : Items N) (first : Bool) (before : List (Json N)) (rest : Text)
        (stack : List (Frame N))
        → AreProper items
        → run numbers
            (stringify_items numbers first items ++ rest)
            (items_mode first, in_array before ∷ stack)
          ≡ (complete (array (items_of (before ++ items_list items))) stack >>= run numbers rest)
    run-stringify_items no_items first before rest stack proper =
        rw append-nil (run_close numbers first before [] rest stack).0
    run-stringify_items (item v items) first before rest stack proper =
        let later = stringify_items numbers false items ++ rest in
        ap (λ u. run numbers u (items_mode first, in_array before ∷ stack))
          (append_twice (comma first) (stringify numbers v) (stringify_items numbers false items)
            rest)
        ∙ run_item numbers first v later (in_array before ∷ stack)
        ∙ run-stringify v later (in_array before ∷ stack) proper.0 tt
            (stringify_items-IsEnd numbers items rest)
        ∙ run-stringify_items items false (before ++ v ∷ []) rest stack proper.1
        ∙ ap (λ xs. complete (array (items_of xs)) stack >>= run numbers rest)
            (append_assoc before (v ∷ []) (items_list items))

    run-stringify_fields :
        (fs : Fields N) (first : Bool) (before : List (Text × Json N)) (rest : Text)
        (stack : List (Frame N))
        → AreOrdered before fs
        → run numbers
            (stringify_fields numbers first fs ++ rest)
            (fields_mode first, in_object before ∷ stack)
          ≡ (complete (object (fields_of (before ++ fields_list fs))) stack >>= run numbers rest)
    run-stringify_fields no_fields first before rest stack proper =
        rw append-nil (run_close numbers first [] before rest stack).1
    run-stringify_fields (field k v fs) first before rest stack proper =
        let tail = stringify_fields numbers false fs ++ rest in
        let read = run_key numbers first k (stringify numbers v ++ tail) before stack proper.0 in
        ap (λ u. run numbers u (fields_mode first, in_object before ∷ stack))
          (append_entry (comma first) (quoted false k) (stringify numbers v)
            (stringify_fields numbers false fs) rest)
        ∙ read
        ∙ run-stringify v tail (at_key before k ∷ stack) proper.2 tt
            (stringify_fields-IsEnd numbers fs rest)
        ∙ ap (λ es. run numbers tail (next_entry, in_object es ∷ stack))
            (put-append k v before proper.1)
        ∙ run-stringify_fields fs false (before ++ (k, v) ∷ []) rest stack proper.3
        ∙ ap (λ es. complete (object (fields_of es)) stack >>= run numbers rest)
            (append_assoc before ((k, v) ∷ []) (fields_list fs))

  -- Parsing the text of a value gives that value, if its texts are lists of code units and its objects
  -- have the order that objects have.
  pub parse-stringify : (v : Json N) → IsProper v → parse numbers (stringify numbers v) ≡ ok v
  unfolding parse
  parse-stringify v proper =
      ap (λ u. run numbers u (value, [])) (sym (append-nil (stringify numbers v)))
      ∙ run-stringify v [] [] proper tt tt
      ∙ unfold complete run in refl
