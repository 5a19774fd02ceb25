-- ===== src/Rpc/Mux.antt =====
-- javascript/rpc/responder.ts: `RespondMux`. Its `handlers` are a plain object, so the order in which
-- `handler` tries the keys is that of the object's own properties.
pub mod Prefixes
use qtalk.Base.{
  ℕ, ◌+◌, ◌-◌, ◌*◌, ◌^◌, Bool, true, false, ◌&&◌, List, [], ◌∷◌, ◌++◌, Option, none, some, map, ltb,
  leb, ◌==◌, if◌then◌else◌,
}
use qtalk.Base.Throws.{Result, ok, err, type_error}
use qtalk.Rpc.Text.{Text, units, starts_with}

abbrev pub same : Text → Text → Bool
same [] [] = true
same [] (d ∷ other) = false
same (c ∷ text) [] = false
same (c ∷ text) (d ∷ other) = c == d && same text other

-- `"__proto__"`, whose assignment sets the prototype and no own property, and `"hasOwnProperty"`,
-- which `handler` calls on the object itself.
abbrev pub proto : Text
proto = units "__proto__"

abbrev pub has_own_property : Text
has_own_property = units "hasOwnProperty"

-- A decimal number, as far as the text has digits only.
abbrev decimal : ℕ → Text → Option ℕ
decimal n [] = some n
decimal n (c ∷ rest) =
    let more = decimal (n * 10 + (c - b'0')) rest in if leb b'0' c && leb c b'9' then more else none

abbrev below_limit : Option ℕ → Option ℕ
below_limit none = none
below_limit (some n) = if ltb n (2 ^ 32 - 1) then some n else none

-- The array index that a key stands for: without leading zeros, and below 2 ^ 32 - 1.
abbrev pub array_index : Text → Option ℕ
array_index [] = none
array_index (c ∷ []) = below_limit (decimal 0 (c ∷ []))
array_index (c ∷ d ∷ rest) = if c == b'0' then none else below_limit (decimal 0 (c ∷ d ∷ rest))

abbrev pub is_before : ℕ → Option ℕ → Bool
is_before n none = true
is_before n (some m) = ltb n m

module _ {H : Type 0} where
  abbrev pub has_key : Text → List (Text × H) → Bool
  has_key path [] = false
  has_key path ((key, h) ∷ rest) =
      let later = has_key path rest in if same key path then true else later

  abbrev pub replace : Text → H → List (Text × H) → List (Text × H)
  replace path h [] = []
  replace path h ((key, old) ∷ rest) =
      let later = replace path h rest in
      if same key path then (path, h) ∷ rest else (key, old) ∷ later

  -- A new index goes between the indices, in ascending order, which come before other keys.
  abbrev pub put_index : ℕ → Text × H → List (Text × H) → List (Text × H)
  put_index n entry [] = entry ∷ []
  put_index n entry (other ∷ rest) =
      let later = put_index n entry rest in
      if is_before n (array_index other.0) then entry ∷ other ∷ rest else other ∷ later

  abbrev pub add_key : Option ℕ → Text × H → List (Text × H) → List (Text × H)
  add_key none entry handlers = handlers ++ entry ∷ []
  add_key (some n) entry handlers = put_index n entry handlers

  -- `this.handlers[path] = handler`
  unfoldable pub bind : Text → H → List (Text × H) → List (Text × H)
  bind path h handlers =
      if same path proto
      then handlers
      else if has_key path handlers
      then replace path h handlers
      else add_key (array_index path) (path, h) handlers

  -- The `for` loop of `handler`
  abbrev pub first_prefix : Text → List (Text × H) → Option H
  first_prefix path [] = none
  first_prefix path ((key, h) ∷ rest) =
      let later = first_prefix path rest in if starts_with path key then some h else later

  unfoldable pub handler : Text → List (Text × H) → Result (Option H)
  handler path handlers =
      if has_key has_own_property handlers then err type_error else ok (first_prefix path handlers)
