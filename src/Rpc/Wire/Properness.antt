-- ===== src/Rpc/Wire/Properness.antt =====
-- The frames of a call are values that the codec keeps.
use qtalk.Base.{
  ℕ, ◌<◌, ◌≡◌, inl, inr, Bool, List, [], ◌∷◌, Option, none, some, All-of_append, Bool-cases, ◌==◌,
  arith,
}
use qtalk.Base.Throws.{ok}
use qtalk.Rpc.Text.{Text, slash, split, units}
use qtalk.Rpc.Call.{Call, Names, strip, new_call, new_call-Names}
use qtalk.Rpc.Exchange.{ResponseHeader, Given, given, error_given, Action, returns, hijacks}
use qtalk.Rpc.Json.{Json, object, string, bool, field, no_fields}
use qtalk.Rpc.Json.Strings.{AreUnits}
use qtalk.Rpc.Json.Proper.{IsProper}
use qtalk.Rpc.Wire.{named_fields, call_json, header_json, error_field}

abbrev pub IsProperCall : Call → Type 0
IsProperCall call = AreUnits call.destination × AreUnits call.object_path × AreUnits call.method

abbrev pub IsProperError : Option Text → Type 0
IsProperError none = Unit
IsProperError (some message) = AreUnits message

strip-AreUnits : (c : ℕ) (rest : Text) → AreUnits (c ∷ rest) → AreUnits (strip c rest)
strip-AreUnits c rest us = elim (Bool-cases (c == slash)) [ inl e ↦ rw e us.1 | inr e ↦ rw e us ]

Names-IsProperCall : (call : Call) (d : Text) → Names call d → AreUnits d → IsProperCall call
Names-IsProperCall call d (same, clear, inl (root, method)) us =
    (rw same us, rw root (omega arith, tt), rw method us)
Names-IsProperCall call d (same, clear, inr whole) us =
    let (path, method) =
      All-of_append (λ c. c < 0x10000) call.object_path (slash ∷ call.method) (rw whole us) in
    (rw same us, path, method.1)

pub new_call-IsProperCall :
    (path : Text) (call : Call) → new_call path ≡ ok call → AreUnits path → IsProperCall call
unfolding new_call
new_call-IsProperCall [] call e us = cc
new_call-IsProperCall (c ∷ rest) call e us =
    let (call', made, names) = new_call-Names c rest in
    let same : call' ≡ call = cc in
    Names-IsProperCall call (strip c rest) (rw same at names) (strip-AreUnits c rest us)

module _ (N : Type 0) where
  named_fields-IsProper :
      (call : Call) (parts : List Text)
      → IsProperCall call
      → IsProper {N = N}
          (object (field (units "Destination") (string call.destination) (named_fields call parts)))
  unfolding IsProper
  named_fields-IsProper call [] us = ground arith
  named_fields-IsProper call (part ∷ []) us = ground arith
  named_fields-IsProper call (part ∷ next ∷ parts) us = ground arith

  pub call_json-IsProper : (call : Call) → IsProperCall call → IsProper {N = N} (call_json call)
  unfolding call_json
  call_json-IsProper call us = named_fields-IsProper call (split call.destination) us

  error_field-IsProper :
      (error : Option Text) (hijacked : Bool)
      → IsProperError error
      → IsProper {N = N}
          (object (error_field error (field (units "Hijacked") (bool hijacked) no_fields)))
  unfolding IsProper
  error_field-IsProper none hijacked us = ground arith
  error_field-IsProper (some message) hijacked us = ground arith

  pub header_json-IsProper :
      (header : ResponseHeader) → IsProperError header.error → IsProper {N = N} (header_json header)
  unfolding header_json
  header_json-IsProper header us = error_field-IsProper header.error header.hijacked us

module _ {N : Type 0} where
  -- What a handler may give
  abbrev pub IsProperGiven : Given (Json N) → Type 0
  IsProperGiven (error_given message) = AreUnits message
  IsProperGiven (given v) = IsProper v

  abbrev pub IsProperAction : Action (Json N) → Type 0
  IsProperAction (returns v) = IsProperGiven v
  IsProperAction (hijacks v) = IsProperGiven v
