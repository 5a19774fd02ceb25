-- ===== src/Rpc/Call.antt =====
-- javascript/rpc/caller.ts: the constructor of `Call`.
use qtalk.Base.{ℕ, ◌≡◌, refl, ◌⊎◌, inl, inr, List, [], ◌∷◌, ◌++◌, ◌==◌, if◌then◌else◌}
use qtalk.Base.Throws.{Result, ok, err, no_destination, ◌>>=◌}
use qtalk.Rpc.Text.{Text, slash, split, join, last, init, IsPlain}
use qtalk.Rpc.Text.Laws.{split_cases, split_one, split_more}

-- The fields that are sent; `caller` and `decode` are set by `Respond` on its own object.
pub record Call : Type 0 where
  pub destination : Text
  pub object_path : Text
  pub method : Text

abbrev pub strip : ℕ → Text → Text
strip c rest = if c == slash then rest else c ∷ rest

abbrev call_of : Text → List Text → Call
call_of destination [] = record { destination = destination; object_path = []; method = [] }
call_of destination (part ∷ []) = record {
  destination = destination;
  object_path = slash ∷ [];
  method = part;
}
call_of destination (part ∷ next ∷ parts) = record {
  destination = destination;
  object_path = join (init part (next ∷ parts));
  method = last part (next ∷ parts);
}

unfoldable pub new_call : Text → Result Call
unfolding split join last init
new_call [] = err no_destination
new_call (c ∷ rest) = let destination = strip c rest in ok (call_of destination (split destination))

-- The destination is a method of the root, or an object's path and a method.
abbrev pub Names : Call → Text → Type 0
Names call destination =
    (call.destination ≡ destination)
    × IsPlain call.method
    × (((call.object_path ≡ slash ∷ []) × (call.method ≡ destination))
        ⊎ (call.object_path ++ slash ∷ call.method ≡ destination))

call_of-Names : (d : Text) → Names (call_of d (split d)) d
call_of-Names d = by_parts (split_cases d)
  where
    by_parts : ((p : Text) × (ps : List Text) × (split d ≡ p ∷ ps)) → Names (call_of d (split d)) d
    by_parts (p, [], e) =
        let (same, plain) = split_one d p e in rw (e, same) (refl, plain, inl (refl, refl))
    by_parts (p, q ∷ ps, e) =
        let (whole, plain) = split_more d p q ps e in rw e (refl, plain, inr whole)

-- A call takes one slash off the front of its destination and splits the rest at its last slash:
-- the method has none, and without one the object is the root.
pub new_call-Names :
    (c : ℕ) (rest : Text)
    → (call : Call) × (new_call (c ∷ rest) ≡ ok call) × Names call (strip c rest)
unfolding new_call
new_call-Names c rest = let d = strip c rest in (call_of d (split d), refl, call_of-Names d)

-- The responder's object for a call, made from the destination that the caller's object has left.
abbrev pub call_at : Text → Result Call
call_at path = do call ← new_call path; new_call call.destination
