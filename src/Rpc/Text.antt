-- ===== src/Rpc/Text.antt =====
-- The text operations of javascript/rpc, `split`, `join`, `pop` and `startsWith`, on lists of UTF-16
-- code units.
pub mod Laws
pub mod Ends
use Prim.Native.Char.{code}
use Prim.Native.String.{String}
use qtalk.Base.{ℕ, Bool, true, false, ◌&&◌, List, [], ◌∷◌, ◌++◌, ◌==◌, ◌≡◌, All, if◌then◌else◌}

abbrev pub Text : Type 0
Text = List ℕ

-- The code units of a constant of the program: its ASCII codes.
abbrev pub units : String → Text
units String.[] = []
units (String.◌∷◌ c s) = code c ∷ units s

abbrev pub slash : ℕ
slash = b'/'

abbrev pub starts_with : Text → Text → Bool
starts_with path [] = true
starts_with [] (p ∷ prefix) = false
starts_with (c ∷ path) (p ∷ prefix) = c == p && starts_with path prefix

abbrev extend_first : ℕ → List Text → List Text
extend_first c [] = (c ∷ []) ∷ []
extend_first c (part ∷ parts) = (c ∷ part) ∷ parts

abbrev pub split_at : ℕ → List Text → List Text
split_at c parts = if c == slash then [] ∷ parts else extend_first c parts

-- `text.split("/")`
unfoldable pub split : Text → List Text
split [] = [] ∷ []
split (c ∷ text) = split_at c (split text)

-- `parts.join("/")`
unfoldable pub join : List Text → Text
join [] = []
join (part ∷ []) = part
join (part ∷ next ∷ parts) = part ++ slash ∷ join (next ∷ parts)

-- `parts.pop()` of a list that starts with `part`, and what it leaves
unfoldable pub last : Text → List Text → Text
last part [] = part
last part (next ∷ parts) = last next parts

unfoldable pub init : Text → List Text → List Text
init part [] = []
init part (next ∷ parts) = part ∷ init next parts

abbrev pub IsPlain : Text → Type 0
IsPlain text = All (λ c. (c == slash) ≡ false) text
