-- ===== src/Rpc/Json/Proper.antt =====
-- The values that `JSON.stringify` and `JSON.parse` keep: texts are lists of code units, and an object's
-- fields are in the order of its own properties.
use qtalk.Base.{
  ℕ, ◌≡◌, refl, ap, Bool, true, false, List, [], ◌∷◌, ◌++◌, Option, none, some, All, append_assoc,
}
use qtalk.Rpc.Text.{Text}
use qtalk.Rpc.Mux.{add_key, has_key, array_index, is_before, put_index}
use qtalk.Rpc.Json.{
  Json, Items, Fields, null, bool, number, string, array, object, no_items, item, no_fields, field,
  items_of, fields_of,
}
use qtalk.Rpc.Json.Parse.{Mode, first_item, first_key, next_item, next_entry, put}
use qtalk.Rpc.Json.Strings.{AreUnits}

-- A new key comes behind the others: an array index behind smaller ones only.
abbrev pub FollowsIndex : {N : Type 0} → Option ℕ → List (Text × Json N) → Type 0
FollowsIndex none es = Unit
FollowsIndex {N} (some n) es = All (λ (e : Text × Json N). is_before n (array_index e.0) ≡ false) es

abbrev pub Follows : {N : Type 0} → Text → List (Text × Json N) → Type 0
Follows k es = (has_key k es ≡ false) × FollowsIndex (array_index k) es

pub put_index-append :
    {N : Type 0} (n : ℕ) (entry : Text × Json N) (es : List (Text × Json N))
    → All (λ (e : Text × Json N). is_before n (array_index e.0) ≡ false) es
    → put_index n entry es ≡ es ++ entry ∷ []
put_index-append n entry [] before = refl
put_index-append n entry (e ∷ es) before = rw (before.0, put_index-append n entry es before.1)

pub put-append :
    {N : Type 0} (k : Text) (v : Json N) (es : List (Text × Json N))
    → Follows k es
    → put k v es ≡ es ++ (k, v) ∷ []
put-append k v es (new, order) = rw new (by_index (array_index k) order)
  where
    by_index : (i : Option ℕ) → FollowsIndex i es → add_key i (k, v) es ≡ es ++ (k, v) ∷ []
    by_index none order = refl
    by_index (some n) order = put_index-append n (k, v) es order

-- Texts are lists of code units, and the fields of an object are in the order of its own properties.
unfoldable mutual
  pub IsProper : {N : Type 0} → Json N → Type 0
  IsProper null = Unit
  IsProper (bool b) = Unit
  IsProper (number n) = Unit
  IsProper (string text) = AreUnits text
  IsProper (array items) = AreProper items
  IsProper (object fs) = AreOrdered [] fs

  pub AreProper : {N : Type 0} → Items N → Type 0
  AreProper no_items = Unit
  AreProper (item v items) = IsProper v × AreProper items

  pub AreOrdered : {N : Type 0} → List (Text × Json N) → Fields N → Type 0
  AreOrdered es no_fields = Unit
  AreOrdered es (field k v fs) =
      AreUnits k × Follows k es × IsProper v × AreOrdered (es ++ (k, v) ∷ []) fs

module _ {N : Type 0} where
  abbrev pub items_list : Items N → List (Json N)
  items_list no_items = []
  items_list (item v items) = v ∷ items_list items

  abbrev pub fields_list : Fields N → List (Text × Json N)
  fields_list no_fields = []
  fields_list (field k v fs) = (k, v) ∷ fields_list fs

  pub items_of-items_list : (items : Items N) → items_of (items_list items) ≡ items
  items_of-items_list no_items = refl
  items_of-items_list (item v items) = ap (item v) (items_of-items_list items)

  pub fields_of-fields_list : (fs : Fields N) → fields_of (fields_list fs) ≡ fs
  fields_of-fields_list no_fields = refl
  fields_of-fields_list (field k v fs) = ap (field k v) (fields_of-fields_list fs)

  abbrev pub items_mode : Bool → Mode N
  items_mode true = first_item
  items_mode false = next_item

  abbrev pub fields_mode : Bool → Mode N
  fields_mode true = first_key
  fields_mode false = next_entry

pub append_twice : (a b c rest : Text) → (a ++ (b ++ c)) ++ rest ≡ a ++ (b ++ (c ++ rest))
append_twice a b c rest = simp append_assoc

pub append_entry :
    (a k v c rest : Text)
    → (a ++ (b'"' ∷ k ++ (b':' ∷ (v ++ c)))) ++ rest ≡ a ++ (b'"' ∷ k ++ b':' ∷ (v ++ (c ++ rest)))
append_entry a k v c rest = simp append_assoc
