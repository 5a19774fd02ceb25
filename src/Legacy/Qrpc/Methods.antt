-- ===== src/Legacy/Qrpc/Methods.antt =====
-- The handlers of an exported object: which function a method's name reaches.
use qtalk.Base.{
  ℕ, ◌≡◌, refl, ap, ◌∙◌, true, false, List, [], ◌∷◌, ◌++◌, Option, none, some, Bool-cases, inl, inr,
  arith,
}
use qtalk.Rpc.Text.{Text}
use qtalk.Rpc.Mux.{same, proto, array_index, is_before, has_key, replace, put_index, add_key, bind}
use qtalk.Rpc.Mux.Prefixes.{same→eq}
use qtalk.Legacy.Qrpc.Export.{get_own}

pub same_refl : (t : Text) → same t t ≡ true
same_refl [] = refl
same_refl (c ∷ t) = ground (arith, same_refl t)

pub same_ne : (key p q : Text) → same key p ≡ true → same p q ≡ false → same key q ≡ false
same_ne key p q e other = ap (λ k. same k q) (same→eq key p e) ∙ other

module _ {V : Type 0} where
  abbrev Keeps : Text → List (Text × V) → List (Text × V) → Type 0
  Keeps q changed es = get_own q changed ≡ get_own q es

  replace-Keeps :
      (p q : Text) (v : V) (es : List (Text × V)) → same p q ≡ false → Keeps q (replace p v es) es
  replace-Keeps p q v [] other = refl
  replace-Keeps p q v ((key, old) ∷ es) other = elim (Bool-cases (same key p)) [
    | inl e ↦ rw (e, other, same_ne key p q e other)
    | inr e ↦ rw (e, replace-Keeps p q v es other)
  ]

  put_index-Keeps :
      (p q : Text) (n : ℕ) (v : V) (es : List (Text × V))
      → same p q ≡ false
      → Keeps q (put_index n (p, v) es) es
  put_index-Keeps p q n v [] other = rw other
  put_index-Keeps p q n v ((key, old) ∷ es) other =
      elim (Bool-cases (is_before n (array_index key))) [
        | inl e ↦ rw (e, other)
        | inr e ↦ rw (e, put_index-Keeps p q n v es other)
      ]

  append-Keeps :
      (p q : Text) (v : V) (es : List (Text × V))
      → same p q ≡ false
      → Keeps q (es ++ (p, v) ∷ []) es
  append-Keeps p q v [] other = rw other
  append-Keeps p q v ((key, old) ∷ es) other = rw (append-Keeps p q v es other)

  add_key-Keeps :
      (p q : Text) (i : Option ℕ) (v : V) (es : List (Text × V))
      → same p q ≡ false
      → Keeps q (add_key i (p, v) es) es
  add_key-Keeps p q none v es other = append-Keeps p q v es other
  add_key-Keeps p q (some n) v es other = put_index-Keeps p q n v es other

  -- What is bound to one key leaves the others.
  pub get_own-bind_ne :
      (p q : Text) (v : V) (es : List (Text × V))
      → same p q ≡ false
      → get_own q (bind p v es) ≡ get_own q es
  unfolding bind
  get_own-bind_ne p q v es other = elim (Bool-cases (same p proto)) [
    | inl e ↦ rw e
    | inr e ↦ elim (Bool-cases (has_key p es)) [
      | inl old ↦ rw (e, old) (replace-Keeps p q v es other)
      | inr new ↦ rw (e, new) (add_key-Keeps p q (array_index p) v es other)
    ]
  ]

  get_own-replace :
      (p : Text) (v : V) (es : List (Text × V))
      → has_key p es ≡ true
      → get_own p (replace p v es) ≡ some v
  get_own-replace p v [] old = cc
  get_own-replace p v ((key, was) ∷ es) old = elim (Bool-cases (same key p)) [
    | inl e ↦ rw (e, same_refl p)
    | inr e ↦ rw e (rw e (get_own-replace p v es (rw e at old)))
  ]

  abbrev Absent : Text → List (Text × V) → Type 0
  Absent p es = has_key p es ≡ false

  tail-Absent :
      (p key : Text) (old : V) (es : List (Text × V))
      → Absent p ((key, old) ∷ es)
      → (same key p ≡ false) × Absent p es
  tail-Absent p key old es new = ground arith

  get_own-put_index :
      (p : Text) (n : ℕ) (v : V) (es : List (Text × V))
      → Absent p es
      → get_own p (put_index n (p, v) es) ≡ some v
  get_own-put_index p n v [] new = rw (same_refl p)
  get_own-put_index p n v ((key, old) ∷ es) new =
      elim (Bool-cases (is_before n (array_index key))) [
        | inl e ↦ rw (e, same_refl p)
        | inr e ↦
            let (off, rest) = tail-Absent p key old es new in
            rw (e, off, get_own-put_index p n v es rest)
      ]

  get_own-append :
      (p : Text) (v : V) (es : List (Text × V))
      → Absent p es
      → get_own p (es ++ (p, v) ∷ []) ≡ some v
  get_own-append p v [] new = rw (same_refl p)
  get_own-append p v ((key, old) ∷ es) new =
      let (off, rest) = tail-Absent p key old es new in rw (off, get_own-append p v es rest)

  get_own-add_key :
      (p : Text) (i : Option ℕ) (v : V) (es : List (Text × V))
      → Absent p es
      → get_own p (add_key i (p, v) es) ≡ some v
  get_own-add_key p none v es new = get_own-append p v es new
  get_own-add_key p (some n) v es new = get_own-put_index p n v es new

  pub get_own-bind :
      (p : Text) (v : V) (es : List (Text × V))
      → same p proto ≡ false
      → get_own p (bind p v es) ≡ some v
  unfolding bind
  get_own-bind p v es ordinary = elim (Bool-cases (has_key p es)) [
    | inl old ↦ rw (ordinary, old) (get_own-replace p v es old)
    | inr new ↦ rw (ordinary, new) (get_own-add_key p (array_index p) v es new)
  ]
