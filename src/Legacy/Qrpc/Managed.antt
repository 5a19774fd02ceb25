-- ===== src/Legacy/Qrpc/Managed.antt =====
-- The object manager: a registered object is found by its path until it is disposed of.
use qtalk.Base.{
  ◌≡◌, refl, ap, ◌∙◌, true, false, List, [], ◌∷◌, ◌++◌, Option, none, some, length, drop-append,
  Bool-cases, inl, inr, arith,
}
use qtalk.Rpc.Text.{Text, slash, starts_with}
use qtalk.Rpc.Mux.{same, proto}
use qtalk.Legacy.Qrpc.Export.{get_own}
use qtalk.Legacy.Qrpc.Methods.{same_ne, get_own-bind, get_own-bind_ne}
use qtalk.Legacy.Qrpc.Objects.{
  Registered, ObjectManager, remove_first, is_truthy, truthy_only, object_path, register, delete,
  dispose, value_at, object_at, or_inherited,
}

pub starts_with-append : (p text : Text) → starts_with (p ++ text) p ≡ true
starts_with-append [] text = refl
starts_with-append (c ∷ p) text = ground (arith, starts_with-append p text)

remove_first-append : (p text : Text) → remove_first p (p ++ slash ∷ text) ≡ slash ∷ text
remove_first-append [] text = refl
remove_first-append (c ∷ p) text =
    rw (starts_with-append (c ∷ p) (slash ∷ text)) (drop-append p (slash ∷ text) (length p) refl)

module _ {A : Type 0} where
  get_own-delete : (id : Text) (es : List (Text × Registered A)) → get_own id (delete id es) ≡ none
  get_own-delete id [] = refl
  get_own-delete id ((key, v) ∷ es) = elim (Bool-cases (same key id)) [
    | inl e ↦ rw (e, get_own-delete id es)
    | inr e ↦ rw e (rw (e, get_own-delete id es))
  ]

  get_own-delete_ne :
      (id q : Text) (es : List (Text × Registered A))
      → same id q ≡ false
      → get_own q (delete id es) ≡ get_own q es
  get_own-delete_ne id q [] other = refl
  get_own-delete_ne id q ((key, v) ∷ es) other = elim (Bool-cases (same key id)) [
    | inl e ↦ rw (e, same_ne key id q e other, get_own-delete_ne id q es other)
    | inr e ↦ rw (e, get_own-delete_ne id q es other)
  ]

  module _ (inherited : Text → Option (Registered A)) where
    value_at_by :
        (id : Text) (m : ObjectManager A) (found : Option (Registered A))
        → get_own id m.values ≡ found
        → value_at inherited id m ≡ truthy_only (or_inherited inherited id found)
    unfolding value_at
    value_at_by id m found e = ap (λ f. truthy_only (or_inherited inherited id f)) e

    value_at_same :
        (q : Text) (m m' : ObjectManager A)
        → get_own q m'.values ≡ get_own q m.values
        → value_at inherited q m' ≡ value_at inherited q m
    unfolding value_at
    value_at_same q m m' e = ap (λ f. truthy_only (or_inherited inherited q f)) e

    pub value_at-register :
        (id : Text) (v : Registered A) (m : ObjectManager A)
        → same id proto ≡ false
        → is_truthy v ≡ true
        → value_at inherited id (register id v m).0 ≡ some v
    unfolding register
    value_at-register id v m ordinary truthy =
        value_at_by id (register id v m).0 (some v) (get_own-bind id v m.values ordinary)
        ∙ rw truthy

    -- A registered object that a condition takes for true is what `object` finds at its path, whatever
    -- the mount path is; other identifiers have what they had. After `dispose` the identifier has only
    -- what the values' prototype has, and the others what they had before. The identifier is not
    -- `__proto__`.
    pub register-dispose :
        (id : Text) (v : Registered A) (m : ObjectManager A) (q : Text)
        → same id proto ≡ false
        → is_truthy v ≡ true
        → same id q ≡ false
        → let (m', object) = register id v m in
          (object_at inherited (object_path m' object.id) m' ≡ some object)
          × (value_at inherited q m' ≡ value_at inherited q m)
          × (value_at inherited id (dispose object m') ≡ truthy_only (inherited id))
          × (value_at inherited q (dispose object m') ≡ value_at inherited q m)
    unfolding register dispose object_at
    register-dispose id v m q ordinary truthy other =
        let (m', object) = register id v m in
        let left = get_own-delete_ne id q m'.values other in
        let kept = get_own-bind_ne id q v m.values other in
        (
          rw (remove_first-append m.mount_path id, value_at-register id v m ordinary truthy),
          value_at_same q m m' kept,
          value_at_by id (dispose object m') none (get_own-delete id m'.values),
          value_at_same q m (dispose object m') (left ∙ kept),
        )
