-- ===== src/Rpc/Mux/Prefixes.antt =====
-- Which handler a destination finds.
use qtalk.Base.{
  ℕ, ◌≡◌, refl, ap, ◌∙◌, true, false, not, ◌&&◌, List, [], ◌∷◌, ◌++◌, Option, none, some, All,
  Bool-cases, inl, inr, ◌==◌, ==_iff, arith,
}
use qtalk.Base.Throws.{ok}
use qtalk.Rpc.Text.{Text, starts_with}
use qtalk.Rpc.Mux.{
  same, proto, array_index, is_before, has_own_property, has_key, replace, put_index, add_key, bind,
  first_prefix, handler,
}

pub same→eq : (a b : Text) → same a b ≡ true → a ≡ b
same→eq [] [] h = refl
same→eq [] (d ∷ b) h = cc
same→eq (c ∷ a) [] h = cc
same→eq (c ∷ a) (d ∷ b) h = elim (Bool-cases (c == d)) [
  | inl e ↦ cc ((==_iff c d).0 e, same→eq a b (rw e at h))
  | inr e ↦ absurd (ground (arith, rw e at h))
]

module _ {H : Type 0} where
  -- No key but `p` itself is in front of the path.
  abbrev pub IsAlone : Text → Text → List (Text × H) → Type 0
  IsAlone path p handlers =
      All (λ (e : Text × H). (starts_with path e.0 && not (same e.0 p)) ≡ false) handlers

  abbrev Passed : Text → List (Text × H) → List (Text × H) → Type 0
  Passed path changed handlers = first_prefix path changed ≡ first_prefix path handlers

  replace-Passed :
      (path p : Text) (h : H) (es : List (Text × H))
      → starts_with path p ≡ false
      → Passed path (replace p h es) es
  replace-Passed path p h [] off = refl
  replace-Passed path p h ((key, old) ∷ es) off = elim (Bool-cases (same key p)) [
    | inl e ↦ rw (e, off, ap (starts_with path) (same→eq key p e) ∙ off)
    | inr e ↦ rw (e, replace-Passed path p h es off)
  ]

  put_index-Passed :
      (path p : Text) (n : ℕ) (h : H) (es : List (Text × H))
      → starts_with path p ≡ false
      → Passed path (put_index n (p, h) es) es
  put_index-Passed path p n h [] off = rw off
  put_index-Passed path p n h ((key, old) ∷ es) off =
      elim (Bool-cases (is_before n (array_index key))) [
        | inl e ↦ rw (e, off)
        | inr e ↦ rw (e, put_index-Passed path p n h es off)
      ]

  append-Passed :
      (path p : Text) (h : H) (es : List (Text × H))
      → starts_with path p ≡ false
      → Passed path (es ++ (p, h) ∷ []) es
  append-Passed path p h [] off = rw off
  append-Passed path p h ((key, old) ∷ es) off = rw (append-Passed path p h es off)

  add_key-Passed :
      (path p : Text) (i : Option ℕ) (h : H) (es : List (Text × H))
      → starts_with path p ≡ false
      → Passed path (add_key i (p, h) es) es
  add_key-Passed path p none h es off = append-Passed path p h es off
  add_key-Passed path p (some n) h es off = put_index-Passed path p n h es off

  -- Binding a handler does not change which handler a destination finds, if the destination does
  -- not start with the path that is bound.
  pub bind-first_prefix :
      (path p : Text) (h : H) (es : List (Text × H))
      → starts_with path p ≡ false
      → first_prefix path (bind p h es) ≡ first_prefix path es
  unfolding bind
  bind-first_prefix path p h es off = elim (Bool-cases (same p proto)) [
    | inl e ↦ rw e
    | inr e ↦ elim (Bool-cases (has_key p es)) [
      | inl old ↦ rw (e, old) (replace-Passed path p h es off)
      | inr new ↦ rw (e, new) (add_key-Passed path p (array_index p) h es off)
    ]
  ]

  -- No key is in front of the path.
  abbrev NoPrefix : Text → List (Text × H) → Type 0
  NoPrefix path es = All (λ (e : Text × H). starts_with path e.0 ≡ false) es

  alone-NoPrefix :
      (path p : Text) (es : List (Text × H))
      → has_key p es ≡ false
      → IsAlone path p es
      → NoPrefix path es
  alone-NoPrefix path p [] new alone = tt
  alone-NoPrefix path p ((key, old) ∷ es) new alone =
      let other : same key p ≡ false = ground arith in
      (ground arith, alone-NoPrefix path p es (rw other at new) alone.1)

  put_index_found :
      (path p : Text) (n : ℕ) (h : H) (es : List (Text × H))
      → starts_with path p ≡ true
      → NoPrefix path es
      → first_prefix path (put_index n (p, h) es) ≡ some h
  put_index_found path p n h [] front others = rw front
  put_index_found path p n h ((key, old) ∷ es) front others =
      elim (Bool-cases (is_before n (array_index key))) [
        | inl e ↦ rw (e, front)
        | inr e ↦ rw (e, others.0, put_index_found path p n h es front others.1)
      ]

  append_found :
      (path p : Text) (h : H) (es : List (Text × H))
      → starts_with path p ≡ true
      → NoPrefix path es
      → first_prefix path (es ++ (p, h) ∷ []) ≡ some h
  append_found path p h [] front others = rw front
  append_found path p h ((key, old) ∷ es) front others =
      rw (others.0, append_found path p h es front others.1)

  add_key_found :
      (path p : Text) (i : Option ℕ) (h : H) (es : List (Text × H))
      → starts_with path p ≡ true
      → NoPrefix path es
      → first_prefix path (add_key i (p, h) es) ≡ some h
  add_key_found path p none h es front others = append_found path p h es front others
  add_key_found path p (some n) h es front others = put_index_found path p n h es front others

  replace_found :
      (path p : Text) (h : H) (es : List (Text × H))
      → starts_with path p ≡ true
      → has_key p es ≡ true
      → IsAlone path p es
      → first_prefix path (replace p h es) ≡ some h
  replace_found path p h [] front old alone = cc
  replace_found path p h ((key, was) ∷ es) front old alone = elim (Bool-cases (same key p)) [
    | inl e ↦ rw (e, front)
    | inr e ↦
        let off : starts_with path key ≡ false = ground arith in
        rw (e, off, replace_found path p h es front (rw e at old) alone.1)
  ]

  bind_found :
      (path p : Text) (h : H) (es : List (Text × H))
      → same p proto ≡ false
      → starts_with path p ≡ true
      → IsAlone path p es
      → first_prefix path (bind p h es) ≡ some h
  unfolding bind
  bind_found path p h es ordinary front alone = elim (Bool-cases (has_key p es)) [
    | inl old ↦ rw (ordinary, old) (replace_found path p h es front old alone)
    | inr new ↦
        rw (ordinary, new)
          (add_key_found path p (array_index p) h es front (alone-NoPrefix path p es new alone))
  ]

  -- A destination that starts with a path finds the handler that was bound to it last, if no other
  -- path that it starts with is bound, and the path is none of the two that plain objects reserve.
  pub bind-handler :
      (path p : Text) (h : H) (es : List (Text × H))
      → same p proto ≡ false
      → has_key has_own_property (bind p h es) ≡ false
      → starts_with path p ≡ true
      → IsAlone path p es
      → handler path (bind p h es) ≡ ok (some h)
  unfolding handler
  bind-handler path p h es ordinary usable front alone =
      rw (usable, bind_found path p h es ordinary front alone)
