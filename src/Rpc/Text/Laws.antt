-- ===== src/Rpc/Text/Laws.antt =====
-- What splitting and joining at slashes do to each other.
use qtalk.Base.{
  ℕ, ◌≡◌, refl, sym, ap, ◌∙◌, true, inl, inr, List, [], ◌∷◌, ◌++◌, append_assoc, ◌==◌, All,
  Bool-cases, ==_iff,
}
use qtalk.Rpc.Text.{Text, slash, split, join, last, init, IsPlain}

-- A split text is never empty.
pub split_cases : (t : Text) → (p : Text) × (ps : List Text) × (split t ≡ p ∷ ps)
unfolding split
split_cases [] = ([], [], refl)
split_cases (c ∷ t) =
    let (p, ps, e) = split_cases t in
    elim (Bool-cases (c == slash)) [
      | inl h ↦ ([], p ∷ ps, rw (h, e))
      | inr h ↦ (c ∷ p, ps, rw (h, e))
    ]

join-cons : (c : ℕ) (p : Text) (ps : List Text) → join ((c ∷ p) ∷ ps) ≡ c ∷ join (p ∷ ps)
unfolding join
join-cons c p [] = refl
join-cons c p (q ∷ ps) = refl

join-nil : (p : Text) (ps : List Text) → join ([] ∷ p ∷ ps) ≡ slash ∷ join (p ∷ ps)
unfolding join
join-nil p ps = refl

join-one : (p : Text) → join (p ∷ []) ≡ p
unfolding join
join-one p = refl

at_slash : (c : ℕ) (t : Text) → (c == slash) ≡ true → slash ∷ t ≡ c ∷ t
at_slash c t h = ap (λ d. d ∷ t) (sym ((==_iff c slash).0 h))

join-split : (t : Text) → join (split t) ≡ t
unfolding split
join-split [] = join-one []
join-split (c ∷ t) =
    let (p, ps, e) = split_cases t in
    let whole : join (p ∷ ps) ≡ t = ap join (sym e) ∙ join-split t in
    elim (Bool-cases (c == slash)) [
      | inl h ↦ rw (e, h) (join-nil p ps ∙ ap (◌∷◌ slash) whole ∙ at_slash c t h)
      | inr h ↦ rw (e, h) (join-cons c p ps ∙ ap (◌∷◌ c) whole)
    ]

split-IsPlain : (t : Text) → All IsPlain (split t)
unfolding split
split-IsPlain [] = (tt, tt)
split-IsPlain (c ∷ t) =
    let (p, ps, e) = split_cases t in
    let rest : All IsPlain (p ∷ ps) = rw e at (split-IsPlain t) in
    elim (Bool-cases (c == slash)) [
      | inl h ↦ rw (e, h) (tt, rest)
      | inr h ↦ rw (e, h) ((h, rest.0), rest.1)
    ]

last-IsPlain : (p : Text) (ps : List Text) → All IsPlain (p ∷ ps) → IsPlain (last p ps)
unfolding last
last-IsPlain p [] plain = plain.0
last-IsPlain p (q ∷ ps) plain = last-IsPlain q ps plain.1

join-init :
    (p q : Text) (ps : List Text)
    → join (init p (q ∷ ps)) ++ slash ∷ last p (q ∷ ps) ≡ join (p ∷ q ∷ ps)
unfolding join init last
join-init p q [] = refl
join-init p q (r ∷ ps) =
    append_assoc p (slash ∷ join (init q (r ∷ ps))) (slash ∷ last q (r ∷ ps))
    ∙ ap (λ t. p ++ slash ∷ t) (join-init q r ps)

pub split_one : (t p : Text) → split t ≡ p ∷ [] → (p ≡ t) × IsPlain t
split_one t p e =
    let same : p ≡ t = sym (join-one p) ∙ ap join (sym e) ∙ join-split t in
    (same, rw same at ((rw e at (split-IsPlain t)).0))

pub split_more :
    (t p q : Text) (ps : List Text)
    → split t ≡ p ∷ q ∷ ps
    → (join (init p (q ∷ ps)) ++ slash ∷ last p (q ∷ ps) ≡ t) × IsPlain (last p (q ∷ ps))
split_more t p q ps e = (
  join-init p q ps ∙ ap join (sym e) ∙ join-split t,
  last-IsPlain p (q ∷ ps) (rw e at (split-IsPlain t)),
)
