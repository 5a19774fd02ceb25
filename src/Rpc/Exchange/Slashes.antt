-- ===== src/Rpc/Exchange/Slashes.antt =====
-- Destinations and paths that start with a slash.
use qtalk.Base.{
  ℕ, ◌≡◌, refl, sym, ap, ◌∙◌, true, false, List, [], ◌∷◌, Bool-cases, inl, inr, ◌==◌, arith,
  if◌then◌else◌,
}
use qtalk.Base.Throws.{ok, Result-cases}
use qtalk.Rpc.Text.{Text, slash, starts_with}
use qtalk.Rpc.Call.{Call, strip, new_call}
use qtalk.Rpc.Mux.{same, has_own_property, has_key, first_prefix, handler}
use qtalk.Rpc.Exchange.{Value, call_value, plain, Handler, received, respond, exchange}

-- Three slashes at the front
abbrev pub slashes : Text
slashes = slash ∷ slash ∷ slash ∷ []

-- A call takes at most one slash off.
destination_lem :
    (path : Text) (call : Call)
    → new_call path ≡ ok call
    → (c : ℕ) × (rest : Text) × (path ≡ c ∷ rest) × (call.destination ≡ strip c rest)
unfolding new_call
destination_lem [] call e = cc
destination_lem (c ∷ rest) call e = (c, rest, refl, ground arith)

plain_front :
    (d : ℕ) (more : Text) → (d == slash) ≡ false → starts_with (strip d more) (slash ∷ []) ≡ false
plain_front d more h = rw h (rw h)

stripped_twice :
    (c d : ℕ) (rest more : Text)
    → strip c rest ≡ d ∷ more
    → starts_with (c ∷ rest) slashes ≡ false
    → starts_with (strip d more) (slash ∷ []) ≡ false
stripped_twice c d rest more e off = elim (Bool-cases (c == slash)) [
  | inl h ↦ elim (Bool-cases (d == slash)) [
    | inl k ↦ let at_rest : rest ≡ d ∷ more = rw h at e in rw k (rw (at_rest, h, k) at off)
    | inr k ↦ plain_front d more k
  ]
  | inr h ↦
      let same : c ∷ rest ≡ d ∷ more = rw h at e in
      plain_front d more (ap (λ x. x == slash) (sym (ap head same)) ∙ h)
]
  where
    head : Text → ℕ
    head [] = 0
    head (x ∷ xs) = x

passes :
    (path key : Text)
    → starts_with path (slash ∷ []) ≡ false
    → starts_with key (slash ∷ []) ≡ true
    → starts_with path key ≡ false
passes path [] off k = cc
passes [] (x ∷ key) off k = refl
passes (c ∷ path) (x ∷ key) off k = ground arith

not_reserved :
    (key : Text) → starts_with key (slash ∷ []) ≡ true → same key has_own_property ≡ false
not_reserved [] e = refl
not_reserved (c ∷ key) e = ground arith

module _ {H : Type 0} where
  -- The handlers whose paths do not start with a slash.
  abbrev pub unslashed : List (Text × H) → List (Text × H)
  unslashed [] = []
  unslashed ((key, h) ∷ mux) =
      let rest = unslashed mux in if starts_with key (slash ∷ []) then rest else (key, h) ∷ rest

  first_prefix-unslashed :
      (path : Text) (mux : List (Text × H))
      → starts_with path (slash ∷ []) ≡ false
      → first_prefix path (unslashed mux) ≡ first_prefix path mux
  first_prefix-unslashed path [] off = refl
  first_prefix-unslashed path ((key, h) ∷ mux) off =
      let ih = first_prefix-unslashed path mux off in
      elim (Bool-cases (starts_with key (slash ∷ []))) [
        | inl e ↦ rw (e, passes path key off e) ih
        | inr e ↦ rw (e, ih)
      ]

  has_key-unslashed :
      (mux : List (Text × H))
      → has_key has_own_property (unslashed mux) ≡ has_key has_own_property mux
  has_key-unslashed [] = refl
  has_key-unslashed ((key, h) ∷ mux) = elim (Bool-cases (starts_with key (slash ∷ []))) [
    | inl e ↦ rw (e, not_reserved key e) (has_key-unslashed mux)
    | inr e ↦ rw (e, has_key-unslashed mux)
  ]

  handler-unslashed :
      (path : Text) (mux : List (Text × H))
      → starts_with path (slash ∷ []) ≡ false
      → handler path (unslashed mux) ≡ handler path mux
  unfolding handler
  handler-unslashed path mux off = rw (has_key-unslashed mux, first_prefix-unslashed path mux off)

module _ {A : Type 0} where
  respond-unslashed :
      (mux : List (Text × Handler A)) (path : Text) (sent : Call) (args : Value A)
      → new_call path ≡ ok sent
      → starts_with path slashes ≡ false
      → respond mux (call_value sent) args ≡ respond (unslashed mux) (call_value sent) args
  unfolding respond
  respond-unslashed mux path sent args first off = elim (Result-cases (new_call sent.destination)) [
    | inl (call, second) ↦
        let (c, rest, e, d1) = destination_lem path sent first in
        let (d, more, k, d2) = destination_lem sent.destination call second in
        let front = stripped_twice c d rest more (sym d1 ∙ k) (rw e at off) in
        rw (second, handler-unslashed call.destination mux (rw d2 front))
    | inr (thrown, second) ↦ rw second
  ]

  -- A call ends as if no handler were bound at a path that starts with a slash, whatever else is
  -- bound, unless its destination starts with three: the caller's object and the responder's take one
  -- off each. So no such handler answers a call.
  pub exchange-unslashed :
      (mux : List (Text × Handler A)) (path : Text) (args : A)
      → starts_with path slashes ≡ false
      → exchange mux path args ≡ exchange (unslashed mux) path args
  unfolding exchange
  exchange-unslashed mux path args off = elim (Result-cases (new_call path)) [
    | inl (sent, first) ↦
        rw first (ap received (respond-unslashed mux path sent (plain args) first off))
    | inr (thrown, first) ↦ rw first
  ]
