-- ===== src/Base/Throws.antt =====
-- What JavaScript code throws, as values: the texts of the `throw` and `Promise.reject` calls of
-- javascript/mux and javascript/rpc, and the exceptions of the language itself.
use mathlib.Core.Path.{◌≡◌, refl}
use mathlib.Core.Logic.{◌⊎◌, inl, inr}
use Prim.Native.Nat.{ℕ}
use mathlib.Core.Option.{Option}

pub data Error : Type 0 where
  range_error type_error syntax_error : Error
  closed_queue eof_sent : Error
  payload_too_large wrote_too_much invalid_max_packet : Error
  invalid_channel unexpected_eof failed_to_open : Error
  bad_packet : Option ℕ → Error
  unknown_type : Error
  no_destination not_exportable : Error

-- How a call ends: with what it returns, or with what it throws.
pub data Result {ℓ} (A : Type ℓ) : Type ℓ where
  err : Error → Result A
  ok : A → Result A

infixl 5 ◌>>=◌
abbrev pub ◌>>=◌ {ℓ κ} : {A : Type ℓ} {B : Type κ} → Result A → (A → Result B) → Result B
◌>>=◌ (err thrown) rest = err thrown
◌>>=◌ (ok value) rest = rest value

pub Result-cases {ℓ} :
    {A : Type ℓ} (r : Result A) → ((a : A) × (r ≡ ok a)) ⊎ ((e : Error) × (r ≡ err e))
Result-cases (ok a) = inl (a, refl)
Result-cases (err e) = inr (e, refl)

pub >>=-eq-ok {ℓ κ} :
    {A : Type ℓ} {B : Type κ} (r : Result A) (f : A → Result B) {b : B}
    → (r >>= f) ≡ ok b
    → (a : A) × (r ≡ ok a) × (f a ≡ ok b)
>>=-eq-ok (ok a) f h = (a, refl, h)
>>=-eq-ok (err e) f h = cc
