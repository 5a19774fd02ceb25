-- ===== src/Session/Keeps.antt =====
-- The invariant through methods, one rule for each way to build one.
use qtalk.Base.{
  ℕ, ◌≡◌, ◌∙◌, length-set, Bool, true, false, List, some, Option-cases, inl, inr, get_elem?,
  if◌then◌else◌,
}
use qtalk.Base.Throws.{Error, Result, ok, err}
use qtalk.Channel.{Channel, Settled}
use qtalk.Codec.{Message}
use qtalk.Session.State.{
  Session, hole, M, continue, pure, throw, ◌>>=◌, load, store, resolve, resolve_reads, suspend,
  Outcome, Task,
}
use qtalk.Session.Table.{rm_ch}
use qtalk.Session.Methods.{encode, write_buffer, remove_channel, suspend_all}
use qtalk.Session.Invariant.{Inv, Inv-store, IsOwn-set_hole}

pub record Keeps {A : Type 0} (m : M A) : Type 0 where
  pub at : (s : Session) → Inv s → Inv (m s).1

-- As `Keeps`, from states in which the object `ref` is `ch`.
pub record KeepsAt {A : Type 0} (ref : ℕ) (ch : Channel) (m : M A) : Type 0 where
  pub at : (s : Session) → Inv s → get_elem? s.objects ref ≡ some ch → Inv (m s).1

pub Keeps-pure : {A : Type 0} (a : A) → Keeps (pure a)
Keeps-pure a = record { at = λ s v. v }

pub Keeps-throw : {A : Type 0} (e : Error) → Keeps (throw {A = A} e)
Keeps-throw e = record { at = λ s v. v }

pub Keeps-resolve : (o : Outcome) → Keeps (resolve o)
unfolding resolve
Keeps-resolve o = record {
  at = λ s v. record { numbered = v.numbered; own = v.own; same_length = v.same_length };
}

pub Keeps-resolve_reads : (xs : List Settled) → Keeps (resolve_reads xs)
unfolding resolve_reads
Keeps-resolve_reads xs = record {
  at = λ s v. record { numbered = v.numbered; own = v.own; same_length = v.same_length };
}

pub Keeps-suspend : (t : Task) → Keeps (suspend t)
unfolding suspend
Keeps-suspend t = record {
  at = λ s v. record { numbered = v.numbered; own = v.own; same_length = v.same_length };
}

pub Keeps-suspend_all : (ts : List Task) → Keeps (suspend_all ts)
unfolding suspend_all
Keeps-suspend_all ts = record {
  at = λ s v. record { numbered = v.numbered; own = v.own; same_length = v.same_length };
}

Keeps-write_buffer : (r : Result (List ℕ)) → Keeps (write_buffer r)
Keeps-write_buffer (err e) = Keeps-throw e
Keeps-write_buffer (ok bytes) = record {
  at = λ s v. record { numbered = v.numbered; own = v.own; same_length = v.same_length };
}

pub Keeps-encode : (m : Message) → Keeps (encode m)
unfolding encode
Keeps-encode m = Keeps-write_buffer _

pub Keeps-remove_channel : (id : ℕ) → Keeps (remove_channel id)
unfolding remove_channel rm_ch
Keeps-remove_channel id = record {
  at = λ s v. record {
    numbered = v.numbered;
    own = IsOwn-set_hole 0 s.channels id v.own;
    same_length = length-set s.channels id hole ∙ v.same_length;
  };
}

-- Rules for binds.
Keeps-continue :
    {A B : Type 0} (f : A → M B) (r : Result A × Session)
    → ((a : A) → Keeps (f a))
    → Inv r.1
    → Inv (continue f r).1
Keeps-continue f (ok a, s) kf v = (kf a).at s v
Keeps-continue f (err e, s) kf v = v

pub Keeps-bind :
    {A B : Type 0} (m : M A) (f : A → M B) → Keeps m → ((a : A) → Keeps (f a)) → Keeps (m >>= f)
Keeps-bind m f km kf = record { at = λ s v. Keeps-continue f (m s) kf (km.at s v) }

pub Keeps-if : {A : Type 0} (b : Bool) (m n : M A) → Keeps m → Keeps n → Keeps (if b then m else n)
Keeps-if true m n km kn = km
Keeps-if false m n km kn = kn

pub KeepsAt-if :
    {A : Type 0} {ref : ℕ} {ch : Channel} (b : Bool) (m n : M A)
    → KeepsAt ref ch m
    → KeepsAt ref ch n
    → KeepsAt ref ch (if b then m else n)
KeepsAt-if true m n km kn = km
KeepsAt-if false m n km kn = kn

pub KeepsAt-of : {A : Type 0} {ref : ℕ} {ch : Channel} {m : M A} → Keeps m → KeepsAt ref ch m
KeepsAt-of k = record { at = λ s v e. k.at s v }

-- An object is replaced by one with the same `localId`.
pub KeepsAt-store :
    {ref : ℕ} {ch : Channel} (ch' : Channel)
    → ch'.local_id ≡ ch.local_id
    → KeepsAt ref ch (store ref ch')
KeepsAt-store {ref} {ch} ch' same = record { at = λ s v e. Inv-store s ref ch ch' v e same }

pub KeepsAt-bind :
    {A B : Type 0} {ref : ℕ} {ch : Channel} (m : M A) (f : A → M B)
    → KeepsAt ref ch m
    → ((a : A) → Keeps (f a))
    → KeepsAt ref ch (m >>= f)
KeepsAt-bind m f km kf = record { at = λ s v e. Keeps-continue f (m s) kf (km.at s v e) }

pub Keeps-load :
    {B : Type 0} (ref : ℕ) (f : Channel → M B)
    → ((ch : Channel) → KeepsAt ref ch (f ch))
    → Keeps (load ref >>= f)
unfolding load
Keeps-load ref f kf = record {
  at = λ s v. elim (Option-cases (get_elem? s.objects ref)) [
    | inl e ↦ rw (e, load) v
    | inr (ch, e) ↦ rw (e, load) ((kf ch).at s v e)
  ];
}

pub ruleset keeps_rules = (
  Keeps-pure, Keeps-throw, Keeps-resolve, Keeps-resolve_reads, Keeps-suspend, Keeps-suspend_all,
  Keeps-encode, Keeps-remove_channel, Keeps-bind, Keeps-if, KeepsAt-if, KeepsAt-of, KeepsAt-store,
  KeepsAt-bind, Keeps-load,
)
