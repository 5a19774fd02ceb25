-- ===== src/Session/Serving.antt =====
-- What `accept` gives: the queue `incoming` through every method of a session and its channels.
pub mod Methods
use qtalk.Base.{
  ℕ, ◌≡◌, refl, Bool, true, false, ◌⊎◌, inl, inr, List, [], ◌∷◌, ◌++◌, Option, none, some, All,
  All-append, Option-cases, get_elem?, if◌then◌else◌,
}
use qtalk.Base.Throws.{Error, Result, ok, err}
use qtalk.Util.Queue.{Queue, Shifted, now, waiting, push, shift}
use qtalk.Channel.{Channel, Settled}
use qtalk.Codec.{Message}
use qtalk.Session.State.{
  Session, M, continue, pure, throw, ◌>>=◌, load, store, resolve, resolve_reads, read_values,
  suspend, Outcome, read_value, opened, open_failed, accepted, closed, Task,
}
use qtalk.Session.Methods.{encode, write_buffer, remove_channel, suspend_all}
use qtalk.Session.Dispatch.{new_channel, accept_result, accept, incoming_result, push_incoming}

-- A promise of `accept` is resolved by a channel only, never by `undefined`.
abbrev pub GivesChannel : Outcome → Type 0
GivesChannel (accepted promise none) = ⊥
GivesChannel (accepted promise (some ref)) = Unit {0}
GivesChannel (read_value promise v) = Unit {0}
GivesChannel (opened promise ref) = Unit {0}
GivesChannel (open_failed promise) = Unit {0}
GivesChannel (closed promise) = Unit {0}

-- The queue is open, and does not hold channels while someone waits for one.
pub record Serves (s : Session) : Type 0 where
  pub is_open : s.incoming.closed ≡ false
  pub no_delay : (s.incoming.q ≡ []) ⊎ (s.incoming.waiters ≡ [])
  pub given : All GivesChannel s.outcomes

pub record Keeps {A : Type 0} (m : M A) : Type 0 where
  pub at : (s : Session) → Serves s → Serves (m s).1

-- A state with the same queue and outcomes.
as_before :
    (s s' : Session) → s'.incoming ≡ s.incoming → s'.outcomes ≡ s.outcomes → Serves s → Serves s'
as_before s s' queue outcomes v = record {
  is_open = rw queue v.is_open;
  no_delay = rw queue v.no_delay;
  given = rw outcomes v.given;
}

pub Keeps-pure : {A : Type 0} (a : A) → Keeps (pure a)
Keeps-pure a = record { at = λ s v. v }

pub Keeps-throw : {A : Type 0} (e : Error) → Keeps (throw {A = A} e)
Keeps-throw e = record { at = λ s v. v }

more_outcomes :
    (s : Session) (os : List Outcome)
    → Serves s
    → All GivesChannel os
    → Serves (record s { outcomes = s.outcomes ++ os })
more_outcomes s os v gives = record {
  is_open = v.is_open;
  no_delay = v.no_delay;
  given = All-append GivesChannel s.outcomes os v.given gives;
}

pub Keeps-resolve : (o : Outcome) → GivesChannel o → Keeps (resolve o)
unfolding resolve
Keeps-resolve o gives = record { at = λ s v. more_outcomes s (o ∷ []) v (gives, tt) }

read_values-GivesChannel : (xs : List Settled) → All GivesChannel (read_values xs)
read_values-GivesChannel [] = tt
read_values-GivesChannel (x ∷ xs) = (tt, read_values-GivesChannel xs)

pub Keeps-resolve_reads : (xs : List Settled) → Keeps (resolve_reads xs)
unfolding resolve_reads
Keeps-resolve_reads xs = record {
  at = λ s v. more_outcomes s (read_values xs) v (read_values-GivesChannel xs);
}

pub Keeps-suspend : (t : Task) → Keeps (suspend t)
unfolding suspend
Keeps-suspend t = record { at = λ s v. as_before s (suspend t s).1 refl refl v }

pub Keeps-suspend_all : (ts : List Task) → Keeps (suspend_all ts)
unfolding suspend_all
Keeps-suspend_all ts = record { at = λ s v. as_before s (suspend_all ts s).1 refl refl v }

pub Keeps-remove_channel : (id : ℕ) → Keeps (remove_channel id)
unfolding remove_channel
Keeps-remove_channel id = record { at = λ s v. as_before s (remove_channel id s).1 refl refl v }

pub Keeps-store : (ref : ℕ) (ch : Channel) → Keeps (store ref ch)
unfolding store
Keeps-store ref ch = record { at = λ s v. as_before s (store ref ch s).1 refl refl v }

pub Keeps-new_channel : Keeps new_channel
unfolding new_channel
Keeps-new_channel = record { at = λ s v. as_before s (new_channel s).1 refl refl v }

Keeps-write_buffer : (r : Result (List ℕ)) → Keeps (write_buffer r)
Keeps-write_buffer (err e) = Keeps-throw e
Keeps-write_buffer (ok bytes) = record {
  at = λ s v. as_before s (write_buffer (ok bytes) s).1 refl refl v;
}

pub Keeps-encode : (m : Message) → Keeps (encode m)
unfolding encode
Keeps-encode m = Keeps-write_buffer _

Keeps-continue :
    {A B : Type 0} (f : A → M B) (r : Result A × Session)
    → ((a : A) → Keeps (f a))
    → Serves r.1
    → Serves (continue f r).1
Keeps-continue f (ok a, s) kf v = (kf a).at s v
Keeps-continue f (err e, s) kf v = v

pub Keeps-bind :
    {A B : Type 0} (m : M A) (f : A → M B) → Keeps m → ((a : A) → Keeps (f a)) → Keeps (m >>= f)
Keeps-bind m f km kf = record { at = λ s v. Keeps-continue f (m s) kf (km.at s v) }

pub Keeps-if : {A : Type 0} (b : Bool) (m n : M A) → Keeps m → Keeps n → Keeps (if b then m else n)
Keeps-if true m n km kn = km
Keeps-if false m n km kn = kn

pub Keeps-load : (ref : ℕ) → Keeps (load ref)
unfolding load
Keeps-load ref = record {
  at = λ s v. elim (Option-cases (get_elem? s.objects ref)) [
    | inl e ↦ rw (e, load) v
    | inr (ch, e) ↦ rw (e, load) v
  ];
}

abbrev IsOpen : Queue ℕ ℕ → Type 0
IsOpen q = (q.closed ≡ false) × ((q.q ≡ []) ⊎ (q.waiters ≡ []))

abbrev Shifts : Queue ℕ ℕ × Shifted ℕ → Type 0
Shifts (q, now none) = ⊥
Shifts (q, now (some ref)) = IsOpen q
Shifts (q, waiting) = IsOpen q

shift-Shifts :
    (promise : ℕ) (shut : Bool) (refs promises : List ℕ)
    → shut ≡ false
    → (refs ≡ []) ⊎ (promises ≡ [])
    → Shifts (shift promise (record { q = refs; waiters = promises; closed = shut }))
unfolding shift
shift-Shifts promise true refs promises ajar either = cc
shift-Shifts promise false [] promises ajar either = (refl, inl refl)
shift-Shifts promise false (ref ∷ refs) promises ajar (inl empty) = cc
shift-Shifts promise false (ref ∷ refs) promises ajar (inr idle) = (refl, inr idle)

accept_result-Serves :
    (promise : ℕ) (r : Queue ℕ ℕ × Shifted ℕ) (s : Session)
    → Shifts r
    → Serves s
    → Serves (accept_result promise r s).1
accept_result-Serves promise (q, now none) s r v = absurd r
accept_result-Serves promise (q, now (some ref)) s r v = record {
  is_open = r.0;
  no_delay = r.1;
  given = All-append GivesChannel s.outcomes (accepted promise (some ref) ∷ []) v.given (tt, tt);
}
accept_result-Serves promise (q, waiting) s r v = record {
  is_open = r.0;
  no_delay = r.1;
  given = v.given;
}

pub Keeps-accept : (promise : ℕ) → Keeps (accept promise)
unfolding accept
Keeps-accept promise = record {
  at = λ s v.
      let q = s.incoming in
      accept_result-Serves promise (shift promise q) s
        (shift-Shifts promise q.closed q.q q.waiters v.is_open v.no_delay) v;
}

abbrev Pushes : Result (Queue ℕ ℕ × Option (ℕ × ℕ)) → Type 0
Pushes (err e) = ⊥
Pushes (ok (q, called)) = IsOpen q

push-Pushes :
    (ref : ℕ) (shut : Bool) (refs promises : List ℕ)
    → shut ≡ false
    → (refs ≡ []) ⊎ (promises ≡ [])
    → Pushes (push ref (record { q = refs; waiters = promises; closed = shut }))
unfolding push
push-Pushes ref true refs promises ajar either = cc
push-Pushes ref false refs [] ajar either = (refl, inr refl)
push-Pushes ref false refs (promise ∷ promises) ajar (inl empty) = (refl, inl empty)
push-Pushes ref false refs (promise ∷ promises) ajar (inr idle) = cc

incoming_result-Serves :
    (r : Result (Queue ℕ ℕ × Option (ℕ × ℕ))) (s : Session)
    → Pushes r
    → Serves s
    → Serves (incoming_result r s).1
incoming_result-Serves (err e) s r v = absurd r
incoming_result-Serves (ok (q, none)) s r v = record {
  is_open = r.0;
  no_delay = r.1;
  given = v.given;
}
incoming_result-Serves (ok (q, some (promise, ref))) s r v = record {
  is_open = r.0;
  no_delay = r.1;
  given = All-append GivesChannel s.outcomes (accepted promise (some ref) ∷ []) v.given (tt, tt);
}

pub Keeps-push_incoming : (ref : ℕ) → Keeps (push_incoming ref)
unfolding push_incoming
Keeps-push_incoming ref = record {
  at = λ s v.
      let q = s.incoming in
      incoming_result-Serves (push ref q) s
        (push-Pushes ref q.closed q.q q.waiters v.is_open v.no_delay) v;
}

pub ruleset serving_rules = (
  Keeps-pure, Keeps-throw, Keeps-resolve_reads, Keeps-suspend, Keeps-suspend_all, Keeps-encode,
  Keeps-remove_channel, Keeps-store, Keeps-new_channel, Keeps-load, Keeps-bind, Keeps-if,
  Keeps-accept, Keeps-push_incoming,
)
