-- ===== src/Session/State.antt =====
-- The state that a session and its channels share, and methods that may throw.
use qtalk.Base.{ℕ, Bool, false, List, [], ◌∷◌, ◌++◌, Option, none, some, get_elem?, set}
use qtalk.Base.Throws.{Error, Result, ok, err, type_error}
use qtalk.Util.Queue.{Queue, new_queue}
use qtalk.Channel.{Channel, Waker, Settled}

-- An entry of the array `channels`: none at all (after `delete`), `undefined` assigned to it, or a
-- channel object, by its place in `objects`.
pub data Slot : Type 0 where
  hole unset : Slot
  object : ℕ → Slot

-- How promises that the session gave out were resolved.
pub data Outcome : Type 0 where
  read_value : ℕ → Option (List ℕ) → Outcome
  opened : ℕ → ℕ → Outcome
  open_failed : ℕ → Outcome
  accepted : ℕ → Option ℕ → Outcome
  closed : Option ℕ → Outcome

-- The rest of an `async` method, waiting for its `await`: `open` and `close` behind their write,
-- and whoever a `ready` queue has called, with the value.
pub data Task : Type 0 where
  open_written : ℕ → ℕ → Task
  close_written : ℕ → Option ℕ → Task
  woken : ℕ → Waker → Option Bool → Task

pub record Session : Type 0 where
  -- every channel object made by `newChannel`, in order; a channel is named by its place here
  pub objects : List Channel
  pub channels : List Slot
  -- objects that wait to be accepted, and promises of `accept` that wait for one
  pub incoming : Queue ℕ ℕ
  -- the buffers that `conn.write` was given, and whether `conn.close` was called
  pub written : List (List ℕ)
  pub conn_closed : Bool
  pub tasks : List Task
  pub outcomes : List Outcome

unfoldable pub new_session : Session
unfolding new_queue
new_session = record {
  objects = [];
  channels = [];
  incoming = new_queue;
  written = [];
  conn_closed = false;
  tasks = [];
  outcomes = [];
}

-- What was changed before a throw stays changed.
abbrev pub M : Type 0 → Type 0
M A = Session → Result A × Session

abbrev pub pure : {A : Type 0} → A → M A
pure a s = (ok a, s)

abbrev pub throw : {A : Type 0} → Error → M A
throw e s = (err e, s)

abbrev pub continue : {A B : Type 0} → (A → M B) → Result A × Session → Result B × Session
continue f (ok a, s) = f a s
continue f (err e, s) = (err e, s)

infixl 5 ◌>>=◌ ◌>>◌
abbrev pub ◌>>=◌ : {A B : Type 0} → M A → (A → M B) → M B
◌>>=◌ m f s = continue f (m s)

abbrev pub ◌>>◌ : {B : Type 0} → M (Unit {0}) → M B → M B
m >> k = m >>= λ _. k

abbrev lift_option : {A : Type 0} → Option A → M A
lift_option none = throw type_error
lift_option (some a) = pure a

-- A channel object. Every reference in the state is to an object that was made.
unfoldable pub load : ℕ → M Channel
load ref s = lift_option (get_elem? s.objects ref) s

unfoldable pub store : ℕ → Channel → M (Unit {0})
store ref ch s = (ok tt, record s { objects = set s.objects ref ch })

unfoldable pub resolve : Outcome → M (Unit {0})
resolve o s = (ok tt, record s { outcomes = s.outcomes ++ o ∷ [] })

abbrev pub read_values : List Settled → List Outcome
read_values [] = []
read_values (x ∷ xs) = read_value x.promise x.value ∷ read_values xs

unfoldable pub resolve_reads : List Settled → M (Unit {0})
resolve_reads xs s = (ok tt, record s { outcomes = s.outcomes ++ read_values xs })

unfoldable pub suspend : Task → M (Unit {0})
suspend t s = (ok tt, record s { tasks = s.tasks ++ t ∷ [] })
