-- ===== src/Util/Queue.antt =====
-- javascript/mux/util.ts: the `queue` class. A value of `A` is what is queued, and a value of `W`
-- stands for the `resolve` function of a promise that waits.
pub mod Fifo
use qtalk.Base.{◌≡◌, Bool, true, false, List, [], ◌∷◌, ◌++◌, Option, none, some, if◌then◌else◌}
use qtalk.Base.Throws.{Result, ok, err, closed_queue}

pub record Queue (A W : Type 0) : Type 0 where
  pub q : List A
  pub waiters : List W
  pub closed : Bool

-- How the promise of a `shift` stands: resolved, by `none` for `undefined`, or waiting.
pub data Shifted (A : Type 0) : Type 0 where
  now : Option A → Shifted A
  waiting : Shifted A

module _ {A W : Type 0} where
  unfoldable pub new_queue : Queue A W
  new_queue = record { q = []; waiters = []; closed = false }

  -- The first waiter is called with the object, if there is one.
  abbrev hand_over : A → Queue A W → List W → Queue A W × Option (W × A)
  hand_over obj s [] = (record s { q = s.q ++ obj ∷ [] }, none)
  hand_over obj s (waiter ∷ rest) = (record s { waiters = rest }, some (waiter, obj))

  unfoldable pub push : A → Queue A W → Result (Queue A W × Option (W × A))
  push obj s = if s.closed then err closed_queue else ok (hand_over obj s s.waiters)

  abbrev take_first : W → Queue A W → List A → Queue A W × Shifted A
  take_first resolve s [] = (record s { waiters = s.waiters ++ resolve ∷ [] }, waiting)
  take_first resolve s (obj ∷ rest) = (record s { q = rest }, now (some obj))

  unfoldable pub shift : W → Queue A W → Queue A W × Shifted A
  shift resolve s = if s.closed then (s, now none) else take_first resolve s s.q

  -- The waiters that are called with `undefined`. They stay in the list.
  unfoldable pub close : Queue A W → Queue A W × List W
  close s = if s.closed then (s, []) else (record s { closed = true }, s.waiters)

  -- Objects and waiters are never queued at once.
  pub data IsBalanced (s : Queue A W) : Type 0 where
    no_objects : s.q ≡ [] → IsBalanced s
    no_waiters : s.waiters ≡ [] → IsBalanced s
