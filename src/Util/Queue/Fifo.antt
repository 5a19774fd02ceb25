-- ===== src/Util/Queue/Fifo.antt =====
-- The queue against its specification: the n-th `shift` receives the n-th object pushed, whichever
-- of the two comes first.
use qtalk.Base.{
  ◌≡◌, refl, sym, ap, false, List, [], ◌∷◌, ◌++◌, Option, none, some, arith, append_assoc,
}
use qtalk.Base.Throws.{Result, ok, err, closed_queue}
use qtalk.Util.Queue.{
  Queue, Shifted, now, waiting, new_queue, push, shift, close, IsBalanced, no_objects, no_waiters,
}

pub data Op (A W : Type 0) : Type 0 where
  pushes : A → Op A W
  shifts : W → Op A W

module _ {A W : Type 0} where
  -- What one operation delivers, and the queue after it.
  abbrev pushed : Queue A W → Result (Queue A W × Option (W × A)) → Queue A W × List (W × A)
  pushed s (err e) = (s, [])
  pushed s (ok (s', none)) = (s', [])
  pushed s (ok (s', some delivery)) = (s', delivery ∷ [])

  abbrev shifted : W → Queue A W × Shifted A → Queue A W × List (W × A)
  shifted w (s, now (some a)) = (s, (w, a) ∷ [])
  shifted w (s, now none) = (s, [])
  shifted w (s, waiting) = (s, [])

  unfoldable pub step : Op A W → Queue A W → Queue A W × List (W × A)
  step (pushes a) s = pushed s (push a s)
  step (shifts w) s = shifted w (shift w s)

  unfoldable pub run : List (Op A W) → Queue A W → Queue A W × List (W × A)
  run [] s = (s, [])
  run (op ∷ ops) s =
      let (s', first) = step op s in let (s'', rest) = run ops s' in (s'', first ++ rest)

  abbrev pub objects : List (Op A W) → List A
  objects [] = []
  objects (pushes a ∷ ops) = a ∷ objects ops
  objects (shifts w ∷ ops) = objects ops

  abbrev pub readers : List (Op A W) → List W
  readers [] = []
  readers (pushes a ∷ ops) = readers ops
  readers (shifts w ∷ ops) = w ∷ readers ops

  -- The first reader with the first object, and so on, as far as both lists go.
  abbrev pub pairs : List W → List A → List (W × A)
  pairs [] objs = []
  pairs (w ∷ ws) [] = []
  pairs (w ∷ ws) (a ∷ objs) = (w, a) ∷ pairs ws objs

  pairs-nil : (ws : List W) → pairs ws [] ≡ []
  pairs-nil [] = refl
  pairs-nil (w ∷ ws) = refl

  -- An open queue with these contents.
  abbrev holding : List A → List W → Queue A W
  holding q ws = record { q = q; waiters = ws; closed = false }

  not_both : {x : A} {q : List A} {w : W} {ws : List W} → ¬ IsBalanced (holding (x ∷ q) (w ∷ ws))
  not_both (no_objects e) = cc
  not_both (no_waiters e) = cc

  run-pairs :
      (ops : List (Op A W)) (q : List A) (ws : List W)
      → IsBalanced (holding q ws)
      → (run ops (holding q ws)).1 ≡ pairs (ws ++ readers ops) (q ++ objects ops)
  unfolding run step push shift
  run-pairs [] [] ws b = sym (pairs-nil (ws ++ []))
  run-pairs [] (x ∷ q) [] b = refl
  run-pairs ops (x ∷ q) (w ∷ ws) b = absurd (not_both b)
  run-pairs (pushes a ∷ ops) [] [] b = run-pairs ops (a ∷ []) [] (no_waiters refl)
  run-pairs (pushes a ∷ ops) [] (w ∷ ws) b = ap (◌∷◌ (w, a)) (run-pairs ops [] ws (no_objects refl))
  run-pairs (pushes a ∷ ops) (x ∷ q) [] b =
      rw (append_assoc (x ∷ q) (a ∷ []) (objects ops)) at
        (run-pairs ops (x ∷ q ++ a ∷ []) [] (no_waiters refl))
  run-pairs (shifts w ∷ ops) [] ws b =
      rw (append_assoc ws (w ∷ []) (readers ops)) at
        (run-pairs ops [] (ws ++ w ∷ []) (no_objects refl))
  run-pairs (shifts w ∷ ops) (x ∷ q) [] b = ap (◌∷◌ (w, x)) (run-pairs ops q [] (no_waiters refl))

  -- From a new queue, the n-th call of `shift` is resolved with the n-th object pushed, in that
  -- order, and no call or object is skipped, whatever the order of the calls.
  pub run-new_queue :
      (ops : List (Op A W)) → (run ops new_queue).1 ≡ pairs (readers ops) (objects ops)
  unfolding new_queue
  run-new_queue ops = run-pairs ops [] [] (no_objects refl)

  -- After `close` each reader that waited is told `undefined`, later ones are at once, and an
  -- object can no longer be pushed; a second `close` does nothing.
  pub close_lem :
      (s : Queue A W) (a : A) (w : W)
      → s.closed ≡ false
      → ((close s).1 ≡ s.waiters)
        × (push a (close s).0 ≡ err closed_queue)
        × (shift w (close s).0 ≡ ((close s).0, now none))
        × (close (close s).0 ≡ ((close s).0, []))
  unfolding close push shift
  close_lem s a w opened = ground arith
