-- ===== src/Legacy/Listener/Serving.antt =====
-- Which sessions `Server.serve` serves.
use qtalk.Base.{
  ◌≡◌, refl, sym, ap, ◌∙◌, Bool, true, false, List, [], ◌∷◌, ◌++◌, All, append_assoc, append-nil,
  arith,
}
use qtalk.Util.Queue.{new_queue, push, shift, close}
use qtalk.Legacy.Listener.{
  Phase, turning, awaiting, returned, Server, Event, connects, closes, resumes, new_server, resume,
  accept, on_connection, on_close, step, run,
}

module _ {C : Type 0} where
  abbrev pub is_closes : Event C → Bool
  is_closes (connects c) = false
  is_closes closes = true
  is_closes resumes = false

  abbrev pub connections : List (Event C) → List C
  connections [] = []
  connections (connects c ∷ es) = c ∷ connections es
  connections (closes ∷ es) = connections es
  connections (resumes ∷ es) = connections es

-- The states of an open server: the loop has a turn, or waits in front of an empty queue.
data Open (C : Type 0) : Type 0 where
  turned : List C → List C → Open C
  awaited : List C → Open C

module _ {C : Type 0} where
  abbrev state : Open C → Server C
  state (turned served q) = record {
    listener = record { pending = record { q = q; waiters = []; closed = false } };
    phase = turning;
    served = served;
  }
  state (awaited served) = record {
    listener = record { pending = record { q = []; waiters = 0 ∷ []; closed = false } };
    phase = awaiting;
    served = served;
  }

  abbrev taken : Open C → List C
  taken (turned served q) = served ++ q
  taken (awaited served) = served

  -- The next state of an open server
  abbrev next : Event C → Open C → Open C
  next (connects c) (turned served q) = turned served (q ++ c ∷ [])
  next (connects c) (awaited served) = turned (served ++ c ∷ []) []
  next closes o = o
  next resumes (turned served []) = awaited served
  next resumes (turned served (c ∷ q)) = turned (served ++ c ∷ []) q
  next resumes (awaited served) = awaited served

  step-next : (e : Event C) (o : Open C) → is_closes e ≡ false → step e (state o) ≡ state (next e o)
  unfolding step on_connection accept push shift
  step-next (connects c) (turned served q) early = refl
  step-next (connects c) (awaited served) early = refl
  step-next closes o early = cc
  step-next resumes (turned served []) early = refl
  step-next resumes (turned served (c ∷ q)) early = refl
  step-next resumes (awaited served) early = refl

  taken-next : (e : Event C) (o : Open C) → taken (next e o) ≡ taken o ++ connections (e ∷ [])
  taken-next (connects c) (turned served q) = sym (append_assoc served q (c ∷ []))
  taken-next (connects c) (awaited served) = append-nil (served ++ c ∷ [])
  taken-next closes o = sym (append-nil (taken o))
  taken-next resumes (turned served []) = sym (append-nil (served ++ []) ∙ append-nil served)
  taken-next resumes (turned served (c ∷ q)) =
      append_assoc served (c ∷ []) q ∙ sym (append-nil (served ++ c ∷ q))
  taken-next resumes (awaited served) = sym (append-nil served)

  connections-cons :
      (e : Event C) (es : List (Event C))
      → connections (e ∷ []) ++ connections es ≡ connections (e ∷ es)
  connections-cons (connects c) es = refl
  connections-cons closes es = refl
  connections-cons resumes es = refl

  run-state :
      (es : List (Event C)) (o : Open C)
      → All (λ e. is_closes e ≡ false) es
      → (o' : Open C) × (run es (state o) ≡ state o') × (taken o' ≡ taken o ++ connections es)
  unfolding run
  run-state [] o early = (o, refl, sym (append-nil (taken o)))
  run-state (e ∷ es) o early =
      let (o', ran, took) = run-state es (next e o) early.1 in
      (
        o',
        ap (run es) (step-next e o early.0) ∙ ran,
        took
            ∙ ap (λ cs. cs ++ connections es) (taken-next e o)
            ∙ append_assoc (taken o) (connections (e ∷ [])) (connections es)
            ∙ ap (◌++◌ (taken o)) (connections-cons e es),
      )

  -- A closed server whose loop has returned
  abbrev IsOver : Server C → Type 0
  IsOver s = (s.listener.pending.closed ≡ true) × (s.phase ≡ returned)

  resume_over : (p : Phase) (s : Server C) → p ≡ returned → resume p s ≡ s
  unfolding resume
  resume_over turning s e = cc
  resume_over awaiting s e = refl
  resume_over returned s e = refl

  step-IsOver :
      (e : Event C) (s : Server C) → IsOver s → IsOver (step e s) × ((step e s).served ≡ s.served)
  unfolding step on_connection on_close push close
  step-IsOver (connects c) s (shut, over) = ground arith
  step-IsOver closes s (shut, over) = ground arith
  step-IsOver resumes s (shut, over) = rw (resume_over s.phase s over) ((shut, over), refl)

  run-IsOver :
      (es : List (Event C)) (s : Server C)
      → IsOver s
      → ((run es s).served ≡ s.served) × ((run es s).phase ≡ returned)
  unfolding run
  run-IsOver [] s over = (refl, over.1)
  run-IsOver (e ∷ es) s over =
      let (over', same) = step-IsOver e s over in
      let (same', end) = run-IsOver es (step e s) over' in (same' ∙ same, end)

  -- The server of node closes, and the loop goes on.
  abbrev pub shut : Server C → Server C
  shut s = step resumes (step closes s)

  shut-IsOver :
      (o : Open C) → IsOver (shut (state o)) × ((shut (state o)).served ≡ (state o).served)
  unfolding step on_close accept shift close
  shut-IsOver (turned served q) = ((refl, refl), refl)
  shut-IsOver (awaited served) = ((refl, refl), refl)

  served-taken : (o : Open C) → (state o).served ++ (state o).listener.pending.q ≡ taken o
  served-taken (turned served q) = refl
  served-taken (awaited served) = append-nil served

  -- Up to the close of the server of node, the sessions that `Server.serve` has served and those that
  -- wait in the queue are those of all connections, in their order. Once it has closed and the loop has
  -- had a turn, the loop has returned and serves no session any more, those in the queue included,
  -- whatever events follow.
  pub run-new_server :
      (before after : List (Event C))
      → All (λ e. is_closes e ≡ false) before
      → ((run before new_server).served ++ (run before new_server).listener.pending.q
          ≡ connections before)
        × ((run after (shut (run before new_server))).served ≡ (run before new_server).served)
        × ((run after (shut (run before new_server))).phase ≡ returned)
  unfolding new_queue
  run-new_server before after early =
      let (o, ran, took) = run-state before (turned [] []) early in
      let (over, same) = shut-IsOver o in
      let (kept, end) = run-IsOver after (shut (state o)) over in
      rw ran (served-taken o ∙ took, kept ∙ same, end)
