-- ===== src/Session/History.antt =====
-- Histories of a session: any sequence of calls, of messages and of resumed tasks.
use qtalk.Base.{ℕ, zero, suc, List, [], ◌∷◌, Option, none, some, get_elem?}
use qtalk.Codec.{Message}
use qtalk.Session.State.{Session, M, pure, Task, new_session}
use qtalk.Session.Methods.{read, write, close_write, close}
use qtalk.Session.Dispatch.{open_channel, accept, close_session, dispatch, resume}
use qtalk.Session.Invariant.{Inv, Inv-new_session}
use qtalk.Session.Preserve.{Keeps-read, Keeps-write, Keeps-close_write, Keeps-close}
use qtalk.Session.Preserve.Loop.{
  Keeps-open_channel, Keeps-accept, Keeps-close_session, Keeps-dispatch, Keeps-resume,
}
use qtalk.Session.Keeps.{Keeps, Keeps-pure}

-- Calls name their channel by its object, and their promise. A task is named by its place.
pub data Call : Type 0 where
  opens accepts : ℕ → Call
  reads : ℕ → ℕ → ℕ → Call
  writes : ℕ → List ℕ → Call
  closes_write : ℕ → Call
  closes : ℕ → ℕ → Call
  closes_session : Call
  gets : Message → Call
  resumes : ℕ → Call

abbrev pub take_out : ℕ → List Task → List Task
take_out n [] = []
take_out zero (t ∷ ts) = ts
take_out (suc n) (t ∷ ts) = t ∷ take_out n ts

abbrev pub resume_found : Option Task → M (Unit {0})
resume_found none = pure tt
resume_found (some t) = resume t

unfoldable pub call : Call → M (Unit {0})
call (opens promise) = open_channel promise
call (accepts promise) = accept promise
call (reads ref promise len) = read ref promise len
call (writes ref buffer) = write ref buffer
call (closes_write ref) = close_write ref
call (closes ref promise) = close ref (some promise)
call closes_session = close_session
call (gets message) = dispatch message
call (resumes n) = λ s. resume_found (get_elem? s.tasks n) (record s { tasks = take_out n s.tasks })

-- Whatever a call throws goes to its caller; the session goes on.
unfoldable pub run : List Call → Session → Session
run [] s = s
run (c ∷ cs) s = run cs (call c s).1

Keeps-resume_found : (t : Option Task) → Keeps (resume_found t)
Keeps-resume_found none = Keeps-pure tt
Keeps-resume_found (some t) = Keeps-resume t

Keeps-call : (c : Call) → Keeps (call c)
unfolding call
Keeps-call (opens promise) = Keeps-open_channel promise
Keeps-call (accepts promise) = Keeps-accept promise
Keeps-call (reads ref promise len) = Keeps-read ref promise len
Keeps-call (writes ref buffer) = Keeps-write ref buffer
Keeps-call (closes_write ref) = Keeps-close_write ref
Keeps-call (closes ref promise) = Keeps-close ref (some promise)
Keeps-call closes_session = Keeps-close_session
Keeps-call (gets message) = Keeps-dispatch message
Keeps-call (resumes n) = record {
  at = λ s v.
      (Keeps-resume_found (get_elem? s.tasks n)).at (record s { tasks = take_out n s.tasks })
        (record { numbered = v.numbered; own = v.own; same_length = v.same_length });
}

pub run-Inv : (cs : List Call) (s : Session) → Inv s → Inv (run cs s)
unfolding run
run-Inv [] s v = v
run-Inv (c ∷ cs) s v = run-Inv cs (call c s).1 ((Keeps-call c).at s v)

-- In any history of a session the table and the channels agree: the channel made as number i has
-- the local id i, and the table holds at i that channel or nothing.
pub run-new_session-Inv : (cs : List Call) → Inv (run cs new_session)
run-new_session-Inv cs = run-Inv cs new_session Inv-new_session
