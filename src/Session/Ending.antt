-- ===== src/Session/Ending.antt =====
-- What `close` of a session leaves.
use qtalk.Base.{
  ℕ, zero, suc, ◌+◌, ◌≡◌, refl, true, List, [], ◌∷◌, none, some, length, get_elem?, set, arith,
  Option-cases, inl, inr, get_elem?_total, length-set,
}
use qtalk.Base.Throws.{Result, ok}
use qtalk.Channel.{Channel}
use qtalk.Session.State.{Session, Slot, hole, new_session}
use qtalk.Session.Table.{lookup, entry}
use qtalk.Session.Dispatch.{shutdown_found, shutdown_from, close_session}
use qtalk.Session.Invariant.{Inv, lookup-IsOwn, IsNumbered-get_elem?}
use qtalk.Session.Preserve.{Keeps-shutdown}
use qtalk.Session.Shutdown.{shutdown_lem, after_shutdown, lookup-set_hole}
use qtalk.Session.Routing.{entry_in}
use qtalk.Session.History.{Call, run, run-new_session-Inv}

-- The entries before number n are empty.
Cleared : ℕ → List Slot → Type 0
Cleared zero slots = Unit {0}
Cleared (suc n) [] = Unit {0}
Cleared (suc n) (x ∷ slots) = (entry (some x) ≡ none) × Cleared n slots

Cleared-set_hole : (n k : ℕ) (slots : List Slot) → Cleared n slots → Cleared n (set slots k hole)
unfolding Cleared
Cleared-set_hole zero k slots c = tt
Cleared-set_hole (suc n) k [] c = tt
Cleared-set_hole (suc n) zero (x ∷ slots) c = (refl, c.1)
Cleared-set_hole (suc n) (suc k) (x ∷ slots) c = (c.0, Cleared-set_hole n k slots c.1)

Cleared-suc :
    (n : ℕ) (slots : List Slot)
    → Cleared n slots
    → entry (get_elem? slots n) ≡ none
    → Cleared (suc n) slots
unfolding Cleared
Cleared-suc zero [] c e = tt
Cleared-suc zero (x ∷ slots) c e = (e, tt)
Cleared-suc (suc n) [] c e = tt
Cleared-suc (suc n) (x ∷ slots) c e = (c.0, Cleared-suc n slots c.1 e)

Cleared-entry :
    (slots : List Slot) (k : ℕ) → Cleared (length slots) slots → entry (get_elem? slots k) ≡ none
unfolding Cleared
Cleared-entry [] k c = refl
Cleared-entry (x ∷ slots) zero c = c.0
Cleared-entry (x ∷ slots) (suc k) c = Cleared-entry slots k c.1

-- One round of `close`: the entry is emptied.
abbrev Emptied : ℕ → Session → Result (Unit {0}) × Session → Type 0
Emptied id s r =
    (s' : Session) × (r ≡ (ok tt, s'))
    × Inv s'
    × Cleared (suc id) s'.channels
    × (length s'.channels ≡ length s.channels)

shutdown-Emptied :
    (s : Session) (id ref : ℕ) (ch : Channel)
    → Inv s
    → Cleared id s.channels
    → ref ≡ id
    → ch.local_id ≡ id
    → get_elem? s.objects ref ≡ some ch
    → Emptied id s (shutdown_found (some ref) s)
shutdown-Emptied s id ref ch v before at_id own holds =
    let done = shutdown_lem s ref ch holds in
    let s' = after_shutdown ref ch s in
    let kept : Inv s' = rw done at ((Keeps-shutdown ref).at s v) in
    let entry_gone : entry (get_elem? (set s.channels ch.local_id hole) id) ≡ none =
      rw own (lookup-set_hole s.channels id) in
    (
      s',
      done,
      kept,
      Cleared-suc id s'.channels (Cleared-set_hole id ch.local_id s.channels before) entry_gone,
      length-set s.channels ch.local_id hole,
    )

found-Emptied :
    (s : Session) (id : ℕ)
    → Inv s
    → Cleared id s.channels
    → Emptied id s (shutdown_found (lookup id s.channels) s)
unfolding lookup
found-Emptied s id v before = elim (Option-cases (entry (get_elem? s.channels id))) [
  | inl e ↦ rw e (s, refl, v, Cleared-suc id s.channels before e, refl)
  | inr (ref, e) ↦
      let same : ref ≡ id = omega (arith, lookup-IsOwn 0 id s.channels ref v.own e) in
      let (ch, holds) =
        get_elem?_total s.objects ref
          (omega (arith, entry_in s.channels id ref e, v.same_length, same)) in
      let own : ch.local_id ≡ id =
        omega (arith, IsNumbered-get_elem? 0 s.objects ref ch v.numbered holds, same) in
      rw e (shutdown-Emptied s id ref ch v before same own holds)
]

abbrev IsGone : Result (Unit {0}) × Session → Type 0
IsGone r = (r.0 ≡ ok tt) × Cleared (length r.1.channels) r.1.channels

shutdown_from-IsGone :
    (n id : ℕ) (s : Session)
    → Inv s
    → Cleared id s.channels
    → length s.channels ≡ id + n
    → IsGone (shutdown_from id n s)
unfolding shutdown_from
shutdown_from-IsGone zero id s v before size =
    let whole : length s.channels ≡ id = omega arith in (refl, rw whole before)
shutdown_from-IsGone (suc n) id s v before size =
    let (s', e, v', before', same) = found-Emptied s id v before in
    rw e (shutdown_from-IsGone n (suc id) s' v' before' (omega arith))

close_session-IsGone :
    (s : Session) (r : Result (Unit {0}) × Session)
    → shutdown_from 0 (length s.channels) s ≡ r
    → IsGone r
    → close_session s ≡ (ok tt, record r.1 { conn_closed = true })
unfolding close_session
close_session-IsGone s (r, t) e (fine, gone) = rw e (rw fine)

-- In any history, `close` of the session succeeds, closes the connection, and leaves no channel in
-- the table: each id that a message may still name is unknown.
pub close_session-closed :
    (calls : List Call) (id : ℕ)
    → let r = close_session (run calls new_session) in
      (r.0 ≡ ok tt) × (r.1.conn_closed ≡ true) × (lookup id r.1.channels ≡ none)
unfolding Cleared lookup
close_session-closed calls id =
    let s = run calls new_session in
    let r = shutdown_from 0 (length s.channels) s in
    let gone =
      shutdown_from-IsGone (length s.channels) 0 s (run-new_session-Inv calls) tt (omega arith) in
    rw (close_session-IsGone s r refl gone) (refl, refl, Cleared-entry r.1.channels id gone.1)
