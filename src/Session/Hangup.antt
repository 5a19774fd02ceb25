-- ===== src/Session/Hangup.antt =====
-- A channel that both sides close, as the two sides of a call in javascript/rpc do.
use qtalk.Base.{
  ℕ, ◌≡◌, refl, ap, ◌∙◌, true, false, List, [], ◌∷◌, ◌++◌, Option, none, some, set,
  get_elem?-set_self, get_elem?_in, set-set, append_assoc, length, ◌<◌,
}
use qtalk.Base.Throws.{ok}
use qtalk.Bytes.{IsU32}
use qtalk.Util.Queue.{Queue, shift}
use qtalk.Util.Queue
use qtalk.Channel.{Channel, closer}
use qtalk.Codec.{close_message}
use qtalk.Codec.Marshal.{wire}
use qtalk.Session.State.{
  Session, Outcome, load, store, resolve, closed, close_written, woken, read_values,
}
use qtalk.Session.Table.{lookup}
use qtalk.Session.Methods.{close}
use qtalk.Session.Dispatch.{dispatch, resume, shift_ready}
use qtalk.Session.Shutdown.{
  Holds, after_close, after_shutdown, close_first_lem, told, close_second_lem,
}
use qtalk.Session.Closing.{IsLinked, dispatch_close_lem, removed, resume_closed, closed_queue}

-- The rest of `close` finds the ready queue empty, and waits.
abbrev waiting_channel : Option ℕ → Channel → Channel
waiting_channel promise ch = record ch {
  sent_close = true;
  ready = record ch.ready { waiters = ch.ready.waiters ++ closer promise ∷ [] };
}

resume_waits :
    (s : Session) (ref : ℕ) (promise : Option ℕ) (ch : Channel)
    → Holds s ref ch
    → ch.ready.closed ≡ false
    → ch.ready.q ≡ []
    → resume (close_written ref promise) s
      ≡ (ok tt, record s { objects = set s.objects ref (waiting_channel promise ch) })
unfolding resume shift_ready load store shift
resume_waits s ref promise ch at open_queue empty =
    rw (at, load)
      (rw
        (
          get_elem?-set_self s.objects ref (record ch { sent_close = true })
              (get_elem?_in s.objects ref ch at),
          load,
        )
        (rw (open_queue, empty, set-set s.objects ref) refl))

-- The channel's own session at the end: its side has written one close message, its entry is gone, its
-- readers are told, and then the promises of the calls of `close` are resolved.
abbrev pub IsHungUp : ℕ → ℕ → Channel → List Outcome → Session → Session → Type 0
IsHungUp id other ch ends s s' =
    (s'.written ≡ s.written ++ wire (close_message other) ∷ [])
    × (lookup id s'.channels ≡ none)
    × (s'.outcomes ≡ (s.outcomes ++ read_values (told ch.readers)) ++ ends)

module _ (s : Session) (id other promise : ℕ) (ch : Channel) (l : IsLinked s id other ch)
    (small : IsU32 other) where
  abbrev closing : Channel
  closing = record ch { sent_close = true }

  in_range : id < length s.objects
  in_range = get_elem?_in s.objects id ch l.holds

  own_close : close id (some promise) s ≡ (ok tt, after_close id (some promise) ch s)
  own_close = close_first_lem s id (some promise) ch l.holds l.fresh (rw l.names small)

  message_first :
      let s1 = (dispatch (close_message id) s).1 in
      let s2 = (close id (some promise) s1).1 in
      IsHungUp id other ch (closed (some promise) ∷ []) s s2
  message_first =
      let at = get_elem?-set_self s.objects id closing in_range in
      rw
        (
          dispatch_close_lem s id id l.listed,
          close_first_lem s id none ch l.holds l.fresh (rw l.names small),
          close_second_lem (after_close id none ch s) id (some promise) closing at refl,
        )
        (ap (λ x. s.written ++ wire (close_message x) ∷ []) l.names, removed s ch id l, refl)

  asked_first :
      let s1 = (close id (some promise) s).1 in
      let s2 = (dispatch (close_message id) s1).1 in
      let s3 = (resume (close_written id (some promise)) s2).1 in
      IsHungUp id other ch (closed none ∷ closed (some promise) ∷ []) s s3
  asked_first =
      let at = get_elem?-set_self s.objects id closing in_range in
      let s1 = after_close id (some promise) ch s in
      let shut = record closing { read_buf = none; ready = (Queue.close closing.ready).0 } in
      let s2 = record (after_shutdown id closing s1) {
        outcomes = (s.outcomes ++ read_values (told ch.readers)) ++ closed none ∷ [];
      } in
      let at2 = get_elem?-set_self s1.objects id shut (get_elem?_in s1.objects id closing at) in
      let (wrote, kept, told_last) =
        resume_closed s2 id (some promise) shut at2 (closed_queue ch.ready l.waits) in
      rw
        (
          own_close,
          dispatch_close_lem s1 id id l.listed,
          close_second_lem s1 id none closing at refl,
        )
        (
          wrote ∙ ap (λ x. s.written ++ wire (close_message x) ∷ []) l.names,
          ap (lookup id) kept ∙ removed s ch id l,
          told_last
              ∙ append_assoc (s.outcomes ++ read_values (told ch.readers)) (closed none ∷ [])
                  (closed (some promise) ∷ []),
        )

  went_on_first :
      ch.ready.q ≡ []
      → let s1 = (close id (some promise) s).1 in
        let s2 = (resume (close_written id (some promise)) s1).1 in
        let s3 = (dispatch (close_message id) s2).1 in
        let s4 = (resume (woken id (closer (some promise)) none) s3).1 in
        IsHungUp id other ch (closed none ∷ closed (some promise) ∷ []) s s4
  unfolding resume resolve
  went_on_first empty =
      let at = get_elem?-set_self s.objects id closing in_range in
      let s1 = after_close id (some promise) ch s in
      let waits = waiting_channel (some promise) closing in
      let s2 = record s1 { objects = set s1.objects id waits } in
      let at2 = get_elem?-set_self s1.objects id waits (get_elem?_in s1.objects id closing at) in
      rw
        (
          own_close,
          resume_waits s1 id (some promise) closing at l.waits empty,
          dispatch_close_lem s2 id id l.listed,
          close_second_lem s2 id none waits at2 refl,
        )
        (
          ap (λ x. s.written ++ wire (close_message x) ∷ []) l.names,
          removed s ch id l,
          append_assoc (s.outcomes ++ read_values (told ch.readers)) (closed none ∷ [])
              (closed (some promise) ∷ []),
        )

-- A linked channel that is closed by its own side and by the close message of the other, in either order,
-- and where its own `close` comes first, whether that goes on before or after the message: in each case
-- one close message is written, the entry goes, the readers are told, and the promise of `close` is
-- resolved, so that a call whose two sides both close leaves nothing behind.
pub close-IsHungUp :
    (s : Session) (id other promise : ℕ) (ch : Channel)
    → IsLinked s id other ch
    → IsU32 other
    → ch.ready.q ≡ []
    → let told_first = (dispatch (close_message id) s).1 in
      let asked = (close id (some promise) s).1 in
      let waits = (resume (close_written id (some promise)) asked).1 in
      IsHungUp id other ch (closed (some promise) ∷ []) s (close id (some promise) told_first).1
      × IsHungUp id other ch
          (closed none ∷ closed (some promise) ∷ [])
          s
          (resume (close_written id (some promise)) (dispatch (close_message id) asked).1).1
      × IsHungUp id other ch
          (closed none ∷ closed (some promise) ∷ [])
          s
          (resume (woken id (closer (some promise)) none) (dispatch (close_message id) waits).1).1
close-IsHungUp s id other promise ch l small empty = (
  message_first s id other promise ch l small,
  asked_first s id other promise ch l small,
  went_on_first s id other promise ch l small empty,
)
