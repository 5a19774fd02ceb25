-- ===== src/Session/Opening.antt =====
-- Opening a channel between two sessions.
use qtalk.Base.{
  ℕ, ◌≡◌, refl, ap, true, false, List, [], ◌∷◌, ◌++◌, length, get_elem?-append_length,
  set-append_length,
}
use qtalk.Base.Throws.{ok}
use qtalk.Bytes.{IsU32}
use qtalk.Util.Queue.{push, shift}
use qtalk.Channel.{Channel, channel_max_packet, channel_window_size, new_object}
use qtalk.Codec.Marshal.{wire}
use qtalk.Session.State.{Session, object, load, store, resolve, opened, open_written}
use qtalk.Session.Table.{lookup}
use qtalk.Session.Methods.{push_ready, handle}
use qtalk.Session.Dispatch.{open_channel, get_ch, shift_ready, dispatch, resume}
use qtalk.Session.Invariant.{Inv}
use qtalk.Session.Offer.{
  offered, offer, after_open, open_channel_lem, answering, answer, with_answering,
  push_incoming_same, handle_offer_lem,
}

-- The channel that `open` made, once its offer is answered, and once `open` is told so.
abbrev pub confirmed : ℕ → ℕ → Channel
confirmed id other = record (offered id) {
  remote_id = other;
  max_remote_payload = channel_max_packet;
  remote_win = channel_window_size;
}

abbrev established : ℕ → ℕ → Channel
established id other = record (confirmed id other) {
  ready = record { q = true ∷ []; waiters = []; closed = false };
}

push_ready-confirmed :
    (s : Session) (ref id other : ℕ) (objects : List Channel)
    → s.objects ≡ objects ++ confirmed id other ∷ []
    → ref ≡ length objects
    → push_ready ref true s ≡ (ok tt, record s { objects = objects ++ established id other ∷ [] })
unfolding load store push_ready push new_object
push_ready-confirmed s ref id other objects e last = rw e (
    rw (get_elem?-append_length objects (confirmed id other) ref last, load)
      (rw (set-append_length objects (confirmed id other) (established id other) ref last)))

handle_answer_lem :
    (s : Session) (ref id other : ℕ) (objects : List Channel)
    → s.objects ≡ objects ++ offered id ∷ []
    → ref ≡ length objects
    → handle ref (answer id other) s
      ≡ (ok tt, record s { objects = objects ++ established id other ∷ [] })
unfolding handle load store
handle_answer_lem s ref id other objects e last = rw e (
    rw (get_elem?-append_length objects (offered id) ref last, load)
      (rw (set-append_length objects (offered id) (confirmed id other) ref last)
        (push_ready-confirmed _ ref id other objects refl last)))

dispatch_answer_lem :
    (s : Session) (promise other : ℕ)
    → Inv s
    → dispatch (answer (length s.channels) other) (after_open promise s) ≡ (
      ok tt,
      record (after_open promise s) {
        objects = s.objects ++ established (length s.channels) other ∷ [];
      },
    )
unfolding dispatch get_ch lookup
dispatch_answer_lem s promise other v =
    rw (get_elem?-append_length s.channels (object (length s.objects)) (length s.channels) refl) (
      handle_answer_lem (after_open promise s) (length s.objects) (length s.channels) other
        s.objects refl refl)

-- The task of `open` finds the value in the ready queue, and the promise is resolved.
resume_open_lem :
    (s : Session) (promise ref id other : ℕ) (objects : List Channel)
    → s.objects ≡ objects ++ established id other ∷ []
    → ref ≡ length objects
    → resume (open_written ref promise) s ≡ (
      ok tt,
      record s {
        objects = objects ++ confirmed id other ∷ [];
        outcomes = s.outcomes ++ opened promise ref ∷ [];
      },
    )
unfolding resume shift_ready load store shift resolve new_object
resume_open_lem s promise ref id other objects e last = rw e (
    rw (get_elem?-append_length objects (established id other) ref last, load)
      (rw (set-append_length objects (established id other) (confirmed id other) ref last)))

-- A session `a` opens a channel, `b` gets the offer, `a` gets the answer, and then `open` resumes:
-- if both have room for a 32-bit id and `b` takes channels, each side has a channel under its own
-- next id that names the other's, with the other's window and packet size, and the promise of
-- `open` is resolved with it.
pub open_handshake :
    (a b : Session) (promise : ℕ)
    → Inv a
    → Inv b
    → IsU32 (length a.channels)
    → IsU32 (length b.channels)
    → b.incoming.closed ≡ false
    → let i = length a.channels in
      let j = length b.channels in
      let a1 = (open_channel promise a).1 in
      let b1 = (dispatch (offer i) b).1 in
      let a2 = (dispatch (answer i j) a1).1 in
      let a3 = (resume (open_written (length a.objects) promise) a2).1 in
      (a1.written ≡ a.written ++ wire (offer i) ∷ [])
      × (b1.written ≡ b.written ++ wire (answer i j) ∷ [])
      × (a3.objects ≡ a.objects ++ confirmed i j ∷ [])
      × (b1.objects ≡ b.objects ++ answering i j ∷ [])
      × (a3.channels ≡ a.channels ++ object (length a.objects) ∷ [])
      × (b1.channels ≡ b.channels ++ object (length b.objects) ∷ [])
      × (a3.outcomes ≡ a.outcomes ++ opened promise (length a.objects) ∷ [])
open_handshake a b promise va vb small_a small_b accepting =
    let i = length a.channels in
    let j = length b.channels in
    let at_b = push_incoming_same (length b.objects) (with_answering i b) in
    rw (open_channel_lem a promise va small_a) (
      rw (handle_offer_lem b i vb small_a small_b accepting) (
        rw (dispatch_answer_lem a promise j va) (
          rw
            (resume_open_lem
              (record (after_open promise a) { objects = a.objects ++ established i j ∷ [] })
              promise (length a.objects) i j a.objects refl refl)
            (
              refl,
              ap (λ w. w ++ wire (answer i j) ∷ []) at_b.1,
              refl,
              at_b.0,
              refl,
              at_b.2,
              refl,
            ))))
