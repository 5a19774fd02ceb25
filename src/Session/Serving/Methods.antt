-- ===== src/Session/Serving/Methods.antt =====
-- Every method of a session and its channels leaves the queue `incoming` open.
use qtalk.Base.{
  ℕ, zero, suc, refl, Bool, true, false, List, [], ◌∷◌, Option, none, some, get_elem?, length, inl,
}
use qtalk.Base.Throws.{Result, ok, err}
use qtalk.Util.Queue.{Queue, Shifted, now, waiting, new_queue}
use qtalk.Channel.{Channel, Waker, opener, closer, Settled}
use qtalk.Codec.{
  Message, open_message, open_confirm, open_failure, window_adjust, data_message, eof_message,
  close_message,
}
use qtalk.Session.State.{Session, Task, open_written, close_written, woken, new_session}
use qtalk.Session.Methods.{
  send, read, write, close_write, shutdown, close, push_result, push_ready, data_result, handle,
  bad_packet_size,
}
use qtalk.Session.Dispatch.{
  open_channel, handle_open, present, get_ch, handle_found, to_channel, dispatch, shutdown_found,
  shutdown_from, close_session, wake, shift_result, shift_ready, resume,
}
use qtalk.Session.History.{
  Call, opens, accepts, reads, writes, closes_write, closes, closes_session, gets, resumes, call,
  run, resume_found, take_out,
}
use qtalk.Session.Serving.{
  Serves, Keeps, serving_rules, Keeps-bind, Keeps-resolve, Keeps-pure, Keeps-if, Keeps-encode,
  Keeps-new_channel, Keeps-load,
}

Keeps-send : (ref : ℕ) (m : Message) → Keeps (send ref m)
unfolding send
Keeps-send ref m = search serving_rules

Keeps-read : (ref promise len : ℕ) → Keeps (read ref promise len)
unfolding read
Keeps-read ref promise len = search serving_rules

Keeps-write : (ref : ℕ) (buffer : List ℕ) → Keeps (write ref buffer)
unfolding write
Keeps-write ref buffer = search (serving_rules, Keeps-send)

Keeps-close_write : (ref : ℕ) → Keeps (close_write ref)
unfolding close_write
Keeps-close_write ref = search (serving_rules, Keeps-send)

Keeps-shutdown : (ref : ℕ) → Keeps (shutdown ref)
unfolding shutdown
Keeps-shutdown ref = search serving_rules

Keeps-close : (ref : ℕ) (promise : Option ℕ) → Keeps (close ref promise)
unfolding close
Keeps-close ref promise = search (serving_rules, Keeps-send, Keeps-shutdown, Keeps-resolve)

Keeps-push_result :
    (ref : ℕ) (ch : Channel) (r : Result (Queue Bool Waker × Option (Waker × Bool)))
    → Keeps (push_result ref ch r)
Keeps-push_result ref ch (err e) = search serving_rules
Keeps-push_result ref ch (ok (ready, none)) = search serving_rules
Keeps-push_result ref ch (ok (ready, some (w, v))) = search serving_rules

Keeps-push_ready : (ref : ℕ) (v : Bool) → Keeps (push_ready ref v)
unfolding push_ready
Keeps-push_ready ref v = search (serving_rules, Keeps-push_result)

Keeps-data_result : (ref : ℕ) (r : Result (Channel × List Settled)) → Keeps (data_result ref r)
Keeps-data_result ref (err e) = search serving_rules
Keeps-data_result ref (ok (ch, settled)) = search serving_rules

Keeps-handle : (ref : ℕ) (m : Message) → Keeps (handle ref m)
unfolding handle
Keeps-handle ref (data_message id len bytes) = search (serving_rules, Keeps-data_result)
Keeps-handle ref (close_message id) = Keeps-close ref none
Keeps-handle ref (eof_message id) = search serving_rules
Keeps-handle ref (open_failure id) = search (serving_rules, Keeps-push_ready)
Keeps-handle ref (open_confirm id x y z) = search (serving_rules, Keeps-push_ready)
Keeps-handle ref (window_adjust id n) = search serving_rules
Keeps-handle ref (open_message x y z) = search serving_rules

Keeps-open_channel : (promise : ℕ) → Keeps (open_channel promise)
unfolding open_channel
Keeps-open_channel promise = search serving_rules

Keeps-handle_open : (x y z : ℕ) → Keeps (handle_open x y z)
unfolding handle_open
Keeps-handle_open x y z = Keeps-if (bad_packet_size z) _ _ (Keeps-encode (open_failure x)) (
    Keeps-bind _ _ Keeps-new_channel
      λ ref. Keeps-bind _ _ (Keeps-load ref) λ ch. search serving_rules)

Keeps-present : (found : Option ℕ) → Keeps (present found)
Keeps-present none = search serving_rules
Keeps-present (some ref) = search serving_rules

Keeps-handle_found : (found : Option ℕ) (m : Message) → Keeps (handle_found found m)
Keeps-handle_found none m = search serving_rules
Keeps-handle_found (some ref) m = Keeps-handle ref m

Keeps-to_channel : (id : ℕ) (m : Message) → Keeps (to_channel id m)
unfolding get_ch
Keeps-to_channel id m =
    Keeps-bind _ _ (record { at = λ s v. (Keeps-present _).at s v })
      λ found. Keeps-handle_found found m

Keeps-dispatch : (m : Message) → Keeps (dispatch m)
unfolding dispatch
Keeps-dispatch (open_message x y z) = Keeps-handle_open x y z
Keeps-dispatch (open_confirm id x y z) = Keeps-to_channel id _
Keeps-dispatch (open_failure id) = Keeps-to_channel id _
Keeps-dispatch (window_adjust id n) = Keeps-to_channel id _
Keeps-dispatch (data_message id len bytes) = Keeps-to_channel id _
Keeps-dispatch (eof_message id) = Keeps-to_channel id _
Keeps-dispatch (close_message id) = Keeps-to_channel id _

Keeps-shutdown_found : (found : Option ℕ) → Keeps (shutdown_found found)
Keeps-shutdown_found none = search serving_rules
Keeps-shutdown_found (some ref) = Keeps-shutdown ref

Keeps-shutdown_from : (id n : ℕ) → Keeps (shutdown_from id n)
unfolding shutdown_from
Keeps-shutdown_from id zero = record { at = λ s v. v }
Keeps-shutdown_from id (suc n) = record {
  at =
      λ s v. (Keeps-bind _ _ (Keeps-shutdown_found _) (λ _. Keeps-shutdown_from (suc id) n)).at s v;
}

Keeps-close_session : Keeps close_session
unfolding close_session
Keeps-close_session = record {
  at = λ s v.
      (Keeps-bind _ _ (Keeps-shutdown_from 0 (length s.channels)) (λ _. record {
        at = λ t w. record { is_open = w.is_open; no_delay = w.no_delay; given = w.given };
      })).at
        s v;
}

Keeps-wake : (ref : ℕ) (w : Waker) (v : Option Bool) → Keeps (wake ref w v)
Keeps-wake ref (opener promise) none = Keeps-resolve _ tt
Keeps-wake ref (opener promise) (some false) = Keeps-resolve _ tt
Keeps-wake ref (opener promise) (some true) = Keeps-resolve _ tt
Keeps-wake ref (closer promise) none = Keeps-resolve _ tt
Keeps-wake ref (closer promise) (some v) = search serving_rules

Keeps-shift_result :
    (ref : ℕ) (w : Waker) (ch : Channel) (r : Queue Bool Waker × Shifted Bool)
    → Keeps (shift_result ref w ch r)
Keeps-shift_result ref w ch (ready, now v) = search (serving_rules, Keeps-wake)
Keeps-shift_result ref w ch (ready, waiting) = search serving_rules

Keeps-shift_ready : (ref : ℕ) (w : Waker) → Keeps (shift_ready ref w)
unfolding shift_ready
Keeps-shift_ready ref w = search (serving_rules, Keeps-shift_result)

Keeps-resume : (t : Task) → Keeps (resume t)
unfolding resume
Keeps-resume (open_written ref promise) = Keeps-shift_ready ref (opener promise)
Keeps-resume (close_written ref promise) = search (serving_rules, Keeps-shift_ready)
Keeps-resume (woken ref w v) = Keeps-wake ref w v

Keeps-resume_found : (t : Option Task) → Keeps (resume_found t)
Keeps-resume_found none = Keeps-pure tt
Keeps-resume_found (some t) = Keeps-resume t

Keeps-call : (c : Call) → Keeps (call c)
unfolding call
Keeps-call (opens promise) = Keeps-open_channel promise
Keeps-call (accepts promise) = search serving_rules
Keeps-call (reads ref promise len) = Keeps-read ref promise len
Keeps-call (writes ref buffer) = Keeps-write ref buffer
Keeps-call (closes_write ref) = Keeps-close_write ref
Keeps-call (closes ref promise) = Keeps-close ref (some promise)
Keeps-call closes_session = Keeps-close_session
Keeps-call (gets message) = Keeps-dispatch message
Keeps-call (resumes n) = record {
  at = λ s v.
      (Keeps-resume_found (get_elem? s.tasks n)).at (record s { tasks = take_out n s.tasks })
        (record { is_open = v.is_open; no_delay = v.no_delay; given = v.given });
}

run-Serves : (cs : List Call) (s : Session) → Serves s → Serves (run cs s)
unfolding run
run-Serves [] s v = v
run-Serves (c ∷ cs) s v = run-Serves cs (call c s).1 ((Keeps-call c).at s v)

-- In any history of a session, calls of `close` included, the queue of incoming channels is open: no
-- promise of `accept` is ever resolved by `undefined`, and none waits while a channel is there to be
-- given.
pub run-new_session-Serves : (cs : List Call) → Serves (run cs new_session)
unfolding new_session new_queue
run-new_session-Serves cs =
    run-Serves cs new_session (record { is_open = refl; no_delay = inl refl; given = tt })
