-- ===== src/Session/Preserve.antt =====
-- Every method and every resumed task keeps the invariant.
pub mod Loop
use qtalk.Base.{
  ℕ, zero, suc, ◌≡◌, refl, ◌∙◌, Bool, true, false, List, [], ◌∷◌, ◌++◌, Option, none, some, length,
  arith, length-append, Bool-cases, inl, inr,
}
use qtalk.Base.Throws.{Result, ok, err}
use qtalk.Util.Queue.{Queue, Shifted, now, waiting}
use qtalk.Channel.{
  Channel, Waker, opener, closer, Reader, Settled, try_read, wake_first, wake_all, handle_data,
  accept_data, new_object, channel_window_size,
}
use qtalk.Codec.{
  Message, open_message, open_confirm, open_failure, window_adjust, data_message, eof_message,
  close_message,
}
use qtalk.Session.State.{Session, object, Task, open_written, close_written, woken}
use qtalk.Session.Methods.{
  send, read, write, close_write, shutdown, close, push_result, push_ready, data_result, handle,
  bad_packet_size,
}
use qtalk.Session.Dispatch.{
  new_channel, open_channel, accept_result, accept, incoming_result, push_incoming, handle_open,
  present, get_ch, handle_found, to_channel, dispatch, shutdown_found, shutdown_from, close_session,
  wake, shift_result, shift_ready, resume,
}
use qtalk.Session.Invariant.{Inv, IsNumbered-append, IsOwn-append, add_ch-IsOwn}
use qtalk.Session.Keeps.{
  Keeps, KeepsAt, keeps_rules, Keeps-load, Keeps-bind, KeepsAt-of, KeepsAt-bind, KeepsAt-store,
  Keeps-suspend, Keeps-throw, Keeps-encode,
}

try_read-local_id : (r : Reader) (ch : Channel) → (try_read r ch).0.local_id ≡ ch.local_id
unfolding try_read
try_read-local_id r ch = ground arith

wake_first-local_id :
    (rs : List Reader) (ch : Channel) → (wake_first rs ch).0.local_id ≡ ch.local_id
unfolding wake_first
wake_first-local_id [] ch = refl
wake_first-local_id (r ∷ rs) ch = try_read-local_id r (record ch { readers = rs })

pub wake_all-local_id :
    (rs : List Reader) (ch : Channel) → (wake_all rs ch).0.local_id ≡ ch.local_id
unfolding wake_all
wake_all-local_id [] ch = refl
wake_all-local_id (r ∷ rs) ch =
    wake_all-local_id rs (try_read r ch).0 ∙ unfold try_read in try_read-local_id r ch

Keeps-send : (ref : ℕ) (m : Message) → Keeps (send ref m)
unfolding send
Keeps-send ref m = Keeps-load ref _ λ ch. search keeps_rules

pub Keeps-read : (ref promise len : ℕ) → Keeps (read ref promise len)
unfolding read
Keeps-read ref promise len = Keeps-load ref _ λ ch. search (keeps_rules, try_read-local_id)

pub Keeps-write : (ref : ℕ) (buffer : List ℕ) → Keeps (write ref buffer)
unfolding write
Keeps-write ref buffer = Keeps-load ref _ λ ch. search (keeps_rules, Keeps-send)

pub Keeps-close_write : (ref : ℕ) → Keeps (close_write ref)
unfolding close_write
Keeps-close_write ref = Keeps-load ref _ λ ch. search (keeps_rules, Keeps-send)

pub Keeps-shutdown : (ref : ℕ) → Keeps (shutdown ref)
unfolding shutdown
Keeps-shutdown ref = Keeps-load ref _ λ ch.
    KeepsAt-bind _ _
      (KeepsAt-store _ (wake_all-local_id ch.readers (record ch { read_buf = none })))
      (λ _. search keeps_rules)

pub Keeps-close : (ref : ℕ) (promise : Option ℕ) → Keeps (close ref promise)
unfolding close
Keeps-close ref promise = Keeps-load ref _ λ ch. search (keeps_rules, Keeps-send, Keeps-shutdown)

KeepsAt-push_result :
    (ref : ℕ) (ch : Channel) (r : Result (Queue Bool Waker × Option (Waker × Bool)))
    → KeepsAt ref ch (push_result ref ch r)
KeepsAt-push_result ref ch (err e) = KeepsAt-of (Keeps-throw e)
KeepsAt-push_result ref ch (ok (ready, none)) = KeepsAt-store _ refl
KeepsAt-push_result ref ch (ok (ready, some (w, v))) =
    KeepsAt-bind _ _ (KeepsAt-store _ refl) (λ _. Keeps-suspend _)

Keeps-push_ready : (ref : ℕ) (v : Bool) → Keeps (push_ready ref v)
unfolding push_ready
Keeps-push_ready ref v = Keeps-load ref _ λ ch. KeepsAt-push_result ref ch _

handle_data-local_id :
    (len : ℕ) (bytes : List ℕ) (ch ch' : Channel) (out : List Settled)
    → handle_data len bytes ch ≡ ok (ch', out)
    → ch'.local_id ≡ ch.local_id
unfolding handle_data
handle_data-local_id len bytes ch ch' out done =
    ground (arith, wake_first-local_id ch.readers (accept_data len bytes ch))

KeepsAt-data_result :
    (ref : ℕ) (ch : Channel) (r : Result (Channel × List Settled))
    → ((ch' : Channel) (out : List Settled) → r ≡ ok (ch', out) → ch'.local_id ≡ ch.local_id)
    → KeepsAt ref ch (data_result ref r)
KeepsAt-data_result ref ch (err e) same = KeepsAt-of (Keeps-throw e)
KeepsAt-data_result ref ch (ok (ch', out)) same =
    KeepsAt-bind _ _ (KeepsAt-store ch' (same ch' out refl)) (λ _. search keeps_rules)

pub Keeps-handle : (ref : ℕ) (m : Message) → Keeps (handle ref m)
unfolding handle
Keeps-handle ref (data_message id len bytes) =
    Keeps-load ref _ λ ch. KeepsAt-data_result ref ch _ (handle_data-local_id len bytes ch)
Keeps-handle ref (close_message id) = Keeps-close ref none
Keeps-handle ref (eof_message id) = Keeps-load ref _ λ ch. search keeps_rules
Keeps-handle ref (open_failure id) = search (keeps_rules, Keeps-push_ready)
Keeps-handle ref (open_confirm id x y z) =
    Keeps-load ref _ λ ch. search (keeps_rules, Keeps-push_ready)
Keeps-handle ref (window_adjust id n) = Keeps-load ref _ λ ch. search keeps_rules
Keeps-handle ref (open_message x y z) = search keeps_rules
