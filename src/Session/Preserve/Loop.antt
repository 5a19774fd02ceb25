-- ===== src/Session/Preserve/Loop.antt =====
-- The methods of a session, of javascript/mux/session.ts, keep its invariant.
use qtalk.Base.{
  ℕ, zero, suc, ◌≡◌, refl, ◌∙◌, Bool, true, false, [], ◌∷◌, ◌++◌, Option, none, some, length, arith,
  length-append, Bool-cases, inl, inr,
}
use qtalk.Base.Throws.{Result, ok, err}
use qtalk.Util.Queue.{Queue, Shifted, now, waiting}
use qtalk.Channel.{Channel, Waker, opener, closer, new_object, channel_window_size}
use qtalk.Codec.{
  Message, open_message, open_confirm, open_failure, window_adjust, data_message, eof_message,
  close_message,
}
use qtalk.Session.State.{Session, object, Task, open_written, close_written, woken}
use qtalk.Session.Methods.{bad_packet_size}
use qtalk.Session.Dispatch.{
  new_channel, open_channel, accept_result, accept, incoming_result, push_incoming, handle_open,
  present, get_ch, handle_found, to_channel, dispatch, shutdown_found, shutdown_from, close_session,
  wake, shift_result, shift_ready, resume,
}
use qtalk.Session.Invariant.{Inv, IsNumbered-append, IsOwn-append, add_ch-IsOwn}
use qtalk.Session.Keeps.{
  Keeps, KeepsAt, keeps_rules, Keeps-load, Keeps-bind, KeepsAt-bind, KeepsAt-store, Keeps-throw,
  Keeps-encode,
}
use qtalk.Session.Preserve.{Keeps-handle, Keeps-shutdown}

-- What `newChannel` makes, once the table is known to hold no `undefined`.
abbrev pub fresh_channel : ℕ → Channel
fresh_channel id = record new_object {
  remote_win = 0;
  my_window = channel_window_size;
  read_buf = some [];
  local_id = id;
}

abbrev pub with_new : Session → Session
with_new s = record s {
  objects = s.objects ++ fresh_channel (length s.channels) ∷ [];
  channels = s.channels ++ object (length s.objects) ∷ [];
}

pub new_channel_lem : (s : Session) → Inv s → new_channel s ≡ (ok (length s.objects), with_new s)
new_channel_lem s v = unfold new_channel in rw (add_ch-IsOwn (length s.objects) s.channels v.own)

pub Inv-with_new : (s : Session) → Inv s → Inv (with_new s)
unfolding new_object
Inv-with_new s v = record {
  numbered = IsNumbered-append 0 s.objects _ v.numbered (v.same_length ∙ omega arith);
  own = IsOwn-append 0 s.channels _ v.own (omega (arith, v.same_length));
  same_length = omega (
    arith,
    length-append s.channels (object (length s.objects) ∷ []),
    length-append s.objects (fresh_channel (length s.channels) ∷ []),
    v.same_length,
  );
}

Keeps-new_channel : Keeps new_channel
Keeps-new_channel = record { at = λ s v. rw (new_channel_lem s v) (Inv-with_new s v) }

pub Keeps-open_channel : (promise : ℕ) → Keeps (open_channel promise)
unfolding open_channel
Keeps-open_channel promise =
    Keeps-bind _ _ Keeps-new_channel λ ref. Keeps-load ref _ λ ch. search keeps_rules

KeepsAt-accept_result : (promise : ℕ) (r : Queue ℕ ℕ × Shifted ℕ) → Keeps (accept_result promise r)
KeepsAt-accept_result promise (incoming, now v) = record {
  at = λ s v. record { numbered = v.numbered; own = v.own; same_length = v.same_length };
}
KeepsAt-accept_result promise (incoming, waiting) = record {
  at = λ s v. record { numbered = v.numbered; own = v.own; same_length = v.same_length };
}

pub Keeps-accept : (promise : ℕ) → Keeps (accept promise)
unfolding accept
Keeps-accept promise = record { at = λ s v. (KeepsAt-accept_result promise _).at s v }

Keeps-incoming_result : (r : Result (Queue ℕ ℕ × Option (ℕ × ℕ))) → Keeps (incoming_result r)
Keeps-incoming_result (err e) = Keeps-throw e
Keeps-incoming_result (ok (incoming, none)) = record {
  at = λ s v. record { numbered = v.numbered; own = v.own; same_length = v.same_length };
}
Keeps-incoming_result (ok (incoming, some (promise, ref))) = record {
  at = λ s v. record { numbered = v.numbered; own = v.own; same_length = v.same_length };
}

Keeps-push_incoming : (ref : ℕ) → Keeps (push_incoming ref)
unfolding push_incoming
Keeps-push_incoming ref = record { at = λ s v. (Keeps-incoming_result _).at s v }

Keeps-handle_open : (x y z : ℕ) → Keeps (handle_open x y z)
unfolding handle_open
Keeps-handle_open x y z = elim (Bool-cases (bad_packet_size z)) [
  | inl bad ↦ rw bad (Keeps-encode (open_failure x))
  | inr good ↦ rw good (
      Keeps-bind _ _ Keeps-new_channel
        λ ref. Keeps-load ref _ λ ch. search (keeps_rules, Keeps-push_incoming))
]

Keeps-present : (found : Option ℕ) → Keeps (present found)
Keeps-present none = search keeps_rules
Keeps-present (some ref) = search keeps_rules

Keeps-handle_found : (found : Option ℕ) (m : Message) → Keeps (handle_found found m)
Keeps-handle_found none m = search keeps_rules
Keeps-handle_found (some ref) m = Keeps-handle ref m

Keeps-to_channel : (id : ℕ) (m : Message) → Keeps (to_channel id m)
unfolding get_ch
Keeps-to_channel id m =
    Keeps-bind _ _ (record { at = λ s v. (Keeps-present _).at s v })
      λ found. Keeps-handle_found found m

pub Keeps-dispatch : (m : Message) → Keeps (dispatch m)
unfolding dispatch
Keeps-dispatch (open_message x y z) = Keeps-handle_open x y z
Keeps-dispatch (open_confirm id x y z) = Keeps-to_channel id _
Keeps-dispatch (open_failure id) = Keeps-to_channel id _
Keeps-dispatch (window_adjust id n) = Keeps-to_channel id _
Keeps-dispatch (data_message id len bytes) = Keeps-to_channel id _
Keeps-dispatch (eof_message id) = Keeps-to_channel id _
Keeps-dispatch (close_message id) = Keeps-to_channel id _

Keeps-shutdown_found : (found : Option ℕ) → Keeps (shutdown_found found)
Keeps-shutdown_found none = search keeps_rules
Keeps-shutdown_found (some ref) = Keeps-shutdown ref

Keeps-shutdown_from : (id n : ℕ) → Keeps (shutdown_from id n)
unfolding shutdown_from
Keeps-shutdown_from id zero = record { at = λ s v. v }
Keeps-shutdown_from id (suc n) = record {
  at =
      λ s v. (Keeps-bind _ _ (Keeps-shutdown_found _) (λ _. Keeps-shutdown_from (suc id) n)).at s v;
}

pub Keeps-close_session : Keeps close_session
unfolding close_session
Keeps-close_session = record {
  at = λ s v.
      (Keeps-bind _ _ (Keeps-shutdown_from 0 (length s.channels)) (λ _. record {
        at = λ t w. record { numbered = w.numbered; own = w.own; same_length = w.same_length };
      })).at
        s v;
}

Keeps-wake : (ref : ℕ) (w : Waker) (v : Option Bool) → Keeps (wake ref w v)
Keeps-wake ref (opener promise) none = search keeps_rules
Keeps-wake ref (opener promise) (some false) = search keeps_rules
Keeps-wake ref (opener promise) (some true) = search keeps_rules
Keeps-wake ref (closer promise) none = search keeps_rules
Keeps-wake ref (closer promise) (some v) = search keeps_rules

KeepsAt-shift_result :
    (ref : ℕ) (w : Waker) (ch : Channel) (r : Queue Bool Waker × Shifted Bool)
    → KeepsAt ref ch (shift_result ref w ch r)
KeepsAt-shift_result ref w ch (ready, now v) =
    KeepsAt-bind _ _ (KeepsAt-store _ refl) (λ _. Keeps-wake ref w v)
KeepsAt-shift_result ref w ch (ready, waiting) = KeepsAt-store _ refl

Keeps-shift_ready : (ref : ℕ) (w : Waker) → Keeps (shift_ready ref w)
unfolding shift_ready
Keeps-shift_ready ref w = Keeps-load ref _ λ ch. KeepsAt-shift_result ref w ch _

pub Keeps-resume : (t : Task) → Keeps (resume t)
unfolding resume
Keeps-resume (open_written ref promise) = Keeps-shift_ready ref (opener promise)
Keeps-resume (close_written ref promise) =
    Keeps-load ref _
      λ ch. KeepsAt-bind _ _ (KeepsAt-store _ refl) (λ _. Keeps-shift_ready ref (closer promise))
Keeps-resume (woken ref w v) = Keeps-wake ref w v
