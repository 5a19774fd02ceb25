-- ===== src/Session/Offer.antt =====
-- The first half of an opening: the offer of a channel, and the answer to it.
use qtalk.Base.{
  ℕ, ◌≡◌, refl, false, some, List, [], ◌∷◌, ◌++◌, length, arith, get_elem?-append_length,
  set-append_length,
}
use qtalk.Base.Throws.{ok}
use qtalk.Bytes.{IsU32}
use qtalk.Util.Queue.{push}
use qtalk.Channel.{Channel, channel_max_packet, channel_window_size}
use qtalk.Codec.{Message, open_message, open_confirm}
use qtalk.Codec.Marshal.{wire}
use qtalk.Codec.RoundTrip.{marshal-wire}
use qtalk.Session.State.{Session, object, load, store, suspend, open_written, accepted}
use qtalk.Session.Methods.{encode, write_buffer}
use qtalk.Session.Dispatch.{open_channel, handle_open, dispatch, push_incoming}
use qtalk.Session.Invariant.{Inv}
use qtalk.Session.Preserve.Loop.{fresh_channel, new_channel_lem}

-- The channel that `open` makes.
abbrev pub offered : ℕ → Channel
offered id = record (fresh_channel id) { max_incoming_payload = channel_max_packet }

abbrev pub offer : ℕ → Message
offer id = open_message id channel_window_size channel_max_packet

abbrev pub after_open : ℕ → Session → Session
after_open promise s = record s {
  objects = s.objects ++ offered (length s.channels) ∷ [];
  channels = s.channels ++ object (length s.objects) ∷ [];
  written = s.written ++ wire (offer (length s.channels)) ∷ [];
  tasks = s.tasks ++ open_written (length s.objects) promise ∷ [];
}

pub open_channel_lem :
    (s : Session) (promise : ℕ)
    → Inv s
    → IsU32 (length s.channels)
    → open_channel promise s ≡ (ok tt, after_open promise s)
unfolding open_channel load store encode suspend
open_channel_lem s promise v small = rw (new_channel_lem s v) (
    rw
      (
        get_elem?-append_length s.objects (fresh_channel (length s.channels)) (length s.objects)
            refl,
        load,
      )
      (rw
        (set-append_length s.objects (fresh_channel (length s.channels))
          (offered (length s.channels)) (length s.objects) refl)
        (rw (
          marshal-wire (offer (length s.channels)) (small, omega arith, omega arith),
          write_buffer,
        ))))

-- The channel that the other side makes for it, and its answer.
abbrev pub answering : ℕ → ℕ → Channel
answering other id = record (fresh_channel id) {
  remote_id = other;
  max_remote_payload = channel_max_packet;
  remote_win = channel_window_size;
  max_incoming_payload = channel_max_packet;
}

abbrev pub answer : ℕ → ℕ → Message
answer other id = open_confirm other id channel_window_size channel_max_packet

abbrev pub with_answering : ℕ → Session → Session
with_answering other s = record s {
  objects = s.objects ++ answering other (length s.channels) ∷ [];
  channels = s.channels ++ object (length s.objects) ∷ [];
}

abbrev after_offer : ℕ → Session → Session
after_offer other s =
    let t = (push_incoming (length s.objects) (with_answering other s)).1 in
    record t { written = t.written ++ wire (answer other (length s.channels)) ∷ [] }

push_incoming-ok :
    (ref : ℕ) (s : Session)
    → s.incoming.closed ≡ false
    → push_incoming ref s ≡ (ok tt, (push_incoming ref s).1)
unfolding push_incoming push
push_incoming-ok ref s accepting = ground arith

pub push_incoming_same :
    (ref : ℕ) (s : Session)
    → ((push_incoming ref s).1.objects ≡ s.objects)
      × ((push_incoming ref s).1.written ≡ s.written)
      × ((push_incoming ref s).1.channels ≡ s.channels)
unfolding push_incoming push
push_incoming_same ref s = ground arith

pub handle_offer_lem :
    (s : Session) (other : ℕ)
    → Inv s
    → IsU32 other
    → IsU32 (length s.channels)
    → s.incoming.closed ≡ false
    → dispatch (offer other) s ≡ (ok tt, after_offer other s)
unfolding dispatch handle_open load store encode
handle_offer_lem s other v small_other small accepting = rw (new_channel_lem s v) (
    rw
      (
        get_elem?-append_length s.objects (fresh_channel (length s.channels)) (length s.objects)
            refl,
        load,
      )
      (rw
        (set-append_length s.objects (fresh_channel (length s.channels))
          (answering other (length s.channels)) (length s.objects) refl)
        (rw (push_incoming-ok (length s.objects) (with_answering other s) accepting) (
          rw (
            marshal-wire (answer other (length s.channels))
                (small_other, small, omega arith, omega arith),
            write_buffer,
          )))))

-- The call of `accept` that waits first is resolved with the channel.
push_incoming-accepted :
    (ref promise : ℕ) (rest : List ℕ) (s : Session)
    → s.incoming.closed ≡ false
    → s.incoming.waiters ≡ promise ∷ rest
    → (push_incoming ref s).1.outcomes ≡ s.outcomes ++ accepted promise (some ref) ∷ []
unfolding push_incoming push
push_incoming-accepted ref promise rest s accepting waits = rw (accepting, waits) refl

pub dispatch-accepted :
    (s : Session) (other promise : ℕ) (rest : List ℕ)
    → Inv s
    → IsU32 other
    → IsU32 (length s.channels)
    → s.incoming.closed ≡ false
    → s.incoming.waiters ≡ promise ∷ rest
    → (dispatch (offer other) s).1.outcomes
      ≡ s.outcomes ++ accepted promise (some (length s.objects)) ∷ []
dispatch-accepted s other promise rest v small_other small accepting waits =
    rw (handle_offer_lem s other v small_other small accepting) (
      push_incoming-accepted (length s.objects) promise rest (with_answering other s) accepting
        waits)
