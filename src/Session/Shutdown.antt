-- ===== src/Session/Shutdown.antt =====
-- What the methods that close a channel do: `close` and `shutdown` of javascript/mux/channel.ts.
use qtalk.Base.{
  ℕ, zero, suc, ◌≡◌, refl, ◌∙◌, true, false, List, [], ◌∷◌, ◌++◌, Option, none, some, get_elem?,
  set, arith,
}
use qtalk.Base.Throws.{ok}
use qtalk.Bytes.{IsU32}
use qtalk.Util.Queue.{Queue, Shifted, now, waiting, shift}
use qtalk.Util.Queue
use qtalk.Channel.{Channel, Reader, Settled, wake_all}
use qtalk.Codec.{close_message}
use qtalk.Codec.Marshal.{wire}
use qtalk.Codec.RoundTrip.{marshal-wire}
use qtalk.Session.State.{
  Session, hole, Slot, ◌>>=◌, load, store, suspend, resolve, resolve_reads, closed, close_written,
  read_values,
}
use qtalk.Session.Table.{rm_ch, entry}
use qtalk.Session.Methods.{
  encode, write_buffer, send, close, shutdown, suspend_all, remove_channel, wake_tasks,
}

abbrev pub Holds : Session → ℕ → Channel → Type 0
Holds s ref ch = get_elem? s.objects ref ≡ some ch

-- A first close writes the message, and leaves the rest for later.
abbrev pub after_close : ℕ → Option ℕ → Channel → Session → Session
after_close ref promise ch s = record s {
  objects = set s.objects ref (record ch { sent_close = true });
  written = s.written ++ wire (close_message ch.remote_id) ∷ [];
  tasks = s.tasks ++ close_written ref promise ∷ [];
}

pub close_first_lem :
    (s : Session) (ref : ℕ) (promise : Option ℕ) (ch : Channel)
    → Holds s ref ch
    → ch.sent_close ≡ false
    → IsU32 ch.remote_id
    → close ref promise s ≡ (ok tt, after_close ref promise ch s)
unfolding close send load store encode suspend
close_first_lem s ref promise ch at fresh small =
    rw (at, load)
      (rw fresh (
        rw (at, load)
          (rw fresh (rw (marshal-wire (close_message ch.remote_id) small, write_buffer)))))

-- A second close shuts the channel down. Its readers are told `undefined`.
abbrev pub told : List Reader → List Settled
told [] = []
told (r ∷ rs) = record { promise = r.promise; value = none } ∷ told rs

abbrev pub after_shutdown : ℕ → Channel → Session → Session
after_shutdown ref ch s = record s {
  objects = set s.objects ref (record ch { read_buf = none; ready = (Queue.close ch.ready).0 });
  channels = set s.channels ch.local_id hole;
  tasks = s.tasks ++ wake_tasks ref (Queue.close ch.ready).1;
  outcomes = s.outcomes ++ read_values (told ch.readers);
}

wake_all_ended :
    (rs : List Reader) (ch : Channel) → ch.read_buf ≡ none → wake_all rs ch ≡ (ch, told rs)
unfolding wake_all
wake_all_ended [] ch gone = refl
wake_all_ended (r ∷ rs) ch gone = ground (arith, wake_all_ended rs ch gone)

pub shutdown_lem :
    (s : Session) (ref : ℕ) (ch : Channel)
    → Holds s ref ch
    → shutdown ref s ≡ (ok tt, after_shutdown ref ch s)
unfolding shutdown load store resolve_reads suspend_all remove_channel rm_ch
shutdown_lem s ref ch at =
    rw (at, load) (rw (wake_all_ended ch.readers (record ch { read_buf = none }) refl))

close_sent :
    (s : Session) (ref : ℕ) (promise : Option ℕ) (ch : Channel)
    → Holds s ref ch
    → ch.sent_close ≡ true
    → close ref promise s ≡ (shutdown ref >>= λ _. resolve (closed promise)) s
unfolding close load
close_sent s ref promise ch at sent = rw (at, load) (rw sent)

pub close_second_lem :
    (s : Session) (ref : ℕ) (promise : Option ℕ) (ch : Channel)
    → Holds s ref ch
    → ch.sent_close ≡ true
    → close ref promise s ≡ (
      ok tt,
      record (after_shutdown ref ch s) {
        outcomes = (s.outcomes ++ read_values (told ch.readers)) ++ closed promise ∷ [];
      },
    )
unfolding resolve
close_second_lem s ref promise ch at sent =
    close_sent s ref promise ch at sent ∙ rw (shutdown_lem s ref ch at)

-- The entry of a channel is a hole once it is shut down.
pub lookup-set_hole : (slots : List Slot) (id : ℕ) → entry (get_elem? (set slots id hole) id) ≡ none
lookup-set_hole [] id = refl
lookup-set_hole (x ∷ slots) zero = refl
lookup-set_hole (x ∷ slots) (suc id) = lookup-set_hole slots id
