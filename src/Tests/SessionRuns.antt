-- ===== src/Tests/SessionRuns.antt =====
-- Runs of javascript/mux/session.ts.
use qtalk.Base.{◌≡◌, refl, true, false, List, [], ◌∷◌, ◌++◌, none, some, map, arith}
use qtalk.Base.Throws.{Result, ok, err, eof_sent}
use qtalk.Channel.{new_object, closer}
use qtalk.Codec.{Message, open_message, data_message, eof_message, close_message}
use qtalk.Codec.Marshal.{wire}
use qtalk.Conn.WebSocket.Stream.{Feed, feed_source}
use qtalk.Session.State.{
  Session, new_session, object, opened, closed, close_written, open_written, woken, read_values,
}
use qtalk.Session.Table.{lookup}
use qtalk.Session.Methods.{write, close_write, close}
use qtalk.Session.Dispatch.{open_channel, dispatch, resume, loop}
use qtalk.Session.Halts.{loop_ends}
use qtalk.Session.Loop.{serve, loop-serve}
use qtalk.Session.Invariant.{Inv, Inv-new_session}
use qtalk.Session.Serving.{Serves}
use qtalk.Session.Serving.Methods.{run-new_session-Serves}
use qtalk.Session.History.{accepts, closes_session, opens, gets, closes, run, run-new_session-Inv}
use qtalk.Session.Routing.{Routed, dispatch-Routed}
use qtalk.Session.Offer.{offer, answer, answering}
use qtalk.Session.Hangup.{IsHungUp, close-IsHungUp}
use qtalk.Session.Opening.{confirmed, open_handshake}
use qtalk.Session.Shutdown.{told}
use qtalk.Session.Dispatch.{close_session}
use qtalk.Session.Ending.{close_session-closed}
use qtalk.Session.Closing.{IsLinked, close_handshake, sent_close-written}

abbrev messages : List Message
messages = open_message 4 100 16 ∷ data_message 0 2 (7 ∷ 8 ∷ []) ∷ eof_message 0 ∷ []

abbrev carrying : Feed
carrying = record {
  conn = record { buf = []; waiters = []; is_closed = false; sent = []; socket_closed = false };
  arrivals = map wire messages;
}

loop-serve_example : loop feed_source 4 carrying new_session ≡ some (serve messages new_session)
loop-serve_example =
    loop-serve feed_source messages 4 carrying new_session (refl, refl) (omega arith) refl
      (omega arith)

-- Bytes that are no messages: 105 opens a window adjustment that is cut off.
abbrev broken : Feed
broken = record {
  conn = record {
    buf = 105 ∷ [];
    waiters = [];
    is_closed = false;
    sent = [];
    socket_closed = false;
  };
  arrivals = (1 ∷ 2 ∷ []) ∷ [];
}

loop_ends_example :
    (r : Result (Unit {0}) × Session) × (loop feed_source 4 broken new_session ≡ some r)
    × (loop feed_source 9 broken new_session ≡ some r)
loop_ends_example =
    loop_ends feed_source 4 9 broken new_session (refl, refl) (omega arith) (omega arith)

run-new_session-Inv_example : Inv (run (gets (open_message 4 100 16) ∷ closes 0 1 ∷ []) new_session)
run-new_session-Inv_example = run-new_session-Inv (gets (open_message 4 100 16) ∷ closes 0 1 ∷ [])

run-new_session-Serves_example :
    Serves
      (run (accepts 1 ∷ gets (open_message 4 100 16) ∷ closes_session ∷ accepts 2 ∷ []) new_session)
run-new_session-Serves_example =
    run-new_session-Serves
      (accepts 1 ∷ gets (open_message 4 100 16) ∷ closes_session ∷ accepts 2 ∷ [])

dispatch-Routed_example : Routed (run (opens 1 ∷ []) new_session) 0 (eof_message 0)
dispatch-Routed_example = dispatch-Routed (opens 1 ∷ []) (eof_message 0) 0 refl

open_handshake_example :
    let a1 = (open_channel 1 new_session).1 in
    let b1 = (dispatch (offer 0) new_session).1 in
    let a2 = (dispatch (answer 0 0) a1).1 in
    let a3 = (resume (open_written 0 1) a2).1 in
    (a1.written ≡ wire (offer 0) ∷ [])
    × (b1.written ≡ wire (answer 0 0) ∷ [])
    × (a3.objects ≡ confirmed 0 0 ∷ [])
    × (b1.objects ≡ answering 0 0 ∷ [])
    × (a3.channels ≡ object 0 ∷ [])
    × (b1.channels ≡ object 0 ∷ [])
    × (a3.outcomes ≡ opened 1 0 ∷ [])
unfolding new_session
open_handshake_example =
    open_handshake new_session new_session 1 Inv-new_session Inv-new_session (omega arith)
      (omega arith) refl

-- A session with one channel, which the other side calls 0 too.
abbrev linked : Session
linked = record {
  objects = confirmed 0 0 ∷ [];
  channels = object 0 ∷ [];
  incoming = record { q = []; waiters = []; closed = false };
  written = [];
  conn_closed = false;
  tasks = [];
  outcomes = [];
}

linked-IsLinked : IsLinked linked 0 0 (confirmed 0 0)
unfolding lookup new_object
linked-IsLinked = record {
  inv = record { numbered = (refl, tt); own = (refl, tt); same_length = refl };
  listed = refl;
  holds = refl;
  names = refl;
  fresh = refl;
  waits = refl;
}

close-IsHungUp_example :
    let told_first = (dispatch (close_message 0) linked).1 in
    let asked = (close 0 (some 5) linked).1 in
    let waits = (resume (close_written 0 (some 5)) asked).1 in
    IsHungUp 0 0 (confirmed 0 0) (closed (some 5) ∷ []) linked (close 0 (some 5) told_first).1
    × IsHungUp 0 0
        (confirmed 0 0)
        (closed none ∷ closed (some 5) ∷ [])
        linked
        (resume (close_written 0 (some 5)) (dispatch (close_message 0) asked).1).1
    × IsHungUp 0 0
        (confirmed 0 0)
        (closed none ∷ closed (some 5) ∷ [])
        linked
        (resume (woken 0 (closer (some 5)) none) (dispatch (close_message 0) waits).1).1
unfolding new_object
close-IsHungUp_example =
    close-IsHungUp linked 0 0 5 (confirmed 0 0) linked-IsLinked (omega arith) refl

close_handshake_example :
    let a1 = (close 0 (some 5) linked).1 in
    let b1 = (dispatch (close_message 0) linked).1 in
    let a2 = (dispatch (close_message 0) a1).1 in
    let a3 = (resume (close_written 0 (some 5)) a2).1 in
    let b2 = (resume (close_written 0 none) b1).1 in
    (a1.written ≡ wire (close_message 0) ∷ [])
    × (b1.written ≡ wire (close_message 0) ∷ [])
    × (lookup 0 a2.channels ≡ none)
    × (a2.outcomes ≡ read_values (told (confirmed 0 0).readers) ++ closed none ∷ [])
    × (a3.outcomes ≡ a2.outcomes ++ closed (some 5) ∷ [])
    × (lookup 0 b2.channels ≡ some 0)
    × (b2.outcomes ≡ [])
close_handshake_example =
    close_handshake linked linked 0 0 5 (confirmed 0 0) (confirmed 0 0) linked-IsLinked
      linked-IsLinked (omega arith) (omega arith)

abbrev half_closed : Session
half_closed = record linked { objects = record (confirmed 0 0) { sent_close = true } ∷ [] }

sent_close-written_example :
    (write 0 (7 ∷ []) half_closed ≡ (err eof_sent, half_closed))
    × ((close_write 0 half_closed).0 ≡ err eof_sent)
    × ((close_write 0 half_closed).1.written ≡ [])
    × ((close 0 none half_closed).1.written ≡ [])
sent_close-written_example =
    sent_close-written half_closed 0 none (7 ∷ []) (record (confirmed 0 0) { sent_close = true })
      refl refl

close_session-closed_example :
    let r = close_session (run (gets (open_message 4 100 16) ∷ opens 1 ∷ []) new_session) in
    (r.0 ≡ ok tt) × (r.1.conn_closed ≡ true) × (lookup 1 r.1.channels ≡ none)
close_session-closed_example = close_session-closed (gets (open_message 4 100 16) ∷ opens 1 ∷ []) 1
