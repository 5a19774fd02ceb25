-- ===== src/Legacy/Listener.antt =====
-- javascript/legacy/qmux/src/qmux_node.ts: `TCPListener` and `WebsocketListener`, which put the
-- session of each connection into a queue, and `Server.serve` of javascript/legacy/qrpc/src/qrpc.ts,
-- which accepts from it. The server of node is a parameter, by the events that it emits.
pub mod Serving
use qtalk.Base.{ℕ, Bool, true, false, List, [], ◌∷◌, ◌++◌, Option, none, some}
use qtalk.Base.Throws.{Result, ok, err}
use qtalk.Util.Queue.{Queue, Shifted, now, waiting, new_queue, push, shift}
use qtalk.Util.Queue

-- A waiter is the promise of a call of `accept`.
pub record Listener (C : Type 0) : Type 0 where
  pub pending : Queue C ℕ

-- How a promise of `close` ends: the TCP server gives its callback an error if it is not running.
pub data Closing (E : Type 0) : Type 0 where
  resolved : Closing E
  rejected : E → Closing E

abbrev pub on_closed : {E : Type 0} → Option E → Closing E
on_closed none = resolved
on_closed (some e) = rejected e

-- The promise of `DialWebsocket` or `DialTCP`, which the first event settles.
pub data Dialed (C E : Type 0) : Type 0 where
  dialing : Dialed C E
  connected : C → Dialed C E
  refused : E → Dialed C E

module _ {C E : Type 0} where
  abbrev pub on_open : C → Dialed C E → Dialed C E
  on_open c dialing = connected c
  on_open c (connected other) = connected other
  on_open c (refused e) = refused e

  -- Only `DialWebsocket` listens to errors.
  abbrev pub on_error : E → Dialed C E → Dialed C E
  on_error e dialing = refused e
  on_error e (connected c) = connected c
  on_error e (refused other) = refused other

module _ {C : Type 0} where
  abbrev pub new_listener : Listener C
  unfolding new_queue
  new_listener = record { pending = new_queue }

  -- The server has a connection, whose session is `c`; the waiter that gets it, if there is one.
  abbrev pub listener_pushed :
      Result (Queue C ℕ × Option (ℕ × C)) → Result (Listener C × Option (ℕ × C))
  listener_pushed (err e) = err e
  listener_pushed (ok (queue, handed)) = ok (record { pending = queue }, handed)

  unfoldable pub on_connection : C → Listener C → Result (Listener C × Option (ℕ × C))
  unfolding push
  on_connection c l = listener_pushed (push c l.pending)

  unfoldable pub accept : ℕ → Listener C → Listener C × Shifted C
  unfolding shift
  accept promise l =
      let (queue, shifted) = shift promise l.pending in (record { pending = queue }, shifted)

  -- The server's event `close`, and the waiters that are told `undefined`
  unfoldable pub on_close : Listener C → Listener C × List ℕ
  unfolding Queue.close
  on_close l = let (queue, told) = Queue.close l.pending in (record { pending = queue }, told)

-- Where `Server.serve` is: about to call `accept`, in front of its promise, or returned.
pub data Phase : Type 0 where
  turning awaiting returned : Phase

pub record Server (C : Type 0) : Type 0 where
  pub listener : Listener C
  pub phase : Phase
  -- the sessions that were given to `Server.serveAPI`, in order
  pub served : List C

-- The server of node has a connection or closes, or the loop goes on.
pub data Event (C : Type 0) : Type 0 where
  connects : C → Event C
  closes : Event C
  resumes : Event C

module _ {C : Type 0} where
  abbrev pub new_server : Server C
  new_server = record { listener = new_listener; phase = turning; served = [] }

  -- The promise of `accept` is resolved by a session.
  abbrev pub take_session : C → Server C → Server C
  take_session c s = record s { phase = turning; served = s.served ++ c ∷ [] }

  abbrev pub after_connection : Server C → Result (Listener C × Option (ℕ × C)) → Server C
  after_connection s (err e) = s
  after_connection s (ok (l, none)) = record s { listener = l }
  after_connection s (ok (l, some (promise, c))) = take_session c (record s { listener = l })

  abbrev pub after_close : Server C → Listener C × List ℕ → Server C
  after_close s (l, []) = record s { listener = l }
  after_close s (l, promise ∷ told) = record s { listener = l; phase = returned }

  abbrev pub after_accept : Server C → Listener C × Shifted C → Server C
  after_accept s (l, now (some c)) = take_session c (record s { listener = l })
  after_accept s (l, now none) = record s { listener = l; phase = returned }
  after_accept s (l, waiting) = record s { listener = l; phase = awaiting }

  abbrev pub resume : Phase → Server C → Server C
  unfolding accept
  resume turning s = after_accept s (accept 0 s.listener)
  resume awaiting s = s
  resume returned s = s

  unfoldable pub step : Event C → Server C → Server C
  unfolding on_connection on_close
  step (connects c) s = after_connection s (on_connection c s.listener)
  step closes s = after_close s (on_close s.listener)
  step resumes s = resume s.phase s

  unfoldable pub run : List (Event C) → Server C → Server C
  unfolding step
  run [] s = s
  run (e ∷ es) s = run es (step e s)
