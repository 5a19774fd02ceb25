-- ===== src/Legacy/Conn/Same.antt =====
-- The old connection and the current one, on the same events of their socket and their callers.
use qtalk.Base.{
  ℕ, ◌<◌, ◌≡◌, refl, ◌∙◌, Bool, true, false, List, [], ◌∷◌, ◌++◌, none, some, All, arith,
  if◌then◌else◌,
}
use qtalk.Base.Throws.{Result, ok, err}
use qtalk.Conn.WebSocket.{Waiter, Settled}
use qtalk.Conn.WebSocket as Current
use qtalk.Legacy.Conn.{
  Buffer, bytes_of, Class, sent_bytes, Conn, try_read, read, wake_first, on_message, write,
  wake_all, close,
}

pub data Event : Type 0 where
  reads : ℕ → ℕ → Event
  writes : Buffer → Event
  arrives : List ℕ → Event
  closes : Event

-- A handler that throws changes nothing.
abbrev caught : Conn → Result (Conn × List Settled) → Conn × List Settled
caught c (err e) = (c, [])
caught c (ok r) = r

-- One event, with the promises that it resolves
abbrev pub step : Class → Event → Conn → Conn × List Settled
step k (reads promise len) c = read promise len c
step k (writes buffer) c = ((write k buffer c).0, [])
step k (arrives message) c = caught c (on_message message c)
step k closes c = close c

abbrev pub step_current : Event → Current.Conn → Current.Conn × List Settled
step_current (reads promise len) c = Current.read promise len c
step_current (writes buffer) c = ((Current.write (bytes_of buffer) c).0, [])
step_current (arrives message) c = Current.on_message message c
step_current closes c = Current.close c

-- What the socket was given after an event, where `given` is what it is given for a buffer.
abbrev pub sent_after : (Buffer → List ℕ) → Event → List (List ℕ) → List (List ℕ)
sent_after given (writes buffer) sent = sent ++ given buffer ∷ []
sent_after given _ sent = sent

abbrev pub IsReader : Waiter → Type 0
IsReader w = 0 < w.len

abbrev pub as_old : List (List ℕ) → Current.Conn → Conn
as_old sent c = record {
  buf = if c.is_closed then none else some c.buf;
  waiters = c.waiters;
  is_closed = c.is_closed;
  sent = sent;
  socket_closed = c.socket_closed;
}

abbrev pub old_result : List (List ℕ) → Current.Conn × List Settled → Conn × List Settled
old_result sent (c, settled) = (as_old sent c, settled)

try_read-same :
    (sent : List (List ℕ)) (w : Waiter) (c : Current.Conn)
    → IsReader w
    → try_read w (as_old sent c) ≡ old_result sent (Current.try_read w c)
unfolding try_read Current.try_read
try_read-same sent w c pos = ground arith

wake_first-same :
    (sent : List (List ℕ)) (ws : List Waiter) (c : Current.Conn)
    → All IsReader ws
    → wake_first ws (as_old sent c) ≡ old_result sent (Current.wake_first ws c)
unfolding wake_first Current.wake_first
wake_first-same sent [] c pos = refl
wake_first-same sent (w ∷ ws) c pos = try_read-same sent w (record c { waiters = ws }) pos.0

wake_all-same :
    (sent : List (List ℕ)) (ws : List Waiter) (c : Current.Conn)
    → All IsReader ws
    → wake_all ws (as_old sent c) ≡ old_result sent (Current.wake_all ws c)
unfolding wake_all Current.wake_all
wake_all-same sent [] c pos = refl
wake_all-same sent (w ∷ ws) c pos =
    rw (try_read-same sent w c pos.0, wake_all-same sent ws (Current.try_read w c).0 pos.1)

-- A read asks for bytes, and no message comes in after `close`.
abbrev pub IsProper : Event → Current.Conn → Type 0
IsProper (reads promise len) c = 0 < len
IsProper (writes buffer) c = Unit {0}
IsProper (arrives message) c = c.is_closed ≡ false
IsProper closes c = Unit {0}

abbrev pub Alike : Class → List (List ℕ) → Event → Current.Conn → Type 0
Alike k sent e c =
    step k e (as_old sent c) ≡ old_result (sent_after (sent_bytes k) e sent) (step_current e c)

arrives-Alike :
    (k : Class) (sent : List (List ℕ)) (shut : Bool) (message : List ℕ) (c : Current.Conn)
    → shut ≡ false
    → All IsReader c.waiters
    → Alike k sent (arrives message) (record c { is_closed = shut })
unfolding on_message Current.on_message
arrives-Alike k sent true message c opened ws = cc
arrives-Alike k sent false message c opened ws =
    wake_first-same sent c.waiters (record c { buf = c.buf ++ message; is_closed = false }) ws

closes-Alike :
    (k : Class) (sent : List (List ℕ)) (shut : Bool) (c : Current.Conn)
    → All IsReader c.waiters
    → Alike k sent closes (record c { is_closed = shut })
unfolding close Current.close
closes-Alike k sent true c ws = refl
closes-Alike k sent false c ws =
    rw (wake_all-same sent c.waiters (record c { is_closed = true }) ws)

pub step-Alike :
    (k : Class) (sent : List (List ℕ)) (e : Event) (c : Current.Conn)
    → IsProper e c
    → All IsReader c.waiters
    → Alike k sent e c
unfolding read write Current.read Current.write
step-Alike k sent (reads promise len) c pos ws =
    try_read-same sent (record { promise = promise; len = len }) c pos
step-Alike k sent (writes buffer) c pos ws = refl
step-Alike k sent (arrives message) c opened ws =
    arrives-Alike k sent c.is_closed message c opened ws
step-Alike k sent closes c pos ws = closes-Alike k sent c.is_closed c ws

-- Only `write` of the current connection gives its socket anything.
try_read-sent : (w : Waiter) (c : Current.Conn) → (Current.try_read w c).0.sent ≡ c.sent
unfolding Current.try_read
try_read-sent w c = ground arith

wake_first-sent : (ws : List Waiter) (c : Current.Conn) → (Current.wake_first ws c).0.sent ≡ c.sent
unfolding Current.wake_first
wake_first-sent [] c = refl
wake_first-sent (w ∷ ws) c = try_read-sent w (record c { waiters = ws })

wake_all-sent : (ws : List Waiter) (c : Current.Conn) → (Current.wake_all ws c).0.sent ≡ c.sent
unfolding Current.wake_all
wake_all-sent [] c = refl
wake_all-sent (w ∷ ws) c = wake_all-sent ws (Current.try_read w c).0 ∙ try_read-sent w c

closes-sent :
    (shut : Bool) (c : Current.Conn)
    → (Current.close (record c { is_closed = shut })).0.sent ≡ c.sent
unfolding Current.close
closes-sent true c = refl
closes-sent false c = wake_all-sent c.waiters (record c { is_closed = true })

pub step-sent :
    (e : Event) (c : Current.Conn) → (step_current e c).0.sent ≡ sent_after bytes_of e c.sent
unfolding Current.read Current.write Current.on_message
step-sent (reads promise len) c = try_read-sent (record { promise = promise; len = len }) c
step-sent (writes buffer) c = refl
step-sent (arrives message) c = wake_first-sent c.waiters (record c { buf = c.buf ++ message })
step-sent closes c = closes-sent c.is_closed c
