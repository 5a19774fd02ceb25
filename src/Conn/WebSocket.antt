-- ===== src/Conn/WebSocket.antt =====
-- javascript/mux/transport/websocket.ts: `Conn`, which turns a WebSocket's messages into a byte
-- stream. A waiter is the closure `tryRead` of a call of `read`: its promise and its length.
pub mod Stream
pub mod Dial
use qtalk.Base.{
  ℕ, ◌+◌, ◌==◌, ltb, leb, ◌&&◌, Bool, true, false, List, [], ◌∷◌, ◌++◌, Option, none, some, length,
  take, drop, if◌then◌else◌,
}

pub record Waiter : Type 0 where
  pub promise : ℕ
  pub len : ℕ

-- `resolve(value)` of the promise of a `read`; `none` is `undefined`.
pub record Settled : Type 0 where
  pub promise : ℕ
  pub value : Option (List ℕ)

pub record Conn : Type 0 where
  pub buf : List ℕ
  pub waiters : List Waiter
  pub is_closed : Bool
  -- what `socket.send` was given, in order, and whether `socket.close` was called
  pub sent : List (List ℕ)
  pub socket_closed : Bool

unfoldable pub new_conn : Conn
new_conn = record { buf = []; waiters = []; is_closed = false; sent = []; socket_closed = false }

-- `tryRead`
unfoldable pub try_read : Waiter → Conn → Conn × List Settled
try_read w c =
    if c.is_closed
    then (c, record { promise = w.promise; value = none } ∷ [])
    else if w.len == 0 && ltb 0 (length c.buf)
    then (record c { buf = [] }, record { promise = w.promise; value = some c.buf } ∷ [])
    else if leb w.len (length c.buf)
    then (
      record c { buf = drop w.len c.buf },
      record { promise = w.promise; value = some (take w.len c.buf) } ∷ [],
    )
    else (record c { waiters = c.waiters ++ w ∷ [] }, [])

unfoldable pub read : ℕ → ℕ → Conn → Conn × List Settled
unfolding try_read
read promise len c = try_read (record { promise = promise; len = len }) c

-- `this.waiters.shift()` and the call of what it returns
unfoldable pub wake_first : List Waiter → Conn → Conn × List Settled
unfolding try_read
wake_first [] c = (c, [])
wake_first (w ∷ ws) c = try_read w (record c { waiters = ws })

-- `socket.onmessage`. The `concat` has the sum of both lengths: it is `++` (Util.Concat).
unfoldable pub on_message : List ℕ → Conn → Conn × List Settled
unfolding wake_first
on_message message c = let c' = record c { buf = c.buf ++ message } in wake_first c.waiters c'

unfoldable pub write : List ℕ → Conn → Conn × ℕ
write buffer c = (record c { sent = c.sent ++ buffer ∷ [] }, length buffer)

-- `this.waiters.forEach(waiter => waiter())`: the connection is closed by then, so that no waiter
-- joins the list while it is walked.
unfoldable pub wake_all : List Waiter → Conn → Conn × List Settled
unfolding try_read
wake_all [] c = (c, [])
wake_all (w ∷ ws) c =
    let (c', first) = try_read w c in let (c'', rest) = wake_all ws c' in (c'', first ++ rest)

-- `close`, which `socket.onclose` calls too
unfoldable pub close : Conn → Conn × List Settled
unfolding wake_all
close c =
    if c.is_closed
    then (c, [])
    else let (c', settled) = wake_all c.waiters (record c { is_closed = true }) in
      (record c' { socket_closed = true }, settled)
