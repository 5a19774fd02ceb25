-- ===== src/Legacy/Conn.antt =====
-- javascript/legacy/qmux/src/qmux_browser.ts: the class `Conn`, and `WebsocketConn` of qmux_node.ts, which
-- differs from it in what `write` sends. Unlike the current one both forget their bytes when closed.
pub mod Same
pub mod Runs
use qtalk.Base.{
  ℕ, Bool, true, false, List, [], ◌∷◌, ◌++◌, Option, none, some, length, take, drop, leb,
  if◌then◌else◌,
}
use qtalk.Base.Throws.{Result, ok, err, type_error}
use qtalk.Conn.WebSocket.{Waiter, Settled}

pub record Conn : Type 0 where
  -- `none` is `undefined`
  pub buf : Option (List ℕ)
  pub waiters : List Waiter
  pub is_closed : Bool
  -- what `socket.send` was given, in order, and whether `socket.close` was called
  pub sent : List (List ℕ)
  pub socket_closed : Bool

unfoldable pub new_conn : Conn
new_conn = record {
  buf = some [];
  waiters = [];
  is_closed = false;
  sent = [];
  socket_closed = false;
}

abbrev pub read_from : Waiter → Option (List ℕ) → Conn → Conn × List Settled
read_from w none c = (c, record { promise = w.promise; value = none } ∷ [])
read_from w (some buf) c =
    if leb w.len (length buf)
    then (
      record c { buf = some (drop w.len buf) },
      record { promise = w.promise; value = some (take w.len buf) } ∷ [],
    )
    else (record c { waiters = c.waiters ++ w ∷ [] }, [])

-- `tryRead`
unfoldable pub try_read : Waiter → Conn → Conn × List Settled
try_read w c = read_from w c.buf c

unfoldable pub read : ℕ → ℕ → Conn → Conn × List Settled
unfolding try_read
read promise len c = try_read (record { promise = promise; len = len }) c

-- `this.waiters.shift()()`
unfoldable pub wake_first : List Waiter → Conn → Conn × List Settled
unfolding try_read
wake_first [] c = (c, [])
wake_first (w ∷ ws) c = try_read w (record c { waiters = ws })

abbrev pub extend : Option (List ℕ) → List ℕ → Conn → Result (Conn × List Settled)
extend none message c = err type_error
extend (some buf) message c = ok (wake_first c.waiters (record c { buf = some (buf ++ message) }))

-- `socket.onmessage`, which reads the length of a buffer that may be gone
unfoldable pub on_message : List ℕ → Conn → Result (Conn × List Settled)
on_message message c = extend c.buf message c

-- A `Buffer`, which shows a part of its `buffer`, an ArrayBuffer.
pub record Buffer : Type 0 where
  pub buffer : List ℕ
  pub byte_offset : ℕ
  pub byte_length : ℕ

abbrev pub bytes_of : Buffer → List ℕ
bytes_of buffer = take buffer.byte_length (drop buffer.byte_offset buffer.buffer)

-- `Conn` of the browser and `WebsocketConn` of node
pub data Class : Type 0 where
  browser node : Class

-- What `write` gives to the socket: `buffer.buffer` in the browser, and `buffer` in node.
abbrev pub sent_bytes : Class → Buffer → List ℕ
sent_bytes browser buffer = buffer.buffer
sent_bytes node buffer = bytes_of buffer

-- `write`, with the length that its promise is resolved with, in node once the socket calls back.
unfoldable pub write : Class → Buffer → Conn → Conn × ℕ
write k buffer c = (record c { sent = c.sent ++ sent_bytes k buffer ∷ [] }, buffer.byte_length)

-- `this.waiters.forEach(waiter => waiter())`: the buffer is gone by then, so that no waiter joins the
-- list while it is walked.
unfoldable pub wake_all : List Waiter → Conn → Conn × List Settled
unfolding try_read
wake_all [] c = (c, [])
wake_all (w ∷ ws) c =
    let (c', first) = try_read w c in let (c'', rest) = wake_all ws c' in (c'', first ++ rest)

-- `close`, which `socket.onclose` calls too
unfoldable pub close : Conn → Conn × List Settled
unfolding wake_all
close c =
    if c.is_closed
    then (c, [])
    else let (c', settled) = wake_all c.waiters (record c { is_closed = true; buf = none }) in
      (record c' { socket_closed = true }, settled)
