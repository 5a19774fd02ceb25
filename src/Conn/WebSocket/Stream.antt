-- ===== src/Conn/WebSocket/Stream.antt =====
-- A WebSocket connection with one reader at a time, as the session's loop uses it: the messages
-- that will arrive are given, and the socket closes after the last.
use qtalk.Base.{
  ℕ, ◌≤◌, ◌<◌, ◌≡◌, refl, ap, false, List, [], ◌∷◌, ◌++◌, Option, none, some, length, take, drop,
  flatten, append-nil, append_assoc, arith, length-append, take-append_left, drop-append_left,
  dec_lt,
}
use qtalk.Conn.{Source}
use qtalk.Conn.WebSocket.{Conn, Settled, read, try_read, on_message, close}

pub record Feed : Type 0 where
  pub conn : Conn
  pub arrivals : List (List ℕ)

-- The value of the first promise that an event resolves, if it resolves one.
abbrev first_value : List Settled → Option (Option (List ℕ))
first_value [] = none
first_value (s ∷ rest) = some s.value

-- The reader waits: messages come in until its promise is resolved, or the socket closes.
await_value : Conn × List Settled → List (List ℕ) → Option (List ℕ) × Feed
unfolding on_message close
await_value (c, s ∷ rest) arrivals = (s.value, record { conn = c; arrivals = arrivals })
await_value (c, []) [] =
    let (c', settled) = close c in
    (elim (first_value settled) [ none ↦ none | some v ↦ v ], record { conn = c'; arrivals = [] })
await_value (c, []) (message ∷ rest) = await_value (on_message message c) rest

unfoldable pub read_next : ℕ → Feed → Option (List ℕ) × Feed
unfolding await_value read
read_next len f = await_value (read 0 len f.conn) f.arrivals

abbrev pub IsOpen : Feed → Type 0
IsOpen f = (f.conn.waiters ≡ []) × (f.conn.is_closed ≡ false)

abbrev pub bytes_left : Feed → List ℕ
bytes_left f = f.conn.buf ++ flatten f.arrivals

abbrev pub Reads : ℕ → List ℕ → Option (List ℕ) × Feed → Type 0
Reads n bytes r = (r.0 ≡ some (take n bytes)) × IsOpen r.1 × (bytes_left r.1 ≡ drop n bytes)

-- The connection after one more message, with no reader waiting.
abbrev extended : Conn → List ℕ → Conn
extended c message = record c { buf = c.buf ++ message; waiters = []; is_closed = false }

-- While the reader is short of bytes, the next message restarts it on the longer buffer.
await-extended :
    (n : ℕ) (c : Conn) (message : List ℕ) (rest : List (List ℕ))
    → c.waiters ≡ []
    → c.is_closed ≡ false
    → 0 < n
    → length c.buf < n
    → await_value (try_read (record { promise = 0; len = n }) c) (message ∷ rest)
      ≡ await_value (try_read (record { promise = 0; len = n }) (extended c message)) rest
unfolding await_value try_read
await-extended n c message rest idle opened pos short = ground arith

await-fits :
    (n : ℕ) (c : Conn) (arrivals : List (List ℕ))
    → c.waiters ≡ []
    → c.is_closed ≡ false
    → 0 < n
    → n ≤ length c.buf
    → Reads n
        (c.buf ++ flatten arrivals)
        (await_value (try_read (record { promise = 0; len = n }) c) arrivals)
unfolding await_value try_read
await-fits n c arrivals idle opened pos fits = ground (
  arith,
  take-append_left n c.buf (flatten arrivals),
  drop-append_left n c.buf (flatten arrivals),
)

await-Reads :
    (n : ℕ) (c : Conn) (arrivals : List (List ℕ))
    → c.waiters ≡ []
    → c.is_closed ≡ false
    → 0 < n
    → n ≤ length (c.buf ++ flatten arrivals)
    → Reads n
        (c.buf ++ flatten arrivals)
        (await_value (try_read (record { promise = 0; len = n }) c) arrivals)
await-Reads n c [] idle opened pos enough =
    await-fits n c [] idle opened pos (omega (arith, ap length (append-nil c.buf)))
await-Reads n c (message ∷ rest) idle opened pos enough = elim (dec_lt (length c.buf) n) [
  | no fits ↦ await-fits n c (message ∷ rest) idle opened pos (omega arith)
  | yes short ↦ rw (await-extended n c message rest idle opened pos short) (
      rw (append_assoc c.buf message (flatten rest)) at (
        await-Reads n (extended c message) rest refl refl pos
          (rw (append_assoc c.buf message (flatten rest)) enough)))
]

await_short :
    (n : ℕ) (c : Conn) (arrivals : List (List ℕ))
    → c.waiters ≡ []
    → c.is_closed ≡ false
    → 0 < n
    → length (c.buf ++ flatten arrivals) < n
    → (await_value (try_read (record { promise = 0; len = n }) c) arrivals).0 ≡ none
await_short n c [] idle opened pos short =
    unfold await_value try_read in ground (arith, ap length (append-nil c.buf))
await_short n c (message ∷ rest) idle opened pos short =
    rw
      (await-extended n c message rest idle opened pos
        (omega (arith, length-append c.buf (message ++ flatten rest))))
      (await_short n (extended c message) rest refl refl pos
        (rw (append_assoc c.buf message (flatten rest)) short))

-- However its messages cut the stream, a read of a positive number of bytes, where as many are left
-- on an open connection on which nobody waits, gives exactly the next ones and leaves the rest.
pub read_next-Reads :
    (n : ℕ) (f : Feed)
    → IsOpen f
    → 0 < n
    → n ≤ length (bytes_left f)
    → Reads n (bytes_left f) (read_next n f)
unfolding read_next
read_next-Reads n f ready pos enough = await-Reads n f.conn f.arrivals ready.0 ready.1 pos enough

pub read_next_short :
    (n : ℕ) (f : Feed) → IsOpen f → 0 < n → length (bytes_left f) < n → (read_next n f).0 ≡ none
unfolding read_next
read_next_short n f ready pos short = await_short n f.conn f.arrivals ready.0 ready.1 pos short

take_buffer :
    (c : Conn) (arrivals : List (List ℕ)) (buf : List ℕ)
    → c.waiters ≡ []
    → c.is_closed ≡ false
    → c.buf ≡ buf
    → let r = await_value (try_read (record { promise = 0; len = 0 }) c) arrivals in
      (front : List ℕ) × (r.0 ≡ some front)
      × IsOpen r.1
      × (front ++ bytes_left r.1 ≡ buf ++ flatten arrivals)
unfolding await_value try_read
take_buffer c arrivals [] idle opened has = ([], ground arith, ground arith, ground arith)
take_buffer c arrivals (x ∷ buf) idle opened has =
    (x ∷ buf, ground arith, ground arith, ground arith)

pub read_next_zero :
    (f : Feed)
    → IsOpen f
    → (front : List ℕ) × ((read_next 0 f).0 ≡ some front)
      × IsOpen (read_next 0 f).1
      × (front ++ bytes_left (read_next 0 f).1 ≡ bytes_left f)
unfolding read_next
read_next_zero f ready = take_buffer f.conn f.arrivals f.conn.buf ready.0 ready.1 refl

-- The connection as a source of bytes.
abbrev pub feed_source : Source Feed
feed_source = record {
  read = read_next;
  IsReady = IsOpen;
  remaining = bytes_left;
  read_enough = read_next-Reads;
  read_short = read_next_short;
  read_zero = read_next_zero;
}
