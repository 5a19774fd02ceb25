-- ===== src/Channel.antt =====
-- javascript/mux/channel.ts: a channel's state, and what its methods do to the channel alone. The
-- methods that reach the session are in Session.
pub mod Bytes
pub mod Feed
pub mod Stream
pub mod Readers
pub mod Sending
use qtalk.Base.{
  ℕ, ◌+◌, ◌-◌, ◌*◌, ◌^◌, Bool, true, false, ◌&&◌, List, [], ◌∷◌, ◌++◌, Option, none, some, length,
  take, drop, ltb, leb, ◌==◌, if◌then◌else◌,
}
use qtalk.Base.Throws.{Result, ok, err, payload_too_large, wrote_too_much, ◌>>=◌}
use qtalk.Util.Queue.{Queue, new_queue}

abbrev pub channel_max_packet : ℕ
channel_max_packet = 2 ^ 15

abbrev pub channel_window_size : ℕ
channel_window_size = 64 * channel_max_packet

-- The closure `tryRead` of a call of `read`: its promise and its length.
pub record Reader : Type 0 where
  pub promise : ℕ
  pub len : ℕ

-- `resolve(value)` in a `tryRead`; `none` is `undefined`.
pub record Settled : Type 0 where
  pub promise : ℕ
  pub value : Option (List ℕ)

-- Who waits for the ready state: a call of `Session.open`, by its promise, or the loop in a call of
-- `close`, by its promise if anyone holds it.
pub data Waker : Type 0 where
  opener : ℕ → Waker
  closer : Option ℕ → Waker

pub record Channel : Type 0 where
  pub local_id : ℕ
  pub remote_id : ℕ
  pub max_incoming_payload : ℕ
  pub max_remote_payload : ℕ
  pub ready : Queue Bool Waker
  pub sent_eof : Bool
  pub got_eof : Bool
  pub sent_close : Bool
  pub remote_win : ℕ
  pub my_window : ℕ
  pub read_buf : Option (List ℕ)
  pub readers : List Reader

-- The constructor. `readBuf` is `undefined` until `Session.newChannel` sets it.
unfoldable pub new_object : Channel
unfolding new_queue
new_object = record {
  local_id = 0;
  remote_id = 0;
  max_incoming_payload = 0;
  max_remote_payload = 0;
  ready = new_queue;
  sent_eof = false;
  got_eof = false;
  sent_close = false;
  remote_win = 0;
  my_window = 0;
  read_buf = none;
  readers = [];
}

-- What is left after a read: `undefined` once the end of the stream is reached.
abbrev pub remainder : Bool → List ℕ → Option (List ℕ)
remainder got_eof rest = if length rest == 0 && got_eof then none else some rest

-- `tryRead` on a buffer
abbrev pub read_from : Reader → List ℕ → Channel → Channel × List Settled
read_from r buf ch =
    if r.len == 0 && ltb 0 (length buf)
    then (record ch { read_buf = some [] }, record { promise = r.promise; value = some buf } ∷ [])
    else if leb r.len (length buf)
    then (
      record ch { read_buf = remainder ch.got_eof (drop r.len buf) },
      record { promise = r.promise; value = some (take r.len buf) } ∷ [],
    )
    else (record ch { readers = ch.readers ++ r ∷ [] }, [])

unfoldable pub try_read : Reader → Channel → Channel × List Settled
try_read r ch = elim ch.read_buf [
  | none ↦ (ch, record { promise = r.promise; value = none } ∷ [])
  | some buf ↦ read_from r buf ch
]

-- `this.readers.shift()` and the call of what it returns
unfoldable pub wake_first : List Reader → Channel → Channel × List Settled
unfolding try_read
wake_first [] ch = (ch, [])
wake_first (r ∷ rs) ch = try_read r (record ch { readers = rs })

-- `this.readers.forEach(reader => reader())`, of `shutdown`
unfoldable pub wake_all : List Reader → Channel → Channel × List Settled
unfolding try_read
wake_all [] ch = (ch, [])
wake_all (r ∷ rs) ch =
    let (ch', first) = try_read r ch in let (ch'', rest) = wake_all rs ch' in (ch'', first ++ rest)

-- The `concat` onto `readBuf`, whose length is the sum of both: it is `++` (Util.Concat).
abbrev pub extend : Option (List ℕ) → List ℕ → Option (List ℕ)
extend none bytes = none
extend (some buf) bytes = some (buf ++ bytes)

abbrev pub accept_data : ℕ → List ℕ → Channel → Channel
accept_data len bytes ch = record ch {
  my_window = ch.my_window - len;
  read_buf = extend ch.read_buf bytes;
}

unfoldable pub handle_data : ℕ → List ℕ → Channel → Result (Channel × List Settled)
unfolding wake_first
handle_data len bytes ch =
    if ltb ch.max_incoming_payload len
    then err payload_too_large
    else if ltb ch.my_window len
    then err wrote_too_much
    else ok (wake_first ch.readers (accept_data len bytes ch))
