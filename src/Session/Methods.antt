-- ===== src/Session/Methods.antt =====
-- javascript/mux/channel.ts: the methods that write, and those that end a channel.
use qtalk.Base.{
  ℕ, ◌+◌, ◌-◌, ◌*◌, ◌^◌, Bool, true, false, not, ◌||◌, List, [], ◌∷◌, ◌++◌, Option, none, some,
  length, ltb, if◌then◌else◌,
}
use qtalk.Base.Throws.{Result, ok, err, eof_sent, invalid_max_packet}
use qtalk.Util.Queue.{Queue, Shifted, now, waiting}
use qtalk.Util.Queue
use qtalk.Channel.{Channel, Waker, Settled, try_read, wake_all, handle_data}
use qtalk.Codec.{
  Message, open_message, open_confirm, open_failure, window_adjust, data_message, eof_message,
  close_message,
}
use qtalk.Codec.Marshal.{marshal}
use qtalk.Session.State.{
  M, pure, throw, ◌>>=◌, ◌>>◌, load, store, resolve, resolve_reads, suspend, closed, Task,
  close_written, woken,
}
use qtalk.Session.Table.{rm_ch}

-- session.ts: the bounds on `maxPacketSize`; the upper one is `Number.MAX_VALUE`
abbrev pub min_packet_length : ℕ
min_packet_length = 9

abbrev pub max_packet_length : ℕ
max_packet_length = (2 ^ 53 - 1) * 2 ^ 971

abbrev pub bad_packet_size : ℕ → Bool
bad_packet_size n = ltb n min_packet_length || ltb max_packet_length n

-- encoder.ts: `Encoder.encode`
abbrev pub write_buffer : Result (List ℕ) → M (Unit {0})
write_buffer (err e) = throw e
write_buffer (ok bytes) = λ s. (ok tt, record s { written = s.written ++ bytes ∷ [] })

unfoldable pub encode : Message → M (Unit {0})
encode m = write_buffer (marshal m)

abbrev pub is_close : Message → Bool
is_close (close_message id) = true
is_close (open_message x y z) = false
is_close (open_confirm x y z w) = false
is_close (open_failure x) = false
is_close (window_adjust x y) = false
is_close (data_message x y z) = false
is_close (eof_message x) = false

unfoldable pub send : ℕ → Message → M (Unit {0})
send ref message = do
  ch ← load ref
  if ch.sent_close
      then throw eof_sent
      else do store ref (record ch { sent_close = is_close message }); encode message

unfoldable pub read : ℕ → ℕ → ℕ → M (Unit {0})
read ref promise len = do
  ch ← load ref
  let result = try_read (record { promise = promise; len = len }) ch
  store ref result.0
  resolve_reads result.1

unfoldable pub write : ℕ → List ℕ → M (Unit {0})
write ref buffer = do
  ch ← load ref
  if ch.sent_eof
      then throw eof_sent
      else send ref (data_message ch.remote_id (length buffer) buffer)

unfoldable pub close_write : ℕ → M (Unit {0})
close_write ref = do
  ch ← load ref
  store ref (record ch { sent_eof = true })
  send ref (eof_message ch.remote_id)

-- session.ts: `rmCh`
unfoldable pub remove_channel : ℕ → M (Unit {0})
remove_channel id s = (ok tt, record s { channels = rm_ch id s.channels })

abbrev pub wake_tasks : ℕ → List Waker → List Task
wake_tasks ref [] = []
wake_tasks ref (w ∷ ws) = woken ref w none ∷ wake_tasks ref ws

unfoldable pub suspend_all : List Task → M (Unit {0})
suspend_all ts s = (ok tt, record s { tasks = s.tasks ++ ts })

unfoldable pub shutdown : ℕ → M (Unit {0})
shutdown ref = do
  ch ← load ref
  let result = wake_all ch.readers (record ch { read_buf = none })
  let ready = Queue.close ch.ready
  store ref (record result.0 { ready = ready.0 })
  resolve_reads result.1
  suspend_all (wake_tasks ref ready.1)
  remove_channel ch.local_id

-- `close` up to its first `await`; the promise is of the caller, if there is one.
unfoldable pub close : ℕ → Option ℕ → M (Unit {0})
close ref promise = do
  ch ← load ref
  if not ch.sent_close
      then (do send ref (close_message ch.remote_id); suspend (close_written ref promise))
      else do shutdown ref; resolve (closed promise)

abbrev pub push_result :
    ℕ → Channel → Result (Queue Bool Waker × Option (Waker × Bool)) → M (Unit {0})
push_result ref ch (err e) = throw e
push_result ref ch (ok (ready, none)) = store ref (record ch { ready = ready })
push_result ref ch (ok (ready, some (w, v))) = do
  store ref (record ch { ready = ready })
  suspend (woken ref w (some v))

-- `this.ready.push(v)`
unfoldable pub push_ready : ℕ → Bool → M (Unit {0})
push_ready ref v = do ch ← load ref; push_result ref ch (Queue.push v ch.ready)

abbrev pub data_result : ℕ → Result (Channel × List Settled) → M (Unit {0})
data_result ref (err e) = throw e
data_result ref (ok (ch, settled)) = do store ref ch; resolve_reads settled

unfoldable pub handle : ℕ → Message → M (Unit {0})
handle ref (data_message id len bytes) = do
  ch ← load ref
  data_result ref (handle_data len bytes ch)
handle ref (close_message id) = close ref none
handle ref (eof_message id) = do ch ← load ref; store ref (record ch { got_eof = true })
handle ref (open_failure id) = do remove_channel id; push_ready ref false
handle ref (open_confirm id sender_id window_size max_packet_size) = do
  ch ← load ref
  if bad_packet_size max_packet_size then throw invalid_max_packet else do
    store ref (record ch {
      remote_id = sender_id;
      max_remote_payload = max_packet_size;
      remote_win = ch.remote_win + window_size;
    })
    push_ready ref true
handle ref (window_adjust id additional_bytes) = do
  ch ← load ref
  store ref (record ch { remote_win = ch.remote_win + additional_bytes })
handle ref (open_message sender_id window_size max_packet_size) = pure tt
