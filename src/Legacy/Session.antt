-- ===== src/Legacy/Session.antt =====
-- javascript/legacy/qmux/src/qmux.ts: the session and the methods of a channel that reach it, on the
-- state of Session. `newChannel`, `getCh`, `accept` and what runs behind an `await` are the code of
-- javascript/mux, and so is `readPacket`, whose model is that of `Decoder`.
pub mod Same
pub mod Dropped
use qtalk.Base.{
  ℕ, zero, suc, ◌+◌, ◌^◌, Bool, true, false, not, ◌||◌, List, [], ◌∷◌, ◌++◌, Option, none, some,
  drop, length, ltb, ◌==◌, if◌then◌else◌,
}
use qtalk.Base.Throws.{Error, Result, ok, err, range_error, invalid_max_packet, invalid_channel}
use qtalk.Bytes.{set_uint32, get_uint32}
use qtalk.Util.Queue
use qtalk.Conn.{Source}
use qtalk.Channel.{Channel, Settled, channel_max_packet, wake_all}
use qtalk.Codec.{
  Message, open_message, open_confirm, open_failure, window_adjust, data_message, eof_message,
  close_message, open_id, open_confirm_id, open_failure_id, window_adjust_id, data_id, eof_id,
  close_id,
}
use qtalk.Codec.Decoder.{Decodes, read_packet}
use qtalk.Session.State.{
  Session, M, pure, throw, ◌>>=◌, ◌>>◌, load, store, resolve, resolve_reads, suspend, closed, Task,
  open_written, close_written, woken,
}
use qtalk.Session.Methods.{write_buffer, wake_tasks, suspend_all, push_ready}
use qtalk.Session.Dispatch.{Ended, new_channel, push_incoming, get_ch, after_dispatch}
use qtalk.Session.Table.{lookup}
use qtalk.Legacy.Table.{rm_ch}
use qtalk.Legacy.Packets.{encode, decode}
use qtalk.Legacy.Channel.{Ends, handle_data}
use qtalk.Legacy.Writes.{send_built}

-- The bounds on `maxPacketSize`
abbrev pub bad_size : ℕ → Bool
bad_size n = ltb n 9 || ltb (2 ^ 30) n

-- `this.conn.write(encode(type, obj))`
unfoldable pub write_message : Message → M (Unit {0})
write_message message = write_buffer (encode message)

-- `data.setUint32(1, this.remoteId)`
abbrev pub addressed : ℕ → Result (List ℕ) → Result (List ℕ)
addressed id (err e) = err e
addressed id (ok packet) = set_uint32 1 id packet

unfoldable pub send_message : ℕ → Message → M (Unit {0})
send_message ref message = do
  ch ← load ref
  send_built ref (addressed ch.remote_id (encode message))

unfoldable pub remove_channel : ℕ → M (Unit {0})
remove_channel id s = (ok tt, record s { channels = rm_ch id s.channels })

-- `shutdown`: the readers find no buffer, as in javascript/mux.
unfoldable pub shutdown : ℕ → M (Unit {0})
shutdown ref = do
  ch ← load ref
  let result = wake_all ch.readers (record ch { read_buf = none })
  let ready = Queue.close ch.ready
  store ref (record result.0 { ready = ready.0 })
  resolve_reads result.1
  suspend_all (wake_tasks ref ready.1)
  remove_channel ch.local_id

-- `close` up to its first `await`
unfoldable pub close : ℕ → Option ℕ → M (Unit {0})
close ref promise = do
  ch ← load ref
  if not ch.sent_close
      then (do send_message ref (close_message ch.remote_id); suspend (close_written ref promise))
      else do shutdown ref; resolve (closed promise)

unfoldable pub close_write : ℕ → M (Unit {0})
close_write ref = do
  ch ← load ref
  store ref (record ch { sent_eof = true })
  send_message ref (eof_message ch.remote_id)

-- `open` up to its first `await`
unfoldable pub open_channel : ℕ → M (Unit {0})
open_channel promise = do
  ref ← new_channel
  ch ← load ref
  store ref (record ch { max_incoming_payload = channel_max_packet })
  write_message (open_message ch.local_id ch.my_window channel_max_packet)
  suspend (open_written ref promise)

-- The promise of an `async` method that nobody awaits: what it throws is not seen.
abbrev pub detached : M (Unit {0}) → M (Unit {0})
detached m s = (ok tt, (m s).1)

abbrev pub data_ended : ℕ → Ends → M (Unit {0})
data_ended ref (err e, ch) = do store ref ch; throw e
data_ended ref (ok settled, ch) = do store ref ch; resolve_reads settled

abbrev pub sized_data : ℕ → List ℕ → Result ℕ → M (Unit {0})
sized_data ref packet (err e) = throw e
sized_data ref packet (ok len) = do
  ch ← load ref
  data_ended ref (handle_data len (drop 9 packet) ch)

abbrev pub opening_failed : ℕ → Result Message → M (Unit {0})
opening_failed ref (err e) = throw e
opening_failed ref (ok (open_failure id)) = do remove_channel id; push_ready ref false
opening_failed ref (ok message) = pure tt

abbrev pub confirmed : ℕ → Result Message → M (Unit {0})
confirmed ref (err e) = throw e
confirmed ref (ok (open_confirm id my_id window size)) = do
  ch ← load ref
  if bad_size size then throw invalid_max_packet else do
    store ref (record ch {
      remote_id = my_id;
      max_remote_payload = size;
      remote_win = ch.remote_win + window;
    })
    push_ready ref true
confirmed ref (ok message) = pure tt

abbrev pub adjusted : ℕ → Result Message → M (Unit {0})
adjusted ref (err e) = throw e
adjusted ref (ok (window_adjust id n)) = do
  ch ← load ref
  store ref (record ch { remote_win = ch.remote_win + n })
adjusted ref (ok message) = pure tt

-- `handlePacket`, with the number of the packet's type
unfoldable pub handle_packet : ℕ → ℕ → List ℕ → M (Unit {0})
handle_packet ref type packet =
    if type == data_id
    then detached (sized_data ref packet (get_uint32 packet 5))
    else if type == close_id
    then detached (close ref none)
    else if type == eof_id
    then (do ch ← load ref; store ref (record ch { got_eof = true }))
    else if type == open_failure_id
    then opening_failed ref (decode packet)
    else if type == open_confirm_id
    then confirmed ref (decode packet)
    else if type == window_adjust_id
    then adjusted ref (decode packet)
    else pure tt

abbrev pub opened_by : Result Message → M (Unit {0})
opened_by (err e) = throw e
opened_by (ok (open_message id window size)) =
    if bad_size size then write_message (open_failure id) else do
      ref ← new_channel
      ch ← load ref
      store ref (record ch {
        remote_id = id;
        max_remote_payload = size;
        remote_win = window;
        max_incoming_payload = channel_max_packet;
      })
      push_incoming ref
      write_message (open_confirm id ch.local_id ch.my_window channel_max_packet)
opened_by (ok message) = pure tt

unfoldable pub handle_channel_open : List ℕ → M (Unit {0})
handle_channel_open packet = opened_by (decode packet)

abbrev pub handle_found : Option ℕ → ℕ → List ℕ → M (Unit {0})
handle_found none type packet = throw invalid_channel
handle_found (some ref) type packet = handle_packet ref type packet

abbrev pub to_channel : ℕ → List ℕ → Result ℕ → M (Unit {0})
to_channel type packet (err e) = throw e
to_channel type packet (ok id) = do found ← get_ch id; handle_found found type packet

-- The body of `loop`, for one packet
unfoldable pub dispatch : List ℕ → M (Unit {0})
dispatch [] = throw range_error
dispatch (type ∷ rest) =
    if type == open_id
    then handle_channel_open (type ∷ rest)
    else to_channel type (type ∷ rest) (get_uint32 (type ∷ rest) 1)

abbrev pub shutdown_found : Option ℕ → M (Unit {0})
shutdown_found none = pure tt
shutdown_found (some ref) = shutdown ref

-- The loop of `close` over the keys
unfoldable pub shutdown_from : ℕ → ℕ → M (Unit {0})
shutdown_from id zero s = (ok tt, s)
shutdown_from id (suc n) s =
    (shutdown_found (lookup id s.channels) >>= λ _. shutdown_from (suc id) n) s

unfoldable pub close_session : M (Unit {0})
unfolding shutdown_from
close_session s =
    (shutdown_from 0 (length s.channels) >>= λ _ s'. (ok tt, record s' { conn_closed = true })) s

module _ {S : Type 0} (src : Source S) where
  abbrev pub after_packet : (S → Session → Ended) → Decodes S (List ℕ) → Session → Ended
  after_packet again (err e, c) s = some (err e, s)
  after_packet again (ok none, c) s = some (close_session s)
  after_packet again (ok (some packet), c) s = after_dispatch src again c (dispatch packet s)

  unfoldable pub loop : ℕ → S → Session → Ended
  loop zero c s = none
  loop (suc fuel) c s = after_packet (λ c' s'. loop fuel c' s') (read_packet src c) s
