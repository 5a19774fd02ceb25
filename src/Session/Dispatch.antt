-- ===== src/Session/Dispatch.antt =====
-- javascript/mux/session.ts: the methods of a session, its read loop, and what runs when a promise
-- that an `async` method awaits is resolved.
use qtalk.Base.{
  ℕ, zero, suc, Bool, true, false, [], ◌∷◌, ◌++◌, Option, none, some, length, if◌then◌else◌,
}
use qtalk.Base.Throws.{Result, ok, err, type_error, invalid_channel}
use qtalk.Util.Queue.{Queue, Shifted, now, waiting}
use qtalk.Util.Queue
use qtalk.Channel.{
  Channel, Waker, opener, closer, new_object, channel_max_packet, channel_window_size,
}
use qtalk.Codec.{
  Message, open_message, open_confirm, open_failure, window_adjust, data_message, eof_message,
  close_message,
}
use qtalk.Conn.{Source}
use qtalk.Codec.Decoder.{decode, Decodes}
use qtalk.Session.State.{
  Session, M, pure, throw, ◌>>=◌, ◌>>◌, load, store, resolve, suspend, opened, open_failed,
  accepted, closed, Task, open_written, close_written, woken,
}
use qtalk.Session.Table.{add_ch, lookup}
use qtalk.Session.Methods.{encode, handle, shutdown, bad_packet_size}

-- `newChannel`: the object, with its `localId` from `addCh`
unfoldable pub new_channel : M ℕ
unfolding new_object
new_channel s =
    let ref = length s.objects in
    let (channels', id) = add_ch ref s.channels in
    let ch = record new_object {
      remote_win = 0;
      my_window = channel_window_size;
      read_buf = some [];
      local_id = id;
    } in
    (ok ref, record s { objects = s.objects ++ ch ∷ []; channels = channels' })

-- `open` up to its first `await`
unfoldable pub open_channel : ℕ → M (Unit {0})
open_channel promise = do
  ref ← new_channel
  ch ← load ref
  store ref (record ch { max_incoming_payload = channel_max_packet })
  encode (open_message ch.local_id ch.my_window channel_max_packet)
  suspend (open_written ref promise)

abbrev pub accept_result : ℕ → Queue ℕ ℕ × Shifted ℕ → M (Unit {0})
accept_result promise (incoming, now value) s =
    (ok tt, record s { incoming = incoming; outcomes = s.outcomes ++ accepted promise value ∷ [] })
accept_result promise (incoming, waiting) s = (ok tt, record s { incoming = incoming })

unfoldable pub accept : ℕ → M (Unit {0})
accept promise s = accept_result promise (Queue.shift promise s.incoming) s

abbrev pub incoming_result : Result (Queue ℕ ℕ × Option (ℕ × ℕ)) → M (Unit {0})
incoming_result (err e) = throw e
incoming_result (ok (incoming, none)) = λ s. (ok tt, record s { incoming = incoming })
incoming_result (ok (incoming, some (promise, ref))) = λ s. (
  ok tt,
  record s { incoming = incoming; outcomes = s.outcomes ++ accepted promise (some ref) ∷ [] },
)

-- `this.incoming.push(c)`
unfoldable pub push_incoming : ℕ → M (Unit {0})
push_incoming ref s = incoming_result (Queue.push ref s.incoming) s

unfoldable pub handle_open : ℕ → ℕ → ℕ → M (Unit {0})
handle_open sender_id window_size max_packet_size =
    if bad_packet_size max_packet_size then encode (open_failure sender_id) else do
      ref ← new_channel
      ch ← load ref
      store ref (record ch {
        remote_id = sender_id;
        max_remote_payload = max_packet_size;
        remote_win = window_size;
        max_incoming_payload = channel_max_packet;
      })
      push_incoming ref
      encode (open_confirm sender_id ch.local_id ch.my_window channel_max_packet)

-- `getCh`: the entry's `localId` is read before anyone tests the entry.
abbrev pub present : Option ℕ → M (Option ℕ)
present none = throw type_error
present (some ref) = pure (some ref)

unfoldable pub get_ch : ℕ → M (Option ℕ)
get_ch id s = present (lookup id s.channels) s

abbrev pub handle_found : Option ℕ → Message → M (Unit {0})
handle_found none message = throw invalid_channel
handle_found (some ref) message = handle ref message

abbrev pub to_channel : ℕ → Message → M (Unit {0})
to_channel id message = do found ← get_ch id; handle_found found message

-- The body of `loop`, for one message
unfoldable pub dispatch : Message → M (Unit {0})
dispatch (open_message sender_id window_size max_packet_size) =
    handle_open sender_id window_size max_packet_size
dispatch (open_confirm id x y z) = to_channel id (open_confirm id x y z)
dispatch (open_failure id) = to_channel id (open_failure id)
dispatch (window_adjust id n) = to_channel id (window_adjust id n)
dispatch (data_message id len bytes) = to_channel id (data_message id len bytes)
dispatch (eof_message id) = to_channel id (eof_message id)
dispatch (close_message id) = to_channel id (close_message id)

abbrev pub shutdown_found : Option ℕ → M (Unit {0})
shutdown_found none = pure tt
shutdown_found (some ref) = shutdown ref

-- The loop of `close` over the keys: an entry that is missing by then is passed over.
unfoldable pub shutdown_from : ℕ → ℕ → M (Unit {0})
shutdown_from id zero s = (ok tt, s)
shutdown_from id (suc n) s =
    (shutdown_found (lookup id s.channels) >>= λ _. shutdown_from (suc id) n) s

unfoldable pub close_session : M (Unit {0})
unfolding shutdown_from
close_session s =
    (shutdown_from 0 (length s.channels) >>= λ _ s'. (ok tt, record s' { conn_closed = true })) s

-- `if (await ch.ready.shift()) return ch; throw "failed to open"`
abbrev pub open_result : ℕ → ℕ → Option Bool → M (Unit {0})
open_result ref promise none = resolve (open_failed promise)
open_result ref promise (some false) = resolve (open_failed promise)
open_result ref promise (some true) = resolve (opened promise ref)

-- One test of `while (await this.ready.shift() !== undefined)`, once the value is there. The next
-- round is that of `close_written`, whose assignment is then repeated without effect.
abbrev pub close_result : ℕ → Option ℕ → Option Bool → M (Unit {0})
close_result ref promise none = resolve (closed promise)
close_result ref promise (some v) = suspend (close_written ref promise)

abbrev pub wake : ℕ → Waker → Option Bool → M (Unit {0})
wake ref (opener promise) v = open_result ref promise v
wake ref (closer promise) v = close_result ref promise v

abbrev pub shift_result : ℕ → Waker → Channel → Queue Bool Waker × Shifted Bool → M (Unit {0})
shift_result ref w ch (ready, now v) = do store ref (record ch { ready = ready }); wake ref w v
shift_result ref w ch (ready, waiting) = store ref (record ch { ready = ready })

unfoldable pub shift_ready : ℕ → Waker → M (Unit {0})
shift_ready ref w = do ch ← load ref; shift_result ref w ch (Queue.shift w ch.ready)

-- The rest of an `async` method, from its `await` to the next
unfoldable pub resume : Task → M (Unit {0})
resume (open_written ref promise) = shift_ready ref (opener promise)
resume (close_written ref promise) = do
  ch ← load ref
  store ref (record ch { sent_close = true })
  shift_ready ref (closer promise)
resume (woken ref w v) = wake ref w v

-- `loop`: `none` means that the fuel ran out. A throw ends the loop, and that is all that it does.
abbrev pub Ended : Type 0
Ended = Option (Result (Unit {0}) × Session)

module _ {S : Type 0} (src : Source S) where
  abbrev pub after_dispatch : (S → Session → Ended) → S → Result (Unit {0}) × Session → Ended
  after_dispatch again c (err e, s) = some (err e, s)
  after_dispatch again c (ok u, s) = again c s

  abbrev pub after_decode : (S → Session → Ended) → Decodes S Message → Session → Ended
  after_decode again (err e, c) s = some (err e, s)
  after_decode again (ok none, c) s = some (close_session s)
  after_decode again (ok (some message), c) s = after_dispatch again c (dispatch message s)

  unfoldable pub loop : ℕ → S → Session → Ended
  loop zero c s = none
  loop (suc fuel) c s = after_decode (λ c' s'. loop fuel c' s') (decode src c) s
