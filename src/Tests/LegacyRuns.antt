-- ===== src/Tests/LegacyRuns.antt =====
-- Runs of javascript/legacy/qmux.
use qtalk.Base.{◌≡◌, refl, false, [], ◌∷◌, some, arith}
use qtalk.Base.Throws.{ok, err, range_error, ◌>>=◌}
use qtalk.Bytes.{set_bytes}
use qtalk.Codec.{data_message}
use qtalk.Codec.Marshal.{marshal}
use qtalk.Codec.Unmarshal.{unmarshal}
use qtalk.Session.State.{Session, object, new_session}
use qtalk.Session.State
use qtalk.Session.Dispatch
use qtalk.Codec.{open_message, eof_message}
use qtalk.Codec.Marshal.{wire}
use qtalk.Conn.WebSocket.Stream.{Feed, feed_source}
use qtalk.Legacy.Session
use qtalk.Legacy.Session.Same.{dispatch-same}
use qtalk.Legacy.Session.Dropped.{loop-dropped}
use qtalk.Session.Table.{add_ch, lookup}
use qtalk.Channel.{Channel, new_object}
use qtalk.Session.Opening.{confirmed}
use qtalk.Legacy.Packets.{encode, decode}
use qtalk.Legacy.Interop.{decode-marshal}
use qtalk.Legacy.Table.{rm_ch, add_ch-rm_ch}

decode-marshal_example :
    ((marshal (data_message 3 2 (7 ∷ 8 ∷ [])) >>= decode) ≡ ok (data_message 3 2 (7 ∷ 8 ∷ [])))
    × ((encode (data_message 3 2 (7 ∷ 8 ∷ [])) >>= unmarshal) ≡ ok (data_message 3 2 (7 ∷ 8 ∷ [])))
decode-marshal_example = decode-marshal (data_message 3 2 (7 ∷ 8 ∷ [])) (omega arith)

-- More data than the packet says does not fit the copy.
decode_overrun : decode (104 ∷ 0 ∷ 0 ∷ 0 ∷ 3 ∷ 0 ∷ 0 ∷ 0 ∷ 1 ∷ 7 ∷ 8 ∷ []) ≡ err range_error
unfolding decode set_bytes
decode_overrun = refl

removed_entry :
    let r = add_ch 2 (rm_ch 0 (object 0 ∷ object 1 ∷ [])) in
    (r.1 ≡ 2) × (lookup 0 r.0 ≡ some 2) × (lookup 2 r.0 ≡ some 2)
removed_entry = add_ch-rm_ch 2 0 (object 0 ∷ object 1 ∷ []) (omega arith)

-- A session with one channel, which the other side calls 3.
abbrev one_channel : Session
unfolding new_session
one_channel = record new_session { objects = confirmed 0 3 ∷ []; channels = object 0 ∷ [] }

dispatch-same_example :
    Session.dispatch (wire (open_message 4 100 16)) one_channel
    ≡ Dispatch.dispatch (open_message 4 100 16) one_channel
dispatch-same_example =
    dispatch-same (open_message 4 100 16) one_channel (omega arith) (omega arith)

-- The window of the channel has one byte left.
abbrev full_channel : Channel
full_channel = record (confirmed 0 3) { my_window = 1 }

abbrev full_session : State.Session
unfolding new_session
full_session = record new_session { objects = full_channel ∷ []; channels = object 0 ∷ [] }

abbrev too_much : Feed
too_much = record {
  conn = record {
    buf = wire (data_message 0 2 (7 ∷ 8 ∷ []));
    waiters = [];
    is_closed = false;
    sent = [];
    socket_closed = false;
  };
  arrivals = wire (eof_message 0) ∷ [];
}

loop-dropped_example :
    (c : Feed) × feed_source.IsReady c
    × (feed_source.remaining c ≡ wire (eof_message 0))
    × (Session.loop feed_source 3 too_much full_session ≡ Session.loop feed_source 2 c full_session)
unfolding new_object lookup full_session
loop-dropped_example =
    loop-dropped feed_source 2 0 2 0 (7 ∷ 8 ∷ []) (wire (eof_message 0)) full_channel too_much
      full_session (refl, refl) refl (omega arith) refl refl (omega arith)
