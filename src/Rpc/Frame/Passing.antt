-- ===== src/Rpc/Frame/Passing.antt =====
-- Values that go from one session to the other as the bytes of messages, and what both sessions are
-- after it.
use qtalk.Base.{
  ℕ, ◌≤◌, ◌≡◌, refl, ap, ◌∙◌, false, ◌⊎◌, List, [], ◌∷◌, Option, none, some, length, take, drop,
  map, flatten, set, All, get_elem?, get_elem?-set_self, get_elem?_in, drop-append,
}
use qtalk.Base.Throws.{Result, ok, err}
use qtalk.Bytes.{IsU32}
use qtalk.Util.Queue.Fifo.{pairs}
use qtalk.Channel.{Channel, channel_max_packet}
use qtalk.Channel.Feed.{Link, link_source}
use qtalk.Channel.Sending.{CanSend, read_link-CanSend}
use qtalk.Codec.{Message, IsValid}
use qtalk.Codec.Marshal.{wire}
use qtalk.Codec.Unmarshal.{unmarshal}
use qtalk.Codec.RoundTrip.{unmarshal-wire}
use qtalk.Session.State.{Session, M, pure, throw, ◌>>◌}
use qtalk.Session.Table.{lookup}
use qtalk.Session.Dispatch.{dispatch}
use qtalk.Session.Transfer.{
  dispatch_all, data_messages, AreSendable, after_writes, buffered, write_all-dispatch_all,
}
use qtalk.Rpc.Frame.{Codec, new_frame_codec}
use qtalk.Rpc.Frame.Delivery.{messages, Fits, messages_small}
use qtalk.Rpc.Frame.Ops.{Event, rounds, readers}
use qtalk.Rpc.Frame.Order.{run}
use qtalk.Rpc.Frame.Left.{left, left-keeps}
use qtalk.Rpc.Frame.Crossing.{encode_all, encode_all-write_all, Fits-AreSendable, run-buffered}

-- A message of the connection, decoded and given to the session
abbrev pub give_message : Result Message → M (Unit {0})
give_message (err e) = throw e
give_message (ok m) = dispatch m

abbrev pub receive_all : List (List ℕ) → M (Unit {0})
receive_all [] = pure tt
receive_all (buf ∷ bufs) = give_message (unmarshal buf) >> receive_all bufs

-- What a session has written between two of its states
abbrev pub sent_since : Session → Session → List (List ℕ)
sent_since s s' = drop (length s.written) s'.written

sent_since-after_writes :
    (ms : List Message) (s : Session) → sent_since s (after_writes ms s) ≡ map wire ms
sent_since-after_writes ms s = drop-append s.written (map wire ms) (length s.written) refl

receive_all-dispatch_all :
    (ms : List Message) (t : Session)
    → All IsValid ms
    → receive_all (map wire ms) t ≡ dispatch_all ms t
receive_all-dispatch_all [] t valid = refl
receive_all-dispatch_all (m ∷ ms) t valid = rw (unmarshal-wire m valid.0) (
    ap (λ (k : M (Unit {0})). (dispatch m >> k) t)
      (λ i t'. receive_all-dispatch_all ms t' valid.1 i))

data_messages-IsValid :
    (id : ℕ) (bs : List (List ℕ)) → IsU32 id → AreSendable bs → All IsValid (data_messages id bs)
data_messages-IsValid id [] small sendable = tt
data_messages-IsValid id (b ∷ bs) small sendable =
    ((small, sendable.0.0, refl, sendable.0.1), data_messages-IsValid id bs small sendable.1)

-- The session has this channel, which the other side calls `id`, and can write to it.
abbrev pub CanWrite : ℕ → ℕ → Session → Type 0
CanWrite id ref s = (ch : Channel) × (get_elem? s.objects ref ≡ some ch) × CanSend id ch

-- The channel is open, under its own id and the other side's, and so many bytes fit the window of its
-- empty buffer, which nobody reads.
abbrev pub IsOpened : ℕ → ℕ → ℕ → ℕ → Session → Type 0
IsOpened id id' ref size s =
    (ch : Channel) × (get_elem? s.objects ref ≡ some ch)
    × CanSend id' ch
    × (lookup id s.channels ≡ some ref)
    × (ch.readers ≡ [])
    × (ch.got_eof ≡ false)
    × (ch.read_buf ≡ some [])
    × (ch.max_incoming_payload ≡ channel_max_packet)
    × (size ≤ ch.my_window)

module _ {V W : Type 0} (codec : Codec V) where
  abbrev pub decode_at : List (Event W) → ℕ → ℕ → Session → Option Channel → List (W × V) × Session
  decode_at es limit ref s none = ([], s)
  decode_at es limit ref s (some ch) =
      let link : Link = record { channel = ch; arrivals = [] } in
      (
        run link_source codec es link (new_frame_codec limit),
        record s {
          objects =
              set s.objects ref (left link_source codec es link (new_frame_codec limit)).channel;
        },
      )

  -- What the calls of `decode` of a new frame codec on a channel of the session are resolved with, and
  -- the session with the channel as its read loop leaves it.
  abbrev pub decode_on : List (Event W) → ℕ → ℕ → Session → List (W × V) × Session
  decode_on es limit ref s = decode_at es limit ref s (get_elem? s.objects ref)

  left-CanSend :
      (es : List (Event W)) (limit id : ℕ) (ch : Channel)
      → CanSend id ch
      → CanSend id
          (left link_source codec es
            (record { channel = ch; arrivals = [] })
            (new_frame_codec limit)).channel
  left-CanSend es limit id ch can =
      left-keeps link_source codec (λ l. CanSend id l.channel) (λ n l p. read_link-CanSend id n l p)
        es (record { channel = ch; arrivals = [] }) (new_frame_codec limit) can

  module _ (es : List (Event W)) (vs : List V) (limit : ℕ) where
    decode_on-buffered :
        (id ref : ℕ) (ch : Channel) (t : Session)
        → (limit ≡ 0) ⊎ (rounds es ≤ limit)
        → rounds es ≤ length vs
        → ch.readers ≡ []
        → ch.got_eof ≡ false
        → Fits codec vs
        → CanSend id ch
        → get_elem? t.objects ref ≡ some (buffered ch [] (flatten (messages codec vs)))
        → ((decode_on es limit ref t).0 ≡ pairs (readers es) (take (rounds es) vs))
          × CanWrite id ref (decode_on es limit ref t).1
    decode_on-buffered id ref ch t within enough idle going fits can at =
        let ch' = buffered ch [] (flatten (messages codec vs)) in
        let link : Link = record { channel = ch'; arrivals = [] } in
        let after = (left link_source codec es link (new_frame_codec limit)).channel in
        rw at (
          run-buffered codec es vs limit ch within enough idle going fits,
          (
            after,
            get_elem?-set_self t.objects ref after (get_elem?_in t.objects ref ch' at),
            left-CanSend es limit id ch' can,
          ),
        )

    -- Values that one session encodes onto an open channel change nothing of it but what it has
    -- written, and the other session, given that as messages, decodes them, and can still write.
    pub encode_all-decode_on :
        (id id' ref ref' : ℕ) (s t : Session)
        → CanWrite id' ref s
        → IsU32 id'
        → IsOpened id' id ref' (length (flatten (messages codec vs))) t
        → Fits codec vs
        → (limit ≡ 0) ⊎ (rounds es ≤ limit)
        → rounds es ≤ length vs
        → let sent = encode_all codec ref vs s in
          let r = decode_on es limit ref' (receive_all (sent_since s sent.1) t).1 in
          (sent.0 ≡ ok tt)
          × (sent.1.objects ≡ s.objects)
          × (sent.1.channels ≡ s.channels)
          × (r.0 ≡ pairs (readers es) (take (rounds es) vs))
          × CanWrite id ref' r.1
    encode_all-decode_on id id' ref ref' s t (ch, at, (name, no_eof, no_close)) small
          (ch', at', can', listed, idle, going, has, size, window) fits within enough =
        let bytes = messages codec vs in
        let ms = data_messages ch.remote_id bytes in
        let sendable = Fits-AreSendable codec vs fits in
        let (sent, arrived) =
          write_all-dispatch_all bytes s t ref ref' ch ch' [] at no_eof no_close (rw name small)
            sendable (rw name listed) at' idle has (rw size (messages_small codec vs fits))
            window in
        let whole : encode_all codec ref vs s ≡ (ok tt, after_writes ms s) =
          encode_all-write_all codec vs ref s ∙ sent in
        let given : receive_all (sent_since s (after_writes ms s)) t ≡ dispatch_all ms t =
          ap (λ bufs. receive_all bufs t) (sent_since-after_writes ms s)
          ∙ receive_all-dispatch_all ms t
              (data_messages-IsValid ch.remote_id bytes (rw name small) sendable) in
        let (values, writes) =
          decode_on-buffered id ref' ch' (dispatch_all ms t).1 within enough idle going fits can'
            arrived.1 in
        rw (whole, given) (refl, refl, refl, values, writes)
