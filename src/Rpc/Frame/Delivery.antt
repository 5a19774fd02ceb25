-- ===== src/Rpc/Frame/Delivery.antt =====
-- The frame codec on a channel: what one side's `encode` writes, the other side's `decode` gives.
use qtalk.Base.{
  ℕ, ◌≤◌, ◌≡◌, refl, false, ◌⊎◌, List, [], ◌∷◌, some, length, take, map, flatten, All, arith,
}
use qtalk.Bytes.{u32_bytes}
use qtalk.Util.Queue.Fifo.{pairs}
use qtalk.Channel.{Channel, channel_max_packet}
use qtalk.Channel.Feed.{IsOpen, link_source}
use qtalk.Rpc.Frame.{Codec, new_frame_codec, frame, IsSized}
use qtalk.Rpc.Frame.Ops.{Event, rounds, readers}
use qtalk.Rpc.Frame.Order.{run, run-new_frame_codec}

module _ {V : Type 0} (codec : Codec V) where
  -- The data of the messages that `encode` sends for some values.
  abbrev pub messages : List V → List (List ℕ)
  messages [] = []
  messages (v ∷ vs) = u32_bytes (length (codec.encode v)) ∷ codec.encode v ∷ messages vs

  pub flatten-messages : (vs : List V) → flatten (messages vs) ≡ flatten (map (frame codec) vs)
  flatten-messages [] = refl
  flatten-messages (v ∷ vs) = rw (flatten-messages vs)

  -- The codec keeps the values, and none is longer than a packet.
  abbrev pub Fits : List V → Type 0
  Fits vs = All (λ v. codec.IsValue v × (length (codec.encode v) ≤ channel_max_packet)) vs

  pub Fits-IsSized : (vs : List V) → Fits vs → IsSized codec vs
  Fits-IsSized [] fits = tt
  Fits-IsSized (v ∷ vs) fits = ((fits.0.0, omega (arith, fits.0.1)), Fits-IsSized vs fits.1)

  pub messages_small :
      (vs : List V) → Fits vs → All (λ m. length m ≤ channel_max_packet) (messages vs)
  messages_small [] fits = tt
  messages_small (v ∷ vs) fits = (omega arith, (fits.0.1, messages_small vs fits.1))

  link-IsOpen :
      (vs : List V) (ch : Channel)
      → ch.readers ≡ []
      → ch.got_eof ≡ false
      → ch.read_buf ≡ some []
      → ch.max_incoming_payload ≡ channel_max_packet
      → Fits vs
      → length (flatten (messages vs)) ≤ ch.my_window
      → IsOpen (record { channel = ch; arrivals = messages vs })
  link-IsOpen vs ch idle going has size fits window =
      (idle, going, ([], has), rw size (messages_small vs fits), window)

  -- Values that one side encodes, each no longer than a packet and all within the window, arrive as
  -- they were sent on a channel with an empty buffer, no reader and no end: with any limit that
  -- allows so many rounds, the n-th call of `decode` is resolved with the n-th value, as far as
  -- `readLoop` has come.
  pub values_delivered :
      {W : Type 0} (es : List (Event W)) (vs : List V) (ch : Channel) (limit : ℕ)
      → (limit ≡ 0) ⊎ (rounds es ≤ limit)
      → ch.readers ≡ []
      → ch.got_eof ≡ false
      → ch.read_buf ≡ some []
      → ch.max_incoming_payload ≡ channel_max_packet
      → Fits vs
      → length (flatten (messages vs)) ≤ ch.my_window
      → rounds es ≤ length vs
      → run link_source codec es
          (record { channel = ch; arrivals = messages vs })
          (new_frame_codec limit)
        ≡ pairs (readers es) (take (rounds es) vs)
  values_delivered es vs ch limit within idle going has size fits window enough =
      run-new_frame_codec link_source codec es vs (record { channel = ch; arrivals = messages vs })
        limit within (link-IsOpen vs ch idle going has size fits window)
        (rw has (flatten-messages vs)) enough (Fits-IsSized vs fits)
