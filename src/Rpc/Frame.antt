-- ===== src/Rpc/Frame.antt =====
-- javascript/rpc/codec.ts: `FrameCodec`, which sends values over a channel, each behind its length.
pub mod Reads
pub mod Ops
pub mod Order
pub mod Left
pub mod Passing
pub mod Blank
pub mod Writes
pub mod Crossing
pub mod Delivery
use qtalk.Base.{
  ℕ, ◌+◌, ◌<◌, ◌≡◌, Bool, true, false, ◌&&◌, List, [], ◌∷◌, ◌++◌, Option, none, some, length, All,
  ltb, leb, if◌then◌else◌,
}
use qtalk.Base.Throws.{Result, ok, err}
use qtalk.Bytes.{IsByte, IsU32, u32_bytes, get_uint32}
use qtalk.Util.Queue.{Shifted, now, waiting}
use qtalk.Conn.{Source}
use qtalk.Session.State.{M, ◌>>=◌, ◌>>◌}
use qtalk.Session.Methods.{write}

-- The interface `Codec`, with what a codec for JSON values does with those that it keeps: it gives them
-- back, as bytes that are not empty.
pub record Codec (V : Type 0) : Type 1 where
  pub encode : V → List ℕ
  pub decode : List ℕ → Result V
  pub IsValue : V → Type 0
  pub decode-encode : (v : V) → IsValue v → decode (encode v) ≡ ok v
  pub encode_bytes : (v : V) → IsValue v → All IsByte (encode v)
  pub encode_some : (v : V) → IsValue v → 0 < length (encode v)

-- A waiter is the `resolve` of a call of `decode`. `read_limit` is 0 where there is no limit, and
-- `running` says that `readLoop` has neither returned nor thrown.
pub record FrameCodec (V W : Type 0) : Type 0 where
  pub buf : List V
  pub waiters : List W
  pub read_limit : ℕ
  pub read_count : ℕ
  pub running : Bool

module _ {V W : Type 0} where
  abbrev pub new_frame_codec : ℕ → FrameCodec V W
  new_frame_codec limit = record {
    buf = [];
    waiters = [];
    read_limit = limit;
    read_count = 0;
    running = true;
  }

  -- The end of a round: a decoded value goes to the first waiter, or into the buffer.
  abbrev pub deliver : V → FrameCodec V W → List W → FrameCodec V W × List (W × V)
  deliver v f [] = (record f { buf = f.buf ++ v ∷ [] }, [])
  deliver v f (w ∷ ws) = (record f { waiters = ws }, (w, v) ∷ [])

  abbrev pub stop : FrameCodec V W → FrameCodec V W × List (W × V)
  stop f = (record f { running = false }, [])

  -- `decode`
  abbrev pub take_value : W → FrameCodec V W → List V → FrameCodec V W × Shifted V
  take_value w f [] = (record f { waiters = f.waiters ++ w ∷ [] }, waiting)
  take_value w f (v ∷ rest) = (record f { buf = rest }, now (some v))

  unfoldable pub decode : W → FrameCodec V W → FrameCodec V W × Shifted V
  decode w f = take_value w f f.buf

-- The two reads of a round: the length, and as many bytes.
abbrev pub Reading : Type 0 → Type 0
Reading S = Result (Option (List ℕ)) × S

module _ {S : Type 0} (src : Source S) where
  abbrev pub read_sized : Result ℕ → S → Reading S
  read_sized (err e) c = (err e, c)
  read_sized (ok size) c = let (value, c') = src.read size c in (ok value, c')

  abbrev pub read_after : Option (List ℕ) × S → Reading S
  read_after (none, c) = (ok none, c)
  read_after (some prefix, c) = read_sized (get_uint32 prefix 0) c

  unfoldable pub read_frame : S → Reading S
  read_frame c = read_after (src.read 4 c)

  module _ {V W : Type 0} (codec : Codec V) where
    abbrev pub decoded : Result V → FrameCodec V W → FrameCodec V W × List (W × V)
    decoded (err e) f = stop f
    decoded (ok v) f = deliver v f f.waiters

    abbrev pub after_read : FrameCodec V W → Reading S → S × (FrameCodec V W × List (W × V))
    after_read f (err e, c) = (c, stop f)
    after_read f (ok none, c) = (c, stop f)
    after_read f (ok (some bytes), c) =
        (c, decoded (codec.decode bytes) (record f { read_count = f.read_count + 1 }))

    -- One round of `readLoop`, if it still runs
    unfoldable pub read_round : S → FrameCodec V W → S × (FrameCodec V W × List (W × V))
    unfolding read_frame
    read_round c f =
        if f.running
        then if ltb 0 f.read_limit && leb f.read_limit f.read_count
          then (c, stop f)
          else after_read f (read_frame c)
        else (c, (f, []))

-- `encode`: the length, modulo 2 ^ 32, and the bytes, each by a `write` of the channel.
unfoldable pub encode_frame : {V : Type 0} → Codec V → ℕ → V → M (Unit {0})
encode_frame codec ref v = do
  let buf = codec.encode v
  write ref (u32_bytes (length buf))
  write ref buf

-- The bytes of a value on the stream.
abbrev pub frame : {V : Type 0} → Codec V → V → List ℕ
frame codec v = u32_bytes (length (codec.encode v)) ++ codec.encode v

-- The codec keeps the values, and their lengths are small enough for the prefix.
abbrev pub IsSized : {V : Type 0} → Codec V → List V → Type 0
IsSized codec vs = All (λ v. codec.IsValue v × IsU32 (length (codec.encode v))) vs
