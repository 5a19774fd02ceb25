-- ===== src/Rpc/Frame/Left.antt =====
-- What the read loop of a frame codec leaves of what it reads from.
use qtalk.Base.{
  ℕ, Bool, true, false, List, [], ◌∷◌, Option, none, some, ltb, leb, ◌&&◌, if◌then◌else◌,
}
use qtalk.Base.Throws.{Result, ok, err}
use qtalk.Bytes.{get_uint32}
use qtalk.Conn.{Source}
use qtalk.Rpc.Frame.{
  Codec, FrameCodec, read_frame, read_after, read_sized, read_round, after_read, Reading, stop,
}
use qtalk.Rpc.Frame.Ops.{Event, round, decodes}
use qtalk.Rpc.Frame.Order.{step}

module _ {S : Type 0} (src : Source S) (P : S → Type 0)
    (keeps : (n : ℕ) (c : S) → P c → P (src.read n c).1) where
  read_sized-keeps : (r : Result ℕ) (c : S) → P c → P (read_sized src r c).1
  read_sized-keeps (err e) c p = p
  read_sized-keeps (ok n) c p = keeps n c p

  read_after-keeps : (r : Option (List ℕ) × S) → P r.1 → P (read_after src r).1
  read_after-keeps (none, c) p = p
  read_after-keeps (some prefix, c) p = read_sized-keeps (get_uint32 prefix 0) c p

  read_frame-keeps : (c : S) → P c → P (read_frame src c).1
  unfolding read_frame
  read_frame-keeps c p = read_after-keeps (src.read 4 c) (keeps 4 c p)

if_first :
    {A B : Type 0} (P : A → Type 0) (b : Bool) (x y : A × B)
    → P x.0
    → P y.0
    → P (if b then x else y).0
if_first P true x y p q = p
if_first P false x y p q = q

module _ {S V W : Type 0} (src : Source S) (codec : Codec V) where
  -- The source after calls of `decode` and rounds of `readLoop`
  unfoldable pub left : List (Event W) → S → FrameCodec V W → S
  unfolding step
  left [] c f = c
  left (e ∷ es) c f = let (c', (f', first)) = step src codec e c f in left es c' f'

  module _ (P : S → Type 0) (keeps : (n : ℕ) (c : S) → P c → P (src.read n c).1) where
    after_read-keeps : (f : FrameCodec V W) (r : Reading S) → P r.1 → P (after_read src codec f r).0
    after_read-keeps f (err e, c) p = p
    after_read-keeps f (ok none, c) p = p
    after_read-keeps f (ok (some bytes), c) p = p

    read_round-keeps : (c : S) (f : FrameCodec V W) → P c → P (read_round src codec c f).0
    unfolding read_round
    read_round-keeps c f p =
        if_first P f.running _ (c, (f, []))
          (if_first P (ltb 0 f.read_limit && leb f.read_limit f.read_count) (c, stop f) _ p
            (after_read-keeps f (read_frame src c) (read_frame-keeps src P keeps c p)))
          p

    -- What every read keeps is kept.
    pub left-keeps : (es : List (Event W)) (c : S) (f : FrameCodec V W) → P c → P (left es c f)
    unfolding left step
    left-keeps [] c f p = p
    left-keeps (round ∷ es) c f p =
        let (c', (f', first)) = read_round src codec c f in
        left-keeps es c' f' (read_round-keeps c f p)
    left-keeps (decodes w ∷ es) c f p = left-keeps es _ _ p
