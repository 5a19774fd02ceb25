-- ===== src/Rpc/Frame/Order.antt =====
-- Calls of `decode` against the rounds of `readLoop`, in any order.
use qtalk.Base.{
  ℕ, suc, ◌≤◌, ◌≡◌, refl, sym, ap, ◌∙◌, true, List, [], ◌∷◌, ◌++◌, some, length, take, map, flatten,
  arith, ◌⊎◌,
}
use qtalk.Base.Throws.{ok}
use qtalk.Util.Queue.Fifo.{Op, pushes, shifts, pairs}
use qtalk.Util.Queue.Fifo
use qtalk.Bytes.{IsU32}
use qtalk.Conn.{Source}
use qtalk.Rpc.Frame.{
  Codec, FrameCodec, new_frame_codec, deliver, take_value, decode, read_frame, read_round, frame,
  IsSized,
}
use qtalk.Rpc.Frame.Ops.{
  Event, round, decodes, rounds, readers, from_zero, as_queue, ops, ops-pairs, deliver-push,
  answered, decode-shift, IsWithin, limit_open, counted, Carries, deliver-Carries,
  take_value-Carries, IsWithin-same, IsWithin-Carries, run-cons,
}
use qtalk.Rpc.Frame.Reads.{read_frame-frame}

module _ {S V W : Type 0} (src : Source S) (codec : Codec V) where
  unfoldable pub step : Event W → S → FrameCodec V W → S × (FrameCodec V W × List (W × V))
  unfolding read_round
  step round c f = read_round src codec c f
  step (decodes w) c f = (c, answered w (decode w f))

  -- What the calls of `decode` are resolved with, in order.
  pub run : List (Event W) → S → FrameCodec V W → List (W × V)
  unfolding step
  run [] c f = []
  run (e ∷ es) c f = let (c', (f', first)) = step e c f in first ++ run es c' f'

  pub run-nil : (c : S) (f : FrameCodec V W) → run [] c f ≡ []
  unfolding run
  run-nil c f = refl

  pub run-round :
      (es : List (Event W)) (c c' : S) (f f' : FrameCodec V W) (first : List (W × V))
      → read_round src codec c f ≡ (c', (f', first))
      → run (round ∷ es) c f ≡ first ++ run es c' f'
  unfolding run step
  run-round es c c' f f' first e =
      ap (λ (r : S × (FrameCodec V W × List (W × V))). r.1.1 ++ run es r.0 r.1.0) e

  read_round_lem :
      (c c' : S) (f : FrameCodec V W) (n : ℕ) (v : V)
      → f.running ≡ true
      → IsWithin f (suc n)
      → codec.IsValue v
      → read_frame src c ≡ (ok (some (codec.encode v)), c')
      → read_round src codec c f ≡ (c', deliver v (counted f) f.waiters)
  unfolding read_round
  read_round_lem c c' f n v going within valid e =
      rw (going, limit_open f n within, e) (rw (codec.decode-encode v valid))

  -- One more round over a frame, and one more call of `decode`.
  pub run-frame :
      (es : List (Event W)) (rest : List (Op V W)) (v : V) (tail : List ℕ) (c : S)
      (f : FrameCodec V W)
      → f.running ≡ true
      → IsWithin f (rounds (round ∷ es))
      → src.IsReady c
      → src.remaining c ≡ frame codec v ++ tail
      → codec.IsValue v × IsU32 (length (codec.encode v))
      → ((c' : S) (f' : FrameCodec V W)
          → f'.running ≡ true
          → IsWithin f' (rounds es)
          → src.IsReady c'
          → src.remaining c' ≡ tail
          → run es c' f' ≡ (Fifo.run rest (as_queue f')).1)
      → run (round ∷ es) c f ≡ (Fifo.run (pushes v ∷ rest) (as_queue f)).1
  run-frame es rest v tail c f going within ready left sized later =
      let (c', e, ready', left') = read_frame-frame src codec c v tail ready sized left in
      let (f', first) = deliver v (counted f) f.waiters in
      let kept = deliver-Carries v (counted f) f.waiters in
      run-round es c c' f f' first (read_round_lem c c' f (rounds es) v going within sized.0 e)
      ∙ ap (◌++◌ first) (
          later c' f' (kept.0 ∙ going) (IsWithin-Carries f f' (rounds es) kept within) ready' left')
      ∙ sym (
          run-cons (pushes v) rest (as_queue f) (as_queue f') first
            (deliver-push v (counted f) f.waiters refl))

  pub run-decodes :
      (es : List (Event W)) (rest : List (Op V W)) (w : W) (c : S) (f : FrameCodec V W)
      → ((f' : FrameCodec V W) → Carries f f' → run es c f' ≡ (Fifo.run rest (as_queue f')).1)
      → run (decodes w ∷ es) c f ≡ (Fifo.run (shifts w ∷ rest) (as_queue f)).1
  unfolding run step decode
  run-decodes es rest w c f later =
      let (f', first) = answered w (take_value w f f.buf) in
      ap (◌++◌ first) (later f' (take_value-Carries w f f.buf))
      ∙ sym
          (run-cons (shifts w) rest (as_queue f) (as_queue f') first (decode-shift w f f.buf refl))

  run-ops :
      (es : List (Event W)) (vs : List V) (c : S) (f : FrameCodec V W)
      → f.running ≡ true
      → IsWithin f (rounds es)
      → src.IsReady c
      → src.remaining c ≡ flatten (map (frame codec) vs)
      → rounds es ≤ length vs
      → IsSized codec vs
      → run es c f ≡ (Fifo.run (ops es vs) (as_queue f)).1
  run-ops [] vs c f going within ready left enough sized = run-nil c f ∙ unfold Fifo.run in refl
  run-ops (round ∷ es) [] c f going within ready left enough sized = absurd (omega arith)
  run-ops (round ∷ es) (v ∷ vs) c f going within ready left enough sized =
      run-frame es (ops es vs) v (flatten (map (frame codec) vs)) c f going within ready left
        sized.0
        (λ c' f' going' within' ready' left'.
          run-ops es vs c' f' going' within' ready' left' (omega arith) sized.1)
  run-ops (decodes w ∷ es) vs c f going within ready left enough sized =
      run-decodes es (ops es vs) w c f (λ f' kept.
        run-ops es vs c f' (kept.0 ∙ going) (IsWithin-same f f' (rounds es) kept within) ready left
          enough sized)

  -- Over a stream of frames, with any limit that allows so many rounds, the n-th call of `decode`
  -- is resolved with the n-th value, as far as `readLoop` has come, whatever the order of calls and
  -- rounds: no value is skipped, repeated or given to another call.
  pub run-new_frame_codec :
      (es : List (Event W)) (vs : List V) (c : S) (limit : ℕ)
      → (limit ≡ 0) ⊎ (rounds es ≤ limit)
      → src.IsReady c
      → src.remaining c ≡ flatten (map (frame codec) vs)
      → rounds es ≤ length vs
      → IsSized codec vs
      → run es c (new_frame_codec limit) ≡ pairs (readers es) (take (rounds es) vs)
  run-new_frame_codec es vs c limit within ready left enough sized =
      run-ops es vs c (new_frame_codec limit) refl (from_zero limit (rounds es) within) ready left
        enough sized
      ∙ ops-pairs es vs
