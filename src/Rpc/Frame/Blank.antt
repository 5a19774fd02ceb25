-- ===== src/Rpc/Frame/Blank.antt =====
-- `encode(undefined)` of the frame codec: `JSON.stringify` gives `undefined`, which the text encoder
-- takes for no text, so that the frame is a length of 0. `CallProxy` of javascript/rpc/peer.ts sends it
-- for a call without arguments.
use qtalk.Base.{
  ℕ, suc, ap, ◌≤◌, ◌≡◌, refl, ◌∙◌, true, false, List, [], ◌∷◌, ◌++◌, some, take, arith, ◌⊎◌,
}
use qtalk.Base.Throws.{Error, ok, err}
use qtalk.Bytes.{u32_bytes}
use qtalk.Util.Queue.Fifo.{pairs}
use qtalk.Util.Queue.Fifo
use qtalk.Conn.{Source}
use qtalk.Conn.Exact.{read_exact}
use qtalk.Rpc.Frame.{
  Codec, FrameCodec, new_frame_codec, stop, read_frame, read_round, frame, IsSized,
}
use qtalk.Rpc.Frame.Ops.{
  Event, round, decodes, rounds, readers, from_zero, as_queue, ops, ops-pairs, IsWithin, limit_open,
  counted, IsWithin-same,
}
use qtalk.Rpc.Frame.Order.{run, run-nil, run-round, run-frame, run-decodes}
use qtalk.Rpc.Frame.Reads.{prefix_lem, read_frame_by}

nil_front : (front rest : List ℕ) → front ++ rest ≡ [] → front ≡ []
nil_front [] rest e = refl
nil_front (x ∷ front) rest e = cc

-- The bytes that `encode` gives for some values and then for `undefined`.
abbrev pub with_blank : {V : Type 0} → Codec V → List V → List ℕ
with_blank codec [] = u32_bytes 0
with_blank codec (v ∷ vs) = frame codec v ++ with_blank codec vs

read_frame-blank :
    {S : Type 0} (src : Source S) (c : S)
    → src.IsReady c
    → src.remaining c ≡ u32_bytes 0
    → (c' : S) × (read_frame src c ≡ (ok (some []), c'))
read_frame-blank src c ready left =
    let (c1, e1, r1, l1) = read_exact src 4 c (u32_bytes 0) [] ready (omega arith) refl left in
    let (front, e2, r2, l2) = src.read_zero c1 r1 in
    let none_left = nil_front front (src.remaining (src.read 0 c1).1) (l2 ∙ l1) in
    (
      (src.read 0 c1).1,
      read_frame_by src c c1 (src.read 0 c1).1 (u32_bytes 0) [] 0 e1 (prefix_lem 0 (omega arith))
          (λ i. ((e2 ∙ ap some none_left) i, (src.read 0 c1).1)),
    )

module _ {S V W : Type 0} (src : Source S) (codec : Codec V) where
  -- Once `readLoop` has stopped, no round adds a value.
  run-stopped :
      (es : List (Event W)) (c : S) (f : FrameCodec V W)
      → f.running ≡ false
      → run src codec es c f ≡ (Fifo.run (ops es []) (as_queue f)).1
  run-stopped [] c f over = run-nil src codec c f ∙ unfold Fifo.run in refl
  run-stopped (round ∷ es) c f over =
      run-round src codec es c c f f [] (unfold read_round in rw over) ∙ run-stopped es c f over
  run-stopped (decodes w ∷ es) c f over =
      run-decodes src codec es (ops es []) w c f (λ f' kept. run-stopped es c f' (kept.0 ∙ over))

  read_round-blank :
      (c c' : S) (f : FrameCodec V W) (n : ℕ) (e : Error)
      → f.running ≡ true
      → IsWithin f (suc n)
      → codec.decode [] ≡ err e
      → read_frame src c ≡ (ok (some []), c')
      → read_round src codec c f ≡ (c', stop (counted f))
  unfolding read_round
  read_round-blank c c' f n e going within bad read =
      rw (going, limit_open f n within, read) (rw bad)

  run-ops :
      (es : List (Event W)) (vs : List V) (c : S) (f : FrameCodec V W) (e : Error)
      → codec.decode [] ≡ err e
      → f.running ≡ true
      → IsWithin f (rounds es)
      → src.IsReady c
      → src.remaining c ≡ with_blank codec vs
      → IsSized codec vs
      → run src codec es c f ≡ (Fifo.run (ops es vs) (as_queue f)).1
  run-ops [] vs c f e bad going within ready left sized =
      run-nil src codec c f ∙ unfold Fifo.run in refl
  run-ops (round ∷ es) [] c f e bad going within ready left sized =
      let (c', read) = read_frame-blank src c ready left in
      run-round src codec es c c' f (stop (counted f)).0 []
        (read_round-blank c c' f (rounds es) e going within bad read)
      ∙ run-stopped es c' (stop (counted f)).0 refl
  run-ops (round ∷ es) (v ∷ vs) c f e bad going within ready left sized =
      run-frame src codec es (ops es vs) v (with_blank codec vs) c f going within ready left sized.0
        (λ c' f' going' within' ready' left'.
          run-ops es vs c' f' e bad going' within' ready' left' sized.1)
  run-ops (decodes w ∷ es) vs c f e bad going within ready left sized =
      run-decodes src codec es (ops es vs) w c f (λ f' kept.
        run-ops es vs c f' e bad (kept.0 ∙ going) (IsWithin-same f f' (rounds es) kept within) ready
          left sized)

  -- If the text decoder throws on an empty text, as `JSON.parse` does, then after the frames of some
  -- values and that of `undefined` the calls of `decode` get those values in order, and no call after
  -- them is ever resolved, however many rounds `readLoop` would still go within its limit.
  pub run-with_blank :
      (es : List (Event W)) (vs : List V) (c : S) (limit : ℕ) (e : Error)
      → codec.decode [] ≡ err e
      → (limit ≡ 0) ⊎ (rounds es ≤ limit)
      → src.IsReady c
      → src.remaining c ≡ with_blank codec vs
      → IsSized codec vs
      → run src codec es c (new_frame_codec limit) ≡ pairs (readers es) (take (rounds es) vs)
  run-with_blank es vs c limit e bad within ready left sized =
      run-ops es vs c (new_frame_codec limit) e bad refl (from_zero limit (rounds es) within) ready
        left sized
      ∙ ops-pairs es vs
