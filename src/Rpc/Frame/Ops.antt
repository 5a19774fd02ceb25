-- ===== src/Rpc/Frame/Ops.antt =====
-- The frame codec's buffer and waiters as a queue: each round of `readLoop` pushes a value, and each
-- call of `decode` shifts one.
use qtalk.Base.{
  ℕ, suc, ◌+◌, ◌≤◌, ◌≡◌, refl, ap, ◌∙◌, false, ◌&&◌, List, [], ◌∷◌, ◌++◌, none, some, take, arith,
  take-nil, ltb, leb, ◌⊎◌, inl, inr,
}
use qtalk.Util.Queue.{Queue, Shifted, now, waiting, new_queue, push, shift}
use qtalk.Util.Queue.Fifo.{Op, pushes, shifts, pairs, run-new_queue}
use qtalk.Util.Queue.Fifo
use qtalk.Rpc.Frame.{FrameCodec, new_frame_codec, deliver, take_value}

-- `readLoop` goes one round, or someone calls `decode`.
pub data Event (W : Type 0) : Type 0 where
  round : Event W
  decodes : W → Event W

module _ {W : Type 0} where
  abbrev pub rounds : List (Event W) → ℕ
  rounds [] = 0
  rounds (round ∷ es) = suc (rounds es)
  rounds (decodes w ∷ es) = rounds es

  abbrev pub readers : List (Event W) → List W
  readers [] = []
  readers (round ∷ es) = readers es
  readers (decodes w ∷ es) = w ∷ readers es

pub from_zero : (limit n : ℕ) → (limit ≡ 0) ⊎ (n ≤ limit) → (limit ≡ 0) ⊎ (0 + n ≤ limit)
from_zero limit n (inl e) = inl e
from_zero limit n (inr e) = inr (omega arith)

module _ {V W : Type 0} where
  -- The frame codec's buffer and waiters as a queue.
  abbrev pub as_queue : FrameCodec V W → Queue V W
  as_queue f = record { q = f.buf; waiters = f.waiters; closed = false }

  -- The calls on that queue: each round pushes the next value.
  abbrev pub ops : List (Event W) → List V → List (Op V W)
  ops [] vs = []
  ops (round ∷ es) [] = ops es []
  ops (round ∷ es) (v ∷ vs) = pushes v ∷ ops es vs
  ops (decodes w ∷ es) vs = shifts w ∷ ops es vs

  pub readers-ops : (es : List (Event W)) (vs : List V) → Fifo.readers (ops es vs) ≡ readers es
  readers-ops [] vs = refl
  readers-ops (round ∷ es) [] = readers-ops es []
  readers-ops (round ∷ es) (v ∷ vs) = readers-ops es vs
  readers-ops (decodes w ∷ es) vs = ap (◌∷◌ w) (readers-ops es vs)

  pub objects-ops :
      (es : List (Event W)) (vs : List V) → Fifo.objects (ops es vs) ≡ take (rounds es) vs
  objects-ops [] vs = refl
  objects-ops (round ∷ es) [] = objects-ops es [] ∙ take-nil (rounds es)
  objects-ops (round ∷ es) (v ∷ vs) = ap (◌∷◌ v) (objects-ops es vs)
  objects-ops (decodes w ∷ es) vs = objects-ops es vs

  pub deliver-push :
      (v : V) (f : FrameCodec V W) (ws : List W)
      → f.waiters ≡ ws
      → Fifo.step (pushes v) (as_queue f) ≡ (as_queue (deliver v f ws).0, (deliver v f ws).1)
  unfolding Fifo.step push
  deliver-push v f [] e = rw e
  deliver-push v f (w ∷ ws) e = rw e

  abbrev pub answered : W → FrameCodec V W × Shifted V → FrameCodec V W × List (W × V)
  answered w (f, now (some v)) = (f, (w, v) ∷ [])
  answered w (f, now none) = (f, [])
  answered w (f, waiting) = (f, [])

  pub decode-shift :
      (w : W) (f : FrameCodec V W) (vs : List V)
      → f.buf ≡ vs
      → Fifo.step (shifts w) (as_queue f)
        ≡ (as_queue (answered w (take_value w f vs)).0, (answered w (take_value w f vs)).1)
  unfolding Fifo.step shift
  decode-shift w f [] e = ground arith
  decode-shift w f (v ∷ vs) e = ground arith

  -- No limit is in the way of so many more rounds.
  abbrev pub IsWithin : FrameCodec V W → ℕ → Type 0
  IsWithin f n = (f.read_limit ≡ 0) ⊎ (f.read_count + n ≤ f.read_limit)

  pub limit_open :
      (f : FrameCodec V W) (n : ℕ)
      → IsWithin f (suc n)
      → (ltb 0 f.read_limit && leb f.read_limit f.read_count) ≡ false
  limit_open f n (inl e) = ground arith
  limit_open f n (inr e) = ground arith

  abbrev pub counted : FrameCodec V W → FrameCodec V W
  counted f = record f { read_count = f.read_count + 1 }

  -- What a round or a call leaves of the limit.
  abbrev pub Carries : FrameCodec V W → FrameCodec V W → Type 0
  Carries f f' =
      (f'.running ≡ f.running) × (f'.read_limit ≡ f.read_limit) × (f'.read_count ≡ f.read_count)

  pub deliver-Carries : (v : V) (f : FrameCodec V W) (ws : List W) → Carries f (deliver v f ws).0
  deliver-Carries v f [] = (refl, refl, refl)
  deliver-Carries v f (w ∷ ws) = (refl, refl, refl)

  pub take_value-Carries :
      (w : W) (f : FrameCodec V W) (vs : List V) → Carries f (answered w (take_value w f vs)).0
  take_value-Carries w f [] = (refl, refl, refl)
  take_value-Carries w f (v ∷ vs) = (refl, refl, refl)

  pub IsWithin-same : (f f' : FrameCodec V W) (n : ℕ) → Carries f f' → IsWithin f n → IsWithin f' n
  IsWithin-same f f' n same (inl e) = inl (same.1 ∙ e)
  IsWithin-same f f' n same (inr e) = inr (omega (arith, same.1, same.2))

  pub IsWithin-Carries :
      (f f' : FrameCodec V W) (n : ℕ) → Carries (counted f) f' → IsWithin f (suc n) → IsWithin f' n
  IsWithin-Carries f f' n same (inl e) = inl (same.1 ∙ e)
  IsWithin-Carries f f' n same (inr e) = inr (omega (arith, same.1, same.2))

  pub run-empty :
      (rest : List (Op V W))
      → (Fifo.run rest (as_queue (new_frame_codec 0))).1
        ≡ pairs (Fifo.readers rest) (Fifo.objects rest)
  unfolding new_queue
  run-empty rest = run-new_queue rest

  pub run-cons :
      (op : Op V W) (rest : List (Op V W)) (q q' : Queue V W) (first : List (W × V))
      → Fifo.step op q ≡ (q', first)
      → (Fifo.run (op ∷ rest) q).1 ≡ first ++ (Fifo.run rest q').1
  unfolding Fifo.run
  run-cons op rest q q' first e =
      ap (λ (r : Queue V W × List (W × V)). r.1 ++ (Fifo.run rest r.0).1) e

  -- From an empty buffer, the calls are resolved with the values in order.
  pub ops-pairs :
      (es : List (Event W)) (vs : List V)
      → (Fifo.run (ops es vs) (as_queue (new_frame_codec 0))).1
        ≡ pairs (readers es) (take (rounds es) vs)
  ops-pairs es vs = run-empty (ops es vs) ∙ (λ i. pairs (readers-ops es vs i) (objects-ops es vs i))
