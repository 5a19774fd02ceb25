-- ===== src/Legacy/Qrpc/Garbled.antt =====
-- javascript/legacy/qrpc/src/qrpc.ts: several answers on one channel, as the `catch` of `exportFunc`
-- makes them.
use qtalk.Base.{
  ℕ, zero, suc, ◌/◌, ◌%◌, ◌^◌, ◌<◌, ◌≡◌, ◌≢◌, refl, sym, ap, ◌∙◌, Bool, false, All, List, [], ◌∷◌,
  ◌++◌, Option, none, some, length, map, flatten, arith, dec_lt,
}
use qtalk.Base.Throws.{ok}
use qtalk.Bytes.{IsU32, u32_bytes, get_uint32}
use qtalk.Conn.{Source}
use qtalk.Conn.Exact.{read_exact}
use qtalk.Rpc.Frame.Reads.{prefix_lem}
use qtalk.Rpc.Text.{Text, units}
use qtalk.Rpc.Call.{Call}
use qtalk.Rpc.Exchange.{ResponseHeader, new_response_header}
use qtalk.Rpc.Frame.{read_frame}
use qtalk.Legacy.Qrpc.{failure, Action, returns, Run, Answer, answers, return_answer}
use qtalk.Legacy.Qrpc.Export.{
  Fn, Thrown, thrown_string, thrown_object, thrown_undefined, thrown_null, thrown_other, threw,
  export_func, catch_thrown,
}

-- What `return` encodes: its header, then its value.
pub data Sent (A : Type 0) : Type 0 where
  header_sent : ResponseHeader → Sent A
  value_sent : Option A → Sent A

-- What the codec encodes a value as.
module _ {A : Type 0} (encode : Sent A → List ℕ) where
  -- The writes of `encode`, in order
  abbrev pub frame_writes : Sent A → List (List ℕ)
  frame_writes v = let buf = encode v in u32_bytes (length buf) ∷ buf ∷ []

  -- The writes of one answer. Each is awaited, so of several answers that are made without a wait
  -- the first writes come before all others.
  abbrev pub answer_writes : Answer A → List (List ℕ)
  answer_writes sent =
      frame_writes (header_sent sent.header) ++ frame_writes (value_sent sent.value)

  abbrev first_of : List (List ℕ) → List ℕ
  first_of [] = []
  first_of (bytes ∷ rest) = bytes

  -- What is written before any of the answers' promises goes on.
  abbrev pub first_writes : List (Answer A) → List ℕ
  first_writes sent = flatten (map (λ a. first_of (answer_writes a)) sent)

module _ {S : Type 0} (src : Source S) where
  read_frame_first :
      (c c1 : S) (prefix : List ℕ) (size : ℕ)
      → src.read 4 c ≡ (some prefix, c1)
      → get_uint32 prefix 0 ≡ ok size
      → (read_frame src c).0 ≡ ok (src.read size c1).0
  unfolding read_frame
  read_frame_first c c1 prefix size e says = rw e (rw says refl)

  -- As many bytes as there are, of a stream that starts with a zero.
  zero_first :
      (size : ℕ) (c : S) (more : List ℕ) (b : ℕ) (bytes : List ℕ)
      → src.IsReady c
      → src.remaining c ≡ 0 ∷ more
      → 0 < size
      → (src.read size c).0 ≢ some (suc b ∷ bytes)
  zero_first zero c more b bytes ready left pos h = absurd (omega arith)
  zero_first (suc size) c more b bytes ready left pos h =
      elim (dec_lt (length (src.remaining c)) (suc size)) [
        | yes short ↦ cc (src.read_short (suc size) c ready pos short)
        | no enough ↦
            let taken = (src.read_enough (suc size) c ready pos (omega arith)).0 in
            cc (rw left at taken)
      ]

  prefixes_first :
      (n k b : ℕ) (later bytes : List ℕ) (c : S)
      → src.IsReady c
      → src.remaining c ≡ u32_bytes n ++ u32_bytes k ++ later
      → IsU32 n
      → 0 < n
      → k < 2 ^ 24
      → (read_frame src c).0 ≢ ok (some (suc b ∷ bytes))
  prefixes_first n k b later bytes c ready left small pos tiny h =
      let (c1, e1, r1, l1) =
        read_exact src 4 c (u32_bytes n) (u32_bytes k ++ later) ready (omega arith) refl left in
      let top : k / 2 ^ 24 % 256 ≡ 0 = omega arith in
      let more = k / 2 ^ 16 % 256 ∷ k / 2 ^ 8 % 256 ∷ k % 256 ∷ later in
      let first = sym (read_frame_first c c1 (u32_bytes n) n e1 (prefix_lem n small)) ∙ h in
      zero_first n c1 more b bytes r1 (l1 ∙ ap (λ x. x ∷ more) top) pos (cc first)

-- A thrown value for which more than one case of the `switch` runs to its end.
abbrev pub RunsOn : Thrown → Type 0
RunsOn (thrown_string s) = Unit {0}
RunsOn (thrown_object message text) = Unit {0}
RunsOn _ = ⊥

-- The text of the last case
abbrev unknown : Text → Text
unknown text = units "unknown error: " ++ text

-- An error's header, as the first answers have it.
abbrev failed : Text → ResponseHeader
failed message = record { error = some message; hijacked = false }

Twice : {A : Type 0} → Run A → Type 0
Twice {A} run =
    (m : Text) × (n : Text) × (rest : List (Action A)) × (run.actions
      ≡ returns (failure m) ∷ returns (failure n) ∷ rest)

catch_thrown-Twice : (A : Type 0) (e : Thrown) → RunsOn e → Twice {A = A} (catch_thrown e)
unfolding Twice
catch_thrown-Twice A (thrown_string s) h =
    (s, units "unknown error", returns (failure []) ∷ returns (failure (unknown s)) ∷ [], refl)
catch_thrown-Twice A (thrown_object none text) h = ([], unknown text, [], refl)
catch_thrown-Twice A (thrown_object (some message) text) h = (message, unknown text, [], refl)
catch_thrown-Twice A thrown_undefined h = absurd h
catch_thrown-Twice A thrown_null h = absurd h
catch_thrown-Twice A (thrown_other text) h = absurd h

module _ {A : Type 0} (encode : Sent A → List ℕ) (truthy : A → Bool) where
  abbrev pub header_bytes : Text → List ℕ
  header_bytes message = encode (header_sent (failed message))

  abbrev pub answers_of : Fn A → Call → Option A → List (Answer A)
  answers_of fn call args = answers (export_func truthy fn call args).actions new_response_header

  abbrev pub IsShort : Answer A → Type 0
  IsShort sent =
      let size = length (encode (header_sent sent.header)) in (0 < size) × (size < 2 ^ 24)

  -- Where an exported function throws a string or an object, the first frame that its caller reads is
  -- not the header of an error: the lengths of the headers of all answers come before the first header.
  -- The codec gives the header of this error a first byte that is not zero, and those of the answers are
  -- short and not empty.
  pub export_func-read_frame :
      {S : Type 0} (src : Source S) (fn : Fn A) (call : Call) (args : Option A) (e : Thrown) (c : S)
      (later : List ℕ) (message : Text) (b : ℕ) (more : List ℕ)
      → fn args ≡ threw e
      → RunsOn e
      → header_bytes message ≡ suc b ∷ more
      → All IsShort (answers_of fn call args)
      → src.IsReady c
      → src.remaining c ≡ first_writes encode (answers_of fn call args) ++ later
      → (read_frame src c).0 ≢ ok (some (header_bytes message))
  unfolding answers return_answer export_func Twice
  export_func-read_frame src fn call args e c later message b more thrown runs first short ready
        left h =
      let (m, n, rest, acts) = catch_thrown-Twice A e runs in
      let shape : answers_of fn call args
          ≡ answers (returns (failure m) ∷ returns (failure n) ∷ rest) new_response_header =
        rw (thrown, acts) in
      let short' = rw shape at short in
      prefixes_first src (length (header_bytes m)) (length (header_bytes n)) b
        (first_writes encode (answers rest (failed n)) ++ later) more c ready (rw shape at left)
        (omega (arith, short'.0.1)) short'.0.0 short'.1.0.1 (h ∙ ap (λ x. ok (some x)) first)
