-- ===== src/Conn/Exact.antt =====
-- A client's view of a connection: reads of exactly the front of what is left.
use qtalk.Base.{
  ℕ, ◌≤◌, ◌<◌, ◌≡◌, ap, ◌∙◌, List, ◌++◌, some, length, take, drop, arith, length-append,
  take-append, drop-append,
}
use qtalk.Conn.{Source}

module _ {S : Type 0} (src : Source S) where
  pub read_exact :
      (n : ℕ) (s : S) (front tail : List ℕ)
      → src.IsReady s
      → 0 < n
      → n ≡ length front
      → src.remaining s ≡ front ++ tail
      → (s' : S) × (src.read n s ≡ (some front, s')) × src.IsReady s' × (src.remaining s' ≡ tail)
  read_exact n s front tail ready pos size left =
      let enough : n ≤ length (src.remaining s) =
        omega (arith, ap length left, length-append front tail) in
      let (got, ready', left') = src.read_enough n s ready pos enough in
      (
        (src.read n s).1,
        λ i. (
          (got ∙ ap (λ bytes. some (take n bytes)) left ∙ ap some (take-append front tail n size))
              i,
          (src.read n s).1,
        ),
        ready',
        left' ∙ ap (drop n) left ∙ drop-append front tail n size,
      )
