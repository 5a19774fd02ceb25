-- ===== src/Session/Loop.antt =====
-- The read loop on a stream of encoded messages: each is dispatched, in order.
use qtalk.Base.{
  ℕ, zero, suc, ◌<◌, ◌≡◌, refl, ap, ◌∙◌, List, [], ◌∷◌, none, some, length, map, flatten, All,
  arith,
}
use qtalk.Base.Throws.{Result, ok, err}
use qtalk.Conn.{Source}
use qtalk.Codec.{Message}
use qtalk.Codec.Marshal.{wire}
use qtalk.Codec.Decoder.{decode, Decodes}
use qtalk.Codec.Decoder.Frames.{IsFramed, decode-wire, decode_end}
use qtalk.Session.State.{Session, M, continue, ◌>>=◌}
use qtalk.Session.Dispatch.{dispatch, close_session, loop, Ended, after_decode, after_dispatch}

-- What the loop does with messages that it has been given decoded.
unfoldable pub serve : List Message → M (Unit {0})
serve [] = close_session
serve (m ∷ ms) = dispatch m >>= λ _. serve ms

module _ {S : Type 0} (src : Source S) where
  pub loop-step :
      (fuel : ℕ) (c : S) (s : Session) {r : Decodes S Message}
      → decode src c ≡ r
      → loop src (suc fuel) c s ≡ after_decode src (λ c' s'. loop src fuel c' s') r s
  unfolding loop
  loop-step fuel c s e = ap (λ r. after_decode src (λ c' s'. loop src fuel c' s') r s) e

  pub loop-end :
      (fuel : ℕ) (c : S) (s : Session)
      → (decode src c).0 ≡ ok none
      → loop src (suc fuel) c s ≡ some (close_session s)
  loop-end fuel c s e = loop-step fuel c s (λ i. (e i, (decode src c).1))

  after_dispatch-serve :
      (ms : List Message) (c : S) (again : S → Session → Ended)
      → ((s : Session) → again c s ≡ some (serve ms s))
      → (r : Result (Unit {0}) × Session)
      → after_dispatch src again c r ≡ some (continue (λ _. serve ms) r)
  after_dispatch-serve ms c again next (err e, s) = refl
  after_dispatch-serve ms c again next (ok u, s) = next s

  -- On a connection that carries the encodings of some framed messages and then ends, the loop
  -- dispatches these messages, in order, up to the first that throws, which ends it, and where none
  -- throws it closes the session. More fuel than there are messages is enough.
  pub loop-serve :
      (ms : List Message) (fuel : ℕ) (c : S) (s : Session)
      → src.IsReady c
      → All IsFramed ms
      → src.remaining c ≡ flatten (map wire ms)
      → length ms < fuel
      → loop src fuel c s ≡ some (serve ms s)
  unfolding serve
  loop-serve [] zero c s ready framed left enough = absurd (omega arith)
  loop-serve [] (suc fuel) c s ready framed left enough =
      loop-end fuel c s (decode_end src c ready left)
  loop-serve (m ∷ ms) zero c s ready framed left enough = absurd (omega arith)
  loop-serve (m ∷ ms) (suc fuel) c s ready framed left enough =
      let (c', e, ready', left') =
        decode-wire src c m (flatten (map wire ms)) ready framed.0 left in
      loop-step fuel c s e
      ∙ after_dispatch-serve ms c' (λ d s'. loop src fuel d s')
          (λ s'. loop-serve ms fuel c' s' ready' framed.1 left' (omega arith)) (dispatch m s)
