-- ===== src/Session/Halts.antt =====
-- The read loop on any stream: it comes to an end.
use qtalk.Base.{ℕ, zero, suc, ◌≤◌, ◌<◌, ◌≡◌, refl, List, [], ◌∷◌, none, some, length, arith}
use qtalk.Base.Throws.{Result, ok, err}
use qtalk.Conn.{Source}
use qtalk.Codec.{Message}
use qtalk.Codec.Decoder.{decode, Decodes}
use qtalk.Codec.Decoder.Frames.{decode_end}
use qtalk.Codec.Decoder.Progress.{Has, Went, decode-Went}
use qtalk.Session.State.{Session}
use qtalk.Session.Loop.{loop-end}
use qtalk.Session.Dispatch.{dispatch, close_session, loop, Ended, after_decode, after_dispatch}

length-zero : {A : Type 0} (xs : List A) → length xs ≤ 0 → xs ≡ []
length-zero [] h = refl
length-zero (x ∷ xs) h = absurd (omega arith)

module _ {S : Type 0} (src : Source S) where
  -- Two loops give the same end.
  abbrev Agree : Ended → Ended → Type 0
  Agree x y = (r : Result (Unit {0}) × Session) × (x ≡ some r) × (y ≡ some r)

  after_dispatch-Agree :
      (c : S) (again later : S → Session → Ended)
      → ((s : Session) → Agree (again c s) (later c s))
      → (r : Result (Unit {0}) × Session)
      → Agree (after_dispatch src again c r) (after_dispatch src later c r)
  after_dispatch-Agree c again later next (err e, s) = ((err e, s), refl, refl)
  after_dispatch-Agree c again later next (ok u, s) = next s

  after_decode-Agree :
      (b : ℕ) (again later : S → Session → Ended)
      → ((c : S) (s : Session) → Has src b c → Agree (again c s) (later c s))
      → (r : Decodes S Message) → Went src b r
      → (s : Session) → Agree (after_decode src again r s) (after_decode src later r s)
  after_decode-Agree b again later next (err e, c) h s = ((err e, s), refl, refl)
  after_decode-Agree b again later next (ok none, c) h s = (close_session s, refl, refl)
  after_decode-Agree b again later next (ok (some m), c) h s =
      after_dispatch-Agree c again later (λ s'. next c s' h) (dispatch m s)

  loop_within :
      (fuel more b : ℕ) (c : S) (s : Session)
      → Has src b c
      → b < fuel
      → b < more
      → Agree (loop src fuel c s) (loop src more c s)
  unfolding loop
  loop_within zero more b c s h enough enough' = absurd (omega arith)
  loop_within (suc fuel) zero b c s h enough enough' = absurd (omega arith)
  loop_within (suc fuel) (suc more) zero c s (ready, left) enough enough' =
      let over = decode_end src c ready (length-zero (src.remaining c) (omega arith)) in
      (close_session s, loop-end src fuel c s over, loop-end src more c s over)
  loop_within (suc fuel) (suc more) (suc b) c s h enough enough' =
      after_decode-Agree b (λ c' s'. loop src fuel c' s') (λ c' s'. loop src more c' s')
        (λ c' s' h'. loop_within fuel more b c' s' h' (omega arith) (omega arith)) (decode src c)
        (decode-Went src b c h) s

  -- Whatever bytes a connection that is ready carries, encoded messages or not, the read loop comes to
  -- an end: with more fuel than there are bytes left it gives a result, which is the same for all
  -- such fuels.
  pub loop_ends :
      (fuel more : ℕ) (c : S) (s : Session)
      → src.IsReady c
      → length (src.remaining c) < fuel
      → length (src.remaining c) < more
      → (r : Result (Unit {0}) × Session) × (loop src fuel c s ≡ some r)
        × (loop src more c s ≡ some r)
  loop_ends fuel more c s ready enough enough' =
      loop_within fuel more (length (src.remaining c)) c s (ready, omega arith) enough enough'
