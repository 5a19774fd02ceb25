-- ===== src/Legacy/Qrpc/Serve.antt =====
-- javascript/legacy/qrpc/src/qrpc.ts: the loops of `Client` and `Server` that accept channels and
-- sessions, on what the promises of `accept` give, in order; `none` is `undefined`.
use qtalk.Base.{◌≡◌, refl, ap, map, ◌++◌, Bool, true, false, List, [], ◌∷◌, Option, none, some}

-- What was accepted, each of which is served at the same time as the next is awaited; whether the loop
-- has returned, or awaits one more promise; whether it has closed its session.
pub record Served (C : Type 0) : Type 0 where
  pub accepted : List C
  pub returned : Bool
  pub closed : Bool

module _ {C : Type 0} where
  abbrev pub awaits : Served C
  awaits = record { accepted = []; returned = false; closed = false }

  abbrev pub also : C → Served C → Served C
  also c served = record served { accepted = c ∷ served.accepted }

  -- `Client.serveAPI`, and `Server.serve` with sessions
  unfoldable pub accept_until : List (Option C) → Served C
  accept_until [] = awaits
  accept_until (none ∷ rest) = record { accepted = []; returned = true; closed = false }
  accept_until (some c ∷ rest) = also c (accept_until rest)

  -- `Server.serveAPI`
  unfoldable pub serve_session : List (Option C) → Served C
  serve_session [] = awaits
  serve_session (none ∷ rest) = record { accepted = []; returned = true; closed = true }
  serve_session (some c ∷ rest) = also c (serve_session rest)

  -- `Server.serve`, with what each session that it accepts gives to its own loop
  unfoldable pub serve : List (Option (List (Option C))) → List (Served C)
  unfolding serve_session
  serve [] = []
  serve (none ∷ rest) = []
  serve (some channels ∷ rest) = serve_session channels ∷ serve rest

  -- The channels before the first `undefined` are served, and no other.
  accept_until-none :
      (cs : List C) (rest : List (Option C))
      → accept_until (map some cs ++ none ∷ rest)
        ≡ record { accepted = cs; returned = true; closed = false }
  unfolding accept_until
  accept_until-none [] rest = refl
  accept_until-none (c ∷ cs) rest = ap (also c) (accept_until-none cs rest)

  serve_session-none :
      (cs : List C) (rest : List (Option C))
      → serve_session (map some cs ++ none ∷ rest)
        ≡ record { accepted = cs; returned = true; closed = true }
  unfolding serve_session
  serve_session-none [] rest = refl
  serve_session-none (c ∷ cs) rest = ap (also c) (serve_session-none cs rest)
