-- ===== src/Conn.antt =====
-- javascript/mux/api.ts: what the decoder asks of an `IConn`. The promise of `read` is awaited at
-- once, so a call gives the bytes, or `none` for `undefined`, and the state that it leaves.
pub mod Exact
pub mod WebSocket
use qtalk.Base.{ℕ, ◌≤◌, ◌<◌, ◌≡◌, List, ◌++◌, Option, none, some, length, take, drop}

pub record Source (S : Type 0) : Type 1 where
  pub read : ℕ → S → Option (List ℕ) × S
  -- The states in which a new call of `read` is the only one, on an open connection.
  pub IsReady : S → Type 0
  -- The bytes that are still to be read before the connection closes.
  pub remaining : S → List ℕ
  pub read_enough :
      (n : ℕ) (s : S)
      → IsReady s
      → 0 < n
      → n ≤ length (remaining s)
      → ((read n s).0 ≡ some (take n (remaining s)))
        × IsReady (read n s).1
        × (remaining (read n s).1 ≡ drop n (remaining s))
  pub read_short :
      (n : ℕ) (s : S) → IsReady s → 0 < n → length (remaining s) < n → (read n s).0 ≡ none
  -- A call for no bytes gives some of those that are there, or none.
  pub read_zero :
      (s : S)
      → IsReady s
      → (front : List ℕ) × ((read 0 s).0 ≡ some front)
        × IsReady (read 0 s).1
        × (front ++ remaining (read 0 s).1 ≡ remaining s)
