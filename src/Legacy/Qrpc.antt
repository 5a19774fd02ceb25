-- ===== src/Legacy/Qrpc.antt =====
-- javascript/legacy/qrpc/src/qrpc.ts, the calls before javascript/rpc: what a handler does with the
-- `responder`. Its `FrameCodec`, `Call.parse`, `API.handle` and `API.handler` are the code of Rpc.
pub mod Export
pub mod Objects
pub mod Api
pub mod Serve
pub mod Methods
pub mod Reach
pub mod Managed
pub mod Routed
pub mod Garbled
use qtalk.Base.{Bool, true, false, List, [], ◌∷◌, Option, none, some}
use qtalk.Base.Throws.{Result}
use qtalk.Rpc.Text.{Text}
use qtalk.Rpc.Call.{Call}
use qtalk.Rpc.Exchange.{ResponseHeader}

-- An argument of `return` or `hijack`: an `Error` with its message, or a value, where `none` is `null`.
pub data Passed (A : Type 0) : Type 0 where
  failure : Text → Passed A
  success : Option A → Passed A

-- A call of one of the responder's two methods.
pub data Action (A : Type 0) : Type 0 where
  returns : Passed A → Action A
  hijacks : Passed A → Action A

-- What `serveRPC` calls on the responder, in order, and how its promise ends.
pub record Run (A : Type 0) : Type 0 where
  pub actions : List (Action A)
  pub ends : Result (Unit {0})

-- The call's arguments are what `c.decode()` gives.
abbrev pub Handler : Type 0 → Type 0
Handler A = Call → Option A → Run A

-- What one action sends, and whether it closes the channel then.
pub record Answer (A : Type 0) : Type 0 where
  pub header : ResponseHeader
  pub value : Option A
  pub closes : Bool

module _ {A : Type 0} where
  -- `if (v instanceof Error) { this.header.Error = v.message; v = null; }`
  abbrev pub mark : Passed A → ResponseHeader → ResponseHeader × Option A
  mark (failure message) header = (record header { error = some message }, none)
  mark (success v) header = (header, v)

  -- The methods `return` and `hijack`, on the header that the responder keeps.
  unfoldable pub return_answer : Passed A → ResponseHeader → Answer A
  return_answer v header =
      let (header', v') = mark v header in record { header = header'; value = v'; closes = true }

  unfoldable pub hijack_answer : Passed A → ResponseHeader → Answer A
  hijack_answer v header =
      let (header', v') = mark v header in
      record { header = record header' { hijacked = true }; value = v'; closes = false }

  abbrev pub answer : Action A → ResponseHeader → Answer A
  unfolding return_answer hijack_answer
  answer (returns v) header = return_answer v header
  answer (hijacks v) header = hijack_answer v header

  -- The header of an answer is that of the next one, until it is written over.
  unfoldable pub answers : List (Action A) → ResponseHeader → List (Answer A)
  unfolding answer
  answers [] header = []
  answers (action ∷ rest) header =
      let sent = answer action header in sent ∷ answers rest sent.header
