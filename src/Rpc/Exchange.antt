-- ===== src/Rpc/Exchange.antt =====
-- javascript/rpc/caller.ts and responder.ts: a call from the caller's destination to the handler, and
-- the answer back. A value that is sent is a JSON value.
pub mod Slashes
pub mod Answers
use qtalk.Base.{ℕ, Bool, true, false, List, [], ◌∷◌, ◌++◌, Option, none, some, not, if◌then◌else◌}
use qtalk.Base.Throws.{Error, Result, ok, err, type_error, ◌>>=◌}
use qtalk.Rpc.Text.{Text, units}
use qtalk.Rpc.Call.{Call, new_call}
use qtalk.Rpc.Mux.{handler}

-- `ResponseHeader`; `error` is `none` for `undefined`.
pub record ResponseHeader : Type 0 where
  pub error : Option Text
  pub hijacked : Bool

abbrev pub new_response_header : ResponseHeader
new_response_header = record { error = none; hijacked = false }

-- What is sent over a call's channel: the call, its arguments, the header, and the reply, where
-- `null` stands for the value of an `Error`.
pub data Value (A : Type 0) : Type 0 where
  call_value : Call → Value A
  header_value : ResponseHeader → Value A
  plain : A → Value A
  null : Value A

-- What a handler gives to `return` or `hijack`: an `Error` with its message, or a value.
pub data Given (A : Type 0) : Type 0 where
  error_given : Text → Given A
  given : A → Given A

module _ {A : Type 0} where
  abbrev pub marked : ResponseHeader → Given A → ResponseHeader × Value A
  marked header (error_given message) = (record header { error = some message }, null)
  marked header (given a) = (header, plain a)

  -- The values that the responder sends, in order, and whether it closes the channel.
  abbrev pub sends : ResponseHeader × Value A → List (Value A)
  sends (header, v) = header_value header ∷ v ∷ []

  -- `return` of the responder
  unfoldable pub return_value : ResponseHeader → Given A → List (Value A) × Bool
  return_value header v = (sends (marked header v), true)

  -- `hijack` of the responder
  unfoldable pub hijack : ResponseHeader → Given A → List (Value A) × Bool
  hijack header v =
      let (header', v') = marked header v in (sends (record header' { hijacked = true }, v'), false)

-- The text of the error for a destination without a handler.
abbrev pub missing_handler : Text → Text
missing_handler destination = units "handler does not exist for this destination: " ++ destination

-- What a handler comes to.
pub data Action (A : Type 0) : Type 0 where
  returns : Given A → Action A
  hijacks : Given A → Action A

-- What a handler does with a call: it answers without its arguments, or decodes them, once, and
-- answers then.
pub data Handled (A : Type 0) : Type 0 where
  at_once : Action A → Handled A
  decodes : (Value A → Action A) → Handled A

abbrev pub Handler : Type 0 → Type 0
Handler A = Call → Handled A

-- What the caller's promise comes to: it is rejected, it waits for an answer that the responder
-- never sends since it threw, or it is resolved with a response.
pub record Response (A : Type 0) : Type 0 where
  pub error : Option Text
  pub hijacked : Bool
  pub reply : Value A
  -- whether `call` closes the channel
  pub closes : Bool

pub data Outcome (A : Type 0) : Type 0 where
  rejected : Error → Outcome A
  unanswered : Error → Outcome A
  responded : Response A → Outcome A

module _ {A : Type 0} where
  -- What a handler comes to, where the arguments are decoded if it does so.
  abbrev pub on_args : Handled A → Value A → Action A
  on_args (at_once a) args = a
  on_args (decodes f) args = f args

  abbrev pub act : Action A → List (Value A) × Bool
  act (returns v) = return_value new_response_header v
  act (hijacks v) = hijack new_response_header v

  abbrev pub by_found : Option (Handler A) → Call → Value A → List (Value A) × Bool
  by_found none call args =
      return_value new_response_header (error_given (missing_handler call.destination))
  by_found (some h) call args = act (on_args (h call) args)

  -- `Respond`, on the first frame. No other value than a call has a `Destination`.
  unfoldable pub respond :
      List (Text × Handler A) → Value A → Value A → Result (List (Value A) × Bool)
  respond mux (call_value frame) args = do
    call ← new_call frame.destination
    found ← handler call.destination mux
    ok (by_found found call args)
  respond mux (header_value header) args = err type_error
  respond mux (plain a) args = err type_error
  respond mux null args = err type_error

  -- `call` of the caller, on the two frames that it decodes
  abbrev pub receive : List (Value A) → Outcome A
  receive (header_value header ∷ reply ∷ rest) = responded (record {
    error = header.error;
    hijacked = header.hijacked;
    reply = reply;
    closes = not header.hijacked;
  })
  receive _ = rejected type_error

  abbrev pub received : Result (List (Value A) × Bool) → Outcome A
  received (err e) = unanswered e
  received (ok (values, closes)) = receive values

  abbrev pub called : List (Text × Handler A) → A → Result Call → Outcome A
  called mux args (err e) = rejected e
  called mux args (ok call) = received (respond mux (call_value call) (plain args))

  -- A whole call, from `caller.call(path, args)` on one side to its promise
  unfoldable pub exchange : List (Text × Handler A) → Text → A → Outcome A
  unfolding return_value hijack respond
  exchange mux path args = called mux args (new_call path)
