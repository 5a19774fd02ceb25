-- ===== src/Rpc/Peer.antt =====
-- javascript/rpc/peer.ts: `Peer`, which holds the handlers of one side, and `CallProxy`, whose
-- properties that start with a dollar sign are functions that call; and `errable` of internal.ts.
pub mod Replies
use qtalk.Base.{ℕ, Bool, true, false, List, [], ◌∷◌, Option, none, some, ◌==◌, if◌then◌else◌}
use qtalk.Base.Throws.{Error, Result, ok, err, syntax_error, ◌>>=◌}
use qtalk.Rpc.Text.{Text, units}
use qtalk.Rpc.Call.{Call, new_call}
use qtalk.Rpc.Mux.{bind, handler}
use qtalk.Rpc.Exchange.{
  Value, null, Handled, at_once, decodes, Handler, Outcome, rejected, unanswered, responded,
  Response, act, by_found, received, respond, exchange,
}

-- What `then` and `catch` of `errable` make of a promise: the value or `null`, and `null` or the error.
abbrev pub errable : {A : Type 0} → Result A → Option A × Option Error
errable (ok a) = (some a, none)
errable (err e) = (none, some e)

abbrev dollar : ℕ
dollar = b'$'

-- A property of the proxy: a function that calls a method, or a property of the caller.
pub data Property : Type 0 where
  calls : Text → Property
  reflected : Text → Property

-- How the promise of such a function ends, where `waits` is without an answer.
pub data Proxied (A : Type 0) : Type 0 where
  replied : Value A → Proxied A
  thrown : Text → Proxied A
  waits : Proxied A

-- The property that `get` of the proxy finds.
unfoldable pub property_at : Text → Property
property_at [] = reflected []
property_at (c ∷ prop) = if c == dollar then calls prop else reflected (c ∷ prop)

-- `Peer`, by the handlers of its responder
pub record Peer (A : Type 0) : Type 0 where
  pub handlers : List (Text × Handler A)

module _ {A : Type 0} where
  abbrev pub new_peer : Peer A
  new_peer = record { handlers = [] }

  -- `bind` and `bindFunc`
  abbrev pub bind_handler : Text → Handler A → Peer A → Peer A
  bind_handler path h peer = record { handlers = bind path h peer.handlers }

  -- `respond`: each accepted channel, by the frames of its call and of its arguments, is answered apart
  -- from the others. The loop never returns.
  unfoldable pub respond_each :
      Peer A → List (Value A × Value A) → List (Result (List (Value A) × Bool))
  unfolding respond
  respond_each peer [] = []
  respond_each peer ((frame, args) ∷ rest) =
      respond peer.handlers frame args ∷ respond_each peer rest

  -- `Respond` where the frame of the arguments is that of `undefined`: the read loop of the frame
  -- codec throws on it, so a handler that decodes its arguments never answers. Another one does.
  abbrev pub unread : Handled A → Result (List (Value A) × Bool)
  unread (at_once a) = ok (act a)
  unread (decodes f) = err syntax_error

  abbrev pub undecoded : Option (Handler A) → Call → Result (List (Value A) × Bool)
  undecoded none call = ok (by_found none call null)
  undecoded (some h) call = unread (h call)

  unfoldable pub respond_undefined : List (Text × Handler A) → Call → Result (List (Value A) × Bool)
  respond_undefined mux frame = do
    call ← new_call frame.destination
    found ← handler call.destination mux
    undecoded found call

  abbrev pub called_undefined : List (Text × Handler A) → Result Call → Outcome A
  called_undefined mux (err e) = rejected e
  called_undefined mux (ok call) = received (respond_undefined mux call)

  -- `call` to the other side, with `none` for `undefined`
  unfoldable pub call : Peer A → Text → Option A → Outcome A
  call peer path (some args) = exchange peer.handlers path args
  call peer path none = called_undefined peer.handlers (new_call path)

  -- The arguments of a property's function, where `array` makes an array of several.
  abbrev pub params : (List A → A) → List A → Option A
  params array [] = none
  params array (a ∷ []) = some a
  params array (a ∷ b ∷ rest) = some (array (a ∷ b ∷ rest))

  -- `if (resp.error)`, which an empty text does not pass
  abbrev pub unless_error : Option Text → Value A → Proxied A
  unless_error none reply = replied reply
  unless_error (some []) reply = replied reply
  unless_error (some (c ∷ message)) reply = thrown (c ∷ message)

  -- What a property's function makes of the call. The caller rejects with one text only.
  abbrev pub settle : Outcome A → Proxied A
  settle (rejected e) = thrown (units "call?")
  settle (unanswered e) = waits
  settle (responded response) = unless_error response.error response.reply

  -- A property of the proxy, called on some arguments
  unfoldable pub call_property : (List A → A) → Peer A → Property → List A → Option (Proxied A)
  call_property array peer (reflected prop) args = none
  call_property array peer (calls path) args = some (settle (call peer path (params array args)))
