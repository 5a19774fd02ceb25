-- ===== src/Legacy/Qrpc/Api.antt =====
-- javascript/legacy/qrpc/src/qrpc.ts: `API.serveAPI` and `Client.call`, on a channel that opens and
-- carries what is written.
use qtalk.Base.{Bool, not, List, [], ◌∷◌, Option, none, some}
use qtalk.Base.Throws.{Result, ok, err}
use qtalk.Rpc.Text.{Text}
use qtalk.Rpc.Call.{Call, new_call}
use qtalk.Rpc.Mux.{bind, handler}
use qtalk.Rpc.Exchange.{new_response_header, missing_handler}
use qtalk.Legacy.Qrpc.{failure, returns, Run, Handler, Answer, answers}
use qtalk.Legacy.Qrpc.Export.{answered, throws}
use qtalk.Legacy.Qrpc.Objects.{Registered, ObjectManager, serve_rpc}

-- A handler of the API is a function, or the object manager, whose values are those of the call's time.
pub data Entry (A : Type 0) : Type 0 where
  custom : Handler A → Entry A
  manager : Entry A

pub record Response (A : Type 0) : Type 0 where
  pub hijacked : Bool
  pub reply : Option A
  -- whether `call` closes the channel
  pub closes : Bool

-- What the promise of `Client.call` comes to: it is rejected by the error of the header, resolved by a
-- response, pending for ever, or resolved by `undefined` after an error that the `catch` has logged. Several answers on one channel are written at the same time.
pub data Outcome (A : Type 0) : Type 0 where
  rejected : Text → Outcome A
  responded : Response A → Outcome A
  pending : Outcome A
  resolved_undefined : Outcome A
  mixed : List (Answer A) → Outcome A

module _ {A : Type 0} where
  -- `mount`
  unfoldable pub mount :
      Text → List (Text × Entry A) → ObjectManager A → List (Text × Entry A) × ObjectManager A
  mount path api m = (bind path manager api, record m { mount_path = path })

  abbrev pub receive_header : Option Text → Answer A → Outcome A
  receive_header (some e) sent = rejected e
  receive_header none sent = responded (record {
    hijacked = sent.header.hijacked;
    reply = sent.value;
    closes = not sent.header.hijacked;
  })

  abbrev pub receive : List (Answer A) → Outcome A
  receive [] = pending
  receive (sent ∷ []) = receive_header sent.header.error sent
  receive (sent ∷ next ∷ rest) = mixed (sent ∷ next ∷ rest)

  module _ (inherited : Text → Option (Registered A)) (truthy : A → Bool) where
    abbrev pub serve_entry : ObjectManager A → Entry A → Handler A
    unfolding serve_rpc
    serve_entry m (custom h) call args = h call args
    serve_entry m manager call args = serve_rpc inherited truthy m call args

    abbrev pub serve_found : ObjectManager A → Result (Option (Entry A)) → Handler A
    serve_found m (err e) call args = throws e
    serve_found m (ok none) call args =
        answered (returns (failure (missing_handler call.destination)) ∷ [])
    serve_found m (ok (some entry)) call args = serve_entry m entry call args

    abbrev pub serve_call : ObjectManager A → List (Text × Entry A) → Result Call → Option A → Run A
    serve_call m api (err e) args = throws e
    serve_call m api (ok call) args = serve_found m (handler call.destination api) call args

    -- `API.serveAPI` on the `Destination` that it decodes, parsed as it is
    unfoldable pub serve_api : ObjectManager A → List (Text × Entry A) → Text → Option A → Run A
    unfolding handler
    serve_api m api destination args = serve_call m api (new_call destination) args

    -- `Client.call`, which sends the path unparsed, up to the end of its promise
    unfoldable pub call : ObjectManager A → List (Text × Entry A) → Text → Option A → Outcome A
    unfolding serve_api answers
    call m api path args = receive (answers (serve_api m api path args).actions new_response_header)

    -- `Client.call` from the promise of `session.open`
    unfoldable pub call_opened :
        Result (Unit {0}) → ObjectManager A → List (Text × Entry A) → Text → Option A → Outcome A
    unfolding call
    call_opened (err e) m api path args = resolved_undefined
    call_opened (ok u) m api path args = call m api path args
