-- ===== src/Rpc/Exchange/Answers.antt =====
-- What a caller is told.
use qtalk.Base.{◌≡◌, refl, ◌∙◌, true, false, List, Option, none, some}
use qtalk.Base.Throws.{ok, >>=-eq-ok}
use qtalk.Rpc.Text.{Text}
use qtalk.Rpc.Call.{Call, new_call, call_at}
use qtalk.Rpc.Mux.{handler}
use qtalk.Rpc.Exchange.{
  Value, plain, null, error_given, given, Action, returns, hijacks, Handler, Outcome, responded,
  missing_handler, on_args, act, by_found, received, exchange, respond, return_value, hijack,
}

module _ {A : Type 0} where
  abbrev pub response_of : Action A → Outcome A
  response_of (returns (given a)) =
      responded (record { error = none; hijacked = false; reply = plain a; closes = true })
  response_of (returns (error_given message)) =
      responded (record { error = some message; hijacked = false; reply = null; closes = true })
  response_of (hijacks (given a)) =
      responded (record { error = none; hijacked = true; reply = plain a; closes = false })
  response_of (hijacks (error_given message)) =
      responded (record { error = some message; hijacked = true; reply = null; closes = false })

  pub received-act : (a : Action A) → received (ok (act a)) ≡ response_of a
  unfolding return_value hijack
  received-act (returns (given a)) = refl
  received-act (returns (error_given message)) = refl
  received-act (hijacks (given a)) = refl
  received-act (hijacks (error_given message)) = refl

  received-missing :
      (call : Call) (args : Value A)
      → received (ok (by_found none call args))
        ≡ response_of (returns (error_given (missing_handler call.destination)))
  unfolding return_value
  received-missing call args = refl

  exchange-received :
      (mux : List (Text × Handler A)) (path : Text) (args : A) (call : Call)
      (found : Option (Handler A))
      → call_at path ≡ ok call
      → handler call.destination mux ≡ ok found
      → exchange mux path args ≡ received (ok (by_found found call (plain args)))
  unfolding exchange respond
  exchange-received mux path args call found at has =
      let (first, sent, second) =
        >>=-eq-ok (new_call path) (λ (c : Call). new_call c.destination) at in
      rw sent (rw second (rw has))

  -- The caller is resolved with what the handler gives that the call's destination finds, as the
  -- handler gives it, by `return` or by `hijack`, an error or a value; the channel is closed unless
  -- it was hijacked.
  pub exchange-response_of :
      (mux : List (Text × Handler A)) (path : Text) (args : A) (call : Call) (h : Handler A)
      → call_at path ≡ ok call
      → handler call.destination mux ≡ ok (some h)
      → exchange mux path args ≡ response_of (on_args (h call) (plain args))
  exchange-response_of mux path args call h at found =
      exchange-received mux path args call (some h) at found
      ∙ received-act (on_args (h call) (plain args))

  -- If the destination finds no handler, the caller is told so, by an error that names it.
  pub exchange-missing_handler :
      (mux : List (Text × Handler A)) (path : Text) (args : A) (call : Call)
      → call_at path ≡ ok call
      → handler call.destination mux ≡ ok none
      → exchange mux path args
        ≡ response_of (returns (error_given (missing_handler call.destination)))
  exchange-missing_handler mux path args call at found =
      exchange-received mux path args call none at found ∙ received-missing call (plain args)
