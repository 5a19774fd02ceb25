-- ===== src/Rpc/Wire/Refines.antt =====
-- A call over the bytes of its frames does what the exchange of its values does.
use qtalk.Base.{
  ◌≡◌, refl, inl, inr, Bool, true, false, not, List, [], ◌∷◌, Option, none, some, All, All-append,
  ◌<◌, map, Bool-cases, arith,
}
use qtalk.Base.Throws.{ok, Result-cases}
use qtalk.Rpc.Text.{Text, units, starts_with}
use qtalk.Rpc.Call.{Call, new_call}
use qtalk.Rpc.Mux.{handler, first_prefix, has_key, has_own_property}
use qtalk.Rpc.Exchange.{
  ResponseHeader, new_response_header, Value, call_value, header_value, plain, Given, given,
  error_given, Action, returns, hijacks, Handler, Outcome, rejected, unanswered, responded, marked,
  return_value, hijack, sends, missing_handler, on_args, act, by_found, respond, receive, received,
  called, exchange,
}
use qtalk.Rpc.Exchange
use qtalk.Rpc.Json.{Numbers, Json, bool, string}
use qtalk.Rpc.Json.Strings.{AreUnits}
use qtalk.Rpc.Json.Proper.{IsProper}
use qtalk.Rpc.Json.Codec.{decode_json-encode_json}
use qtalk.Rpc.Wire.{
  call_json, header_json, value_json, CallEnd, rejects, waits, resolves, crossed, respond_json,
  found_json, receive_json, exchange_json, property, take_fields, take_header, sent_values,
}
use qtalk.Rpc.Wire.Properness.{
  IsProperError, IsProperAction, new_call-IsProperCall, call_json-IsProper, header_json-IsProper,
}

module _ {N : Type 0} where
  -- How a call over frames ends, if the exchange of values ends so.
  abbrev text_json : Option Text → Option (Json N)
  text_json none = none
  text_json (some message) = some (string message)

  abbrev pub ending_of : Outcome (Json N) → CallEnd N
  ending_of (rejected e) = rejects e
  ending_of (unanswered e) = waits
  ending_of (responded r) = resolves (record {
    error = text_json r.error;
    hijacked = some (bool r.hijacked);
    reply = value_json r.reply;
    closes = r.closes;
  })

  -- Handlers that give values which the codec keeps, for such arguments.
  abbrev pub AreProperHandlers : List (Text × Handler (Json N)) → Type 0
  AreProperHandlers mux =
      All
        (λ (e : Text × Handler (Json N)).
          (call : Call) (args : Json N)
          → IsProper args
          → IsProperAction (on_args (e.1 call) (plain args)))
        mux

  IsProperFound : Option (Handler (Json N)) → Type 0
  IsProperFound none = Unit
  IsProperFound (some h) =
      (call : Call) (args : Json N) → IsProper args → IsProperAction (on_args (h call) (plain args))

  first_prefix-IsProperFound :
      (path : Text) (mux : List (Text × Handler (Json N)))
      → AreProperHandlers mux
      → IsProperFound (first_prefix path mux)
  unfolding IsProperFound
  first_prefix-IsProperFound path [] proper = tt
  first_prefix-IsProperFound path ((key, h) ∷ mux) proper =
      elim (Bool-cases (starts_with path key)) [
        | inl e ↦ rw e proper.0
        | inr e ↦ rw e (first_prefix-IsProperFound path mux proper.1)
      ]

  handler-IsProperFound :
      (path : Text) (mux : List (Text × Handler (Json N))) (found : Option (Handler (Json N)))
      → AreProperHandlers mux
      → handler path mux ≡ ok found
      → IsProperFound found
  unfolding handler
  handler-IsProperFound path mux found proper e = elim (Bool-cases (has_key has_own_property mux)) [
    | inl own ↦ absurd (ground arith)
    | inr own ↦
        let same : first_prefix path mux ≡ found = ground arith in
        rw same at (first_prefix-IsProperFound path mux proper)
  ]

module _ {N : Type 0} (numbers : Numbers N) where
  pub crossed_lem : (v : Json N) → IsProper v → crossed numbers v ≡ some v
  crossed_lem v proper = rw (decode_json-encode_json numbers v proper)

  header_fields :
      (header : ResponseHeader) (error : Option Text) (reply : Json N)
      → header.error ≡ error
      → take_fields
          (property (units "Error") (header_json header))
          (property (units "Hijacked") (header_json header))
          (some reply)
        ≡ resolves (record {
          error = text_json error;
          hijacked = some (bool header.hijacked);
          reply = reply;
          closes = not header.hijacked;
        })
  unfolding header_json
  header_fields header none reply e = rw e
  header_fields header (some message) reply e = rw e

  receive_json-receive :
      (header : ResponseHeader) (v : Value (Json N)) (closes : Bool)
      → IsProperError header.error
      → IsProper {N = N} (value_json v)
      → receive_json numbers (some (map value_json (sends (header, v)), closes))
        ≡ ending_of (receive (sends (header, v)))
  unfolding take_header
  receive_json-receive header v closes us proper =
      rw
        (
          crossed_lem (header_json header) (header_json-IsProper N header us),
          crossed_lem (value_json v) proper,
        )
        (header_fields header header.error (value_json v) refl)

  act-received :
      (a : Action (Json N))
      → IsProperAction a
      → receive_json numbers (sent_values (some (act a))) ≡ ending_of (received (ok (act a)))
  unfolding return_value hijack IsProper
  act-received (returns (error_given message)) us =
      receive_json-receive (record { error = some message; hijacked = false }) Exchange.null true us
        tt
  act-received (returns (given v)) proper =
      receive_json-receive new_response_header (plain v) true tt proper
  act-received (hijacks (error_given message)) us =
      receive_json-receive (record { error = some message; hijacked = true }) Exchange.null false us
        tt
  act-received (hijacks (given v)) proper =
      receive_json-receive (record { error = none; hijacked = true }) (plain v) false tt proper

  found-received :
      (found : Option (Handler (Json N))) (call : Call) (args : Json N)
      → IsProperFound found
      → AreUnits call.destination
      → IsProper args
      → receive_json numbers (sent_values (found_json (ok (found, call)) (some args)))
        ≡ ending_of (received (ok (by_found found call (plain args))))
  unfolding IsProperFound
  found-received none call args found us proper =
      act-received (returns (error_given (missing_handler call.destination))) (
        All-append (λ c. c < 0x10000) (units "handler does not exist for this destination: ")
          call.destination (ground arith) us)
  found-received (some h) call args found us proper =
      act-received (on_args (h call) (plain args)) (found call args proper)

  respond_json-respond :
      (mux : List (Text × Handler (Json N))) (call : Call) (args : Json N)
      → AreProperHandlers mux
      → AreUnits call.destination
      → IsProper args
      → receive_json numbers (respond_json numbers mux (call_json call) (some args))
        ≡ ending_of (received (respond mux (call_value call) (plain args)))
  unfolding respond_json respond call_json
  respond_json-respond mux call args handlers us proper =
      elim (Result-cases (new_call call.destination)) [
        | inl (made, e) ↦ elim (Result-cases (handler made.destination mux)) [
          | inl (found, k) ↦
              rw (e, k)
                (found-received found made args
                  (handler-IsProperFound made.destination mux found handlers k)
                  (new_call-IsProperCall call.destination made e us).0 proper)
          | inr (thrown, k) ↦ rw (e, k)
        ]
        | inr (thrown, e) ↦ rw e
      ]

  -- A call whose four frames go through the JSON codec as bytes ends as the exchange of its values does,
  -- on every path, found or not found, with a value or an error, returned or hijacked, if the path, the
  -- arguments and what the handlers give for such arguments are values that the codec keeps.
  pub exchange_json-exchange :
      (mux : List (Text × Handler (Json N))) (path : Text) (args : Json N)
      → AreProperHandlers mux
      → AreUnits path
      → IsProper args
      → exchange_json numbers mux path args ≡ ending_of (exchange mux path args)
  unfolding exchange_json exchange
  exchange_json-exchange mux path args handlers us proper = elim (Result-cases (new_call path)) [
    | inl (call, e) ↦
        let named = new_call-IsProperCall path call e us in
        rw
          (
            e,
            crossed_lem (call_json call) (call_json-IsProper N call named),
            crossed_lem args proper,
          )
          (respond_json-respond mux call args handlers named.0 proper)
    | inr (thrown, e) ↦ rw e
  ]
