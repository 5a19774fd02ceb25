-- ===== src/Tests/CallRuns.antt =====
-- Calls of javascript/rpc between two sessions of javascript/mux.
use qtalk.Base.{ℕ, ◌≡◌, refl, true, List, [], ◌∷◌, arith}
use qtalk.Channel.{new_object}
use qtalk.Session.State.{new_session}
use qtalk.Session.Table.{lookup}
use qtalk.Session.Opening.{confirmed}
use qtalk.Rpc.Text.{units}
use qtalk.Rpc.Call.{Call, new_call}
use qtalk.Rpc.Mux.{handler}
use qtalk.Rpc.Frame.Ops.{Event, round, decodes}
use qtalk.Rpc.Json.{bool, array, item, no_items}
use qtalk.Rpc.Json.Print.{stringify}
use qtalk.Rpc.Json.Codec.{encode_json}
use qtalk.Rpc.Json.Proper.{IsProper}
use qtalk.Rpc.Exchange.{new_response_header}
use qtalk.Rpc.Wire.{call_json, header_json, exchange_json, respond_json}
use qtalk.Rpc.Wire.Sessions.{call_over}
use qtalk.Rpc.Wire.Across.{call_over-exchange_json}
use qtalk.Session.Invariant.{Inv-new_session}
use qtalk.Rpc.Wire.Opened.{call_opening}
use qtalk.Rpc.Wire.Opened.Ends.{call_opening-exchange_json}
use qtalk.Tests.TransferRuns.{sender, receiver}
use qtalk.Tests.JsonRuns.{bits, echoes}

-- Each side's read loop goes round while a call of `decode` waits.
abbrev in_turn : List (Event ℕ)
in_turn = decodes 1 ∷ round ∷ decodes 2 ∷ round ∷ []

abbrev echo_call : Call
echo_call = record {
  destination = units "obj/echo";
  object_path = units "obj";
  method = units "echo";
}

over_sessions :
    call_over bits in_turn in_turn 0 0 echoes (units "/obj/echo") (bool true) sender receiver
    ≡ exchange_json bits echoes (units "/obj/echo") (bool true)
unfolding respond_json new_session new_object lookup encode_json stringify IsProper new_call
    call_json header_json handler
over_sessions =
    call_over-exchange_json bits in_turn in_turn 0 0 0 2 echoes (units "/obj/echo") (bool true)
      echo_call (header_json new_response_header) (array (item (bool true) no_items)) true sender
      receiver refl refl (ground arith) (ground arith) (omega arith) (omega arith)
      (confirmed 0 2, refl, (refl, refl, refl), refl, refl, refl, refl, refl, omega arith)
      (confirmed 2 0, refl, (refl, refl, refl), refl, refl, refl, refl, refl, omega arith)
      (refl, refl) (refl, refl)

call_opening-exchange_json_example :
    call_opening bits in_turn in_turn 1 2 echoes
      (units "/obj/echo")
      (bool true)
      new_session
      new_session
    ≡ exchange_json bits echoes (units "/obj/echo") (bool true)
unfolding respond_json new_session encode_json stringify IsProper new_call call_json header_json
    handler
call_opening-exchange_json_example =
    call_opening-exchange_json bits in_turn in_turn 1 2 echoes (units "/obj/echo") (bool true)
      echo_call (header_json new_response_header) (array (item (bool true) no_items)) true
      new_session new_session Inv-new_session Inv-new_session (omega arith) (omega arith) refl refl
      refl refl refl (ground arith) (ground arith) (omega arith) (omega arith) (refl, refl)
      (refl, refl)
