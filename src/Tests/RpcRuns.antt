-- ===== src/Tests/RpcRuns.antt =====
-- Runs of javascript/rpc.
use qtalk.Base.{
  ℕ, ◌≡◌, refl, Bool, true, false, List, [], ◌∷◌, ◌++◌, ◌<◌, some, inl, inr, All, arith, length,
  ◌==◌,
}
use qtalk.Base.Throws.{Result, ok, err, syntax_error}
use qtalk.Bytes.{IsByte, u32_bytes}
use qtalk.Channel.Feed.{Link, link_source}
use qtalk.Rpc.Frame.Delivery.{messages}
use qtalk.Channel.{new_object}
use qtalk.Session.State.{new_session}
use qtalk.Tests.TransferRuns.{sender, receiver}
use qtalk.Session.Table.{lookup}
use qtalk.Session.Transfer.{data_messages, dispatch_all, after_writes}
use qtalk.Rpc.Frame.Crossing.{encode_all, Gives, encode_all-Gives}
use qtalk.Session.Opening.{confirmed}
use qtalk.Rpc.Text.{Text, units}
use qtalk.Rpc.Call.{Call, new_call, call_at}
use qtalk.Rpc.Mux.{bind, handler}
use qtalk.Rpc.Mux.Prefixes.{bind-handler}
use qtalk.Rpc.Frame.{Codec, new_frame_codec}
use qtalk.Rpc.Frame.Ops.{Event, round, decodes}
use qtalk.Rpc.Frame.Order.{run}
use qtalk.Rpc.Exchange.{
  plain, null, given, error_given, returns, Handler, at_once, decodes, respond, return_value,
  exchange,
}
use qtalk.Rpc.Peer.{
  Peer, replied, waits, calls, property_at, call, respond_undefined, call_property,
}
use qtalk.Rpc.Peer.Replies.{call_property-reply_to}
use qtalk.Rpc.Frame.Blank.{run-with_blank}
use qtalk.Rpc.Exchange.Answers.{response_of, exchange-response_of}
use qtalk.Rpc.Exchange.Slashes.{exchange-unslashed}

bind-handler_example :
    handler {H = ℕ} (units "foo/bar") (bind (units "foo") 7 ((units "baz", 8) ∷ [])) ≡ ok (some 7)
unfolding bind
bind-handler_example =
    bind-handler (units "foo/bar") (units "foo") 7 ((units "baz", 8) ∷ []) refl refl refl (refl, tt)

-- An array index goes before the other keys.
bind_index :
    bind {H = ℕ} (units "7") 1 ((units "3", 2) ∷ (units "x", 3) ∷ [])
    ≡ (units "3", 2) ∷ (units "7", 1) ∷ (units "x", 3) ∷ []
unfolding bind
bind_index = refl

abbrev foo : Call
foo = record { destination = units "foo"; object_path = units "/"; method = units "foo" }

foo_at : call_at (units "/foo") ≡ ok foo
unfolding new_call
foo_at = refl

abbrev failing : Handler ℕ
failing call = decodes (λ args. returns (error_given []))

abbrev echo : Handler ℕ
echo call = decodes (λ args. returns (given 5))

-- Both handlers could be meant by the path `/foo`; the one that is bound there is not found.
abbrev both_paths : List (Text × Handler ℕ)
both_paths = (units "/foo", failing) ∷ (units "foo", echo) ∷ []

exchange-unslashed_example :
    exchange both_paths (units "/foo") 3 ≡ exchange ((units "foo", echo) ∷ []) (units "/foo") 3
exchange-unslashed_example = exchange-unslashed both_paths (units "/foo") 3 refl

exchange-response_of_example :
    exchange ((units "foo", echo) ∷ []) (units "/foo") 3 ≡ response_of (returns (given 5))
unfolding handler
exchange-response_of_example =
    exchange-response_of ((units "foo", echo) ∷ []) (units "/foo") 3 foo echo foo_at refl

-- A codec for the JSON texts `true` and `false`
abbrev text_of : Bool → List ℕ
text_of true = units "true"
text_of false = units "false"

abbrev value_of : List ℕ → Result Bool
value_of [] = err syntax_error
value_of (c ∷ text) = ok (length text == 3)

value_of-text_of : (b : Bool) → value_of (text_of b) ≡ ok b
value_of-text_of true = refl
value_of-text_of false = refl

text_of_bytes : (b : Bool) → All IsByte (text_of b)
text_of_bytes true = ground arith
text_of_bytes false = ground arith

text_of_some : (b : Bool) → 0 < length (text_of b)
text_of_some true = omega arith
text_of_some false = omega arith

abbrev flags : Codec Bool
flags = record {
  encode = text_of;
  decode = value_of;
  IsValue = λ b. Unit;
  decode-encode = λ b valid. value_of-text_of b;
  encode_bytes = λ b valid. text_of_bytes b;
  encode_some = λ b valid. text_of_some b;
}

abbrev events : List (Event ℕ)
events = round ∷ decodes 1 ∷ decodes 2 ∷ round ∷ []

encode_all-Gives_example :
    let ms = data_messages 2 (messages flags (true ∷ false ∷ [])) in
    (encode_all flags 0 (true ∷ false ∷ []) sender ≡ (ok tt, after_writes ms sender))
    × Gives flags 0 events 2 (true ∷ false ∷ []) (dispatch_all ms receiver)
unfolding new_session new_object lookup
encode_all-Gives_example =
    encode_all-Gives flags events (true ∷ false ∷ []) 2 sender receiver 0 0 (confirmed 0 2)
      (confirmed 2 0) refl refl refl (omega arith) (omega arith, (omega arith, tt)) refl refl refl
      refl refl refl (omega arith) (inr (omega arith)) (omega arith)

-- The frames of a value and of `undefined`, on a channel that was just opened
abbrev blank : Link
blank = record {
  channel = confirmed 0 3;
  arrivals = messages flags (true ∷ []) ++ u32_bytes 0 ∷ [] ∷ [];
}

run-with_blank_example :
    run {W = ℕ} link_source flags
      (decodes 1 ∷ round ∷ decodes 2 ∷ round ∷ round ∷ [])
      blank
      (new_frame_codec 0)
    ≡ (1, true) ∷ []
unfolding new_object
run-with_blank_example =
    run-with_blank link_source flags (decodes 1 ∷ round ∷ decodes 2 ∷ round ∷ round ∷ [])
      (true ∷ []) blank 0 syntax_error refl (inl refl)
      (refl, refl, ([], refl), (omega arith), omega arith) refl (omega arith, tt)

abbrev counting : Peer ℕ
counting = record { handlers = (units "foo", echo) ∷ [] }

call_property-reply_to_example :
    call_property length counting (property_at (units "$/foo")) (3 ∷ 4 ∷ [])
    ≡ some (replied (plain 5))
unfolding handler
call_property-reply_to_example =
    call_property-reply_to length counting (units "/foo") (3 ∷ 4 ∷ []) foo echo foo_at refl

-- An error without a text counts as a reply, and a call without arguments is never answered by a handler that decodes
-- them.
silent_error :
    call_property length
      (record { handlers = (units "foo", failing) ∷ [] })
      (calls (units "foo"))
      (3 ∷ [])
    ≡ some (replied null)
unfolding call_property call exchange handler respond new_call return_value
silent_error = refl

no_arguments : call_property length counting (calls (units "foo")) [] ≡ some waits
unfolding call_property call respond_undefined handler new_call
no_arguments = refl

no_arguments_read :
    call_property length
      (record { handlers = (units "foo", λ call. at_once (returns (given 5))) ∷ [] })
      (calls (units "foo"))
      []
    ≡ some (replied (plain 5))
unfolding call_property call respond_undefined handler new_call return_value
no_arguments_read = refl
