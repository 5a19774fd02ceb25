-- ===== src/Rpc/Wire.antt =====
-- The frames of a call in javascript/rpc: what the caller and the responder of caller.ts and responder.ts
-- give to `encode` and read from what `decode` gives, with `JSONCodec` between them.
pub mod Properness
pub mod Refines
pub mod Sessions
pub mod Across
pub mod Opened
use qtalk.Base.{Bool, true, false, not, List, [], ◌∷◌, Option, none, some, map, if◌then◌else◌}
use qtalk.Base.Throws.{Error, Result, ok, err, type_error, no_destination, ◌>>=◌}
use qtalk.Rpc.Text.{Text, units, split}
use qtalk.Rpc.Call.{Call, new_call}
use qtalk.Rpc.Mux.{same, handler}
use qtalk.Rpc.Exchange.{
  ResponseHeader, Value, call_value, header_value, plain, Handled, at_once, decodes, Handler, act,
  by_found, return_value, hijack,
}
use qtalk.Rpc.Exchange
use qtalk.Rpc.Json.{
  Numbers, Json, Items, Fields, null, bool, number, string, array, object, no_items, item,
  no_fields, field,
}
use qtalk.Rpc.Json.Codec.{encode_json, decode_json}

module _ {N : Type 0} where
  -- The fields behind `Destination`, in the order in which the constructor of `Call` sets them.
  abbrev pub named_fields : Call → List Text → Fields N
  named_fields call (part ∷ next ∷ parts) =
      field (units "method") (string call.method)
        (field (units "objectPath") (string call.object_path) no_fields)
  named_fields call parts =
      field (units "objectPath") (string call.object_path)
        (field (units "method") (string call.method) no_fields)

  -- A `Call` that was just made
  unfoldable pub call_json : Call → Json N
  unfolding split
  call_json call = object (
      field (units "Destination") (string call.destination)
        (named_fields call (split call.destination)))

  -- `JSON.stringify` leaves out a field that is `undefined`.
  abbrev pub error_field : Option Text → Fields N → Fields N
  error_field none fs = fs
  error_field (some message) fs = field (units "Error") (string message) fs

  unfoldable pub header_json : ResponseHeader → Json N
  header_json header =
      object (error_field header.error (field (units "Hijacked") (bool header.hijacked) no_fields))

  abbrev pub value_json : Value (Json N) → Json N
  value_json (call_value call) = call_json call
  value_json (header_value header) = header_json header
  value_json (plain v) = v
  value_json Exchange.null = null

  abbrev pub find : Text → Fields N → Option (Json N)
  find name no_fields = none
  find name (field key v fs) = let later = find name fs in if same key name then some v else later

  -- A property that only an object can have, with `none` for `undefined`.
  abbrev pub property : Text → Json N → Result (Option (Json N))
  property name null = err type_error
  property name (object fs) = ok (find name fs)
  property name (bool b) = ok none
  property name (number n) = ok none
  property name (string text) = ok none
  property name (array items) = ok none

-- The response of a call, as the fields of the header are after JSON.
pub record JsonResponse (N : Type 0) : Type 0 where
  pub error : Option (Json N)
  pub hijacked : Option (Json N)
  pub reply : Json N
  -- whether `call` closes the channel
  pub closes : Bool

-- How the promise of `call` ends. It waits for ever if the responder or a read loop throws.
pub data CallEnd (N : Type 0) : Type 0 where
  rejects : Error → CallEnd N
  waits : CallEnd N
  resolves : JsonResponse N → CallEnd N

module _ {N : Type 0} where
  -- What the responder sends, if it answers: a promise of `decode` that is never resolved is `none`,
  -- and a handler that decodes its arguments waits for it.
  abbrev pub found_unread : Handled (Json N) → Option (List (Value (Json N)) × Bool)
  found_unread (at_once a) = some (act a)
  found_unread (decodes f) = none

  abbrev pub found_json :
      Result (Option (Handler (Json N)) × Call)
      → Option (Json N)
      → Option (List (Value (Json N)) × Bool)
  found_json (err e) args = none
  found_json (ok (none, call)) args = some (by_found none call Exchange.null)
  found_json (ok (some h, call)) none = found_unread (h call)
  found_json (ok (some h, call)) (some args) = some (by_found (some h) call (plain args))

  abbrev pub sent_values : Option (List (Value (Json N)) × Bool) → Option (List (Json N) × Bool)
  sent_values none = none
  sent_values (some (values, closes)) = some (map value_json values, closes)

  abbrev pub is_true : Option (Json N) → Bool
  is_true (some (bool b)) = b
  is_true _ = false

  abbrev pub response : Option (Json N) → Option (Json N) → Json N → JsonResponse N
  response error hijacked reply = record {
    error = error;
    hijacked = hijacked;
    reply = reply;
    closes = not (is_true hijacked);
  }

  -- The fields of the header are read before the reply is decoded.
  abbrev pub take_reply : Option (Json N) → Option (Json N) → Option (Json N) → CallEnd N
  take_reply error hijacked none = waits
  take_reply error hijacked (some reply) = resolves (response error hijacked reply)

  abbrev pub take_fields :
      Result (Option (Json N)) → Result (Option (Json N)) → Option (Json N) → CallEnd N
  take_fields (err e) hijacked reply = rejects e
  take_fields (ok error) (err e) reply = rejects e
  take_fields (ok error) (ok hijacked) reply = take_reply error hijacked reply

  -- `call` of the caller, from its first `decode`
  unfoldable pub take_header : Option (Json N) → Option (Json N) → CallEnd N
  take_header none reply = waits
  take_header (some header) reply =
      take_fields (property (units "Error") header) (property (units "Hijacked") header) reply

module _ {N : Type 0} (numbers : Numbers N) where
  abbrev is_zero : Option (Json N) → Bool
  is_zero (some (number n)) = same (numbers.print n) (units "0")
  is_zero _ = false

  -- `new Call(frame.Destination)`. No other value than a text has both a `length` that is not 0 and
  -- a method `split`.
  abbrev pub construct : Option (Json N) → Result Call
  construct (some (string text)) = new_call text
  construct (some (array no_items)) = err no_destination
  construct (some (object fs)) =
      if is_zero (find (units "length") fs) then err no_destination else err type_error
  construct _ = err type_error

  abbrev pub find_handler :
      List (Text × Handler (Json N)) → Json N → Result (Option (Handler (Json N)) × Call)
  find_handler mux frame = do
    destination ← property (units "Destination") frame
    call ← construct destination
    found ← handler call.destination mux
    ok (found, call)

  -- `Respond`, on the frame that it decodes and the arguments that its handler decodes
  unfoldable pub respond_json :
      List (Text × Handler (Json N)) → Json N → Option (Json N) → Option (List (Json N) × Bool)
  unfolding return_value hijack
  respond_json mux frame args = sent_values (found_json (find_handler mux frame) args)

  -- What `decode` on one side gives for what the other side gave to `encode`. Where the codec throws,
  -- the read loop ends and the promise of `decode` is never resolved.
  abbrev if_decoded : Result (Json N) → Option (Json N)
  if_decoded (err e) = none
  if_decoded (ok v) = some v

  abbrev pub crossed : Json N → Option (Json N)
  crossed v = if_decoded (decode_json numbers (encode_json numbers v))

  -- What the caller makes of the frames that the responder sends, which are two.
  abbrev pub receive_json : Option (List (Json N) × Bool) → CallEnd N
  receive_json (some (header ∷ reply ∷ rest, closes)) = take_header (crossed header) (crossed reply)
  receive_json _ = waits

  abbrev pub framed_json :
      List (Text × Handler (Json N)) → Option (Json N) → Option (Json N) → CallEnd N
  framed_json mux none args = waits
  framed_json mux (some frame) args = receive_json (respond_json mux frame args)

  abbrev pub called_json : List (Text × Handler (Json N)) → Json N → Result Call → CallEnd N
  called_json mux args (err e) = rejects e
  called_json mux args (ok call) = framed_json mux (crossed (call_json call)) (crossed args)

  -- A whole call, from `caller.call(path, args)` to its promise, over the bytes of four frames
  unfoldable pub exchange_json : List (Text × Handler (Json N)) → Text → Json N → CallEnd N
  unfolding respond_json call_json header_json take_header
  exchange_json mux path args = called_json mux args (new_call path)
