-- ===== src/Tests/JsonRuns.antt =====
-- Runs of the JSON codec of javascript/rpc, with two numbers.
use qtalk.Base.{List, ◌≡◌, refl, Bool, true, false, [], ◌∷◌, ◌++◌, arith, none, some}
use qtalk.Base.Throws.{ok, err, syntax_error}
use qtalk.Rpc.Text.{Text, units}
use qtalk.Rpc.Utf8.{encode_text, decode_text}
use qtalk.Rpc.Json.{
  Numbers, Json, bool, number, string, array, object, no_items, item, no_fields, field, is_numeral,
}
use qtalk.Rpc.Json.Print.{stringify}
use qtalk.Rpc.Json.Parse.{parse}
use qtalk.Rpc.Json.Proper.{IsProper}
use qtalk.Rpc.Exchange.{
  Value, Action, plain, returns, given, error_given, decodes, Handler, exchange,
}
use qtalk.Rpc.Call.{new_call}
use qtalk.Rpc.Mux.{handler}
use qtalk.Rpc.Wire.{exchange_json, respond_json, resolves}
use qtalk.Rpc.Wire.Refines.{AreProperHandlers, ending_of, exchange_json-exchange}
use qtalk.Rpc.Json.Codec.{encode_json, decode_json, decode_json-encode_json}

abbrev pub print_bit : Bool → Text
print_bit true = units "1"
print_bit false = units "-2.5e+3"

abbrev pub read_bit : Text → Bool
read_bit [] = false
read_bit (c ∷ []) = true
read_bit (c ∷ d ∷ text) = false

pub read_bit-print_bit : (b : Bool) → read_bit (print_bit b) ≡ b
read_bit-print_bit true = refl
read_bit-print_bit false = refl

pub print_bit-numeral : (b : Bool) → is_numeral (print_bit b) ≡ true
unfolding is_numeral
print_bit-numeral true = refl
print_bit-numeral false = refl

abbrev pub bits : Numbers Bool
bits = record {
  print = print_bit;
  read = read_bit;
  read-print = read_bit-print_bit;
  print-numeral = print_bit-numeral;
}

-- A text with a quote, a line feed, a pair of surrogates and a lone one.
abbrev pub odd_text : Text
odd_text = b'"' ∷ 10 ∷ 0xD83D ∷ 0xDE00 ∷ 0xD800 ∷ []

abbrev sample : Json Bool
sample = object (
    field (units "1") (array (item (number true) (item (number false) no_items)))
      (field odd_text (string odd_text) (field (units "b") (array no_items) no_fields)))

decode_json-encode_json_example : decode_json bits (encode_json bits sample) ≡ ok sample
unfolding IsProper
decode_json-encode_json_example = decode_json-encode_json bits sample (ground arith)

printed_text :
    stringify bits (string odd_text) ≡ units "\"\\\"\\n" ++ (0xD83D ∷ 0xDE00 ∷ units "\\ud800\"")
unfolding stringify
printed_text = refl

-- Spaces, escapes, a key that is repeated, and an array index behind another key.
parsed :
    parse bits (units " { \"b\" : [ ] , \"7\" : true, \"b\":\"\\u0041\\/\" } ")
    ≡ ok
        (object (field (units "7") (bool true) (field (units "b") (string (units "A/")) no_fields)))
unfolding parse
parsed = refl

refused : parse bits (units "[1,]") ≡ err syntax_error
unfolding parse
refused = refl

leading_zero : parse bits (units "01") ≡ err syntax_error
unfolding parse
leading_zero = refl

-- A byte order mark is taken off, and a byte that starts nothing is replaced.
marked : decode_text (0xEF ∷ 0xBB ∷ 0xBF ∷ b'a' ∷ 0xFF ∷ []) ≡ b'a' ∷ 0xFFFD ∷ []
unfolding decode_text
marked = refl

-- A lone surrogate is replaced.
replaced : encode_text (0xDC00 ∷ b'a' ∷ []) ≡ 0xEF ∷ 0xBF ∷ 0xBD ∷ b'a' ∷ []
unfolding encode_text
replaced = refl

-- A handler that gives its arguments back in an array, for any path that starts so
abbrev pub echoes : List (Text × Handler (Json Bool))
echoes = (units "obj", echo) ∷ []
  where
    echo : Handler (Json Bool)
    echo call = decodes answer
      where
        answer : Value (Json Bool) → Action (Json Bool)
        answer (plain v) = returns (given (array (item v no_items)))
        answer args = returns (error_given (units "no"))

echoes-AreProperHandlers : AreProperHandlers echoes
unfolding IsProper
echoes-AreProperHandlers = ((λ call args proper. (proper, tt)), tt)

exchange_json-exchange_example :
    exchange_json bits echoes (units "/obj/echo") (string odd_text)
    ≡ ending_of (exchange echoes (units "/obj/echo") (string odd_text))
unfolding IsProper
exchange_json-exchange_example =
    exchange_json-exchange bits echoes (units "/obj/echo") (string odd_text)
      echoes-AreProperHandlers (omega arith) (omega arith)

-- The same call, by its bytes
echoed :
    exchange_json bits echoes (units "/obj/echo") (bool true)
    ≡ resolves (record {
      error = none;
      hijacked = some (bool false);
      reply = array (item (bool true) no_items);
      closes = true;
    })
unfolding exchange_json new_call decode_json parse encode_json stringify handler
echoed = refl

-- A frame whose `Destination` is no text is answered by nothing.
undestined : respond_json bits echoes (object no_fields) (some (bool true)) ≡ none
unfolding respond_json
undestined = refl
