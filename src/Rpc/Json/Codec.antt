-- ===== src/Rpc/Json/Codec.antt =====
-- javascript/rpc/codec.ts: `JSONCodec`, which fills the interface `Codec` of the frame codec.
use qtalk.Base.{ℕ, ◌<◌, ◌≡◌, refl, ap, ◌∙◌, false, List, [], ◌∷◌, length, All, arith, append-nil}
use qtalk.Base.Throws.{Result, ok, err, syntax_error}
use qtalk.Bytes.{IsByte}
use qtalk.Rpc.Text.{Text}
use qtalk.Rpc.Utf8.{IsPaired, encode_text, decode_text, without_mark}
use qtalk.Rpc.Utf8.RoundTrip.{decode_text-encode_text, encode_text_bytes, encode_text_some}
use qtalk.Rpc.Json.{Numbers, Json}
use qtalk.Rpc.Json.Print.{stringify}
use qtalk.Rpc.Json.Parse.{parse}
use qtalk.Rpc.Json.Proper.{IsProper}
use qtalk.Rpc.Json.RoundTrip.{parse-stringify}
use qtalk.Rpc.Json.Paired.{stringify-IsPaired, stringify_start}
use qtalk.Rpc.Frame.{Codec}

unmarked : (c : ℕ) (text : Text) → c < 0x80 → without_mark (c ∷ text) ≡ c ∷ text
unmarked c text small = ground arith

module _ {N : Type 0} (numbers : Numbers N) where
  -- `JSONCodec.encode`
  unfoldable pub encode_json : Json N → List ℕ
  unfolding encode_text
  encode_json v = encode_text (stringify numbers v)

  -- `JSONCodec.decode`
  unfoldable pub decode_json : List ℕ → Result (Json N)
  unfolding decode_text
  decode_json buf = parse numbers (decode_text buf)

  paired : (v : Json N) → IsProper v → IsPaired false (stringify numbers v)
  paired v proper = rw append-nil at (stringify-IsPaired numbers v [] proper refl)

  -- What the codec encodes it decodes again, if the texts in the value are lists of code units, whatever
  -- surrogates they hold, and its objects have the order that objects have.
  pub decode_json-encode_json : (v : Json N) → IsProper v → decode_json (encode_json v) ≡ ok v
  unfolding decode_json encode_json
  decode_json-encode_json v proper =
      let (c, text, starts, small) = stringify_start numbers v in
      ap (parse numbers) (
        decode_text-encode_text (stringify numbers v) (paired v proper)
          (rw starts (unmarked c text small)))
      ∙ parse-stringify numbers v proper

  pub encode_json_bytes : (v : Json N) → IsProper v → All IsByte (encode_json v)
  unfolding encode_json
  encode_json_bytes v proper = encode_text_bytes (stringify numbers v) (paired v proper)

  pub encode_json_some : (v : Json N) → IsProper v → 0 < length (encode_json v)
  unfolding encode_json
  encode_json_some v proper =
      let (c, text, starts, small) = stringify_start numbers v in
      rw starts (encode_text_some c text small)

  -- The empty text, which stands for `undefined`, is no JSON.
  pub decode_json_nil : decode_json [] ≡ err syntax_error
  unfolding decode_json decode_text parse
  decode_json_nil = refl

  abbrev pub json_codec : Codec (Json N)
  json_codec = record {
    encode = encode_json;
    decode = decode_json;
    IsValue = IsProper;
    decode-encode = decode_json-encode_json;
    encode_bytes = encode_json_bytes;
    encode_some = encode_json_some;
  }
