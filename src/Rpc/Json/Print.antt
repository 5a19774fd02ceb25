-- ===== src/Rpc/Json/Print.antt =====
-- `JSON.stringify(v)`: the text of a value, with lone surrogates escaped.
use qtalk.Base.{
  ℕ, ◌+◌, ◌/◌, ◌%◌, Bool, true, false, not, ◌&&◌, ◌||◌, [], ◌∷◌, ◌++◌, Option, none, some, ltb,
  ◌==◌, if◌then◌else◌,
}
use qtalk.Rpc.Text.{Text, units}
use qtalk.Rpc.Utf8.{is_high, is_low}
use qtalk.Rpc.Json.{
  Numbers, Json, Items, Fields, null, bool, number, string, array, object, no_items, item,
  no_fields, field,
}

abbrev pub hex_digit : ℕ → ℕ
hex_digit n = if ltb n 10 then b'0' + n else 87 + n

abbrev pub hex : ℕ → Text
hex c =
    hex_digit (c / 0x1000)
    ∷ hex_digit (c / 0x100 % 16)
    ∷ hex_digit (c / 16 % 16)
    ∷ hex_digit (c % 16)
    ∷ []

abbrev pub starts_low : Text → Bool
starts_low [] = false
starts_low (c ∷ text) = is_low c

-- Whether a unit is a surrogate without its other half; the flag says that a high one stands before it.
abbrev pub is_lone : Bool → ℕ → Text → Bool
is_lone after c rest = (is_high c && not (starts_low rest)) || (is_low c && not after)

-- The letter behind the backslash, where there is a short escape
abbrev pub short_escape : ℕ → Option ℕ
short_escape c =
    if c == b'"' || c == b'\\'
    then some c
    else if c == 8
    then some b'b'
    else if c == 9
    then some b't'
    else if c == 10
    then some b'n'
    else if c == 12
    then some b'f'
    else if c == 13
    then some b'r'
    else none

abbrev pub escape : Option ℕ → Bool → ℕ → Text
escape (some d) lone c = b'\\' ∷ d ∷ []
escape none lone c = if ltb c 32 || lone then b'\\' ∷ b'u' ∷ hex c else c ∷ []

abbrev pub unit_text : Bool → ℕ → Text
unit_text lone c = escape (short_escape c) lone c

-- The rest of a quoted text, behind a high surrogate whose low one comes next if the flag is set
unfoldable pub quoted : Bool → Text → Text
quoted after [] = b'"' ∷ []
quoted after (c ∷ text) =
    unit_text (is_lone after c text) c ++ quoted (is_high c && starts_low text) text

abbrev pub quote : Text → Text
quote text = b'"' ∷ quoted false text

abbrev pub comma : Bool → Text
comma true = []
comma false = b',' ∷ []

abbrev pub word : Bool → Text
word true = units "true"
word false = units "false"

module _ {N : Type 0} (numbers : Numbers N) where
  unfoldable mutual
    unfolding quoted

    pub stringify : Json N → Text
    stringify null = units "null"
    stringify (bool b) = word b
    stringify (number n) = numbers.print n
    stringify (string text) = quote text
    stringify (array items) = b'[' ∷ stringify_items true items
    stringify (object fs) = b'{' ∷ stringify_fields true fs

    pub stringify_items : Bool → Items N → Text
    stringify_items first no_items = b']' ∷ []
    stringify_items first (item v items) =
        comma first ++ (stringify v ++ stringify_items false items)

    pub stringify_fields : Bool → Fields N → Text
    stringify_fields first no_fields = b'}' ∷ []
    stringify_fields first (field k v fs) =
        comma first ++ (quote k ++ (b':' ∷ (stringify v ++ stringify_fields false fs)))
