-- ===== src/Rpc/Json.antt =====
-- `JSON.stringify` and `JSON.parse`, which `JSONCodec` of javascript/rpc/codec.ts calls: the values and
-- the grammar of numbers. Numbers and their conversions from and to text are a parameter.
pub mod Numerals
pub mod Print
pub mod Parse
pub mod Strings
pub mod Proper
pub mod Steps
pub mod RoundTrip
pub mod Paired
pub mod Codec
use qtalk.Base.{ℕ, Bool, true, false, ◌&&◌, ◌||◌, ◌≡◌, List, [], ◌∷◌, leb, ◌==◌, if◌then◌else◌}
use qtalk.Rpc.Text.{Text}

abbrev pub is_digit : ℕ → Bool
is_digit c = leb b'0' c && leb c b'9'

abbrev pub is_e : ℕ → Bool
is_e c = c == b'e' || c == b'E'

abbrev pub is_sign : ℕ → Bool
is_sign c = c == b'+' || c == b'-'

abbrev pub is_number_start : ℕ → Bool
is_number_start c = is_digit c || c == b'-'

abbrev pub is_number_char : ℕ → Bool
is_number_char c = is_digit c || (is_e c || (is_sign c || c == b'.'))

-- The text is a number of the grammar of JSON, read from the end of the grammar to its start.
unfoldable pub exponent_digits : Text → Bool
exponent_digits [] = true
exponent_digits (c ∷ text) = is_digit c && exponent_digits text

unfoldable pub exponent_first : Text → Bool
unfolding exponent_digits
exponent_first [] = false
exponent_first (c ∷ text) = is_digit c && exponent_digits text

unfoldable pub exponent : Text → Bool
unfolding exponent_first
exponent [] = false
exponent (c ∷ text) = if is_sign c then exponent_first text else is_digit c && exponent_digits text

unfoldable pub fraction_digits : Text → Bool
unfolding exponent
fraction_digits [] = true
fraction_digits (c ∷ text) = if is_e c then exponent text else is_digit c && fraction_digits text

unfoldable pub fraction : Text → Bool
unfolding fraction_digits
fraction [] = false
fraction (c ∷ text) = is_digit c && fraction_digits text

unfoldable pub after_digits : Text → Bool
unfolding fraction exponent
after_digits [] = true
after_digits (c ∷ text) =
    if c == b'.' then fraction text else if is_e c then exponent text else false

unfoldable pub digits : Text → Bool
unfolding after_digits
digits [] = true
digits (c ∷ text) = if is_digit c then digits text else after_digits (c ∷ text)

unfoldable pub unsigned : Text → Bool
unfolding digits
unsigned [] = false
unsigned (c ∷ text) = if c == b'0' then after_digits text else is_digit c && digits text

unfoldable pub is_numeral : Text → Bool
unfolding unsigned
is_numeral [] = false
is_numeral (c ∷ text) = if c == b'-' then unsigned text else unsigned (c ∷ text)

-- The finite numbers but -0, with `String(n)` and `Number(text)`.
pub record Numbers (N : Type 0) : Type 0 where
  pub print : N → Text
  pub read : Text → N
  pub read-print : (n : N) → read (print n) ≡ n
  pub print-numeral : (n : N) → is_numeral (print n) ≡ true

-- `Items` and `Fields` are the lists inside an array and an object; the fields are in the order of the
-- object's own properties.
mutual
  pub data Json (N : Type 0) : Type 0 where
    null : Json N
    bool : Bool → Json N
    number : N → Json N
    string : Text → Json N
    array : Items N → Json N
    object : Fields N → Json N

  pub data Items (N : Type 0) : Type 0 where
    no_items : Items N
    item : Json N → Items N → Items N

  pub data Fields (N : Type 0) : Type 0 where
    no_fields : Fields N
    field : Text → Json N → Fields N → Fields N

module _ {N : Type 0} where
  abbrev pub items_of : List (Json N) → Items N
  items_of [] = no_items
  items_of (v ∷ vs) = item v (items_of vs)

  abbrev pub fields_of : List (Text × Json N) → Fields N
  fields_of [] = no_fields
  fields_of ((k, v) ∷ es) = field k v (fields_of es)
