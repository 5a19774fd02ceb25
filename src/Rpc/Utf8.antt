-- ===== src/Rpc/Utf8.antt =====
-- `TextEncoder` and `TextDecoder("utf-8")`, which `JSONCodec` of javascript/rpc/codec.ts calls, on texts
-- of UTF-16 code units and lists of bytes, as the encoding standard gives them.
pub mod RoundTrip
use qtalk.Base.{
  ℕ, zero, suc, ◌+◌, ◌-◌, ◌*◌, ◌/◌, ◌%◌, ◌<◌, ◌≡◌, Bool, true, false, not, ◌&&◌, ◌||◌, List, [],
  ◌∷◌, ◌++◌, Option, none, some, ltb, leb, ◌==◌, if◌then◌else◌,
}
use qtalk.Rpc.Text.{Text}

abbrev pub is_high : ℕ → Bool
is_high c = leb 0xD800 c && ltb c 0xDC00

abbrev pub is_low : ℕ → Bool
is_low c = leb 0xDC00 c && ltb c 0xE000

-- A text in which a low surrogate stands behind each high one and nowhere else; the flag says that a
-- high one stands before it.
abbrev pub IsPaired : Bool → Text → Type 0
IsPaired after [] = after ≡ false
IsPaired after (c ∷ text) = (c < 0x10000) × (is_low c ≡ after) × IsPaired (is_high c) text

abbrev pub replacement : ℕ
replacement = 0xFFFD

abbrev pub code_point : ℕ → ℕ → ℕ
code_point high low = 0x10000 + (high - 0xD800) * 0x400 + (low - 0xDC00)

-- The bytes of a code point
unfoldable pub scalar : ℕ → List ℕ
scalar cp =
    if ltb cp 0x80
    then cp ∷ []
    else if ltb cp 0x800
    then (0xC0 + cp / 0x40) ∷ (0x80 + cp % 0x40) ∷ []
    else if ltb cp 0x10000
    then (0xE0 + cp / 0x1000) ∷ (0x80 + cp / 0x40 % 0x40) ∷ (0x80 + cp % 0x40) ∷ []
    else (0xF0 + cp / 0x40000)
      ∷ (0x80 + cp / 0x1000 % 0x40)
      ∷ (0x80 + cp / 0x40 % 0x40)
      ∷ (0x80 + cp % 0x40)
      ∷ []

-- A unit that no high surrogate precedes: its bytes, and what waits for the next unit.
abbrev pub first_unit : ℕ → List ℕ × Option ℕ
first_unit c =
    if is_high c
    then ([], some c)
    else if is_low c
    then (scalar replacement, none)
    else (scalar c, none)

abbrev pub next_unit : Option ℕ → ℕ → List ℕ × Option ℕ
next_unit none c = first_unit c
next_unit (some high) c =
    if is_low c
    then (scalar (code_point high c), none)
    else (scalar replacement ++ (first_unit c).0, (first_unit c).1)

unfoldable pub encode_from : Option ℕ → Text → List ℕ
unfolding scalar
encode_from none [] = []
encode_from (some high) [] = scalar replacement
encode_from pending (c ∷ text) = (next_unit pending c).0 ++ encode_from (next_unit pending c).1 text

-- `TextEncoder.encode`
unfoldable pub encode_text : Text → List ℕ
unfolding encode_from
encode_text text = encode_from none text

-- The decoder: how many bytes are missing, what they are in addition to, and the range of the next.
pub record Decoder : Type 0 where
  pub needed : ℕ
  pub cp : ℕ
  pub lower : ℕ
  pub upper : ℕ

abbrev pub started : Decoder
started = record { needed = 0; cp = 0; lower = 0x80; upper = 0xBF }

abbrev pub units_of : ℕ → Text
units_of cp =
    if ltb cp 0x10000
    then cp ∷ []
    else (0xD800 + (cp - 0x10000) / 0x400) ∷ (0xDC00 + (cp - 0x10000) % 0x400) ∷ []

abbrev pub first_byte : ℕ → Text × Decoder
first_byte b =
    if ltb b 0x80
    then (b ∷ [], started)
    else if leb 0xC2 b && leb b 0xDF
    then ([], record started { needed = 1; cp = b - 0xC0 })
    else if leb 0xE0 b && leb b 0xEF
    then (
      [],
      record {
        needed = 2;
        cp = b - 0xE0;
        lower = if b == 0xE0 then 0xA0 else 0x80;
        upper = if b == 0xED then 0x9F else 0xBF;
      },
    )
    else if leb 0xF0 b && leb b 0xF4
    then (
      [],
      record {
        needed = 3;
        cp = b - 0xF0;
        lower = if b == 0xF0 then 0x90 else 0x80;
        upper = if b == 0xF4 then 0x8F else 0xBF;
      },
    )
    else (replacement ∷ [], started)

-- A byte that continues a code point, with the number that are missing then
abbrev pub continued : ℕ → ℕ → Text × Decoder
continued zero cp = (units_of cp, started)
continued (suc n) cp = ([], record started { needed = suc n; cp = cp })

-- A byte out of range ends the code point with an error, and is read again.
abbrev pub again : Text × Decoder → Text × Decoder
again (text, d) = (replacement ∷ text, d)

abbrev pub next_byte : ℕ → Decoder → ℕ → Text × Decoder
next_byte zero d b = first_byte b
next_byte (suc n) d b =
    if leb d.lower b && leb b d.upper
    then continued n (d.cp * 0x40 + (b - 0x80))
    else again (first_byte b)

abbrev at_end : ℕ → Text
at_end zero = []
at_end (suc n) = replacement ∷ []

unfoldable pub decode_from : Decoder → List ℕ → Text
decode_from d [] = at_end d.needed
decode_from d (b ∷ bytes) =
    (next_byte d.needed d b).0 ++ decode_from (next_byte d.needed d b).1 bytes

abbrev pub without_mark : Text → Text
without_mark [] = []
without_mark (c ∷ text) = if c == 0xFEFF then text else c ∷ text

-- `TextDecoder.decode`, which takes a byte order mark off the front
unfoldable pub decode_text : List ℕ → Text
unfolding decode_from
decode_text bytes = without_mark (decode_from started bytes)
