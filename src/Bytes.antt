-- ===== src/Bytes.antt =====
-- Uint8Array and DataView as the codecs use them: a buffer is a list of bytes, a write or a read
-- past its end is a RangeError, and 32-bit numbers are big-endian.
pub mod Laws
use qtalk.Base.{
  ℕ, ◌+◌, ◌*◌, ◌/◌, ◌%◌, ◌^◌, ◌<◌, List, [], ◌∷◌, ◌++◌, Option, none, some, length, set, take, drop,
  replicate, get_elem?, leb, ltb, if◌then◌else◌,
}
use qtalk.Base.Throws.{Result, ok, err, range_error}

abbrev pub IsByte : ℕ → Type 0
IsByte b = b < 256

abbrev pub IsU32 : ℕ → Type 0
IsU32 v = v < 2 ^ 32

-- `new Uint8Array(n)`, `new ArrayBuffer(n)`
abbrev pub new_buffer : ℕ → List ℕ
new_buffer n = replicate n 0

-- The four bytes of a number, most significant first; `setUint32` takes it modulo 2 ^ 32.
abbrev pub u32_bytes : ℕ → List ℕ
u32_bytes v = v / 2 ^ 24 % 256 ∷ v / 2 ^ 16 % 256 ∷ v / 2 ^ 8 % 256 ∷ v % 256 ∷ []

abbrev pub u32_of : ℕ → ℕ → ℕ → ℕ → ℕ
u32_of a b c d = a * 2 ^ 24 + b * 2 ^ 16 + c * 2 ^ 8 + d

-- `view.setUint8(offset, v)`
unfoldable pub set_uint8 : ℕ → ℕ → List ℕ → Result (List ℕ)
set_uint8 offset v buf =
    if ltb offset (length buf) then ok (set buf offset (v % 256)) else err range_error

-- `buf.set(src, offset)` of a Uint8Array
unfoldable pub set_bytes : List ℕ → ℕ → List ℕ → Result (List ℕ)
set_bytes src offset buf =
    if leb (offset + length src) (length buf)
    then ok (take offset buf ++ (src ++ drop (offset + length src) buf))
    else err range_error

-- `view.setUint32(offset, v)`
unfoldable pub set_uint32 : ℕ → ℕ → List ℕ → Result (List ℕ)
unfolding set_bytes
set_uint32 offset v buf = set_bytes (u32_bytes v) offset buf

abbrev first_u32 : List ℕ → Result ℕ
first_u32 (a ∷ b ∷ c ∷ d ∷ rest) = ok (u32_of a b c d)
first_u32 _ = err range_error

-- `view.getUint32(offset)`
unfoldable pub get_uint32 : List ℕ → ℕ → Result ℕ
get_uint32 buf offset = first_u32 (drop offset buf)
