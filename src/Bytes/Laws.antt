-- ===== src/Bytes/Laws.antt =====
-- What a buffer holds after a write, and what is read back.
use Prim.Native.Nat.add
use qtalk.Base.{
  ℕ, zero, suc, ◌+◌, ◌≤◌, ◌<◌, ◌≡◌, refl, ap, ◌∙◌, List, [], ◌∷◌, ◌++◌, length, drop, append_assoc,
  arith, drop-append, take-append, length-append, length-drop,
}
use qtalk.Base.Throws.{ok, err, range_error}
use qtalk.Bytes.{set_bytes, first_u32, get_uint32, new_buffer}

pub length-new_buffer : (n : ℕ) → length (new_buffer n) ≡ n
length-new_buffer zero = refl
length-new_buffer (suc n) = ap suc (length-new_buffer n)

pub drop_all {ℓ} : {A : Type ℓ} (xs : List A) (n : ℕ) → length xs ≤ n → drop n xs ≡ []
drop_all [] zero h = refl
drop_all [] (suc n) h = refl
drop_all (x ∷ xs) zero h = absurd (omega arith)
drop_all (x ∷ xs) (suc n) h = drop_all xs n (omega arith)

drop-drop :
    (front old back : List ℕ) (n : ℕ)
    → n ≡ length front + length old
    → drop n (front ++ (old ++ back)) ≡ back
drop-drop front old back n h =
    rw (← append_assoc front old back)
      (drop-append (front ++ old) back n (omega (arith, length-append front old)))

pub new_buffer-add : (m n : ℕ) → new_buffer (m + n) ≡ new_buffer m ++ new_buffer n
new_buffer-add zero n = ap new_buffer (add.zero n)
new_buffer-add (suc m) n = ap new_buffer (add.suc m n) ∙ ap (◌∷◌ 0) (new_buffer-add m n)

pub set_bytes-append :
    (front old back src : List ℕ) (offset : ℕ)
    → offset ≡ length front
    → length src ≡ length old
    → set_bytes src offset (front ++ (old ++ back)) ≡ ok (front ++ (src ++ back))
unfolding set_bytes
set_bytes-append front old back src offset at_front same = ground (
  arith,
  take-append front (old ++ back) offset,
  drop-drop front old back (offset + length src),
  length-append front (old ++ back),
  length-append old back,
)

-- A write that does not fit throws.
pub set_bytes_overrun :
    (src buf : List ℕ) (offset : ℕ)
    → length buf < offset + length src
    → set_bytes src offset buf ≡ err range_error
unfolding set_bytes
set_bytes_overrun src buf offset h = ground arith

first_u32-short : (xs : List ℕ) → length xs < 4 → first_u32 xs ≡ err range_error
first_u32-short [] h = refl
first_u32-short (a ∷ []) h = refl
first_u32-short (a ∷ b ∷ []) h = refl
first_u32-short (a ∷ b ∷ c ∷ []) h = refl
first_u32-short (a ∷ b ∷ c ∷ d ∷ rest) h = absurd (omega arith)

pub get_uint32-short :
    (buf : List ℕ) (offset : ℕ) → length buf < offset + 4 → get_uint32 buf offset ≡ err range_error
unfolding get_uint32
get_uint32-short buf offset h =
    first_u32-short (drop offset buf) (omega (arith, length-drop offset buf))
