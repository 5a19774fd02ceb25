-- ===== src/Util/Concat.antt =====
-- javascript/mux/util.ts: `concat`, a copy of several arrays into one of a given length.
use qtalk.Base.{
  ℕ, ◌+◌, ◌≡◌, refl, sym, List, [], ◌∷◌, ◌++◌, length, append_assoc, arith, length-append, flatten,
}
use qtalk.Base.Throws.{Result, ok, ◌>>=◌}
use qtalk.Bytes.{set_bytes, new_buffer}
use qtalk.Bytes.Laws.{new_buffer-add, set_bytes-append, length-new_buffer}

-- The `forEach`: `offset` is the variable that its callback moves.
concat_from : List (List ℕ) → ℕ → List ℕ → Result (List ℕ)
concat_from [] offset buf = ok buf
concat_from (el ∷ rest) offset buf =
    set_bytes el offset buf >>= concat_from rest (offset + length el)

unfoldable pub concat : List (List ℕ) → ℕ → Result (List ℕ)
unfolding concat_from
concat list total_length = concat_from list 0 (new_buffer total_length)

concat_from-flatten :
    (list : List (List ℕ)) (front : List ℕ) (offset : ℕ)
    → offset ≡ length front
    → concat_from list offset (front ++ new_buffer (length (flatten list)))
      ≡ ok (front ++ flatten list)
unfolding concat_from
concat_from-flatten [] front offset at_front = refl
concat_from-flatten (el ∷ rest) front offset at_front =
    rw (length-append el (flatten rest), new_buffer-add (length el) (length (flatten rest)))
      (rw
        (set_bytes-append front (new_buffer (length el)) (new_buffer (length (flatten rest))) el
          offset at_front (sym (length-new_buffer (length el))))
        (rw (append_assoc front el (flatten rest), append_assoc) at
          (concat_from-flatten rest (front ++ el) (offset + length el)
            (omega (arith, length-append front el)))))

-- With the total length of its arguments `concat` is their concatenation.
pub concat-flatten :
    (list : List (List ℕ)) (n : ℕ) → n ≡ length (flatten list) → concat list n ≡ ok (flatten list)
unfolding concat
concat-flatten list n size = rw size (concat_from-flatten list [] 0 refl)
