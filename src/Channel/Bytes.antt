-- ===== src/Channel/Bytes.antt =====
-- The byte stream of a channel: what arrives, what readers get, and what the window allows.
use qtalk.Base.{
  ℕ, ◌≡◌, refl, ap, Bool, true, List, [], ◌∷◌, ◌++◌, Option, none, some, take, drop, arith,
  append-nil, take-append-drop,
}
use qtalk.Base.Throws.{Result, ok, ◌>>=◌}
use qtalk.Channel.{
  Channel, Reader, Settled, try_read, wake_first, handle_data, remainder, accept_data,
}

-- The bytes that resolved promises carry, in the order of resolution.
abbrev pub delivered : List Settled → List ℕ
delivered [] = []
delivered (s ∷ rest) = elim s.value [ none ↦ delivered rest | some bytes ↦ bytes ++ delivered rest ]

abbrev pub buffered : Option (List ℕ) → List ℕ
buffered none = []
buffered (some buf) = buf

buffered-remainder : (got_eof : Bool) (xs : List ℕ) → buffered (remainder got_eof xs) ≡ xs
buffered-remainder got_eof [] = ground arith
buffered-remainder got_eof (x ∷ xs) = ground arith

-- From a buffer that is there, a reader takes the front.
try_read-buffered :
    (r : Reader) (ch : Channel) (buf : List ℕ)
    → ch.read_buf ≡ some buf
    → delivered (try_read r ch).1 ++ buffered (try_read r ch).0.read_buf ≡ buf
unfolding try_read
try_read-buffered r ch buf e = ground (
  arith,
  append-nil buf,
  append-nil (take r.len buf),
  buffered-remainder ch.got_eof (drop r.len buf),
  take-append-drop r.len buf,
)

-- Once the buffer is `undefined` it stays so, and no reader gets bytes.
try_read-ended :
    (r : Reader) (ch : Channel)
    → ch.read_buf ≡ none
    → ((try_read r ch).0.read_buf ≡ none) × (delivered (try_read r ch).1 ≡ [])
unfolding try_read
try_read-ended r ch e = ground arith

wake_first-buffered :
    (rs : List Reader) (ch : Channel) (buf : List ℕ)
    → ch.read_buf ≡ some buf
    → delivered (wake_first rs ch).1 ++ buffered (wake_first rs ch).0.read_buf ≡ buf
unfolding wake_first
wake_first-buffered [] ch buf e = ap buffered e
wake_first-buffered (r ∷ rs) ch buf e = try_read-buffered r (record ch { readers = rs }) buf e

wake_first-ended :
    (rs : List Reader) (ch : Channel)
    → ch.read_buf ≡ none
    → ((wake_first rs ch).0.read_buf ≡ none) × (delivered (wake_first rs ch).1 ≡ [])
unfolding wake_first
wake_first-ended [] ch e = (e, refl)
wake_first-ended (r ∷ rs) ch e = try_read-ended r (record ch { readers = rs }) e

-- What happens to a channel between its opening and its shutdown, as far as its bytes go.
pub data Event : Type 0 where
  reads : Reader → Event
  receives : ℕ → List ℕ → Event
  ends : Event

unfoldable pub step : Event → Channel → Result (Channel × List Settled)
unfolding handle_data try_read
step (reads r) ch = ok (try_read r ch)
step (receives len bytes) ch = handle_data len bytes ch
step ends ch = ok (record ch { got_eof = true }, [])

unfoldable pub run : List Event → Channel → Result (Channel × List Settled)
run [] ch = ok (ch, [])
run (e ∷ es) ch = do (ch', first) ← step e ch; (ch'', rest) ← run es ch'; ok (ch'', first ++ rest)

abbrev pub arrived_at : Event → List ℕ
arrived_at (reads r) = []
arrived_at (receives len bytes) = bytes
arrived_at ends = []

abbrev pub arrived : List Event → List ℕ
arrived [] = []
arrived (e ∷ es) = arrived_at e ++ arrived es

pub step-buffered :
    (e : Event) (ch ch' : Channel) (out : List Settled) (buf : List ℕ)
    → ch.read_buf ≡ some buf
    → step e ch ≡ ok (ch', out)
    → delivered out ++ buffered ch'.read_buf ≡ buf ++ arrived_at e
unfolding step
step-buffered (reads r) ch ch' out buf has done =
    ground (arith, append-nil buf, try_read-buffered r ch buf has)
step-buffered (receives len bytes) ch ch' out buf has done =
    ground (arith, wake_first-buffered ch.readers (accept_data len bytes ch) (buf ++ bytes))
step-buffered ends ch ch' out buf has done = ground (arith, append-nil buf)

pub step-ended :
    (e : Event) (ch ch' : Channel) (out : List Settled)
    → ch.read_buf ≡ none
    → step e ch ≡ ok (ch', out)
    → (ch'.read_buf ≡ none) × (delivered out ≡ [])
unfolding step
step-ended (reads r) ch ch' out gone done = ground (arith, try_read-ended r ch)
step-ended (receives len bytes) ch ch' out gone done =
    ground (arith, wake_first-ended ch.readers (accept_data len bytes ch))
step-ended ends ch ch' out gone done = ground arith
