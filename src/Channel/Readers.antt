-- ===== src/Channel/Readers.antt =====
-- Which reads are answered: promptly with one read at a time, and not at the end of a stream or
-- behind a longer read.
use qtalk.Base.{
  ℕ, ◌≤◌, ◌<◌, ◌≡◌, refl, true, List, [], ◌∷◌, ◌++◌, Option, none, some, length, arith,
}
use qtalk.Base.Throws.{ok}
use qtalk.Channel.{Channel, Reader, Settled, try_read, handle_data, accept_data}
use qtalk.Channel.Bytes.{Event, reads, receives, ends, step, run}

-- At most one read waits, and only for more bytes than are buffered.
abbrev pub Waits : List Reader → Option (List ℕ) → Type 0
Waits [] b = Unit {0}
Waits (r ∷ []) none = ⊥
Waits (r ∷ []) (some buf) = length buf < r.len
Waits (r ∷ r' ∷ rs) b = ⊥

abbrev pub IsPrompt : Channel → Type 0
IsPrompt ch = Waits ch.readers ch.read_buf

-- A read is called only when none waits.
abbrev pub Sequential : Event → Channel → Type 0
Sequential (reads r) ch = ch.readers ≡ []
Sequential (receives len bytes) ch = Unit {0}
Sequential ends ch = Unit {0}

try_read-IsPrompt : (r : Reader) (ch : Channel) → ch.readers ≡ [] → IsPrompt (try_read r ch).0
unfolding try_read
try_read-IsPrompt r ch alone = ground arith

handle_data-IsPrompt :
    (rs : List Reader) (ch ch' : Channel) (len : ℕ) (bytes : List ℕ) (out : List Settled)
    → ch.readers ≡ rs
    → Waits rs ch.read_buf
    → handle_data len bytes ch ≡ ok (ch', out)
    → IsPrompt ch'
handle_data-IsPrompt [] ch ch' len bytes out e w done = unfold handle_data in ground arith
handle_data-IsPrompt (r ∷ []) ch ch' len bytes out e w done =
    unfold handle_data in
    ground (arith, try_read-IsPrompt r (record (accept_data len bytes ch) { readers = [] }))
handle_data-IsPrompt (r ∷ r' ∷ rs) ch ch' len bytes out e w done = absurd w

-- With one read at a time, no event leaves a read waiting while its bytes are there.
pub step-IsPrompt :
    (e : Event) (ch ch' : Channel) (out : List Settled)
    → IsPrompt ch
    → Sequential e ch
    → step e ch ≡ ok (ch', out)
    → IsPrompt ch'
step-IsPrompt (reads r) ch ch' out w alone done =
    unfold step in ground (arith, try_read-IsPrompt r ch alone)
step-IsPrompt (receives len bytes) ch ch' out w alone done =
    handle_data-IsPrompt ch.readers ch ch' len bytes out refl w (unfold step in done)
step-IsPrompt ends ch ch' out w alone done = unfold step in ground arith

-- Where a longer read waits in front, data that would serve those behind it wakes none of them:
-- the first goes to the end of the line and nothing is delivered.
pub handle_data_stalls :
    (ch : Channel) (r : Reader) (rs : List Reader) (len : ℕ) (bytes buf : List ℕ)
    → ch.readers ≡ r ∷ rs
    → ch.read_buf ≡ some buf
    → len ≤ ch.max_incoming_payload
    → len ≤ ch.my_window
    → length (buf ++ bytes) < r.len
    → handle_data len bytes ch
      ≡ ok (record (accept_data len bytes ch) { readers = rs ++ r ∷ [] }, [])
unfolding handle_data
handle_data_stalls ch r rs len bytes buf line has small fits long = ground arith

-- A read for more than is buffered is queued, not answered, whether it is called after the end of
-- the stream or before it: `gotEOF` is set, no promise is resolved, and the buffer stays.
pub ends_strands :
    (ch : Channel) (r : Reader) (buf : List ℕ)
    → ch.read_buf ≡ some buf
    → length buf < r.len
    → (run (ends ∷ reads r ∷ []) ch
        ≡ ok (record ch { got_eof = true; readers = ch.readers ++ r ∷ [] }, []))
      × (run (reads r ∷ ends ∷ []) ch
          ≡ ok (record ch { got_eof = true; readers = ch.readers ++ r ∷ [] }, []))
unfolding run step
ends_strands ch r buf has short = ground arith
