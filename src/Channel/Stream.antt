-- ===== src/Channel/Stream.antt =====
-- The byte stream of a channel over a whole history of reads and arrivals.
use qtalk.Base.{
  ℕ, ◌+◌, ◌≤◌, ◌<◌, ◌≡◌, refl, List, [], ◌∷◌, ◌++◌, none, some, arith, append-nil, append_assoc,
  inl, inr, Option-cases,
}
use qtalk.Base.Throws.{ok, err, >>=-eq-ok, wrote_too_much}
use qtalk.Channel.{Channel, Reader, Settled, try_read, wake_first, handle_data, accept_data}
use qtalk.Channel.Bytes.{
  delivered, buffered, Event, reads, receives, ends, step, run, arrived, arrived_at, step-buffered,
  step-ended,
}

delivered-append : (xs ys : List Settled) → delivered (xs ++ ys) ≡ delivered xs ++ delivered ys
delivered-append [] ys = refl
delivered-append (x ∷ xs) ys =
    ground
      (arith, delivered-append xs ys, append_assoc (buffered x.value) (delivered xs) (delivered ys))

run_inversion :
    (e : Event) (es : List Event) (ch ch' : Channel) (out : List Settled)
    → run (e ∷ es) ch ≡ ok (ch', out)
    → (mid : Channel) × (first : List Settled) × (rest : List Settled) × (step e ch
        ≡ ok (mid, first))
      × (run es mid ≡ ok (ch', rest))
      × (out ≡ first ++ rest)
unfolding run
run_inversion e es ch ch' out done =
    let ((mid, first), at_step, later) = >>=-eq-ok (step e ch) _ done in
    let ((last, rest), at_run, final) = >>=-eq-ok (run es mid) _ later in
    (mid, first, rest, at_step, ground arith, ground arith)

run-ended :
    (es : List Event) (ch ch' : Channel) (out : List Settled)
    → ch.read_buf ≡ none
    → run es ch ≡ ok (ch', out)
    → ch'.read_buf ≡ none
run-ended [] ch ch' out gone done = unfold run in ground arith
run-ended (e ∷ es) ch ch' out gone done =
    let (mid, first, rest, at_step, later, _) = run_inversion e es ch ch' out done in
    run-ended es mid ch' rest (step-ended e ch mid first gone at_step).0 later

-- No byte is lost, repeated or reordered: as long as the buffer is there, what the readers were
-- given, in the order in which their promises were resolved, and then what is buffered, are the
-- bytes that were buffered at first and then those that arrived.
pub run-buffered :
    (es : List Event) (ch ch' : Channel) (out : List Settled) (buf buf' : List ℕ)
    → ch.read_buf ≡ some buf
    → run es ch ≡ ok (ch', out)
    → ch'.read_buf ≡ some buf'
    → delivered out ++ buf' ≡ buf ++ arrived es
run-buffered [] ch ch' out buf buf' has done has' = unfold run in ground (arith, append-nil buf)
run-buffered (e ∷ es) ch ch' out buf buf' has done has' =
    let (mid, first, rest, at_step, later, whole) = run_inversion e es ch ch' out done in
    let here = step-buffered e ch mid first buf has at_step in
    elim (Option-cases mid.read_buf) [
      | inl gone ↦ cc (run-ended es mid ch' rest gone later)
      | inr (buf1, kept) ↦ ground (
        arith,
        delivered-append first rest,
        append_assoc (delivered first) (delivered rest) buf',
        run-buffered es mid ch' rest buf1 buf' kept later has',
        append_assoc (delivered first) buf1 (arrived es),
        append_assoc buf (arrived_at e) (arrived es),
      )
    ]

abbrev pub received_at : Event → ℕ
received_at (reads r) = 0
received_at (receives len bytes) = len
received_at ends = 0

abbrev pub received : List Event → ℕ
received [] = 0
received (e ∷ es) = received_at e + received es

try_read-my_window : (r : Reader) (ch : Channel) → (try_read r ch).0.my_window ≡ ch.my_window
unfolding try_read
try_read-my_window r ch = ground arith

wake_first-my_window :
    (rs : List Reader) (ch : Channel) → (wake_first rs ch).0.my_window ≡ ch.my_window
unfolding wake_first
wake_first-my_window [] ch = refl
wake_first-my_window (r ∷ rs) ch = try_read-my_window r (record ch { readers = rs })

step-my_window :
    (e : Event) (ch ch' : Channel) (out : List Settled)
    → step e ch ≡ ok (ch', out)
    → ch'.my_window + received_at e ≡ ch.my_window
step-my_window (reads r) ch ch' out done = unfold step in ground (arith, try_read-my_window r ch)
step-my_window (receives len bytes) ch ch' out done =
    unfold step in ground (arith, wake_first-my_window ch.readers (accept_data len bytes ch))
step-my_window ends ch ch' out done = unfold step in ground arith

-- The receive window only shrinks, by what is received: a channel never takes more bytes than the
-- window that it opened with, however much of them is read.
pub run-my_window :
    (es : List Event) (ch ch' : Channel) (out : List Settled)
    → run es ch ≡ ok (ch', out)
    → ch'.my_window + received es ≡ ch.my_window
run-my_window [] ch ch' out done = unfold run in ground arith
run-my_window (e ∷ es) ch ch' out done =
    let (mid, first, rest, at_step, later, _) = run_inversion e es ch ch' out done in
    omega (arith, step-my_window e ch mid first at_step, run-my_window es mid ch' rest later)

-- A data message that goes beyond the window that the channel opened with, all data received before
-- counted, throws, if it is no longer than a packet, whatever was read in between.
pub window_exhausted :
    (es : List Event) (ch ch' : Channel) (out : List Settled) (len : ℕ) (bytes : List ℕ)
    → run es ch ≡ ok (ch', out)
    → ch.my_window < received es + len
    → len ≤ ch'.max_incoming_payload
    → handle_data len bytes ch' ≡ err wrote_too_much
unfolding handle_data
window_exhausted es ch ch' out len bytes done beyond small =
    ground (arith, run-my_window es ch ch' out done)
