-- ===== src/Channel/Sending.antt =====
-- Reading from a channel leaves what its `write` looks at.
use qtalk.Base.{
  ℕ, ◌≡◌, refl, false, List, [], ◌∷◌, Option, none, some, length, Bool-cases, inl, inr, arith, ltb,
}
use qtalk.Base.Throws.{Result, ok, err}
use qtalk.Channel.{
  Channel, Reader, Settled, try_read, read_from, wake_first, wake_all, handle_data, accept_data,
}
use qtalk.Channel.Feed.{Link, read_link, await_value, reader_for}

-- The channel, which the other side calls `id`, has sent neither its end nor its close.
abbrev pub CanSend : ℕ → Channel → Type 0
CanSend id ch = (ch.remote_id ≡ id) × (ch.sent_eof ≡ false) × (ch.sent_close ≡ false)

read_from-CanSend :
    (id : ℕ) (r : Reader) (buf : List ℕ) (ch : Channel)
    → CanSend id ch
    → CanSend id (read_from r buf ch).0
read_from-CanSend id r buf ch can = ground arith

try_read-CanSend :
    (id : ℕ) (r : Reader) (ch : Channel) → CanSend id ch → CanSend id (try_read r ch).0
unfolding try_read
try_read-CanSend id r ch can = by_buf ch.read_buf refl
  where
    by_buf : (b : Option (List ℕ)) → ch.read_buf ≡ b → CanSend id (try_read r ch).0
    by_buf none e = rw e can
    by_buf (some buf) e = rw e (read_from-CanSend id r buf (record ch { read_buf = some buf }) can)

wake_first-CanSend :
    (id : ℕ) (rs : List Reader) (ch : Channel) → CanSend id ch → CanSend id (wake_first rs ch).0
unfolding wake_first
wake_first-CanSend id [] ch can = can
wake_first-CanSend id (r ∷ rs) ch can = try_read-CanSend id r (record ch { readers = rs }) can

wake_all-CanSend :
    (id : ℕ) (rs : List Reader) (ch : Channel) → CanSend id ch → CanSend id (wake_all rs ch).0
unfolding wake_all
wake_all-CanSend id [] ch can = can
wake_all-CanSend id (r ∷ rs) ch can =
    wake_all-CanSend id rs (try_read r ch).0 (try_read-CanSend id r ch can)

abbrev Keeps : ℕ → Result (Channel × List Settled) → Type 0
Keeps id (err e) = Unit
Keeps id (ok (ch, settled)) = CanSend id ch

handle_data-Keeps :
    (id len : ℕ) (bytes : List ℕ) (ch : Channel)
    → CanSend id ch
    → Keeps id (handle_data len bytes ch)
unfolding handle_data
handle_data-Keeps id len bytes ch can = elim (Bool-cases (ltb ch.max_incoming_payload len)) [
  | inl big ↦ rw big tt
  | inr small ↦ elim (Bool-cases (ltb ch.my_window len)) [
    | inl over ↦ rw (small, over) tt
    | inr within ↦
        rw (small, within) (wake_first-CanSend id ch.readers (accept_data len bytes ch) can)
  ]
]

await_value-CanSend :
    (id : ℕ) (before : Channel) (r : Result (Channel × List Settled)) (arrivals : List (List ℕ))
    → CanSend id before
    → Keeps id r
    → CanSend id (await_value before r arrivals).1.channel
unfolding await_value
await_value-CanSend id before (err e) arrivals can kept = can
await_value-CanSend id before (ok (ch, s ∷ rest)) arrivals can kept = kept
await_value-CanSend id before (ok (ch, [])) [] can kept =
    wake_all-CanSend id ch.readers (record ch { read_buf = none }) kept
await_value-CanSend id before (ok (ch, [])) (m ∷ rest) can kept =
    await_value-CanSend id ch (handle_data (length m) m ch) rest kept
      (handle_data-Keeps id (length m) m ch kept)

pub read_link-CanSend :
    (id n : ℕ) (l : Link) → CanSend id l.channel → CanSend id (read_link n l).1.channel
unfolding read_link
read_link-CanSend id n l can =
    await_value-CanSend id l.channel (ok (try_read (reader_for n) l.channel)) l.arrivals can
      (try_read-CanSend id (reader_for n) l.channel can)
