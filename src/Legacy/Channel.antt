-- ===== src/Legacy/Channel.antt =====
-- `read` and `handleData` of a channel of javascript/legacy/qmux/src/qmux.ts, on the state of
-- Channel, and where they agree with those of javascript/mux/channel.ts.
use qtalk.Base.{
  ℕ, ◌-◌, ◌<◌, ◌≡◌, refl, List, [], ◌∷◌, ◌++◌, Option, none, some, length, take, drop, All, ltb,
  leb, ◌==◌, arith, if◌then◌else◌,
}
use qtalk.Base.Throws.{Result, ok, err, payload_too_large, wrote_too_much, type_error}
use qtalk.Channel.{Channel, Reader, Settled, remainder, extend, accept_data}
use qtalk.Channel

abbrev read_from : Reader → List ℕ → Channel → Channel × List Settled
read_from r buf ch =
    if leb r.len (length buf)
    then (
      record ch { read_buf = remainder ch.got_eof (drop r.len buf) },
      record { promise = r.promise; value = some (take r.len buf) } ∷ [],
    )
    else (record ch { readers = ch.readers ++ r ∷ [] }, [])

-- `tryRead`: a read of no bytes gives none.
unfoldable pub try_read : Reader → Channel → Channel × List Settled
try_read r ch = elim ch.read_buf [
  | none ↦ (ch, record { promise = r.promise; value = none } ∷ [])
  | some buf ↦ read_from r buf ch
]

wake_first : List Reader → Channel → Channel × List Settled
unfolding try_read
wake_first [] ch = (ch, [])
wake_first (r ∷ rs) ch = try_read r (record ch { readers = rs })

-- A method that may throw, with the state that it leaves.
abbrev pub Ends : Type 0
Ends = Result (List Settled) × Channel

abbrev pub returned : Channel × List Settled → Ends
returned (ch, settled) = (ok settled, ch)

-- After the end `readBuf` is undefined, and its length a TypeError.
abbrev extend_buffer : Option (List ℕ) → ℕ → List ℕ → Channel → Ends
extend_buffer none len bytes ch = (err type_error, record ch { my_window = ch.my_window - len })
extend_buffer (some buf) len bytes ch = returned (
    wake_first ch.readers
      (record ch { my_window = ch.my_window - len; read_buf = some (buf ++ bytes) }))

unfoldable pub handle_data : ℕ → List ℕ → Channel → Ends
unfolding wake_first
handle_data len bytes ch =
    if len == 0
    then (ok [], ch)
    else if ltb ch.max_incoming_payload len
    then (err payload_too_large, ch)
    else if ltb ch.my_window len
    then (err wrote_too_much, ch)
    else extend_buffer ch.read_buf len bytes ch

-- The current `handleData` changes nothing where it throws.
abbrev pub as_ends : Channel → Result (Channel × List Settled) → Ends
as_ends ch (err e) = (err e, ch)
as_ends ch (ok r) = returned r

try_read-same : (r : Reader) (ch : Channel) → 0 < r.len → try_read r ch ≡ Channel.try_read r ch
unfolding try_read Channel.try_read
try_read-same r ch pos = ground arith

wake_first-same :
    (rs : List Reader) (ch : Channel)
    → All (λ (r : Reader). 0 < r.len) rs
    → wake_first rs ch ≡ Channel.wake_first rs ch
unfolding wake_first Channel.wake_first
wake_first-same [] ch pos = refl
wake_first-same (r ∷ rs) ch pos = try_read-same r (record ch { readers = rs }) pos.0

-- Before the end of the channel, with no reader that asks for no bytes, a data message that is not
-- empty does the same to both: the same promises are resolved, with the same values, and the same
-- state or error is left.
pub handle_data-as_ends :
    (len : ℕ) (bytes buf : List ℕ) (ch : Channel)
    → 0 < len
    → ch.read_buf ≡ some buf
    → All (λ (r : Reader). 0 < r.len) ch.readers
    → handle_data len bytes ch ≡ as_ends ch (Channel.handle_data len bytes ch)
unfolding handle_data Channel.handle_data
handle_data-as_ends len bytes buf ch pos has readers =
    let woken =
      wake_first-same ch.readers
        (record ch { my_window = ch.my_window - len; read_buf = some (buf ++ bytes) }) readers in
    ground (arith, woken)
