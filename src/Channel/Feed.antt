-- ===== src/Channel/Feed.antt =====
-- A channel with one reader at a time, as the frame codec of javascript/rpc/codec.ts uses it: the data
-- that will be handled is given, and the channel is shut down after it.
use qtalk.Base.{
  ℕ, ◌-◌, ◌≤◌, ◌<◌, ◌≡◌, refl, sym, ap, false, List, [], ◌∷◌, ◌++◌, Option, none, some, length,
  take, drop, flatten, All, append-nil, append_assoc, arith, length-append, take-append_left,
  drop-append_left, dec_lt,
}
use qtalk.Base.Throws.{Result, ok, err}
use qtalk.Conn.{Source}
use qtalk.Channel.{Channel, Reader, Settled, try_read, wake_first, wake_all, handle_data}
use qtalk.Channel.Bytes.{buffered}

pub record Link : Type 0 where
  pub channel : Channel
  pub arrivals : List (List ℕ)

abbrev pub reader_for : ℕ → Reader
reader_for n = record { promise = 0; len = n }

abbrev first_value : List Settled → Option (List ℕ)
first_value [] = none
first_value (s ∷ rest) = s.value

-- The reader waits: data is handled until its promise is resolved, or the channel is shut down. A
-- throw of the handler, which a connection that is ready excludes, leaves it without an answer.
unfoldable pub await_value :
    Channel → Result (Channel × List Settled) → List (List ℕ) → Option (List ℕ) × Link
unfolding handle_data wake_all
await_value before (err e) arrivals = (none, record { channel = before; arrivals = arrivals })
await_value before (ok (ch, s ∷ rest)) arrivals =
    (s.value, record { channel = ch; arrivals = arrivals })
await_value before (ok (ch, [])) [] =
    let (ch', settled) = wake_all ch.readers (record ch { read_buf = none }) in
    (first_value settled, record { channel = ch'; arrivals = [] })
await_value before (ok (ch, [])) (m ∷ rest) = await_value ch (handle_data (length m) m ch) rest

unfoldable pub read_link : ℕ → Link → Option (List ℕ) × Link
unfolding await_value try_read
read_link n l = await_value l.channel (ok (try_read (reader_for n) l.channel)) l.arrivals

-- Nobody reads, the stream has not ended, and what will arrive fits the packet size and the window.
abbrev pub IsOpen : Link → Type 0
IsOpen l =
    (l.channel.readers ≡ [])
    × (l.channel.got_eof ≡ false)
    × ((buf : List ℕ) × (l.channel.read_buf ≡ some buf))
    × All (λ m. length m ≤ l.channel.max_incoming_payload) l.arrivals
    × (length (flatten l.arrivals) ≤ l.channel.my_window)

abbrev pub bytes_left : Link → List ℕ
bytes_left l = buffered l.channel.read_buf ++ flatten l.arrivals

abbrev pub Reads : ℕ → List ℕ → Option (List ℕ) × Link → Type 0
Reads n bytes r = (r.0 ≡ some (take n bytes)) × IsOpen r.1 × (bytes_left r.1 ≡ drop n bytes)

-- The channel after one more message, with no reader waiting.
abbrev extended : Channel → List ℕ → List ℕ → Channel
extended ch buf m = record ch {
  my_window = ch.my_window - length m;
  read_buf = some (buf ++ m);
  readers = [];
}

abbrev start : ℕ → Channel → List (List ℕ) → Option (List ℕ) × Link
start n ch arrivals = await_value ch (ok (try_read (reader_for n) ch)) arrivals

-- While the reader is short of bytes, the next message restarts it on the longer buffer.
start-extended :
    (n : ℕ) (ch before : Channel) (buf m : List ℕ) (rest : List (List ℕ))
    → ch.readers ≡ []
    → ch.read_buf ≡ some buf
    → 0 < n
    → length buf < n
    → length m ≤ ch.max_incoming_payload
    → length m ≤ ch.my_window
    → await_value before (ok (try_read (reader_for n) ch)) (m ∷ rest)
      ≡ await_value
          (record ch { readers = reader_for n ∷ [] })
          (ok (try_read (reader_for n) (extended ch buf m)))
          rest
unfolding await_value try_read handle_data wake_first
start-extended n ch before buf m rest idle has pos short small fits = ground arith

start-fits :
    (n : ℕ) (ch before : Channel) (buf : List ℕ) (arrivals : List (List ℕ))
    → ch.readers ≡ []
    → ch.got_eof ≡ false
    → ch.read_buf ≡ some buf
    → 0 < n
    → n ≤ length buf
    → await_value before (ok (try_read (reader_for n) ch)) arrivals ≡ (
      some (take n buf),
      record { channel = record ch { read_buf = some (drop n buf) }; arrivals = arrivals },
    )
unfolding await_value try_read
start-fits n ch before buf arrivals idle going has pos fits = ground arith

fits-Reads :
    (n : ℕ) (ch : Channel) (buf : List ℕ) (arrivals : List (List ℕ))
    → ch.readers ≡ []
    → ch.got_eof ≡ false
    → All (λ m. length m ≤ ch.max_incoming_payload) arrivals
    → length (flatten arrivals) ≤ ch.my_window
    → n ≤ length buf
    → Reads n (buf ++ flatten arrivals) (
      some (take n buf),
      record { channel = record ch { read_buf = some (drop n buf) }; arrivals = arrivals },
    )
fits-Reads n ch buf arrivals idle going small fits enough = (
  ap some (sym (take-append_left n buf (flatten arrivals) enough)),
  (idle, going, (drop n buf, refl), small, fits),
  sym (drop-append_left n buf (flatten arrivals) enough),
)

await-Reads :
    (n : ℕ) (ch before : Channel) (buf : List ℕ) (arrivals : List (List ℕ))
    → ch.readers ≡ []
    → ch.got_eof ≡ false
    → ch.read_buf ≡ some buf
    → 0 < n
    → All (λ m. length m ≤ ch.max_incoming_payload) arrivals
    → length (flatten arrivals) ≤ ch.my_window
    → n ≤ length (buf ++ flatten arrivals)
    → Reads n
        (buf ++ flatten arrivals)
        (await_value before (ok (try_read (reader_for n) ch)) arrivals)
await-Reads n ch before buf [] idle going has pos small fits enough =
    let at_once : n ≤ length buf = omega (arith, ap length (append-nil buf)) in
    rw (start-fits n ch before buf [] idle going has pos at_once)
      (fits-Reads n ch buf [] idle going small fits at_once)
await-Reads n ch before buf (m ∷ rest) idle going has pos small fits enough =
    elim (dec_lt (length buf) n) [
      | no long ↦
          rw (start-fits n ch before buf (m ∷ rest) idle going has pos (omega arith))
            (fits-Reads n ch buf (m ∷ rest) idle going small fits (omega arith))
      | yes short ↦
          let both = length-append m (flatten rest) in
          rw
            (start-extended n ch before buf m rest idle has pos short small.0 (omega (arith, both)))
            (rw (append_assoc buf m (flatten rest)) at (
              await-Reads n (extended ch buf m) (record ch { readers = reader_for n ∷ [] })
                (buf ++ m) rest refl going refl pos small.1 (omega (arith, both))
                (rw (append_assoc buf m (flatten rest)) enough)))
    ]

await_short :
    (n : ℕ) (ch before : Channel) (buf : List ℕ) (arrivals : List (List ℕ))
    → ch.readers ≡ []
    → ch.got_eof ≡ false
    → ch.read_buf ≡ some buf
    → 0 < n
    → All (λ m. length m ≤ ch.max_incoming_payload) arrivals
    → length (flatten arrivals) ≤ ch.my_window
    → length (buf ++ flatten arrivals) < n
    → (await_value before (ok (try_read (reader_for n) ch)) arrivals).0 ≡ none
await_short n ch before buf [] idle going has pos small fits short =
    unfold await_value try_read wake_all in ground (arith, ap length (append-nil buf))
await_short n ch before buf (m ∷ rest) idle going has pos small fits short =
    let both = length-append m (flatten rest) in
    rw
      (start-extended n ch before buf m rest idle has pos
        (omega (arith, length-append buf (m ++ flatten rest))) small.0 (omega (arith, both)))
      (await_short n (extended ch buf m) (record ch { readers = reader_for n ∷ [] }) (buf ++ m) rest
        refl going refl pos small.1 (omega (arith, both))
        (rw (append_assoc buf m (flatten rest)) short))

-- On a channel that is ready, a read of a positive number of bytes gives exactly the next ones and
-- leaves the rest, if as many are buffered or arrive, however they are cut into messages.
pub read_link-Reads :
    (n : ℕ) (l : Link)
    → IsOpen l
    → 0 < n
    → n ≤ length (bytes_left l)
    → Reads n (bytes_left l) (read_link n l)
unfolding read_link
read_link-Reads n l (idle, going, (buf, has), small, fits) pos enough =
    let same : bytes_left l ≡ buf ++ flatten l.arrivals =
      ap (λ b. buffered b ++ flatten l.arrivals) has in
    rw same (
      await-Reads n l.channel l.channel buf l.arrivals idle going has pos small fits
        (rw same at enough))

pub read_link_short :
    (n : ℕ) (l : Link) → IsOpen l → 0 < n → length (bytes_left l) < n → (read_link n l).0 ≡ none
unfolding read_link
read_link_short n l (idle, going, (buf, has), small, fits) pos short =
    let same : bytes_left l ≡ buf ++ flatten l.arrivals =
      ap (λ b. buffered b ++ flatten l.arrivals) has in
    await_short n l.channel l.channel buf l.arrivals idle going has pos small fits
      (rw same at short)

start_zero :
    (ch before : Channel) (arrivals : List (List ℕ)) (buf : List ℕ)
    → ch.readers ≡ []
    → ch.got_eof ≡ false
    → ch.read_buf ≡ some buf
    → await_value before (ok (try_read (reader_for 0) ch)) arrivals
      ≡ (some buf, record { channel = record ch { read_buf = some [] }; arrivals = arrivals })
unfolding await_value try_read
start_zero ch before arrivals [] idle going has = ground arith
start_zero ch before arrivals (x ∷ buf) idle going has = ground arith

pub read_link_zero :
    (l : Link)
    → IsOpen l
    → (front : List ℕ) × ((read_link 0 l).0 ≡ some front)
      × IsOpen (read_link 0 l).1
      × (front ++ bytes_left (read_link 0 l).1 ≡ bytes_left l)
unfolding read_link
read_link_zero l (idle, going, (buf, has), small, fits) =
    let same : bytes_left l ≡ buf ++ flatten l.arrivals =
      ap (λ b. buffered b ++ flatten l.arrivals) has in
    rw same (
      rw (start_zero l.channel l.channel l.arrivals buf idle going has)
        (buf, refl, (idle, going, ([], refl), small, fits), refl))

-- The channel as a source of bytes.
abbrev pub link_source : Source Link
link_source = record {
  read = read_link;
  IsReady = IsOpen;
  remaining = bytes_left;
  read_enough = read_link-Reads;
  read_short = read_link_short;
  read_zero = read_link_zero;
}
