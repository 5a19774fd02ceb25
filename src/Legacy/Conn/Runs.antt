-- ===== src/Legacy/Conn/Runs.antt =====
-- Any sequence of events, on both connections.
use qtalk.Base.{
  ℕ, ◌≡◌, refl, sym, ap, ◌∙◌, append_assoc, append-nil, map, Bool, true, false, List, [], ◌∷◌, ◌++◌,
  none, some, All, All-append, ◌&&◌, ◌==◌, ltb, leb, length, take, drop, if◌then◌else◌,
}
use qtalk.Conn.WebSocket.{Waiter, Settled}
use qtalk.Conn.WebSocket as Current
use qtalk.Legacy.Conn.{Conn, Buffer, bytes_of, Class, sent_bytes, new_conn}
use qtalk.Legacy.Conn.Same.{
  Event, reads, writes, arrives, closes, step, step_current, IsReader, as_old, old_result, IsProper,
  step-Alike, sent_after, step-sent,
}

-- The readers that wait ask for bytes.
abbrev HasReaders : Current.Conn × List Settled → Type 0
HasReaders (c, settled) = All IsReader c.waiters

HasReaders-if :
    (test : Bool) (x y : Current.Conn × List Settled)
    → HasReaders x
    → HasReaders y
    → HasReaders (if test then x else y)
HasReaders-if true x y hx hy = hx
HasReaders-if false x y hx hy = hy

try_read-HasReaders :
    (w : Waiter) (c : Current.Conn)
    → IsReader w
    → All IsReader c.waiters
    → HasReaders (Current.try_read w c)
unfolding Current.try_read
try_read-HasReaders w c pos ws =
    let gone : Current.Conn × List Settled =
      (c, record { promise = w.promise; value = none } ∷ []) in
    let all : Current.Conn × List Settled =
      (record c { buf = [] }, record { promise = w.promise; value = some c.buf } ∷ []) in
    let front : Current.Conn × List Settled = (
      record c { buf = drop w.len c.buf },
      record { promise = w.promise; value = some (take w.len c.buf) } ∷ [],
    ) in
    let later : Current.Conn × List Settled = (record c { waiters = c.waiters ++ w ∷ [] }, []) in
    let fits = leb w.len (length c.buf) in
    let whole = w.len == 0 && ltb 0 (length c.buf) in
    let longer = All-append IsReader c.waiters (w ∷ []) ws (pos, tt) in
    HasReaders-if c.is_closed gone (if whole then all else if fits then front else later) ws (
      HasReaders-if whole all (if fits then front else later) ws
        (HasReaders-if fits front later ws longer))

wake_first-HasReaders :
    (ws : List Waiter) (c : Current.Conn)
    → All IsReader ws
    → All IsReader c.waiters
    → HasReaders (Current.wake_first ws c)
unfolding Current.wake_first
wake_first-HasReaders [] c pos held = held
wake_first-HasReaders (w ∷ ws) c pos held =
    try_read-HasReaders w (record c { waiters = ws }) pos.0 pos.1

wake_all-HasReaders :
    (ws : List Waiter) (c : Current.Conn)
    → All IsReader ws
    → All IsReader c.waiters
    → HasReaders (Current.wake_all ws c)
unfolding Current.wake_all
wake_all-HasReaders [] c pos held = held
wake_all-HasReaders (w ∷ ws) c pos held =
    wake_all-HasReaders ws (Current.try_read w c).0 pos.1 (try_read-HasReaders w c pos.0 held)

step-HasReaders :
    (e : Event) (c : Current.Conn)
    → IsProper e c
    → All IsReader c.waiters
    → HasReaders (step_current e c)
unfolding Current.read Current.write Current.on_message Current.close
step-HasReaders (reads promise len) c pos ws =
    try_read-HasReaders (record { promise = promise; len = len }) c pos ws
step-HasReaders (writes buffer) c pos ws = ws
step-HasReaders (arrives message) c opened ws =
    wake_first-HasReaders c.waiters (record c { buf = c.buf ++ message }) ws ws
step-HasReaders closes c pos ws =
    let (c', settled) = Current.wake_all c.waiters (record c { is_closed = true }) in
    HasReaders-if c.is_closed (c, []) (record c' { socket_closed = true }, settled) ws
      (wake_all-HasReaders c.waiters (record c { is_closed = true }) ws ws)

abbrev pub run : Class → List Event → Conn → Conn × List Settled
run k [] c = (c, [])
run k (e ∷ es) c =
    let (c', first) = step k e c in let (c'', rest) = run k es c' in (c'', first ++ rest)

abbrev pub run_current : List Event → Current.Conn → Current.Conn × List Settled
run_current [] c = (c, [])
run_current (e ∷ es) c =
    let (c', first) = step_current e c in
    let (c'', rest) = run_current es c' in (c'', first ++ rest)

abbrev pub AreProper : List Event → Current.Conn → Type 0
AreProper [] c = Unit {0}
AreProper (e ∷ es) c = IsProper e c × AreProper es (step_current e c).0

-- The buffers that are written, in order.
abbrev pub written : List Event → List Buffer
written [] = []
written (writes buffer ∷ es) = buffer ∷ written es
written (_ ∷ es) = written es

abbrev sent_by : (Buffer → List ℕ) → List Event → List (List ℕ) → List (List ℕ)
sent_by given [] sent = sent
sent_by given (e ∷ es) sent = sent_by given es (sent_after given e sent)

sent_by-written :
    (given : Buffer → List ℕ) (es : List Event) (sent : List (List ℕ))
    → sent_by given es sent ≡ sent ++ map given (written es)
sent_by-written given [] sent = sym (append-nil sent)
sent_by-written given (reads promise len ∷ es) sent = sent_by-written given es sent
sent_by-written given (arrives message ∷ es) sent = sent_by-written given es sent
sent_by-written given (closes ∷ es) sent = sent_by-written given es sent
sent_by-written given (writes buffer ∷ es) sent =
    sent_by-written given es (sent ++ given buffer ∷ [])
    ∙ append_assoc sent (given buffer ∷ []) (map given (written es))

run-same :
    (k : Class) (sent : List (List ℕ)) (es : List Event) (c : Current.Conn)
    → AreProper es c
    → All IsReader c.waiters
    → run k es (as_old sent c) ≡ old_result (sent_by (sent_bytes k) es sent) (run_current es c)
run-same k sent [] c proper ws = refl
run-same k sent (e ∷ es) c proper ws =
    let (c', first) = step_current e c in
    rw (
      step-Alike k sent e c proper.0 ws,
      run-same k (sent_after (sent_bytes k) e sent) es c' proper.1
          (step-HasReaders e c proper.0 ws),
    )

run_current-sent :
    (es : List Event) (c : Current.Conn) → (run_current es c).0.sent ≡ sent_by bytes_of es c.sent
run_current-sent [] c = refl
run_current-sent (e ∷ es) c =
    run_current-sent es (step_current e c).0 ∙ ap (sent_by bytes_of es) (step-sent e c)

-- From the start, both old connections resolve the same reads as the current one, in the same order and
-- with the same bytes, if every read asks for bytes and no message comes in after `close`. For each
-- buffer that is written, in order, the current one and the old one of node send the bytes that the
-- buffer shows, and the old one of the browser sends all of the buffer behind it.
pub run-new_conn :
    (k : Class) (es : List Event)
    → AreProper es Current.new_conn
    → let (old, settled) = run k es new_conn in
      let (now, settled_now) = run_current es Current.new_conn in
      (settled ≡ settled_now)
      × (old.sent ≡ map (sent_bytes k) (written es))
      × (now.sent ≡ map bytes_of (written es))
unfolding new_conn Current.new_conn
run-new_conn k es proper =
    let same = run-same k [] es Current.new_conn proper tt in
    (
      ap (λ (r : Conn × List Settled). r.1) same,
      ap (λ (r : Conn × List Settled). r.0.sent) same ∙ sent_by-written (sent_bytes k) es [],
      run_current-sent es Current.new_conn ∙ sent_by-written bytes_of es [],
    )
