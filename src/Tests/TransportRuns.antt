-- ===== src/Tests/TransportRuns.antt =====
-- Runs of the connections of javascript/legacy/qmux.
use mathlib.Core.List.{Perm}
use qtalk.Base.{
  ℕ, zero, suc, ◌≡◌, refl, true, false, List, [], ◌∷◌, ◌++◌, Option, none, some, length, take, drop,
  leb, arith, if◌then◌else◌,
}
use qtalk.Base.Throws.{err, type_error}
use qtalk.Conn.WebSocket as Current
use qtalk.Legacy.Conn.{Buffer, browser, new_conn, on_message, close, wake_all}
use qtalk.Legacy.Conn.Same.{Event, reads, writes, arrives, closes}
use qtalk.Legacy.Conn.Runs.{run, run_current, AreProper, run-new_conn}
use qtalk.Legacy.Tcp
use qtalk.Legacy.Tcp.{Stream, TcpConn}
use qtalk.Legacy.Tcp.Once.{waiting, ended, run-Perm}
use qtalk.Legacy.Tcp.Empty.{OnlyWaits, reads_zero-OnlyWaits}

-- The second and third bytes of a buffer of four
abbrev part : Buffer
part = record { buffer = 4 ∷ 5 ∷ 6 ∷ 7 ∷ []; byte_offset = 1; byte_length = 2 }

abbrev history : List Event
history =
    reads 1 2
    ∷ arrives (7 ∷ [])
    ∷ writes part
    ∷ arrives (8 ∷ 9 ∷ [])
    ∷ reads 2 4
    ∷ closes
    ∷ reads 3 1
    ∷ []

history-AreProper : AreProper history Current.new_conn
unfolding Current.new_conn Current.read Current.try_read Current.on_message Current.wake_first
    Current.write
history-AreProper = (omega arith, (refl, (tt, (refl, (omega arith, (tt, (omega arith, tt)))))))

run-new_conn_example :
    let (old, settled) = run browser history new_conn in
    let (now, settled_now) = run_current history Current.new_conn in
    (settled ≡ settled_now)
    × (old.sent ≡ (4 ∷ 5 ∷ 6 ∷ 7 ∷ []) ∷ [])
    × (now.sent ≡ (5 ∷ 6 ∷ []) ∷ [])
run-new_conn_example = run-new_conn browser history history-AreProper

-- A message between `close` and the event `close` of the socket.
late_message : on_message (7 ∷ []) (close new_conn).0 ≡ err type_error
unfolding on_message close wake_all new_conn
late_message = refl

-- A stream that is read from a buffer.
abbrev read_buffer : ℕ → List ℕ → Option (List ℕ) × List ℕ
read_buffer zero t = (none, t)
read_buffer (suc n) t =
    if leb (suc n) (length t) then (some (take (suc n) t), drop (suc n) t) else (none, t)

abbrev buffered : Stream (List ℕ)
buffered = record {
  read = read_buffer;
  write = λ bytes t. t;
  destroy = λ t. [];
  readable = λ t. true;
  destroyed = λ t. false;
}

abbrev traffic : List (Tcp.Event (List ℕ) ℕ)
traffic =
    Tcp.reads 1 2
    ∷ Tcp.reads 2 1
    ∷ Tcp.on_readable (7 ∷ 8 ∷ [])
    ∷ Tcp.reads 3 1
    ∷ Tcp.on_error 4
    ∷ []

run-Perm_example :
    let (c, settled) = Tcp.run buffered traffic (Tcp.new_conn []) in
    let (c', last) = Tcp.step buffered (Tcp.on_close []) c in
    Perm (ended settled ++ waiting c.readers) (1 ∷ 2 ∷ 3 ∷ [])
    × (c'.readers ≡ [])
    × Perm (ended (settled ++ last)) (1 ∷ 2 ∷ 3 ∷ [])
run-Perm_example = run-Perm buffered traffic [] []

abbrev idle : TcpConn (List ℕ) ℕ
idle = Tcp.new_conn []

reads_zero-OnlyWaits_example :
    OnlyWaits
      (record { promise = 1; len = 0 })
      (Tcp.run buffered (Tcp.reads 1 0 ∷ Tcp.on_readable (7 ∷ []) ∷ Tcp.writes (5 ∷ []) ∷ []) idle)
reads_zero-OnlyWaits_example =
    reads_zero-OnlyWaits buffered (λ t. refl) 1
      (Tcp.on_readable (7 ∷ []) ∷ Tcp.writes (5 ∷ []) ∷ []) idle (tt, (tt, tt)) refl refl refl refl
