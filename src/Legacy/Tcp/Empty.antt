-- ===== src/Legacy/Tcp/Empty.antt =====
-- A read of no bytes from `TCPConn`, as `readPacket` makes it for a data message without data.
use qtalk.Base.{ℕ, ◌≡◌, refl, ap, true, false, List, [], ◌∷◌, none, All}
use qtalk.Legacy.Tcp.{
  Stream, Reader, Settled, TcpConn, Event, reads, writes, closes, on_readable, on_end, on_close,
  on_error, read_each, read, write, handle_readable, step, run,
}

-- Bytes come in or are written.
abbrev pub IsTraffic : {T E : Type 0} → Event T E → Type 0
IsTraffic (writes buffer) = Unit {0}
IsTraffic (on_readable t) = Unit {0}
IsTraffic _ = ⊥

-- One reader waits, and nothing was settled.
abbrev pub OnlyWaits : {T E : Type 0} → Reader → TcpConn T E × List (Settled E) → Type 0
OnlyWaits r (c, settled) = (c.readers ≡ r ∷ []) × (settled ≡ [])

abbrev zero_reader : ℕ → Reader
zero_reader promise = record { promise = promise; len = 0 }

module _ {T E : Type 0} (stream : Stream T) (null : (t : T) → (stream.read 0 t).0 ≡ none) where
  -- What the handlers of one such reader leave.
  each_waits :
      (promise : ℕ) (readers : List Reader) (t : T)
      → readers ≡ zero_reader promise ∷ []
      → (read_each {E = E} stream readers t).0 ≡ (zero_reader promise ∷ [], [])
  unfolding read_each
  each_waits promise readers t waits = rw (waits, null t)

  step-OnlyWaits :
      (promise : ℕ) (event : Event T E) (c : TcpConn T E)
      → IsTraffic event
      → c.readers ≡ zero_reader promise ∷ []
      → OnlyWaits (zero_reader promise) (step stream event c)
  unfolding step write handle_readable
  step-OnlyWaits promise (writes buffer) c traffic waits = (waits, refl)
  step-OnlyWaits promise (on_readable t) c traffic waits =
      let each = each_waits promise c.readers t waits in
      (
        ap (λ (r : List Reader × List (Settled E)). r.0) each,
        ap (λ (r : List Reader × List (Settled E)). r.1) each,
      )
  step-OnlyWaits promise (reads p len) c traffic waits = absurd traffic
  step-OnlyWaits promise closes c traffic waits = absurd traffic
  step-OnlyWaits promise (on_end t) c traffic waits = absurd traffic
  step-OnlyWaits promise (on_close t) c traffic waits = absurd traffic
  step-OnlyWaits promise (on_error e) c traffic waits = absurd traffic

  run-OnlyWaits :
      (promise : ℕ) (events : List (Event T E)) (c : TcpConn T E)
      → All IsTraffic events
      → c.readers ≡ zero_reader promise ∷ []
      → OnlyWaits (zero_reader promise) (run stream events c)
  unfolding run
  run-OnlyWaits promise [] c traffic waits = (waits, refl)
  run-OnlyWaits promise (event ∷ events) c traffic waits =
      let (waits', first) = step-OnlyWaits promise event c traffic.0 waits in
      let (waits'', rest) = run-OnlyWaits promise events (step stream event c).0 traffic.1 waits' in
      (waits'', rw (first, rest))

  started :
      (promise : ℕ) (c : TcpConn T E)
      → c.error ≡ none
      → stream.readable c.stream ≡ true
      → stream.destroyed c.stream ≡ false
      → c.readers ≡ []
      → OnlyWaits (zero_reader promise) (step stream (reads promise 0) c)
  unfolding step read
  started promise c calm open_yet intact idle =
      rw calm (rw (open_yet, intact, null c.stream, idle) (refl, refl))

  -- A read of no bytes is never settled while bytes come in, however many: `stream.read(0)` gives
  -- `null`, as the documentation of node says, so the reader waits for the end of the stream. The stream
  -- is open, nobody waits, and no error is stored.
  pub reads_zero-OnlyWaits :
      (promise : ℕ) (events : List (Event T E)) (c : TcpConn T E)
      → All IsTraffic events
      → c.error ≡ none
      → stream.readable c.stream ≡ true
      → stream.destroyed c.stream ≡ false
      → c.readers ≡ []
      → OnlyWaits (zero_reader promise) (run stream (reads promise 0 ∷ events) c)
  unfolding run
  reads_zero-OnlyWaits promise events c traffic calm open_yet intact idle =
      let (waits, first) = started promise c calm open_yet intact idle in
      let (waits', rest) =
        run-OnlyWaits promise events (step stream (reads promise 0) c).0 traffic waits in
      (waits', rw (first, rest))
