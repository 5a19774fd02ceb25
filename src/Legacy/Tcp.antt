-- ===== src/Legacy/Tcp.antt =====
-- javascript/legacy/qmux/src/qmux_node.ts: `TCPConn`, which reads a stream of node through its events.
pub mod Once
pub mod Empty
use qtalk.Base.{
  ℕ, Bool, true, false, not, ◌||◌, List, [], ◌∷◌, ◌++◌, Option, none, some, length, if◌then◌else◌,
}

-- What `TCPConn` asks of a `net.Socket` in the state `T`; `read` gives `none` for `null`.
pub record Stream (T : Type 0) : Type 0 where
  pub read : ℕ → T → Option (List ℕ) × T
  pub write : List ℕ → T → T
  pub destroy : T → T
  pub readable : T → Bool
  pub destroyed : T → Bool

-- A pending call of `read`, whose handlers listen to the stream.
pub record Reader : Type 0 where
  pub promise : ℕ
  pub len : ℕ

-- How the promise of a `read` ends: resolved, where `none` is `undefined`, or rejected.
pub data Ending (E : Type 0) : Type 0 where
  resolved : Option (List ℕ) → Ending E
  rejected : E → Ending E

pub record Settled (E : Type 0) : Type 0 where
  pub promise : ℕ
  pub ending : Ending E

pub record TcpConn (T E : Type 0) : Type 0 where
  pub stream : T
  pub error : Option E
  pub readers : List Reader

-- What the socket and its callers do. With `readable` and the ends of the stream its state is as it is
-- then.
pub data Event (T E : Type 0) : Type 0 where
  reads : ℕ → ℕ → Event T E
  writes : List ℕ → Event T E
  closes : Event T E
  on_readable : T → Event T E
  on_end on_close : T → Event T E
  on_error : E → Event T E

module _ {E : Type 0} where
  abbrev pub settle : Ending E → Reader → Settled E
  settle ending r = record { promise = r.promise; ending = ending }

  abbrev pub settle_all : Ending E → List Reader → List (Settled E)
  settle_all ending [] = []
  settle_all ending (r ∷ rs) = settle ending r ∷ settle_all ending rs

  -- The handlers of `error`: that of the constructor comes first, and each of the others deletes what
  -- it has stored.
  abbrev pub stored : E → List Reader → Option E
  stored e [] = some e
  stored e (r ∷ rs) = none

  -- `readableHandler` once `stream.read` has answered: what it settles, and who still waits
  abbrev pub handled : Reader → Option (List ℕ) → List Reader × List (Settled E)
  handled r none = (r ∷ [], [])
  handled r (some chunk) = ([], settle (resolved (some chunk)) r ∷ [])

module _ {T E : Type 0} where
  abbrev pub new_conn : T → TcpConn T E
  new_conn t = record { stream = t; error = none; readers = [] }

  -- The handlers of all reads that are pending are called: each settles its promise and takes its
  -- listeners away.
  abbrev pub finish : Ending E → TcpConn T E → TcpConn T E × List (Settled E)
  finish ending c = (record c { readers = [] }, settle_all ending c.readers)

  unfoldable pub handle_error : E → TcpConn T E → TcpConn T E × List (Settled E)
  handle_error e c = finish (rejected e) (record c { error = stored e c.readers })

  module _ (stream : Stream T) where
    -- The listeners of `readable`, in the order in which they were added
    unfoldable pub read_each : List Reader → T → (List Reader × List (Settled E)) × T
    read_each [] t = (([], []), t)
    read_each (r ∷ rs) t =
        let (chunk, t') = stream.read r.len t in
        let (waiting, settled) = handled r chunk in
        let ((waiting', settled'), t'') = read_each rs t' in
        ((waiting ++ waiting', settled ++ settled'), t'')

    unfoldable pub handle_readable : T → TcpConn T E → TcpConn T E × List (Settled E)
    unfolding read_each
    handle_readable t c =
        let ((waiting, settled), t') = read_each c.readers t in
        (record c { stream = t'; readers = waiting }, settled)

    -- The listeners are added, and `readableHandler` is called once.
    abbrev pub start_read : Reader → TcpConn T E → TcpConn T E × List (Settled E)
    start_read r c =
        let (chunk, t) = stream.read r.len c.stream in
        let (waiting, settled) = handled r chunk in
        (record c { stream = t; readers = c.readers ++ waiting }, settled)

    abbrev pub read_open : Option E → Reader → TcpConn T E → TcpConn T E × List (Settled E)
    read_open (some e) r c = (record c { error = none }, settle (rejected e) r ∷ [])
    read_open none r c =
        if not (stream.readable c.stream) || stream.destroyed c.stream
        then (c, settle (resolved none) r ∷ [])
        else start_read r c

    unfoldable pub read : ℕ → ℕ → TcpConn T E → TcpConn T E × List (Settled E)
    read promise len c = read_open c.error (record { promise = promise; len = len }) c

    unfoldable pub write : List ℕ → TcpConn T E → TcpConn T E × ℕ
    write buffer c = (record c { stream = stream.write buffer c.stream }, length buffer)

    unfoldable pub close : TcpConn T E → TcpConn T E
    close c = record c { stream = stream.destroy c.stream }

    unfoldable pub step : Event T E → TcpConn T E → TcpConn T E × List (Settled E)
    unfolding read write close handle_readable handle_error
    step (reads promise len) c = read promise len c
    step (writes buffer) c = ((write buffer c).0, [])
    step closes c = (close c, [])
    step (on_readable t) c = handle_readable t c
    step (on_end t) c = finish (resolved none) (record c { stream = t })
    step (on_close t) c = finish (resolved none) (record c { stream = t })
    step (on_error e) c = handle_error e c

    unfoldable pub run : List (Event T E) → TcpConn T E → TcpConn T E × List (Settled E)
    unfolding step
    run [] c = (c, [])
    run (event ∷ events) c =
        let (c', first) = step event c in let (c'', rest) = run events c' in (c'', first ++ rest)
