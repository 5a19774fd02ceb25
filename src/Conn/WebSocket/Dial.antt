-- ===== src/Conn/WebSocket/Dial.antt =====
-- javascript/mux/transport/websocket.ts: `Dial`, and the handlers of the socket that it and the
-- constructor of `Conn` set. The browser's WebSocket is a parameter, by the events that it emits, and
-- an `H` stands for the function `onclose` that `Dial` is given.
use qtalk.Base.{
  ℕ, ◌≡◌, sym, ap, ◌∙◌, List, [], ◌∷◌, ◌++◌, Option, none, some, append_assoc, append-nil,
}
use qtalk.Conn.WebSocket.{Settled, Conn, new_conn, on_message, close}

-- `conn` is there once the promise of `Dial` is resolved; `told` has the calls of `onclose`.
pub record Dialed (H : Type 0) : Type 0 where
  pub onclose : Option H
  pub conn : Option Conn
  pub told : List H

pub data Event : Type 0 where
  opens : Event
  messages : List ℕ → Event
  closes : Event

-- `socket.onopen`; the promise is resolved by its first call.
abbrev pub on_open : Option Conn → Conn
unfolding new_conn
on_open none = new_conn
on_open (some c) = c

abbrev pub message_to : List ℕ → Option Conn → Option Conn × List Settled
unfolding on_message
message_to bytes none = (none, [])
message_to bytes (some c) = let (c', settled) = on_message bytes c in (some c', settled)

-- The `onclose` that the constructor of `Conn` sets, or that of `Dial` before
abbrev pub close_of : Option Conn → Option Conn × List Settled
unfolding close
close_of none = (none, [])
close_of (some c) = let (c', settled) = close c in (some c', settled)

module _ {H : Type 0} where
  abbrev pub dial : Option H → Dialed H
  dial onclose = record { onclose = onclose; conn = none; told = [] }

  abbrev calls_of : Option H → List H
  calls_of none = []
  calls_of (some h) = h ∷ []

  unfoldable pub on_event : Event → Dialed H → Dialed H × List Settled
  on_event opens d = (record d { conn = some (on_open d.conn) }, [])
  on_event (messages bytes) d =
      let (conn, settled) = message_to bytes d.conn in (record d { conn = conn }, settled)
  on_event closes d =
      let (conn, settled) = close_of d.conn in
      (record d { conn = conn; told = d.told ++ calls_of d.onclose }, settled)

  unfoldable pub run : List Event → Dialed H → Dialed H
  unfolding on_event
  run [] d = d
  run (e ∷ es) d = run es (on_event e d).0

  -- The calls of `onclose` for the events of the socket
  abbrev pub closings : H → List Event → List H
  closings h [] = []
  closings h (opens ∷ es) = closings h es
  closings h (messages bytes ∷ es) = closings h es
  closings h (closes ∷ es) = h ∷ closings h es

  run-told :
      (h : H) (es : List Event) (d : Dialed H)
      → d.onclose ≡ some h
      → (run es d).told ≡ d.told ++ closings h es
  unfolding run on_event
  run-told h [] d e = sym (append-nil d.told)
  run-told h (opens ∷ es) d e = run-told h es (on_event opens d).0 e
  run-told h (messages bytes ∷ es) d e = run-told h es (on_event (messages bytes) d).0 e
  run-told h (closes ∷ es) d e =
      run-told h es (on_event closes d).0 e
      ∙ append_assoc d.told (calls_of d.onclose) (closings h es)
      ∙ ap (λ (o : Option H). d.told ++ (calls_of o ++ closings h es)) e
