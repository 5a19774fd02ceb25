-- ===== src/Rpc/Wire/Opened/Ends.antt =====
-- A call on a channel that is opened for it ends as the call over the bytes of its frames.
use qtalk.Base.{
  ℕ, ◌≤◌, ◌≡◌, refl, ap, ◌∙◌, Bool, false, List, [], ◌∷◌, ◌++◌, some, length, drop, flatten, arith,
  get_elem?-append_length, drop-append,
}
use qtalk.Base.Throws.{Result, ok, err}
use qtalk.Bytes.{IsU32}
use qtalk.Channel.{new_object, channel_window_size}
use qtalk.Codec.{Message, IsValid}
use qtalk.Codec.Marshal.{wire}
use qtalk.Codec.RoundTrip.{unmarshal-wire}
use qtalk.Session.State.{Session, Outcome, opened, accepted, open_written, pure, continue, object}
use qtalk.Session.Table.{lookup}
use qtalk.Session.Dispatch.{open_channel, accept, dispatch, resume}
use qtalk.Util.Queue.{shift}
use qtalk.Session.Invariant.{Inv}
use qtalk.Session.Preserve.Loop.{Keeps-accept}
use qtalk.Session.Offer.{offer, answer, answering, dispatch-accepted}
use qtalk.Session.Opening.{confirmed, open_handshake}
use qtalk.Rpc.Text.{Text}
use qtalk.Rpc.Call.{Call, new_call}
use qtalk.Rpc.Exchange.{Handler}
use qtalk.Rpc.Frame.Delivery.{messages, Fits}
use qtalk.Rpc.Frame.Ops.{Event}
use qtalk.Rpc.Frame.Passing.{receive_all, sent_since, IsOpened}
use qtalk.Rpc.Json.{Numbers, Json}
use qtalk.Rpc.Json.Codec.{json_codec}
use qtalk.Rpc.Wire.{call_json, respond_json, exchange_json}
use qtalk.Rpc.Wire.Across.{AreTwo, call_over-exchange_json}
use qtalk.Rpc.Wire.Opened.{open_outcome, accept_outcome, call_opening}

receive_one :
    (s s' : Session) (m : Message) (t : Session)
    → s'.written ≡ s.written ++ wire m ∷ []
    → IsValid m
    → (receive_all (sent_since s s') t).1 ≡ (dispatch m t).1
receive_one s s' m t written valid =
    rw
      (ap (drop (length s.written)) written
        ∙ drop-append s.written (wire m ∷ []) (length s.written) refl)
      (rw (unmarshal-wire m valid) (continued (dispatch m t)))
  where
    continued : (r : Result (Unit {0}) × Session) → (continue (λ _. pure tt) r).1 ≡ r.1
    continued (ok u, t') = refl
    continued (err e, t') = refl

IsOpened-confirmed :
    (a a3 : Session) (i j size : ℕ)
    → i ≡ length a.channels
    → a3.objects ≡ a.objects ++ confirmed i j ∷ []
    → a3.channels ≡ a.channels ++ object (length a.objects) ∷ []
    → size ≤ channel_window_size
    → IsOpened i j (length a.objects) size a3
unfolding new_object lookup
IsOpened-confirmed a a3 i j size e objects channels fits = (
  confirmed i j,
  rw objects (get_elem?-append_length a.objects (confirmed i j) (length a.objects) refl),
  (refl, refl, refl),
  rw (channels, get_elem?-append_length a.channels (object (length a.objects)) i e) refl,
  refl,
  refl,
  refl,
  refl,
  fits,
)

IsOpened-answering :
    (b b1 : Session) (i j size : ℕ)
    → j ≡ length b.channels
    → b1.objects ≡ b.objects ++ answering i j ∷ []
    → b1.channels ≡ b.channels ++ object (length b.objects) ∷ []
    → size ≤ channel_window_size
    → IsOpened j i (length b.objects) size b1
unfolding new_object lookup
IsOpened-answering b b1 i j size e objects channels fits = (
  answering i j,
  rw objects (get_elem?-append_length b.objects (answering i j) (length b.objects) refl),
  (refl, refl, refl),
  rw (channels, get_elem?-append_length b.channels (object (length b.objects)) j e) refl,
  refl,
  refl,
  refl,
  refl,
  fits,
)

open_outcome_lem :
    (promise ref : ℕ) (before after : List Outcome)
    → after ≡ before ++ opened promise ref ∷ []
    → open_outcome promise (drop (length before) after) ≡ some (some ref)
open_outcome_lem promise ref before after e =
    rw
      (ap (drop (length before)) e
        ∙ drop-append before (opened promise ref ∷ []) (length before) refl)
      (ground arith)

accept_outcome_lem :
    (promise ref : ℕ) (before after : List Outcome)
    → after ≡ before ++ accepted promise (some ref) ∷ []
    → accept_outcome promise (drop (length before) after) ≡ some ref
accept_outcome_lem promise ref before after e =
    rw
      (ap (drop (length before)) e
        ∙ drop-append before (accepted promise (some ref) ∷ []) (length before) refl)
      (ground arith)

-- A session that nobody has opened a channel to, once `accept` waits.
abbrev accepting_session : ℕ → Session → Session
accepting_session promise b = record b {
  incoming = record b.incoming { q = []; waiters = promise ∷ [] };
}

accept_waits :
    (promise : ℕ) (b : Session)
    → b.incoming.closed ≡ false
    → b.incoming.q ≡ []
    → b.incoming.waiters ≡ []
    → accept promise b ≡ (ok tt, accepting_session promise b)
unfolding accept shift
accept_waits promise b still_open empty idle = rw (still_open, empty, idle) refl

module _ {N : Type 0} (numbers : Numbers N) where
  -- A call from one session to another that waits in `accept`, with nothing else queued, opens a channel,
  -- is answered on the channel that is accepted, and ends as the call over the bytes of its frames, if
  -- both sessions have room for a 32-bit id and are in a state that their methods keep, the call is made
  -- and answered, the four frames are values that the codec keeps, no longer than a packet and within the
  -- first window, and each side's read loop goes round twice against two calls of `decode`, in any order.
  pub call_opening-exchange_json :
      (es es' : List (Event ℕ)) (promise promise' : ℕ) (mux : List (Text × Handler (Json N)))
      (path : Text) (args : Json N) (call : Call) (header reply : Json N) (closes : Bool)
      (a b : Session)
      → Inv a
      → Inv b
      → IsU32 (length a.channels)
      → IsU32 (length b.channels)
      → b.incoming.closed ≡ false
      → b.incoming.q ≡ []
      → b.incoming.waiters ≡ []
      → new_call path ≡ ok call
      → respond_json numbers mux (call_json call) (some args) ≡ some (header ∷ reply ∷ [], closes)
      → Fits (json_codec numbers) (call_json call ∷ args ∷ [])
      → Fits (json_codec numbers) (header ∷ reply ∷ [])
      → length (flatten (messages (json_codec numbers) (call_json call ∷ args ∷ [])))
        ≤ channel_window_size
      → length (flatten (messages (json_codec numbers) (header ∷ reply ∷ []))) ≤ channel_window_size
      → AreTwo es
      → AreTwo es'
      → call_opening numbers es es' promise promise' mux path args a b
        ≡ exchange_json numbers mux path args
  unfolding call_opening
  call_opening-exchange_json es es' promise promise' mux path args call header reply closes a b va
        vb small small' still_open empty idle made answered asks replies window window' two two' =
      let i = length a.channels in
      let j = length b.channels in
      let waits_b = accept_waits promise' b still_open empty idle in
      let b0 = accepting_session promise' b in
      let v0 : Inv b0 = rw waits_b at ((Keeps-accept promise').at b vb) in
      let (wa, wb, oa, ob, ca, cb, outcomes) =
        open_handshake a b0 promise va v0 small small' still_open in
      let a1 = (open_channel promise a).1 in
      let b1 = (dispatch (offer i) b0).1 in
      let a2 = (dispatch (answer i j) a1).1 in
      let a3 = (resume (open_written (length a.objects) promise) a2).1 in
      rw waits_b (
        rw
          (
            receive_one a a1 (offer i) b0 wa (small, omega arith, omega arith),
            receive_one b0 b1 (answer i j) a1 wb (small, small', omega arith, omega arith),
            open_outcome_lem promise (length a.objects) a.outcomes a3.outcomes outcomes,
            accept_outcome_lem promise' (length b.objects) b0.outcomes b1.outcomes
                (dispatch-accepted b0 i promise' [] v0 small small' still_open refl),
          )
          (call_over-exchange_json numbers es es' (length a.objects) (length b.objects) i j mux path
            args call header reply closes a3 b1 made answered asks replies small small'
            (IsOpened-confirmed a a3 i j _ refl oa ca window')
            (IsOpened-answering b0 b1 i j _ refl ob cb window) two two'))
