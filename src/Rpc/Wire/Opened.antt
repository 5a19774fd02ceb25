-- ===== src/Rpc/Wire/Opened.antt =====
-- A whole call of javascript/rpc from `session.open()` on: the channel is opened between two sessions of
-- javascript/mux, and then carries the frames.
pub mod Ends
use qtalk.Base.{
  ℕ, ◌≤◌, ◌≡◌, refl, ap, ◌∙◌, Bool, false, List, [], ◌∷◌, ◌++◌, Option, none, some, length, drop,
  flatten, arith, get_elem?-append_length, drop-append, ◌==◌, if◌then◌else◌,
}
use qtalk.Base.Throws.{Result, ok, err, failed_to_open}
use qtalk.Bytes.{IsU32}
use qtalk.Channel.{new_object, channel_window_size}
use qtalk.Codec.{Message, IsValid}
use qtalk.Codec.Marshal.{wire}
use qtalk.Codec.RoundTrip.{unmarshal-wire}
use qtalk.Session.State.{
  Session, Outcome, opened, open_failed, accepted, open_written, pure, continue, object,
}
use qtalk.Session.Table.{lookup}
use qtalk.Session.Dispatch.{open_channel, accept, dispatch, resume}
use qtalk.Util.Queue.{shift}
use qtalk.Session.Invariant.{Inv}
use qtalk.Session.Preserve.Loop.{Keeps-accept}
use qtalk.Session.Offer.{offer, answer, answering, dispatch-accepted}
use qtalk.Session.Opening.{confirmed, open_handshake}
use qtalk.Rpc.Text.{Text}
use qtalk.Rpc.Call.{Call, new_call}
use qtalk.Rpc.Exchange.{Handler}
use qtalk.Rpc.Frame.Delivery.{messages, Fits}
use qtalk.Rpc.Frame.Ops.{Event}
use qtalk.Rpc.Frame.Passing.{receive_all, sent_since, IsOpened}
use qtalk.Rpc.Json.{Numbers, Json}
use qtalk.Rpc.Json.Codec.{json_codec}
use qtalk.Rpc.Wire.{CallEnd, rejects, waits, call_json, respond_json, exchange_json}
use qtalk.Rpc.Wire.Sessions.{call_over}
use qtalk.Rpc.Wire.Across.{AreTwo, call_over-exchange_json}

-- How the promise of `open` was resolved, if it was: with a channel, or by its error
abbrev pub open_outcome : ℕ → List Outcome → Option (Option ℕ)
open_outcome promise [] = none
open_outcome promise (opened p ref ∷ rest) =
    let later = open_outcome promise rest in if p == promise then some (some ref) else later
open_outcome promise (open_failed p ∷ rest) =
    let later = open_outcome promise rest in if p == promise then some none else later
open_outcome promise (_ ∷ rest) = open_outcome promise rest

-- The channel that the promise of `accept` was resolved with, if it was
abbrev pub accept_outcome : ℕ → List Outcome → Option ℕ
accept_outcome promise [] = none
accept_outcome promise (accepted p ref ∷ rest) =
    let later = accept_outcome promise rest in if p == promise then ref else later
accept_outcome promise (_ ∷ rest) = accept_outcome promise rest

module _ {N : Type 0} (numbers : Numbers N) where
  -- A call waits where nobody accepts its channel.
  abbrev pub by_open :
      List (Event ℕ)
      → List (Event ℕ)
      → List (Text × Handler (Json N))
      → Text
      → Json N
      → Option (Option ℕ)
      → Option ℕ
      → Session
      → Session
      → CallEnd N
  by_open es es' mux path args none ref' s t = waits
  by_open es es' mux path args (some none) ref' s t = rejects failed_to_open
  by_open es es' mux path args (some (some ref)) none s t = waits
  by_open es es' mux path args (some (some ref)) (some ref') s t =
      call_over numbers es es' ref ref' mux path args s t

  -- `call` of a session, answered by the other one, whose `respond` of the peer waits in `accept`: the
  -- offer arrives, the answer to it arrives, `open` goes on, and then `call` does, against `Respond` on
  -- the accepted channel.
  unfoldable pub call_opening :
      List (Event ℕ)
      → List (Event ℕ)
      → ℕ
      → ℕ
      → List (Text × Handler (Json N))
      → Text
      → Json N
      → Session
      → Session
      → CallEnd N
  unfolding call_over
  call_opening es es' promise promise' mux path args a b =
      let b0 = (accept promise' b).1 in
      let a1 = (open_channel promise a).1 in
      let b1 = (receive_all (sent_since a a1) b0).1 in
      let a2 = (receive_all (sent_since b0 b1) a1).1 in
      let a3 = (resume (open_written (length a.objects) promise) a2).1 in
      by_open es es' mux path args (open_outcome promise (drop (length a.outcomes) a3.outcomes))
        (accept_outcome promise' (drop (length b0.outcomes) b1.outcomes)) a3 b1
