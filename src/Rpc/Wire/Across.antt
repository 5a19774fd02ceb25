-- ===== src/Rpc/Wire/Across.antt =====
-- A call between two sessions ends as the call over the bytes of its frames.
use qtalk.Base.{
  ℕ, ◌≡◌, refl, sym, ◌∙◌, Bool, List, [], ◌∷◌, some, length, take, flatten, inl, inr, arith,
}
use qtalk.Base.Throws.{Result, ok, err}
use qtalk.Bytes.{IsU32}
use qtalk.Session.State.{Session}
use qtalk.Util.Queue.Fifo.{pairs}
use qtalk.Rpc.Text.{Text}
use qtalk.Rpc.Call.{Call, new_call}
use qtalk.Rpc.Exchange.{Handler}
use qtalk.Rpc.Frame.Delivery.{messages, Fits}
use qtalk.Rpc.Frame.Ops.{Event, rounds, readers}
use qtalk.Rpc.Frame.Crossing.{encode_all}
use qtalk.Rpc.Frame.Passing.{receive_all, sent_since, decode_on, IsOpened, encode_all-decode_on}
use qtalk.Rpc.Json.{Numbers, Json}
use qtalk.Rpc.Json.Codec.{json_codec}
use qtalk.Rpc.Wire.{call_json, take_header, respond_json, exchange_json}
use qtalk.Rpc.Wire.Refines.{crossed_lem}
use qtalk.Rpc.Wire.Sessions.{call_over, by_request, by_frame, resolved}

-- Two rounds of a read loop and the two calls of `decode`, in any order
abbrev pub AreTwo : List (Event ℕ) → Type 0
AreTwo es = (rounds es ≡ 2) × (readers es ≡ 1 ∷ 2 ∷ [])

two_values :
    {V : Type 0} (es : List (Event ℕ)) (a b : V)
    → AreTwo es
    → pairs (readers es) (take (rounds es) (a ∷ b ∷ [])) ≡ (1, a) ∷ (2, b) ∷ []
two_values es a b (rounds_two, readers_two) = rw (rounds_two, readers_two) refl

IsOpened-same :
    (id id' ref size : ℕ) (s s' : Session)
    → s'.objects ≡ s.objects
    → s'.channels ≡ s.channels
    → IsOpened id id' ref size s
    → IsOpened id id' ref size s'
IsOpened-same id id' ref size s s' objects channels opened = rw (objects, channels) opened

module _ {N : Type 0} (numbers : Numbers N) where
  by_request-by_frame :
      (es es' : List (Event ℕ)) (ref ref' : ℕ) (mux : List (Text × Handler (Json N)))
      (s t : Session) (r : Result (Unit {0}) × Session)
      → r.0 ≡ ok tt
      → let v = decode_on (json_codec numbers) es' 0 ref' (receive_all (sent_since s r.1) t).1 in
        by_request numbers es es' ref ref' mux s r t
        ≡ by_frame numbers es ref ref' mux (resolved 1 v.0) (resolved 2 v.0) r.1 v.1
  by_request-by_frame es es' ref ref' mux s t (err e, s') done = cc
  by_request-by_frame es es' ref ref' mux s t (ok u, s') done = refl

  exchange_json-answer :
      (mux : List (Text × Handler (Json N))) (path : Text) (args : Json N) (call : Call)
      (header reply : Json N) (closes : Bool)
      → new_call path ≡ ok call
      → respond_json numbers mux (call_json call) (some args) ≡ some (header ∷ reply ∷ [], closes)
      → Fits (json_codec numbers) (call_json call ∷ args ∷ [])
      → Fits (json_codec numbers) (header ∷ reply ∷ [])
      → exchange_json numbers mux path args ≡ take_header (some header) (some reply)
  unfolding exchange_json
  exchange_json-answer mux path args call header reply closes made answered asks replies = rw made (
      rw (crossed_lem numbers (call_json call) asks.0.0, crossed_lem numbers args asks.1.0.0)
        (rw answered (
          rw (crossed_lem numbers header replies.0.0, crossed_lem numbers reply replies.1.0.0)
            refl)))

  -- A call on an open channel of one session, answered on the open channel of the other session that it
  -- leads to, ends as the same call over the bytes of its frames, where each session handles what the
  -- other has written and the frame codecs start on what has arrived, if the call is made and answered,
  -- the four frames are values that the codec keeps, no longer than a packet and within the windows, and
  -- each side's read loop goes round twice against two calls of `decode`, in any order.
  pub call_over-exchange_json :
      (es es' : List (Event ℕ)) (ref ref' id id' : ℕ) (mux : List (Text × Handler (Json N)))
      (path : Text) (args : Json N) (call : Call) (header reply : Json N) (closes : Bool)
      (s t : Session)
      → new_call path ≡ ok call
      → respond_json numbers mux (call_json call) (some args) ≡ some (header ∷ reply ∷ [], closes)
      → Fits (json_codec numbers) (call_json call ∷ args ∷ [])
      → Fits (json_codec numbers) (header ∷ reply ∷ [])
      → IsU32 id
      → IsU32 id'
      → IsOpened id id' ref
          (length (flatten (messages (json_codec numbers) (header ∷ reply ∷ []))))
          s
      → IsOpened id' id ref'
          (length (flatten (messages (json_codec numbers) (call_json call ∷ args ∷ []))))
          t
      → AreTwo es
      → AreTwo es'
      → call_over numbers es es' ref ref' mux path args s t ≡ exchange_json numbers mux path args
  unfolding call_over
  call_over-exchange_json es es' ref ref' id id' mux path args call header reply closes s t made
        answered asks replies small small' opened opened' two two' =
      let codec = json_codec numbers in
      let request = call_json call ∷ args ∷ [] in
      let r = encode_all codec ref request s in
      let v = decode_on codec es' 0 ref' (receive_all (sent_since s r.1) t).1 in
      let (done, objects, channels, values, writes) =
        encode_all-decode_on codec es' request 0 id id' ref ref' s t (opened.0, opened.1, opened.2)
          small' opened' asks (inl refl) (omega (arith, two'.0)) in
      let (done', objects', channels', values', writes') =
        encode_all-decode_on codec es (header ∷ reply ∷ []) 2 id' id ref' ref v.1 r.1 writes small
          (IsOpened-same id id' ref _ s r.1 objects channels opened) replies
          (inr (omega (arith, two.0))) (omega (arith, two.0)) in
      rw made (
        by_request-by_frame es es' ref ref' mux s t r done
        ∙ rw
            (
              values ∙ two_values es' (call_json call) args two',
              answered,
              values' ∙ two_values es header reply two,
            )
            (sym (
              exchange_json-answer mux path args call header reply closes made answered asks
                replies)))
