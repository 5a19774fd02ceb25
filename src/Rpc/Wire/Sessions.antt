-- ===== src/Rpc/Wire/Sessions.antt =====
-- A whole call of javascript/rpc between two sessions of javascript/mux, on a channel that is open: the
-- caller's `call` on one and `Respond` on the other, with the messages that carry the four frames.
use qtalk.Base.{ℕ, Bool, List, [], ◌∷◌, Option, none, some, ◌==◌, if◌then◌else◌}
use qtalk.Base.Throws.{Result, ok, err}
use qtalk.Session.State.{Session}
use qtalk.Rpc.Text.{Text}
use qtalk.Rpc.Call.{Call, new_call}
use qtalk.Rpc.Exchange.{Handler}
use qtalk.Rpc.Frame.Ops.{Event}
use qtalk.Rpc.Frame.Crossing.{encode_all}
use qtalk.Rpc.Frame.Passing.{receive_all, sent_since, decode_on}
use qtalk.Rpc.Json.{Numbers, Json}
use qtalk.Rpc.Json.Codec.{json_codec}
use qtalk.Rpc.Wire.{call_json, CallEnd, rejects, waits, take_header, respond_json}

-- What a call of `decode` is resolved with, if it is
abbrev pub resolved : {V : Type 0} → ℕ → List (ℕ × V) → Option V
resolved w [] = none
resolved w ((w', v) ∷ rest) = let later = resolved w rest in if w == w' then some v else later

module _ {N : Type 0} (numbers : Numbers N) where
  -- The caller's side, from what the responder's session has written
  abbrev pub take_answer : List (Event ℕ) → ℕ → List (List ℕ) → Session → CallEnd N
  take_answer es ref written s =
      let (values, left) = decode_on (json_codec numbers) es 2 ref (receive_all written s).1 in
      take_header (resolved 1 values) (resolved 2 values)

  abbrev pub by_answer :
      List (Event ℕ) → ℕ → ℕ → Option (List (Json N) × Bool) → Session → Session → CallEnd N
  by_answer es ref ref' none s t = waits
  by_answer es ref ref' (some (frames, closes)) s t =
      let (result, t') = encode_all (json_codec numbers) ref' frames t in
      take_answer es ref (sent_since t t') s

  -- The responder's side, from the frame and the arguments that it decodes, with the caller's events
  abbrev pub by_frame :
      List (Event ℕ)
      → ℕ
      → ℕ
      → List (Text × Handler (Json N))
      → Option (Json N)
      → Option (Json N)
      → Session
      → Session
      → CallEnd N
  by_frame es ref ref' mux none args s t = waits
  by_frame es ref ref' mux (some frame) args s t =
      by_answer es ref ref' (respond_json numbers mux frame args) s t

  abbrev pub by_request :
      List (Event ℕ)
      → List (Event ℕ)
      → ℕ
      → ℕ
      → List (Text × Handler (Json N))
      → Session
      → Result (Unit {0}) × Session
      → Session
      → CallEnd N
  by_request es es' ref ref' mux s (err e, s') t = rejects e
  by_request es es' ref ref' mux s (ok u, s') t =
      let (values, t') =
        decode_on (json_codec numbers) es' 0 ref' (receive_all (sent_since s s') t).1 in
      by_frame es ref ref' mux (resolved 1 values) (resolved 2 values) s' t'

  abbrev pub by_call :
      List (Event ℕ)
      → List (Event ℕ)
      → ℕ
      → ℕ
      → List (Text × Handler (Json N))
      → Json N
      → Result Call
      → Session
      → Session
      → CallEnd N
  by_call es es' ref ref' mux args (err e) s t = rejects e
  by_call es es' ref ref' mux args (ok call) s t =
      by_request es es' ref ref' mux s
        (encode_all (json_codec numbers) ref (call_json call ∷ args ∷ []) s) t

  -- `call` on the channel `ref` of the session `s`, answered on the channel `ref'` of the session `t`.
  -- The two frame codecs start on what has arrived, and the events say how the rounds of their read
  -- loops and the two calls of `decode`, 1 and 2, follow each other.
  unfoldable pub call_over :
      List (Event ℕ)
      → List (Event ℕ)
      → ℕ
      → ℕ
      → List (Text × Handler (Json N))
      → Text
      → Json N
      → Session
      → Session
      → CallEnd N
  unfolding respond_json take_header call_json
  call_over es es' ref ref' mux path args s t = by_call es es' ref ref' mux args (new_call path) s t
