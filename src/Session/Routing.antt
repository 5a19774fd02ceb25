-- ===== src/Session/Routing.antt =====
-- Where a message goes.
use qtalk.Base.{
  ℕ, zero, suc, ◌<◌, ◌≡◌, ap, ◌∙◌, ◌⊎◌, inl, inr, List, [], ◌∷◌, Option, none, some, length,
  get_elem?, arith, Option-cases, get_elem?_total,
}
use qtalk.Base.Throws.{err, type_error}
use qtalk.Channel.{Channel}
use qtalk.Codec.{
  Message, open_message, open_confirm, open_failure, window_adjust, data_message, eof_message,
  close_message,
}
use qtalk.Session.State.{Session, Slot, new_session}
use qtalk.Session.Table.{lookup, entry}
use qtalk.Session.Methods.{handle}
use qtalk.Session.Dispatch.{dispatch, get_ch, to_channel}
use qtalk.Session.Invariant.{Inv, lookup-IsOwn, IsNumbered-get_elem?}
use qtalk.Session.History.{Call, run, run-new_session-Inv}

-- The id that a message for a channel names.
abbrev pub channel_of : Message → Option ℕ
channel_of (open_message s w m) = none
channel_of (open_confirm c s w m) = some c
channel_of (open_failure c) = some c
channel_of (window_adjust c n) = some c
channel_of (data_message c len bytes) = some c
channel_of (eof_message c) = some c
channel_of (close_message c) = some c

dispatch_to :
    (m : Message) (id : ℕ) (s : Session) → channel_of m ≡ some id → dispatch m s ≡ to_channel id m s
unfolding dispatch
dispatch_to (open_message x w y) id s e = cc
dispatch_to (open_confirm c x w y) id s e = ground arith
dispatch_to (open_failure c) id s e = ground arith
dispatch_to (window_adjust c n) id s e = ground arith
dispatch_to (data_message c len bytes) id s e = ground arith
dispatch_to (eof_message c) id s e = ground arith
dispatch_to (close_message c) id s e = ground arith

pub entry_in :
    (slots : List Slot) (id ref : ℕ) → entry (get_elem? slots id) ≡ some ref → id < length slots
entry_in [] id ref e = cc
entry_in (x ∷ slots) zero ref e = omega arith
entry_in (x ∷ slots) (suc id) ref e = omega (arith, entry_in slots id ref e)

to_missing :
    (m : Message) (id : ℕ) (s : Session)
    → lookup id s.channels ≡ none
    → to_channel id m s ≡ (err type_error, s)
unfolding get_ch
to_missing m id s e = rw e

to_listed :
    (m : Message) (id ref : ℕ) (s : Session)
    → lookup id s.channels ≡ some ref
    → to_channel id m s ≡ handle ref m s
unfolding get_ch
to_listed m id ref s e = rw e

-- Either no channel has the id, and the message throws the language's TypeError and does nothing
-- else, or the channel with this local id handles it.
abbrev pub Routed : Session → ℕ → Message → Type 0
Routed s id m =
    ((lookup id s.channels ≡ none) × (dispatch m s ≡ (err type_error, s)))
    ⊎ ((ch : Channel) × (lookup id s.channels ≡ some id)
        × (get_elem? s.objects id ≡ some ch)
        × (ch.local_id ≡ id)
        × (dispatch m s ≡ handle id m s))

Routed-listed :
    (s : Session) (m : Message) (id ref : ℕ)
    → Inv s
    → channel_of m ≡ some id
    → lookup id s.channels ≡ some ref
    → Routed s id m
unfolding lookup
Routed-listed s m id ref v names e =
    let same : ref ≡ id = omega (arith, lookup-IsOwn 0 id s.channels ref v.own e) in
    let (ch, holds) =
      get_elem?_total s.objects id (omega (arith, entry_in s.channels id ref e, v.same_length)) in
    inr (
      ch,
      e ∙ ap some same,
      holds,
      omega (arith, IsNumbered-get_elem? 0 s.objects id ch v.numbered holds),
      dispatch_to m id s names ∙ to_listed m id ref s e ∙ ap (λ r. handle r m s) same,
    )

-- In any history of a session, a message is never handled by a channel other than the one whose
-- local id it names; if there is none, `getCh` throws a TypeError before `loop` can report it.
pub dispatch-Routed :
    (calls : List Call) (m : Message) (id : ℕ)
    → channel_of m ≡ some id
    → Routed (run calls new_session) id m
dispatch-Routed calls m id names =
    let s = run calls new_session in
    elim (Option-cases (lookup id s.channels)) [
      | inl e ↦ inl (e, dispatch_to m id s names ∙ to_missing m id s e)
      | inr (ref, e) ↦ Routed-listed s m id ref (run-new_session-Inv calls) names e
    ]
