-- ===== src/Session/Invariant.antt =====
-- The table of channels and the channel objects agree: the object made as number i has `localId` i,
-- and entry i of the table is that object or nothing.
use qtalk.Base.{
  ℕ, zero, suc, ◌+◌, ◌≡◌, refl, sym, ap, ◌∙◌, List, [], ◌∷◌, ◌++◌, some, length, get_elem?, set,
  arith, length-append, length-set,
}
use qtalk.Channel.{Channel}
use qtalk.Session.State.{Session, Slot, hole, unset, object, store, new_session}
use qtalk.Session.Table.{fill, add_ch, entry}

-- The objects from number i on carry their numbers as `localId`.
abbrev pub IsNumbered : ℕ → List Channel → Type 0
IsNumbered i [] = Unit {0}
IsNumbered i (ch ∷ chs) = (ch.local_id ≡ i) × IsNumbered (suc i) chs

-- The entries from number i on are their own objects, or holes.
abbrev pub IsOwn : ℕ → List Slot → Type 0
IsOwn i [] = Unit {0}
IsOwn i (hole ∷ slots) = IsOwn (suc i) slots
IsOwn i (unset ∷ slots) = ⊥
IsOwn i (object ref ∷ slots) = (ref ≡ i) × IsOwn (suc i) slots

pub record Inv (s : Session) : Type 0 where
  pub numbered : IsNumbered 0 s.objects
  pub own : IsOwn 0 s.channels
  pub same_length : length s.channels ≡ length s.objects

IsNumbered-set :
    (i : ℕ) (chs : List Channel) (ref : ℕ) (ch ch' : Channel)
    → IsNumbered i chs
    → get_elem? chs ref ≡ some ch
    → ch'.local_id ≡ ch.local_id
    → IsNumbered i (set chs ref ch')
IsNumbered-set i [] ref ch ch' n at same = tt
IsNumbered-set i (c ∷ chs) zero ch ch' n at same = ground arith
IsNumbered-set i (c ∷ chs) (suc ref) ch ch' n at same =
    (n.0, IsNumbered-set (suc i) chs ref ch ch' n.1 at same)

pub IsNumbered-append :
    (i : ℕ) (chs : List Channel) (ch : Channel)
    → IsNumbered i chs
    → ch.local_id ≡ i + length chs
    → IsNumbered i (chs ++ ch ∷ [])
IsNumbered-append i [] ch n e = (omega arith, tt)
IsNumbered-append i (c ∷ chs) ch n e = (n.0, IsNumbered-append (suc i) chs ch n.1 (omega arith))

pub IsNumbered-get_elem? :
    (i : ℕ) (chs : List Channel) (k : ℕ) (ch : Channel)
    → IsNumbered i chs
    → get_elem? chs k ≡ some ch
    → ch.local_id ≡ i + k
IsNumbered-get_elem? i [] k ch n e = cc
IsNumbered-get_elem? i (c ∷ chs) zero ch n e = ground arith
IsNumbered-get_elem? i (c ∷ chs) (suc k) ch n e =
    omega (arith, IsNumbered-get_elem? (suc i) chs k ch n.1 e)

pub IsOwn-set_hole :
    (i : ℕ) (slots : List Slot) (k : ℕ) → IsOwn i slots → IsOwn i (set slots k hole)
IsOwn-set_hole i [] k o = tt
IsOwn-set_hole i (hole ∷ slots) zero o = o
IsOwn-set_hole i (unset ∷ slots) k o = absurd o
IsOwn-set_hole i (object ref ∷ slots) zero o = o.1
IsOwn-set_hole i (hole ∷ slots) (suc k) o = IsOwn-set_hole (suc i) slots k o
IsOwn-set_hole i (object ref ∷ slots) (suc k) o = (o.0, IsOwn-set_hole (suc i) slots k o.1)

pub IsOwn-append :
    (i : ℕ) (slots : List Slot) (ref : ℕ)
    → IsOwn i slots
    → ref ≡ i + length slots
    → IsOwn i (slots ++ object ref ∷ [])
IsOwn-append i [] ref o e = (omega arith, tt)
IsOwn-append i (hole ∷ slots) ref o e = IsOwn-append (suc i) slots ref o (omega arith)
IsOwn-append i (unset ∷ slots) ref o e = absurd o
IsOwn-append i (object r ∷ slots) ref o e = (o.0, IsOwn-append (suc i) slots ref o.1 (omega arith))

-- With no entry `undefined`, the `forEach` of `addCh` changes nothing.
pub fill-IsOwn : (i ref : ℕ) (slots : List Slot) → IsOwn i slots → fill ref slots ≡ slots
unfolding fill
fill-IsOwn i ref [] o = refl
fill-IsOwn i ref (hole ∷ slots) o = ap (◌∷◌ hole) (fill-IsOwn (suc i) ref slots o)
fill-IsOwn i ref (unset ∷ slots) o = absurd o
fill-IsOwn i ref (object r ∷ slots) o = ap (◌∷◌ (object r)) (fill-IsOwn (suc i) ref slots o.1)

pub add_ch-IsOwn :
    (ref : ℕ) (slots : List Slot)
    → IsOwn 0 slots
    → add_ch ref slots ≡ (slots ++ object ref ∷ [], length slots)
unfolding add_ch
add_ch-IsOwn ref slots o =
    ground (arith, fill-IsOwn 0 ref slots o, length-append slots (object ref ∷ []))

pub lookup-IsOwn :
    (i k : ℕ) (slots : List Slot) (ref : ℕ)
    → IsOwn i slots
    → entry (get_elem? slots k) ≡ some ref
    → ref ≡ i + k
lookup-IsOwn i k [] ref o e = cc
lookup-IsOwn i zero (hole ∷ slots) ref o e = cc
lookup-IsOwn i k (unset ∷ slots) ref o e = absurd o
lookup-IsOwn i zero (object r ∷ slots) ref o e = ground arith
lookup-IsOwn i (suc k) (hole ∷ slots) ref o e = omega (arith, lookup-IsOwn (suc i) k slots ref o e)
lookup-IsOwn i (suc k) (object r ∷ slots) ref o e =
    omega (arith, lookup-IsOwn (suc i) k slots ref o.1 e)

pub Inv-store :
    (s : Session) (ref : ℕ) (ch ch' : Channel)
    → Inv s
    → get_elem? s.objects ref ≡ some ch
    → ch'.local_id ≡ ch.local_id
    → Inv (store ref ch' s).1
unfolding store
Inv-store s ref ch ch' v at same = record {
  numbered = IsNumbered-set 0 s.objects ref ch ch' v.numbered at same;
  own = v.own;
  same_length = v.same_length ∙ sym (length-set s.objects ref ch');
}

pub Inv-new_session : Inv new_session
unfolding new_session
Inv-new_session = record { numbered = tt; own = tt; same_length = refl }
