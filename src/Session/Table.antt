-- ===== src/Session/Table.antt =====
-- `addCh`, `rmCh` and `getCh` of javascript/mux/session.ts on the array of channels. The first and the
-- last are also those of javascript/legacy/qmux/src/qmux.ts.
use qtalk.Base.{ℕ, ◌-◌, List, [], ◌∷◌, ◌++◌, Option, none, some, get_elem?, set, length}
use qtalk.Session.State.{Slot, hole, unset, object}

-- The `forEach` of `addCh`. It visits entries, not holes; the `return i` ends only its callback.
unfoldable pub fill : ℕ → List Slot → List Slot
fill ref [] = []
fill ref (hole ∷ rest) = hole ∷ fill ref rest
fill ref (unset ∷ rest) = object ref ∷ fill ref rest
fill ref (object other ∷ rest) = object other ∷ fill ref rest

unfoldable pub add_ch : ℕ → List Slot → List Slot × ℕ
unfolding fill
add_ch ref channels =
    let channels' = fill ref channels ++ object ref ∷ [] in (channels', length channels' - 1)

-- `delete this.channels[id]`
unfoldable pub rm_ch : ℕ → List Slot → List Slot
rm_ch id channels = set channels id hole

-- `this.channels[id]`, `none` for `undefined`
abbrev pub entry : Option Slot → Option ℕ
entry none = none
entry (some hole) = none
entry (some unset) = none
entry (some (object ref)) = some ref

unfoldable pub lookup : ℕ → List Slot → Option ℕ
lookup id channels = entry (get_elem? channels id)
