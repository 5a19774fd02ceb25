-- ===== src/Legacy/Table.antt =====
-- The channel table of javascript/legacy/qmux/src/qmux.ts: `addCh` and `getCh` are those of
-- Session.Table, and `rmCh` assigns `undefined` where the current one deletes the entry.
use qtalk.Base.{
  ℕ, zero, suc, ◌<◌, ◌≡◌, refl, ap, ◌∙◌, List, [], ◌∷◌, some, length, get_elem?, arith,
  length-append, get_elem?-append_left, get_elem?-append_length,
}
use qtalk.Session.State.{Slot, hole, unset, object}
use qtalk.Session.Table.{fill, add_ch, lookup, entry}

-- `this.channels[id] = undefined`, which makes the array longer if it ends before.
unfoldable pub rm_ch : ℕ → List Slot → List Slot
rm_ch zero [] = unset ∷ []
rm_ch zero (x ∷ slots) = unset ∷ slots
rm_ch (suc id) [] = hole ∷ rm_ch id []
rm_ch (suc id) (x ∷ slots) = x ∷ rm_ch id slots

length-fill : (ref : ℕ) (slots : List Slot) → length (fill ref slots) ≡ length slots
unfolding fill
length-fill ref [] = refl
length-fill ref (hole ∷ slots) = ap suc (length-fill ref slots)
length-fill ref (unset ∷ slots) = ap suc (length-fill ref slots)
length-fill ref (object r ∷ slots) = ap suc (length-fill ref slots)

length-rm_ch :
    (id : ℕ) (slots : List Slot) → id < length slots → length (rm_ch id slots) ≡ length slots
unfolding rm_ch
length-rm_ch id [] h = absurd (omega arith)
length-rm_ch zero (x ∷ slots) h = refl
length-rm_ch (suc id) (x ∷ slots) h = ap suc (length-rm_ch id slots (omega arith))

fill-rm_ch :
    (ref id : ℕ) (slots : List Slot)
    → id < length slots
    → get_elem? (fill ref (rm_ch id slots)) id ≡ some (object ref)
unfolding fill rm_ch
fill-rm_ch ref id [] h = absurd (omega arith)
fill-rm_ch ref zero (x ∷ slots) h = refl
fill-rm_ch ref (suc id) (hole ∷ slots) h = fill-rm_ch ref id slots (omega arith)
fill-rm_ch ref (suc id) (unset ∷ slots) h = fill-rm_ch ref id slots (omega arith)
fill-rm_ch ref (suc id) (object r ∷ slots) h = fill-rm_ch ref id slots (omega arith)

-- After a channel is removed, the next one that is made takes its entry too, besides the new entry
-- whose number becomes its id: a late message for the old channel is handled by the new one.
pub add_ch-rm_ch :
    (ref id : ℕ) (slots : List Slot)
    → id < length slots
    → let r = add_ch ref (rm_ch id slots) in
      (r.1 ≡ length slots) × (lookup id r.0 ≡ some ref) × (lookup (length slots) r.0 ≡ some ref)
unfolding add_ch lookup
add_ch-rm_ch ref id slots h =
    let filled = fill ref (rm_ch id slots) in
    let size : length filled ≡ length slots =
      length-fill ref (rm_ch id slots) ∙ length-rm_ch id slots h in
    (
      omega (arith, length-append filled (object ref ∷ []), size),
      ap entry (
          get_elem?-append_left filled (object ref ∷ []) id (omega (arith, size))
          ∙ fill-rm_ch ref id slots h),
      ap entry (get_elem?-append_length filled (object ref) (length slots) (omega (arith, size))),
    )
