-- ===== src/Rpc/Text/Ends.antt =====
-- The part of a text behind its last slash is unique.
use mathlib.Core.Path.{subst}
use qtalk.Base.{ℕ, ◌≡◌, refl, sym, ap, ◌∙◌, false, List, [], ◌∷◌, ◌++◌, inl, inr, ◌==◌}
use qtalk.Base.Throws.{ok}
use qtalk.Rpc.Text.{Text, slash, split, join, init, last, IsPlain}
use qtalk.Rpc.Text.Laws.{split_cases, split_one, split_more}
use qtalk.Rpc.Call.{Call, Names, new_call, new_call-Names}

not_plain : {P : Type 0} (a m : Text) → IsPlain (a ++ slash ∷ m) → P
not_plain [] m plain = cc plain.0
not_plain (c ∷ a) m plain = not_plain a m plain.1

tail : Text → Text
tail [] = []
tail (c ∷ t) = t

last_unique :
    (a b m n : Text) → IsPlain m → IsPlain n → a ++ slash ∷ m ≡ b ++ slash ∷ n → (a ≡ b) × (m ≡ n)
unfolding tail
last_unique [] [] m n hm hn e = (refl, ap tail e)
last_unique [] (d ∷ b) m n hm hn e = not_plain b n (subst IsPlain (ap tail e) hm)
last_unique (c ∷ a) [] m n hm hn e = not_plain a m (subst IsPlain (sym (ap tail e)) hn)
last_unique (c ∷ a) (d ∷ b) m n hm hn e =
    let (rest, same) = last_unique a b m n hm hn (ap tail e) in (cc, same)

-- The last part of a text that ends in a slash and a part.
pub last-split :
    (a m : Text)
    → IsPlain m
    → (p : Text) × (ps : List Text) × (split (a ++ slash ∷ m) ≡ p ∷ ps) × (last p ps ≡ m)
last-split a m plain = by_parts (split_cases (a ++ slash ∷ m))
  where
    by_parts :
        ((p : Text) × (ps : List Text) × (split (a ++ slash ∷ m) ≡ p ∷ ps))
        → (p : Text) × (ps : List Text) × (split (a ++ slash ∷ m) ≡ p ∷ ps) × (last p ps ≡ m)
    by_parts (p, [], e) = not_plain a m ((split_one (a ++ slash ∷ m) p e).1)
    by_parts (p, q ∷ ps, e) =
        let (whole, ends) = split_more (a ++ slash ∷ m) p q ps e in
        (
          p,
          q ∷ ps,
          e,
          (last_unique (join (init p (q ∷ ps))) a (last p (q ∷ ps)) m ends plain whole).1,
        )

-- A destination that ends in a slash and a method, and does not start with a slash.
pub new_call-method :
    (c : ℕ) (rest method : Text)
    → (c == slash) ≡ false
    → IsPlain method
    → new_call (c ∷ rest ++ slash ∷ method)
      ≡ ok (record {
        destination = c ∷ rest ++ slash ∷ method;
        object_path = c ∷ rest;
        method = method;
      })
new_call-method c rest method other plain =
    let (call, e, names) = new_call-Names c (rest ++ slash ∷ method) in
    e ∙ ap ok (named call (rw other at names))
  where
    named :
        (call : Call)
        → Names call (c ∷ rest ++ slash ∷ method)
        → call ≡ record {
          destination = c ∷ rest ++ slash ∷ method;
          object_path = c ∷ rest;
          method = method;
        }
    named call (d, ends, inl (root, whole)) = not_plain (c ∷ rest) method (subst IsPlain whole ends)
    named call (d, ends, inr whole) =
        let (path, same) =
          last_unique call.object_path (c ∷ rest) call.method method ends plain whole in
        cc
