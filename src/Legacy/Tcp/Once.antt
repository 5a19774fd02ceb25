-- ===== src/Legacy/Tcp/Once.antt =====
-- Every promise of a `read` of `TCPConn` is settled once.
use mathlib.Core.Path.{subst}
use mathlib.Core.List.{Perm, perm_middle, map-append}
use mathlib.Core.List.Perm
use qtalk.Base.{
  ℕ, ◌≡◌, refl, sym, ap, ◌∙◌, Bool, true, false, not, ◌||◌, List, [], ◌∷◌, ◌++◌, append-nil,
  append_assoc, map, Option, none, some, if◌then◌else◌,
}
use qtalk.Legacy.Tcp.{
  Stream, Reader, Ending, resolved, rejected, Settled, TcpConn, Event, reads, writes, closes,
  on_readable, on_end, on_close, on_error, new_conn, settle, settle_all, finish, handled, stored,
  read_each, start_read, read_open, read, write, close, handle_readable, handle_error, step, run,
}

abbrev pub waiting : List Reader → List ℕ
waiting readers = map (λ (r : Reader). r.promise) readers

abbrev pub ended : {E : Type 0} → List (Settled E) → List ℕ
ended {E} settled = map (λ (s : Settled E). s.promise) settled

-- The promises that an event, or a sequence of them, gives out.
abbrev issued : {T E : Type 0} → Event T E → List ℕ
issued (reads promise len) = promise ∷ []
issued (writes buffer) = []
issued closes = []
issued (on_readable t) = []
issued (on_end t) = []
issued (on_close t) = []
issued (on_error e) = []

abbrev pub all_issued : {T E : Type 0} → List (Event T E) → List ℕ
all_issued [] = []
all_issued (event ∷ events) = issued event ++ all_issued events

-- A promise at the front, or at the end.
to_end : (p : ℕ) (ps : List ℕ) → Perm (p ∷ ps) (ps ++ p ∷ [])
to_end p ps =
    Perm.symm (subst (λ l. Perm (ps ++ p ∷ []) (p ∷ l)) (append-nil ps) (perm_middle ps []))

of_eq : (xs ys : List ℕ) → xs ≡ ys → Perm xs ys
of_eq xs ys e = subst (Perm xs) e (Perm.refl xs)

ended-settle_all :
    {E : Type 0} (ending : Ending E) (readers : List Reader)
    → ended (settle_all ending readers) ≡ waiting readers
ended-settle_all ending [] = refl
ended-settle_all ending (r ∷ rs) = ap (◌∷◌ r.promise) (ended-settle_all ending rs)

module _ {T E : Type 0} where
  -- The promises that are settled or wait after a step from a connection are those that waited before
  -- it, and those that it gives out.
  abbrev Balanced : TcpConn T E → List ℕ → TcpConn T E × List (Settled E) → Type 0
  Balanced c new (c', settled) =
      Perm (ended settled ++ waiting c'.readers) (waiting c.readers ++ new)

  finish-Balanced :
      (ending : Ending E) (c c' : TcpConn T E)
      → c'.readers ≡ c.readers
      → Balanced c [] (finish ending c')
  finish-Balanced ending c c' same =
      of_eq (ended (settle_all ending c'.readers) ++ []) (waiting c.readers ++ [])
        (ap (λ l. l ++ []) (ended-settle_all ending c'.readers ∙ ap waiting same))

-- What one reader's handler settles, or leaves waiting.
read_one :
    (E : Type 0) (r : Reader) (chunk : Option (List ℕ)) (readers : List Reader)
    → let (left, settled) = handled {E = E} r chunk in
      Perm (ended settled ++ waiting (readers ++ left)) (waiting readers ++ r.promise ∷ [])
read_one E r none readers =
    of_eq (waiting (readers ++ r ∷ [])) (waiting readers ++ r.promise ∷ [])
      (map-append (λ (r : Reader). r.promise) readers (r ∷ []))
read_one E r (some chunk) readers =
    subst (λ l. Perm (r.promise ∷ waiting l) (waiting readers ++ r.promise ∷ []))
      (sym (append-nil readers)) (to_end r.promise (waiting readers))

keep_one :
    {E : Type 0} (r : Reader) (chunk : Option (List ℕ)) (rs left : List Reader)
    (settled : List (Settled E))
    → Perm (ended settled ++ waiting left) (waiting rs)
    → let (left', settled') = handled {E = E} r chunk in
      Perm (ended (settled' ++ settled) ++ waiting (left' ++ left)) (waiting (r ∷ rs))
keep_one r none rs left settled rest =
    Perm.trans (perm_middle (ended settled) (waiting left)) (Perm.cons r.promise rest)
keep_one r (some chunk) rs left settled rest = Perm.cons r.promise rest

read_each-Perm :
    {T : Type 0} (E : Type 0) (stream : Stream T) (rs : List Reader) (t : T)
    → let (left, settled) = (read_each {E = E} stream rs t).0 in
      Perm (ended settled ++ waiting left) (waiting rs)
unfolding read_each
read_each-Perm E stream [] t = Perm.nil
read_each-Perm E stream (r ∷ rs) t =
    let (chunk, t') = stream.read r.len t in
    let ((left, settled), t'') = read_each {E = E} stream rs t' in
    keep_one r chunk rs left settled (read_each-Perm E stream rs t')

-- Two steps: what waits between them is settled by the second, or waits on.
two_steps :
    (first rest left between before given later : List ℕ)
    → Perm (first ++ between) (before ++ given)
    → Perm (rest ++ left) (between ++ later)
    → Perm ((first ++ rest) ++ left) (before ++ (given ++ later))
two_steps first rest left between before given later p q =
    rw (append_assoc first rest left, ← append_assoc before given later)
      (Perm.trans (Perm.append_left first q)
        (rw (← append_assoc first between later) (Perm.append_right later p)))

-- An event that settles nothing and gives out nothing.
unchanged : (readers : List Reader) → Perm (waiting readers) (waiting readers ++ [])
unchanged readers =
    of_eq (waiting readers) (waiting readers ++ []) (sym (append-nil (waiting readers)))

module _ {T E : Type 0} (stream : Stream T) where
  read_open-Balanced :
      (stored : Option E) (r : Reader) (c : TcpConn T E)
      → Balanced c (r.promise ∷ []) (read_open stream stored r c)
  read_open-Balanced (some e) r c = to_end r.promise (waiting c.readers)
  read_open-Balanced none r c =
      by_state (not (stream.readable c.stream) || stream.destroyed c.stream)
    where
      by_state :
          (over : Bool)
          → Balanced c
              (r.promise ∷ [])
              (if over then (c, settle (resolved none) r ∷ []) else start_read stream r c)
      by_state true = to_end r.promise (waiting c.readers)
      by_state false = read_one E r (stream.read r.len c.stream).0 c.readers

  step-Balanced :
      (event : Event T E) (c : TcpConn T E) → Balanced c (issued event) (step stream event c)
  unfolding step read write close handle_readable handle_error
  step-Balanced (reads promise len) c =
      read_open-Balanced c.error (record { promise = promise; len = len }) c
  step-Balanced (writes buffer) c = unchanged c.readers
  step-Balanced closes c = unchanged c.readers
  step-Balanced (on_readable t) c =
      rw (append-nil (waiting c.readers)) (read_each-Perm E stream c.readers t)
  step-Balanced (on_end t) c = finish-Balanced (resolved none) c (record c { stream = t }) refl
  step-Balanced (on_close t) c = finish-Balanced (resolved none) c (record c { stream = t }) refl
  step-Balanced (on_error e) c =
      finish-Balanced (rejected e) c (record c { error = stored e c.readers }) refl

  run-Balanced :
      (events : List (Event T E)) (c : TcpConn T E)
      → Balanced c (all_issued events) (run stream events c)
  unfolding run
  run-Balanced [] c = unchanged c.readers
  run-Balanced (event ∷ events) c =
      let (c1, first) = step stream event c in
      let (c2, rest) = run stream events c1 in
      rw (map-append (λ (s : Settled E). s.promise) first rest) (
        two_steps (ended first) (ended rest) (waiting c2.readers) (waiting c1.readers)
          (waiting c.readers) (issued event) (all_issued events) (step-Balanced event c)
          (run-Balanced events c1))

  -- Whatever happens to the socket, each promise of a read is settled or still waits, once for each
  -- time that it was given out; when the socket is closed none waits.
  pub run-Perm :
      (events : List (Event T E)) (t t' : T)
      → let (c, settled) = run stream events (new_conn t) in
        let (c', last) = step stream (on_close t') c in
        Perm (ended settled ++ waiting c.readers) (all_issued events)
        × (c'.readers ≡ [])
        × Perm (ended (settled ++ last)) (all_issued events)
  unfolding step
  run-Perm events t t' =
      let (c, settled) = run stream events (new_conn t) in
      let balanced = run-Balanced events (new_conn t) in
      let all = settle_all {E = E} (resolved none) c.readers in
      (
        balanced,
        refl,
        rw
            (
              map-append (λ (s : Settled E). s.promise) settled all,
              ended-settle_all {E = E} (resolved none) c.readers,
            )
            balanced,
      )
