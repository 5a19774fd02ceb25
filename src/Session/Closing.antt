-- ===== src/Session/Closing.antt =====
-- Closing a channel between two sessions.
use qtalk.Base.{
  ℕ, ◌≡◌, refl, ap, ◌∙◌, true, false, List, [], ◌∷◌, ◌++◌, Option, none, some, get_elem?, set, Bool,
  arith, get_elem?-set_self, get_elem?_in, Bool-cases, inl, inr,
}
use qtalk.Base.Throws.{Result, err, eof_sent}
use qtalk.Bytes.{IsU32}
use qtalk.Util.Queue.{Queue, shift}
use qtalk.Util.Queue
use qtalk.Channel.{Channel, Waker}
use qtalk.Codec.{Message, close_message, eof_message}
use qtalk.Codec.Marshal.{wire}
use qtalk.Session.State.{
  Session, hole, load, store, suspend, closed, close_written, resolve, read_values,
}
use qtalk.Session.Table.{lookup}
use qtalk.Session.Methods.{send, close, handle, write, close_write}
use qtalk.Session.Dispatch.{dispatch, get_ch, resume, shift_ready}
use qtalk.Session.Invariant.{Inv, IsNumbered-get_elem?}
use qtalk.Session.Shutdown.{
  Holds, after_close, after_shutdown, close_first_lem, told, close_second_lem, lookup-set_hole,
}

pub dispatch_close_lem :
    (s : Session) (id ref : ℕ)
    → lookup id s.channels ≡ some ref
    → dispatch (close_message id) s ≡ close ref none s
unfolding dispatch get_ch handle
dispatch_close_lem s id ref found = rw found

-- Both sides of the channel, before either has closed it.
pub record IsLinked (s : Session) (id other : ℕ) (ch : Channel) : Type 0 where
  pub inv : Inv s
  pub listed : lookup id s.channels ≡ some id
  pub holds : get_elem? s.objects id ≡ some ch
  pub names : ch.remote_id ≡ other
  pub fresh : ch.sent_close ≡ false
  pub waits : ch.ready.closed ≡ false

-- The rest of `close`: it waits for a value that only `shutdown` sends.
resume_close-outcomes :
    (s : Session) (ref : ℕ) (promise : Option ℕ) (ch : Channel)
    → Holds s ref ch
    → ch.ready.closed ≡ false
    → ((resume (close_written ref promise) s).1.outcomes ≡ s.outcomes)
      × ((resume (close_written ref promise) s).1.channels ≡ s.channels)
unfolding resume shift_ready load store suspend shift
resume_close-outcomes s ref promise ch at open_queue =
    rw (at, load)
      (rw
        (
          get_elem?-set_self s.objects ref (record ch { sent_close = true })
              (get_elem?_in s.objects ref ch at),
          load,
        )
        (ground arith))

-- The rest of `close` finds the ready queue closed: it ends, and its promise is resolved.
pub resume_closed :
    (s : Session) (ref : ℕ) (promise : Option ℕ) (ch : Channel)
    → Holds s ref ch
    → ch.ready.closed ≡ true
    → let r = (resume (close_written ref promise) s).1 in
      (r.written ≡ s.written)
      × (r.channels ≡ s.channels)
      × (r.outcomes ≡ s.outcomes ++ closed promise ∷ [])
unfolding resume shift_ready load store shift resolve
resume_closed s ref promise ch at done =
    rw (at, load)
      (rw
        (
          get_elem?-set_self s.objects ref (record ch { sent_close = true })
              (get_elem?_in s.objects ref ch at),
          load,
        )
        (rw done (refl, refl, refl)))

pub closed_queue : (q : Queue Bool Waker) → q.closed ≡ false → (Queue.close q).0.closed ≡ true
unfolding Queue.close
closed_queue q still_open = rw still_open refl

pub removed :
    (s : Session) (ch : Channel) (id : ℕ) {other : ℕ}
    → IsLinked s id other ch
    → lookup id (set s.channels ch.local_id hole) ≡ none
unfolding lookup
removed s ch id l =
    let e : ch.local_id ≡ id =
      omega (arith, IsNumbered-get_elem? 0 s.objects id ch l.inv.numbered l.holds) in
    rw e (lookup-set_hole s.channels id)

-- Two linked channels, the first of which is closed: each side sends a close message, and the
-- answer shuts the first down, whose entry goes and whose readers are told; when the first side's
-- `close` then goes on, it ends and its promise is resolved. The side that answers is not shut down:
-- its entry stays, and no promise is resolved, neither by the message nor when its own `close`
-- resumes.
pub close_handshake :
    (a b : Session) (i j promise : ℕ) (cha chb : Channel)
    → IsLinked a i j cha
    → IsLinked b j i chb
    → IsU32 i
    → IsU32 j
    → let a1 = (close i (some promise) a).1 in
      let b1 = (dispatch (close_message j) b).1 in
      let a2 = (dispatch (close_message i) a1).1 in
      let a3 = (resume (close_written i (some promise)) a2).1 in
      let b2 = (resume (close_written j none) b1).1 in
      (a1.written ≡ a.written ++ wire (close_message j) ∷ [])
      × (b1.written ≡ b.written ++ wire (close_message i) ∷ [])
      × (lookup i a2.channels ≡ none)
      × (a2.outcomes ≡ (a.outcomes ++ read_values (told cha.readers)) ++ closed none ∷ [])
      × (a3.outcomes ≡ a2.outcomes ++ closed (some promise) ∷ [])
      × (lookup j b2.channels ≡ some j)
      × (b2.outcomes ≡ b.outcomes)
close_handshake a b i j promise cha chb la lb small_i small_j =
    let a_closes = close_first_lem a i (some promise) cha la.holds la.fresh (rw la.names small_j) in
    let b_answers = close_first_lem b j none chb lb.holds lb.fresh (rw lb.names small_i) in
    let at_b = dispatch_close_lem b j j lb.listed in
    let stored_a =
      get_elem?-set_self a.objects i (record cha { sent_close = true })
        (get_elem?_in a.objects i cha la.holds) in
    let stored_b =
      get_elem?-set_self b.objects j (record chb { sent_close = true })
        (get_elem?_in b.objects j chb lb.holds) in
    let a1 = after_close i (some promise) cha a in
    let a_gets = dispatch_close_lem a1 i i la.listed in
    let closing = record cha { sent_close = true } in
    let a_ends = close_second_lem a1 i none closing stored_a refl in
    let shut = record closing { read_buf = none; ready = (Queue.close closing.ready).0 } in
    let a2 = record (after_shutdown i closing a1) {
      outcomes = (a.outcomes ++ read_values (told cha.readers)) ++ closed none ∷ [];
    } in
    let (_, _, a_resumes) =
      resume_closed a2 i (some promise) shut
        (get_elem?-set_self a1.objects i shut (get_elem?_in a1.objects i closing stored_a))
        (closed_queue cha.ready la.waits) in
    let b_resumes =
      resume_close-outcomes (after_close j none chb b) j none (record chb { sent_close = true })
        stored_b lb.waits in
    rw (a_closes, at_b, b_answers, a_gets, a_ends)
      (
        ap (λ id. a.written ++ wire (close_message id) ∷ []) la.names,
        ap (λ id. b.written ++ wire (close_message id) ∷ []) lb.names,
        removed a cha i la,
        refl,
        a_resumes,
        ap (lookup j) b_resumes.1 ∙ lb.listed,
        b_resumes.0,
      )

send_sent :
    (s : Session) (ref : ℕ) (m : Message) (ch : Channel)
    → Holds s ref ch
    → ch.sent_close ≡ true
    → send ref m s ≡ (err eof_sent, s)
unfolding send load
send_sent s ref m ch at sent = rw (at, load) (rw sent)

write_sent :
    (s : Session) (ref : ℕ) (buffer : List ℕ) (ch : Channel)
    → Holds s ref ch
    → ch.sent_close ≡ true
    → write ref buffer s ≡ (err eof_sent, s)
unfolding write load
write_sent s ref buffer ch at sent = elim (Bool-cases ch.sent_eof) [
  | inl e ↦ rw (at, load) (rw e)
  | inr e ↦ rw (at, load) (rw e (send_sent s ref _ ch at sent))
]

close_write_sent :
    (s : Session) (ref : ℕ) (ch : Channel)
    → Holds s ref ch
    → ch.sent_close ≡ true
    → ((close_write ref s).0 ≡ err eof_sent) × ((close_write ref s).1.written ≡ s.written)
unfolding close_write load store
close_write_sent s ref ch at sent =
    let again =
      send_sent (record s { objects = set s.objects ref (record ch { sent_eof = true }) }) ref
        (eof_message ch.remote_id) (record ch { sent_eof = true })
        (get_elem?-set_self s.objects ref (record ch { sent_eof = true })
          (get_elem?_in s.objects ref ch at))
        sent in
    rw (at, load) (rw again (refl, refl))

-- Once a channel has sent its close message, nothing more is written for it: `write` and
-- `closeWrite` throw, and another `close` writes nothing.
pub sent_close-written :
    (s : Session) (ref : ℕ) (promise : Option ℕ) (buffer : List ℕ) (ch : Channel)
    → get_elem? s.objects ref ≡ some ch
    → ch.sent_close ≡ true
    → (write ref buffer s ≡ (err eof_sent, s))
      × ((close_write ref s).0 ≡ err eof_sent)
      × ((close_write ref s).1.written ≡ s.written)
      × ((close ref promise s).1.written ≡ s.written)
sent_close-written s ref promise buffer ch at sent = (
  write_sent s ref buffer ch at sent,
  (close_write_sent s ref ch at sent).0,
  (close_write_sent s ref ch at sent).1,
  ap (λ (r : Result (Unit {0}) × Session). r.1.written) (close_second_lem s ref promise ch at sent),
)
