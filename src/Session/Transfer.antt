-- ===== src/Session/Transfer.antt =====
-- Data from a channel of one session to the channel of another.
use qtalk.Base.{
  ℕ, ◌-◌, ◌≤◌, ◌≡◌, refl, ap, ◌∙◌, sym, Bool, true, false, All, if◌then◌else◌, List, [], ◌∷◌, ◌++◌,
  some, length, map, flatten, set, get_elem?, arith, get_elem?-set_self, set-get_elem?,
  get_elem?_in, append_assoc, append-nil, length-append,
}
use qtalk.Base.Throws.{Result, ok}
use qtalk.Bytes.{IsByte, IsU32}
use qtalk.Channel.{Channel, handle_data, wake_first}
use qtalk.Codec.{Message, data_message, IsValid}
use qtalk.Codec.Marshal.{wire}
use qtalk.Codec.RoundTrip.{marshal-wire}
use qtalk.Session.State.{Session, M, pure, ◌>>◌, load, store, resolve_reads}
use qtalk.Session.Table.{lookup}
use qtalk.Session.Methods.{encode, write_buffer, send, write, handle}
use qtalk.Session.Dispatch.{get_ch, dispatch}

-- The session after it has written some messages.
abbrev pub after_writes : List Message → Session → Session
after_writes ms s = record s { written = s.written ++ map wire ms }

take_else :
    {A : Type 0} (b : Bool) (x y : M A) (s : Session) (r : Result A × Session)
    → b ≡ false
    → y s ≡ r
    → (if b then x else y) s ≡ r
take_else true x y s r e h = cc
take_else false x y s r e h = h

send_data :
    (s : Session) (ref : ℕ) (ch : Channel) (bytes : List ℕ)
    → get_elem? s.objects ref ≡ some ch
    → ch.sent_close ≡ false
    → IsValid (data_message ch.remote_id (length bytes) bytes)
    → send ref (data_message ch.remote_id (length bytes) bytes) s
      ≡ (ok tt, after_writes (data_message ch.remote_id (length bytes) bytes ∷ []) s)
unfolding send load store encode
send_data s ref ch bytes at no_close valid =
    let message = data_message ch.remote_id (length bytes) bytes in
    let same : set s.objects ref (record ch { sent_close = false }) ≡ s.objects =
      ap (λ (b : Bool). set s.objects ref (record ch { sent_close = b })) (sym no_close)
      ∙ set-get_elem? s.objects ref ch at in
    rw (at, load)
      (take_else ch.sent_close _ _ s (ok tt, after_writes (message ∷ []) s) no_close
        (rw (marshal-wire message valid, write_buffer, same)))

pub write_lem :
    (s : Session) (ref : ℕ) (ch : Channel) (bytes : List ℕ)
    → get_elem? s.objects ref ≡ some ch
    → ch.sent_eof ≡ false
    → ch.sent_close ≡ false
    → IsValid (data_message ch.remote_id (length bytes) bytes)
    → write ref bytes s
      ≡ (ok tt, after_writes (data_message ch.remote_id (length bytes) bytes ∷ []) s)
unfolding write load
write_lem s ref ch bytes at no_eof no_close valid =
    rw (at, load)
      (take_else ch.sent_eof _ _ s _ no_eof (send_data s ref ch bytes at no_close valid))

-- The channel and the session after data that no reader waits for.
abbrev pub buffered : Channel → List ℕ → List ℕ → Channel
buffered ch buf bytes = record ch {
  my_window = ch.my_window - length bytes;
  read_buf = some (buf ++ bytes);
}

abbrev after_data : ℕ → Channel → Session → Session
after_data ref ch s = record s { objects = set s.objects ref ch; outcomes = s.outcomes ++ [] }

handle_data_lem :
    (ch : Channel) (buf bytes : List ℕ)
    → ch.readers ≡ []
    → ch.read_buf ≡ some buf
    → length bytes ≤ ch.max_incoming_payload
    → length bytes ≤ ch.my_window
    → handle_data (length bytes) bytes ch ≡ ok (buffered ch buf bytes, [])
unfolding handle_data wake_first
handle_data_lem ch buf bytes idle has small fits = ground arith

dispatch_data :
    (id ref : ℕ) (ch : Channel) (buf bytes : List ℕ) (s : Session)
    → lookup id s.channels ≡ some ref
    → get_elem? s.objects ref ≡ some ch
    → ch.readers ≡ []
    → ch.read_buf ≡ some buf
    → length bytes ≤ ch.max_incoming_payload
    → length bytes ≤ ch.my_window
    → dispatch (data_message id (length bytes) bytes) s
      ≡ (ok tt, after_data ref (buffered ch buf bytes) s)
unfolding dispatch get_ch handle load store resolve_reads
dispatch_data id ref ch buf bytes s listed at idle has small fits =
    rw listed (rw at (rw (handle_data_lem ch buf bytes idle has small fits)))

abbrev pub write_all : ℕ → List (List ℕ) → M (Unit {0})
write_all ref [] = pure tt
write_all ref (b ∷ bs) = write ref b >> write_all ref bs

abbrev pub dispatch_all : List Message → M (Unit {0})
dispatch_all [] = pure tt
dispatch_all (m ∷ ms) = dispatch m >> dispatch_all ms

abbrev pub data_messages : ℕ → List (List ℕ) → List Message
data_messages id bs = map (λ b. data_message id (length b) b) bs

-- Buffers of bytes whose length a data message can carry
abbrev pub AreSendable : List (List ℕ) → Type 0
AreSendable bs = All (λ b. IsU32 (length b) × All IsByte b) bs

write_all_lem :
    (bs : List (List ℕ)) (s : Session) (ref : ℕ) (ch : Channel)
    → get_elem? s.objects ref ≡ some ch
    → ch.sent_eof ≡ false
    → ch.sent_close ≡ false
    → IsU32 ch.remote_id
    → AreSendable bs
    → write_all ref bs s ≡ (ok tt, after_writes (data_messages ch.remote_id bs) s)
write_all_lem [] s ref ch at no_eof no_close small sendable = rw (append-nil s.written)
write_all_lem (b ∷ bs) s ref ch at no_eof no_close small sendable =
    let message = data_message ch.remote_id (length b) b in
    let first = write_lem s ref ch b at no_eof no_close (small, sendable.0.0, refl, sendable.0.1) in
    rw first (
      write_all_lem bs (after_writes (message ∷ []) s) ref ch at no_eof no_close small sendable.1
      ∙ ap (λ w. (ok tt, record s { written = w }))
          (append_assoc s.written (wire message ∷ []) (map wire (data_messages ch.remote_id bs))))

-- The channel has these bytes more in its buffer and as much less window, and is as before otherwise.
abbrev pub Arrived : ℕ → Channel → List ℕ → List ℕ → Result (Unit {0}) × Session → Type 0
Arrived ref ch buf bytes r =
    (r.0 ≡ ok tt) × (get_elem? r.1.objects ref ≡ some (buffered ch buf bytes))

dispatch_all-Arrived :
    (bs : List (List ℕ)) (id ref : ℕ) (ch : Channel) (buf : List ℕ) (s : Session)
    → lookup id s.channels ≡ some ref
    → get_elem? s.objects ref ≡ some ch
    → ch.readers ≡ []
    → ch.read_buf ≡ some buf
    → All (λ b. length b ≤ ch.max_incoming_payload) bs
    → length (flatten bs) ≤ ch.my_window
    → Arrived ref ch buf (flatten bs) (dispatch_all (data_messages id bs) s)
dispatch_all-Arrived [] id ref ch buf s listed at idle has small fits =
    let whole : ch.read_buf ≡ some (buf ++ []) = has ∙ ap some (sym (append-nil buf)) in
    let same : ch.my_window ≡ ch.my_window - 0 = omega arith in
    (refl, at ∙ ap some (λ i. record ch { my_window = same i; read_buf = whole i }))
dispatch_all-Arrived (b ∷ bs) id ref ch buf s listed at idle has small fits =
    let both = length-append b (flatten bs) in
    let ch1 = buffered ch buf b in
    let at1 = get_elem?-set_self s.objects ref ch1 (get_elem?_in s.objects ref ch at) in
    let (done, at') =
      dispatch_all-Arrived bs id ref ch1 (buf ++ b) (after_data ref ch1 s) listed at1 idle refl
        small.1 (omega (arith, both)) in
    let less : (ch.my_window - length b) - length (flatten bs)
        ≡ ch.my_window - length (b ++ flatten bs) =
      omega (arith, both) in
    rw (dispatch_data id ref ch buf b s listed at idle has small.0 (omega (arith, both))) (
      done,
      at'
          ∙ ap some (λ i. record ch {
            my_window = less i;
            read_buf = some (append_assoc buf b (flatten bs) i);
          }),
    )

-- What is written to a channel of one session, which has sent neither its end nor its close, goes out
-- as data messages to the other side's id, and changes nothing else of that session; and if the other
-- session has a channel under that id whose buffer no reader waits for, and it fits the packet size
-- and the window, then that session, given these messages, has all the bytes in the channel's buffer,
-- in order, and as much less window.
pub write_all-dispatch_all :
    (bs : List (List ℕ)) (s t : Session) (ref ref' : ℕ) (ch ch' : Channel) (buf : List ℕ)
    → get_elem? s.objects ref ≡ some ch
    → ch.sent_eof ≡ false
    → ch.sent_close ≡ false
    → IsU32 ch.remote_id
    → AreSendable bs
    → lookup ch.remote_id t.channels ≡ some ref'
    → get_elem? t.objects ref' ≡ some ch'
    → ch'.readers ≡ []
    → ch'.read_buf ≡ some buf
    → All (λ b. length b ≤ ch'.max_incoming_payload) bs
    → length (flatten bs) ≤ ch'.my_window
    → let ms = data_messages ch.remote_id bs in
      (write_all ref bs s ≡ (ok tt, after_writes ms s))
      × Arrived ref' ch' buf (flatten bs) (dispatch_all ms t)
write_all-dispatch_all bs s t ref ref' ch ch' buf at no_eof no_close small sendable listed at' idle
      has packets fits =
    (
      write_all_lem bs s ref ch at no_eof no_close small sendable,
      dispatch_all-Arrived bs ch.remote_id ref' ch' buf t listed at' idle has packets fits,
    )
