-- ===== src/Legacy/Session/Same.antt =====
-- Where the old session and the current one do the same.
use qtalk.Base.{ℕ, ◌^◌, ◌≤◌, ◌≡◌, refl, List, [], ◌∷◌, ◌++◌, Option, none, some, arith}
use qtalk.Base.Throws.{Result, ok, err}
use qtalk.Bytes.{IsU32, u32_bytes, get_uint32}
use qtalk.Codec.{
  Message, open_message, open_confirm, open_failure, window_adjust, data_message, eof_message,
  close_message, IsValid, open_confirm_id, window_adjust_id, eof_id,
}
use qtalk.Codec.Marshal.{wire}
use qtalk.Session.State.{Session, M, continue}
use qtalk.Session.Methods.{bad_packet_size, handle, encode, write_buffer}
use qtalk.Session.Dispatch as Current
use qtalk.Legacy.Interop.{decode_wire, encode-marshal}
use qtalk.Legacy.Session.{
  bad_size, write_message, handle_packet, handle_channel_open, handle_found, to_channel, dispatch,
}

bad_size-same : (n : ℕ) → n ≤ 2 ^ 30 → bad_size n ≡ bad_packet_size n
bad_size-same n small = ground arith

continue-same :
    {A B : Type 0} (f g : A → M B)
    → ((a : A) (s : Session) → f a s ≡ g a s)
    → (r : Result A × Session) → continue f r ≡ continue g r
continue-same f g same (ok a, s) = same a s
continue-same f g same (err e, s) = refl

pub second_u32 :
    (type id : ℕ) (rest : List ℕ) → IsU32 id → get_uint32 (type ∷ u32_bytes id ++ rest) 1 ≡ ok id
unfolding get_uint32
second_u32 type id rest small = ground arith

-- The messages that both handle in the same way: those whose packet size neither refuses as too large,
-- an end of the data and a window adjustment.
abbrev pub IsAlike : Message → Type 0
IsAlike (open_message s w size) = size ≤ 2 ^ 30
IsAlike (open_confirm c s w size) = size ≤ 2 ^ 30
IsAlike (window_adjust c n) = Unit {0}
IsAlike (eof_message c) = Unit {0}
IsAlike _ = ⊥

eof-same :
    (c ref : ℕ) (s : Session)
    → handle_packet ref eof_id (wire (eof_message c)) s ≡ handle ref (eof_message c) s
unfolding handle_packet handle
eof-same c ref s = refl

adjust-same :
    (c n ref : ℕ) (s : Session)
    → IsValid (window_adjust c n)
    → handle_packet ref window_adjust_id (wire (window_adjust c n)) s
      ≡ handle ref (window_adjust c n) s
unfolding handle_packet handle
adjust-same c n ref s valid = rw (decode_wire (window_adjust c n) valid)

confirm-same :
    (c i w size ref : ℕ) (s : Session)
    → IsValid (open_confirm c i w size)
    → size ≤ 2 ^ 30
    → handle_packet ref open_confirm_id (wire (open_confirm c i w size)) s
      ≡ handle ref (open_confirm c i w size) s
unfolding handle_packet handle
confirm-same c i w size ref s valid small =
    rw (decode_wire (open_confirm c i w size) valid, bad_size-same size small)

found-same :
    (type : ℕ) (packet : List ℕ) (m : Message)
    → ((ref : ℕ) (s : Session) → handle_packet ref type packet s ≡ handle ref m s)
    → (found : Option ℕ) (s : Session)
    → handle_found found type packet s ≡ Current.handle_found found m s
found-same type packet m same none s = refl
found-same type packet m same (some ref) s = same ref s

to_channel-same :
    (type id : ℕ) (packet : List ℕ) (m : Message)
    → get_uint32 packet 1 ≡ ok id
    → ((ref : ℕ) (s : Session) → handle_packet ref type packet s ≡ handle ref m s)
    → (s : Session) → to_channel type packet (get_uint32 packet 1) s ≡ Current.to_channel id m s
to_channel-same type id packet m says same s = rw says (
    continue-same (λ found. handle_found found type packet) (λ found. Current.handle_found found m)
      (found-same type packet m same) (Current.get_ch id s))

write_message-same : write_message ≡ encode
unfolding write_message encode
write_message-same = λ i m s. write_buffer (encode-marshal m i) s

opened-same :
    (c w size : ℕ) (s : Session)
    → IsValid (open_message c w size)
    → size ≤ 2 ^ 30
    → handle_channel_open (wire (open_message c w size)) s ≡ Current.handle_open c w size s
unfolding handle_channel_open Current.handle_open
opened-same c w size s valid small =
    rw (decode_wire (open_message c w size) valid, bad_size-same size small, write_message-same)

-- In every state, the old session does the same with the packet of a valid open or open-confirm
-- message with a packet size of at most 2 ^ 30, of a valid window adjustment, or of a valid end of
-- the data, as the current one does with the message. Data, a close and a failure to open are not
-- among these.
pub dispatch-same :
    (m : Message) (s : Session) → IsValid m → IsAlike m → dispatch (wire m) s ≡ Current.dispatch m s
unfolding dispatch Current.dispatch
dispatch-same (open_message c w size) s valid alike = opened-same c w size s valid alike
dispatch-same (open_confirm c i w size) s valid alike =
    to_channel-same open_confirm_id c (wire (open_confirm c i w size)) (open_confirm c i w size)
      (second_u32 open_confirm_id c (u32_bytes i ++ u32_bytes w ++ u32_bytes size) valid.0)
      (λ ref s'. confirm-same c i w size ref s' valid alike) s
dispatch-same (open_failure c) s valid alike = absurd alike
dispatch-same (window_adjust c n) s valid alike =
    to_channel-same window_adjust_id c (wire (window_adjust c n)) (window_adjust c n)
      (second_u32 window_adjust_id c (u32_bytes n) valid.0) (λ ref s'. adjust-same c n ref s' valid)
      s
dispatch-same (data_message c len bytes) s valid alike = absurd alike
dispatch-same (eof_message c) s valid alike =
    to_channel-same eof_id c (wire (eof_message c)) (eof_message c) (second_u32 eof_id c [] valid)
      (λ ref s'. eof-same c ref s') s
dispatch-same (close_message c) s valid alike = absurd alike
