-- ===== src/Rpc/Frame/Writes.antt =====
-- What `encode` writes.
use qtalk.Base.{ℕ, ◌≡◌, refl, false, All, [], ◌∷◌, ◌++◌, some, length, get_elem?, arith}
use qtalk.Base.Throws.{ok}
use qtalk.Bytes.{IsByte, IsU32, u32_bytes}
use qtalk.Channel.{Channel}
use qtalk.Codec.{data_message}
use qtalk.Codec.Marshal.{wire}
use qtalk.Session.State.{Session}
use qtalk.Session.Transfer.{after_writes, write_lem}
use qtalk.Rpc.Frame.{Codec, encode_frame}

pub bytes_lem : (n : ℕ) → All IsByte (u32_bytes n)
bytes_lem n = (omega arith, (omega arith, (omega arith, (omega arith, tt))))

-- On a channel that has sent neither its end nor its close, `encode` sends two data messages to
-- the other side's id: the length in four bytes, and the bytes of the value.
pub encode_frame-written :
    {V : Type 0} (codec : Codec V) (s : Session) (ref : ℕ) (ch : Channel) (v : V)
    → get_elem? s.objects ref ≡ some ch
    → ch.sent_eof ≡ false
    → ch.sent_close ≡ false
    → IsU32 ch.remote_id
    → codec.IsValue v
    → IsU32 (length (codec.encode v))
    → let bytes = codec.encode v in
      let r = encode_frame codec ref v s in
      (r.0 ≡ ok tt)
      × (r.1.written
          ≡ (s.written ++ wire (data_message ch.remote_id 4 (u32_bytes (length bytes))) ∷ [])
            ++ wire (data_message ch.remote_id (length bytes) bytes) ∷ [])
unfolding encode_frame
encode_frame-written codec s ref ch v at no_eof no_close small valid sized =
    let bytes = codec.encode v in
    let prefix = u32_bytes (length bytes) in
    let s1 = after_writes (data_message ch.remote_id (length prefix) prefix ∷ []) s in
    let first =
      write_lem s ref ch prefix at no_eof no_close
        (small, omega arith, refl, bytes_lem (length bytes)) in
    let second =
      write_lem s1 ref ch bytes at no_eof no_close
        (small, sized, refl, codec.encode_bytes v valid) in
    rw (first, second) (refl, refl)
