-- ===== src/Rpc/Frame/Reads.antt =====
-- What `readLoop` reads where the stream starts with a frame.
use qtalk.Base.{ℕ, ◌≡◌, refl, List, ◌++◌, some, length, arith}
use qtalk.Base.Throws.{ok}
use qtalk.Bytes.{IsU32, u32_bytes, get_uint32}
use qtalk.Conn.{Source}
use qtalk.Conn.Exact.{read_exact}
use qtalk.Rpc.Frame.{Codec, read_frame, frame}

pub prefix_lem : (n : ℕ) → IsU32 n → get_uint32 (u32_bytes n) 0 ≡ ok n
unfolding get_uint32
prefix_lem n small = ground arith

module _ {S : Type 0} (src : Source S) where
  pub read_frame_by :
      (c c1 c2 : S) (prefix bytes : List ℕ) (size : ℕ)
      → src.read 4 c ≡ (some prefix, c1)
      → get_uint32 prefix 0 ≡ ok size
      → src.read size c1 ≡ (some bytes, c2)
      → read_frame src c ≡ (ok (some bytes), c2)
  unfolding read_frame
  read_frame_by c c1 c2 prefix bytes size e1 says e2 = rw e1 (rw says (rw e2))

module _ {S V : Type 0} (src : Source S) (codec : Codec V) where
  pub read_frame-frame :
      (c : S) (v : V) (tail : List ℕ)
      → src.IsReady c
      → codec.IsValue v × IsU32 (length (codec.encode v))
      → src.remaining c ≡ frame codec v ++ tail
      → (c' : S) × (read_frame src c ≡ (ok (some (codec.encode v)), c'))
        × src.IsReady c'
        × (src.remaining c' ≡ tail)
  read_frame-frame c v tail ready (valid, small) left =
      let bytes = codec.encode v in
      let (c1, e1, r1, l1) =
        read_exact src 4 c (u32_bytes (length bytes)) (bytes ++ tail) ready (omega arith) refl
          left in
      let (c2, e2, r2, l2) =
        read_exact src (length bytes) c1 bytes tail r1 (codec.encode_some v valid) refl l1 in
      (
        c2,
        read_frame_by src c c1 c2 (u32_bytes (length bytes)) bytes (length bytes) e1
            (prefix_lem (length bytes) small) e2,
        r2,
        l2,
      )
