-- ===== src/Codec/Decoder.antt =====
-- javascript/mux/codec/decoder.ts: `readPacket` and `Decoder.decode` over any connection.
pub mod Frames
pub mod Empty
pub mod Progress
use qtalk.Base.{
  ℕ, ◌+◌, Bool, ◌||◌, List, [], ◌∷◌, Option, none, some, length, get_elem?, ltb, ◌==◌,
  if◌then◌else◌,
}
use qtalk.Base.Throws.{Result, ok, err, unexpected_eof, bad_packet, ◌>>=◌}
use qtalk.Bytes.{get_uint32}
use qtalk.Util.Concat.{concat}
use qtalk.Conn.{Source}
use qtalk.Codec.{
  Message, open_id, open_confirm_id, open_failure_id, window_adjust_id, data_id, eof_id, close_id,
}
use qtalk.Codec.Unmarshal.{unmarshal}

-- message.ts: `payloadSizes`, the bytes that follow the message number, without a data message's data
abbrev pub payload_sizes : List (ℕ × ℕ)
payload_sizes =
    (open_id, 12)
    ∷ (open_confirm_id, 16)
    ∷ (open_failure_id, 4)
    ∷ (window_adjust_id, 8)
    ∷ (data_id, 8)
    ∷ (eof_id, 4)
    ∷ (close_id, 4)
    ∷ []

-- `Map.get`
abbrev pub lookup : ℕ → List (ℕ × ℕ) → Option ℕ
lookup k [] = none
lookup k ((j, v) ∷ rest) = if j == k then some v else lookup k rest

-- A rejected promise or a throw is `err`; `ok none` is a promise resolved by `undefined`.
abbrev pub Decodes {ℓ} : Type 0 → Type ℓ → Type ℓ
Decodes S A = Result (Option A) × S

module _ {S : Type 0} (src : Source S) where
  -- `concat([head, rest, data], length+rest.length+1)`
  join_data : List ℕ → List ℕ → ℕ → Option (List ℕ) × S → Decodes S (List ℕ)
  join_data head rest size (none, s) = (err unexpected_eof, s)
  join_data head rest size (some bytes, s) =
      (concat (head ∷ rest ∷ bytes ∷ []) (size + length rest + 1) >>= λ packet. ok (some packet), s)

  read_data : List ℕ → List ℕ → Result ℕ → S → Decodes S (List ℕ)
  unfolding join_data
  read_data head rest (err e) s = (err e, s)
  read_data head rest (ok size) s = join_data head rest size (src.read size s)

  read_body : List ℕ → ℕ → Option (List ℕ) × S → Decodes S (List ℕ)
  unfolding read_data
  read_body head id (none, s) = (err unexpected_eof, s)
  read_body head id (some rest, s) =
      if id == data_id
      then read_data head rest (get_uint32 rest 4) s
      else (concat (head ∷ rest ∷ []) (length rest + 1) >>= λ packet. ok (some packet), s)

  -- The guard on `msgID`, with the size that the table gives it.
  read_sized : List ℕ → ℕ → Option ℕ → S → Decodes S (List ℕ)
  unfolding read_body
  read_sized head id none s = (err (bad_packet (some id)), s)
  read_sized head id (some size) s =
      if ltb id open_id || ltb close_id id
      then (err (bad_packet (some id)), s)
      else read_body head id (src.read size s)

  read_head : Option (List ℕ) × S → Decodes S (List ℕ)
  unfolding read_sized
  read_head (none, s) = (ok none, s)
  read_head (some [], s) = (err (bad_packet none), s)
  read_head (some (id ∷ more), s) = read_sized (id ∷ more) id (lookup id payload_sizes) s

  unfoldable pub read_packet : S → Decodes S (List ℕ)
  unfolding read_head
  read_packet s = read_head (src.read 1 s)

  decode_packet : Decodes S (List ℕ) → Decodes S Message
  decode_packet (err e, s) = (err e, s)
  decode_packet (ok none, s) = (ok none, s)
  decode_packet (ok (some packet), s) = (unmarshal packet >>= λ message. ok (some message), s)

  unfoldable pub decode : S → Decodes S Message
  unfolding decode_packet
  decode s = decode_packet (read_packet s)
