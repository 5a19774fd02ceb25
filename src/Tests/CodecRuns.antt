-- ===== src/Tests/CodecRuns.antt =====
-- Runs of javascript/mux/codec, javascript/mux/util.ts and javascript/mux/transport/websocket.ts.
use qtalk.Base.{ℕ, ◌≡◌, refl, false, List, [], ◌∷◌, ◌++◌, arith}
use qtalk.Base.Throws.{ok, err, range_error, ◌>>=◌}
use qtalk.Util.Queue.{Queue}
use qtalk.Util.Queue.Fifo.{Op, pushes, shifts, run, run-new_queue}
use qtalk.Util.Queue.{new_queue}
use qtalk.Conn.WebSocket.Stream.{Feed, Reads, read_next, read_next-Reads, feed_source, bytes_left}
use qtalk.Codec.{data_message, eof_message, window_adjust}
use qtalk.Codec.Marshal.{marshal, wire}
use qtalk.Codec.Unmarshal.{unmarshal}
use qtalk.Codec.RoundTrip.{unmarshal-marshal}
use qtalk.Codec.Decoder.{decode}
use qtalk.Codec.Decoder.Frames.{Yields, decode-wire}
use qtalk.Codec.Decoder.Empty.{decode_empty_data, with_buffer}

unmarshal-marshal_example :
    (marshal (data_message 3 2 (7 ∷ 8 ∷ [])) >>= unmarshal) ≡ ok (data_message 3 2 (7 ∷ 8 ∷ []))
unmarshal-marshal_example = unmarshal-marshal (data_message 3 2 (7 ∷ 8 ∷ [])) (omega arith)

-- The packet of codec_test.ts.
unmarshal_eof : unmarshal (105 ∷ 0 ∷ 0 ∷ 0 ∷ 0 ∷ []) ≡ ok (eof_message 0)
unfolding unmarshal
unmarshal_eof = refl

abbrev mixed : List (Op ℕ ℕ)
mixed = shifts 10 ∷ pushes 1 ∷ pushes 2 ∷ shifts 11 ∷ []

run-new_queue_example : (run mixed new_queue).1 ≡ (10, 1) ∷ (11, 2) ∷ []
run-new_queue_example = run-new_queue mixed

abbrev awaited : Queue ℕ ℕ
awaited = record { q = []; waiters = 7 ∷ []; closed = false }

-- A message cut over three of the socket's.
abbrev cut : Feed
cut = record {
  conn = record {
    buf = 103 ∷ [];
    waiters = [];
    is_closed = false;
    sent = [];
    socket_closed = false;
  };
  arrivals = (0 ∷ 0 ∷ 0 ∷ 2 ∷ 0 ∷ []) ∷ (0 ∷ 1 ∷ 0 ∷ 105 ∷ []) ∷ [];
}

read_next-Reads_example : Reads 7 (bytes_left cut) (read_next 7 cut)
read_next-Reads_example = read_next-Reads 7 cut (refl, refl) (omega arith) (omega arith)

read_in_pieces : Yields feed_source (decode feed_source) cut (window_adjust 2 256) (105 ∷ [])
read_in_pieces =
    decode-wire feed_source cut (window_adjust 2 256) (105 ∷ []) (refl, refl) (omega arith) refl

decode_empty_data_example :
    (decode feed_source (with_buffer cut (wire (data_message 1 0 []) ++ 105 ∷ []))).0
    ≡ err range_error
decode_empty_data_example = decode_empty_data cut 1 refl (omega arith) (105 ∷ [])
