-- ===== src/Tests/ChannelRuns.antt =====
-- Runs of javascript/mux/channel.ts on one channel.
use qtalk.Base.{◌+◌, ◌≡◌, refl, true, false, List, [], ◌∷◌, ◌++◌, some, arith}
use qtalk.Base.Throws.{ok, err, wrote_too_much}
use qtalk.Channel.{Channel, Reader, Settled, handle_data, accept_data}
use qtalk.Channel.Bytes.{Event, reads, receives, ends, step, run, delivered, arrived}
use qtalk.Channel.Stream.{run-buffered, run-my_window, window_exhausted, received}
use qtalk.Channel.Readers.{IsPrompt, step-IsPrompt, handle_data_stalls, ends_strands}

abbrev small_window : Channel
small_window = record {
  local_id = 0;
  remote_id = 0;
  max_incoming_payload = 8;
  max_remote_payload = 8;
  ready = record { q = []; waiters = []; closed = false };
  sent_eof = false;
  got_eof = false;
  sent_close = false;
  remote_win = 0;
  my_window = 5;
  read_buf = some [];
  readers = [];
}

abbrev two_bytes : Reader
two_bytes = record { promise = 1; len = 2 }

abbrev history : List Event
history = reads two_bytes ∷ receives 3 (7 ∷ 8 ∷ 9 ∷ []) ∷ []

abbrev after_history : Channel
after_history = record small_window { my_window = 2; read_buf = some (9 ∷ []) }

abbrev told : List Settled
told = record { promise = 1; value = some (7 ∷ 8 ∷ []) } ∷ []

run-history : run history small_window ≡ ok (after_history, told)
unfolding run step
run-history = refl

run-buffered_example : delivered told ++ 9 ∷ [] ≡ [] ++ arrived history
run-buffered_example =
    run-buffered history small_window after_history told [] (9 ∷ []) refl run-history refl

run-my_window_example : after_history.my_window + received history ≡ 5
run-my_window_example = run-my_window history small_window after_history told run-history

window_exhausted_example : handle_data 3 (1 ∷ 2 ∷ 3 ∷ []) after_history ≡ err wrote_too_much
window_exhausted_example =
    window_exhausted history small_window after_history told 3 (1 ∷ 2 ∷ 3 ∷ []) run-history
      (omega arith) (omega arith)

abbrev with_reader : Channel
with_reader = record small_window { readers = two_bytes ∷ [] }

step_wakes : step (receives 3 (7 ∷ 8 ∷ 9 ∷ [])) with_reader ≡ ok (after_history, told)
unfolding step
step_wakes = refl

step-IsPrompt_example : IsPrompt after_history
step-IsPrompt_example =
    step-IsPrompt (receives 3 (7 ∷ 8 ∷ 9 ∷ [])) with_reader after_history told (omega arith) tt
      step_wakes

abbrev four_bytes : Reader
four_bytes = record { promise = 2; len = 4 }

abbrev behind : Channel
behind = record small_window { readers = four_bytes ∷ two_bytes ∷ [] }

stalled :
    handle_data 3 (7 ∷ 8 ∷ 9 ∷ []) behind
    ≡ ok (
      record (accept_data 3 (7 ∷ 8 ∷ 9 ∷ []) behind) { readers = two_bytes ∷ four_bytes ∷ [] },
      [],
    )
stalled =
    handle_data_stalls behind four_bytes (two_bytes ∷ []) 3 (7 ∷ 8 ∷ 9 ∷ []) [] refl refl
      (omega arith) (omega arith) (omega arith)

stranded :
    (run (ends ∷ reads two_bytes ∷ []) small_window
      ≡ ok (record small_window { got_eof = true; readers = two_bytes ∷ [] }, []))
    × (run (reads two_bytes ∷ ends ∷ []) small_window
        ≡ ok (record small_window { got_eof = true; readers = two_bytes ∷ [] }, []))
stranded = ends_strands small_window two_bytes [] refl (omega arith)
