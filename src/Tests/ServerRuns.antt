-- ===== src/Tests/ServerRuns.antt =====
-- Runs of the listeners of javascript/legacy/qmux and of `Dial` of javascript/mux.
use qtalk.Base.{ℕ, ◌≡◌, refl, List, [], ◌∷◌, ◌++◌, some}
use qtalk.Util.Queue.{new_queue, push, shift}
use qtalk.Conn.WebSocket.{new_conn}
use qtalk.Conn.WebSocket.Dial
use qtalk.Conn.WebSocket.Dial.{dial}
use qtalk.Legacy.Listener.{
  Event, connects, resumes, returned, new_server, accept, on_connection, step, run,
}
use qtalk.Legacy.Listener.Serving.{shut, run-new_server}

-- Three connections of which the loop takes two before the server closes
abbrev visits : List (Event ℕ)
visits = connects 1 ∷ resumes ∷ resumes ∷ connects 2 ∷ connects 3 ∷ []

run-new_server_example :
    ((run visits new_server).served ++ (run visits new_server).listener.pending.q ≡ 1 ∷ 2 ∷ 3 ∷ [])
    × ((run (connects 4 ∷ []) (shut (run visits new_server))).served
        ≡ (run visits new_server).served)
    × ((run (connects 4 ∷ []) (shut (run visits new_server))).phase ≡ returned)
run-new_server_example =
    run-new_server visits (connects 4 ∷ []) (refl, (refl, (refl, (refl, (refl, tt)))))

served_visits : (run visits new_server).served ≡ 1 ∷ 2 ∷ []
unfolding run step accept on_connection push shift new_queue
served_visits = refl

-- `onclose` is called before the connection is closed, once for each event.
closed_dial : (Dial.run {H = ℕ} (Dial.opens ∷ Dial.closes ∷ []) (dial (some 5))).told ≡ 5 ∷ []
unfolding Dial.run new_conn
closed_dial = refl
