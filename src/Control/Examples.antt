-- ===== src/Control/Examples.antt =====
-- Runs of a client and a server on one control connection, and of a client of two streams.
use sber_wifi.Prelude.{ℕ, ◌≡◌, refl, ◌⊎◌, true, false, List, [], ◌∷◌, ◌++◌, take, drop, replicate}
use sber_wifi.Prelude.Int.{ℤ, pos}
use sber_wifi.Test.{bidirectional_mode}
use sber_wifi.Control.{
  create_streams, display_results, param_exchange, test_running, test_end, iperf_done, Local, go,
}
use sber_wifi.Control.Frame.{view, Runs}
use sber_wifi.Control.Client.{run_client, client_round, handle_state_client}
use sber_wifi.Control.Client.Moves.{ClientMove}
use sber_wifi.Control.Client.Loop.{run_client-Runs}
use sber_wifi.Control.Server
use sber_wifi.Control.Server.{Counts, goes, serve}
use sber_wifi.Control.Server.Moves.{ServerMove}
use sber_wifi.Control.Server.Loop.{serve-Runs}
use sber_wifi.Control.Client.Progress.{IsGo, Succeeds, client_round-IsGo}
use sber_wifi.Control.Client.Ports.{Binds, handle_state_client-create_streams}
use sber_wifi.Control.System.{IsPrefix}
use sber_wifi.Control.System.Phases.{server_script, client_script}
use sber_wifi.Control.System.Session.{
  Session, begin, client_turn, server_turn, Begins, Session-test_running, Session-iperf_done,
  Session-client_expects, Session-server_expects,
}
use sber_wifi.Control.Trial.{
  World, calls, written_by, read_by, client0, server0, client_ready, counts0, server_ready, after,
  connected, busy, counts1, calls-Frame,
}

-- The client up to TEST_RUNNING, and the server.
abbrev client_running : Local World
client_running =
    connected (after (client0 0) test_running (drop 4 server_script) (take 4 server_script) [])

abbrev server_running : Local World
server_running = busy test_running client_script [] (take 4 server_script)

client_starts : run_client calls (replicate 4 client_ready) (client0 0) ≡ go client_running
unfolding run_client
client_starts = refl

abbrev server_events : List Server.Event
server_events = server_ready true false false ∷ server_ready false false true ∷ []

server_starts : serve calls server_events counts0 server0 ≡ goes counts1 server_running
unfolding serve
server_starts = refl

run_client-Runs_example :
    Runs ClientMove (view written_by read_by (client0 0)) (view written_by read_by client_running)
run_client-Runs_example =
    run_client-Runs written_by read_by calls (replicate 4 client_ready) (client0 0) client_running
      calls-Frame refl client_starts

serve-Runs_example :
    Runs ServerMove (view written_by read_by server0) (view written_by read_by server_running)
serve-Runs_example =
    serve-Runs written_by read_by calls server_events counts0 counts1 server0 server_running
      calls-Frame refl server_starts

abbrev Joint : ℕ → Local World → Local World → Type 0
Joint bytes = Session written_by read_by calls written_by read_by calls (client0 bytes) server0

both_running : Joint 0 client_running server_running
both_running =
    client_turn (replicate 4 client_ready)
      (server_turn server_events counts0 counts1 begin server_starts ([], refl)) client_starts
      ([], refl)

starts-Begins :
    (bytes : ℕ) → Begins written_by read_by calls written_by read_by calls (client0 bytes) server0
starts-Begins bytes = record { client = refl; server = refl }

-- The test of one byte, which is sent already, to its end.
abbrev client_ended : Local World
client_ended =
    let l =
      connected (
        after (client0 1) test_end (drop 4 server_script) (take 4 server_script) (test_end ∷ [])) in
    let c = l.ctl in record l { ctl = record c { done = true } }

client_ends : run_client calls (replicate 4 client_ready) (client0 1) ≡ go client_ended
unfolding run_client
client_ends = refl

abbrev server_finished : Local World
server_finished =
    let l = busy display_results (iperf_done ∷ []) (test_end ∷ []) server_script in
    let c = l.ctl in record l { ctl = record c { done = true } }

server_finishes :
    serve calls (server_ready false true false ∷ []) counts1 server_running
    ≡ goes counts1 server_finished
unfolding serve
server_finishes = refl

abbrev client_closed : Local World
client_closed = after client_ended iperf_done [] server_script client_script

client_closes : run_client calls (replicate 2 client_ready) client_ended ≡ go client_closed
unfolding run_client
client_closes = refl

both_ended : Joint 1 client_ended server_running
both_ended =
    client_turn (replicate 4 client_ready)
      (server_turn server_events counts0 counts1 begin server_starts ([], refl)) client_ends
      ([], refl)

both_closed : Joint 1 client_closed server_finished
both_closed =
    client_turn (replicate 2 client_ready)
      (server_turn (server_ready false true false ∷ []) counts1 counts1 both_ended server_finishes
        ([], refl))
      client_closes ([], refl)

Session-test_running_example :
    (client_running.world.written ≡ [])
    × (server_running.world.written ≡ take 4 server_script)
    × (server_running.world.read ≡ [])
Session-test_running_example =
    Session-test_running written_by read_by calls written_by read_by calls (client0 0) server0
      client_running server_running calls-Frame calls-Frame (starts-Begins 0) both_running refl

Session-iperf_done_example :
    (client_closed.world.read ≡ server_script)
    × (server_finished.world.written ≡ server_script)
    × IsPrefix (test_end ∷ []) client_closed.world.written
Session-iperf_done_example =
    Session-iperf_done written_by read_by calls written_by read_by calls (client0 1) server0
      client_closed server_finished calls-Frame calls-Frame (starts-Begins 1) both_closed refl

Session-server_expects_example :
    (test_end ≡ test_end) × (server_running.world.written ≡ take 4 server_script)
    ⊎ (test_end ≡ iperf_done) × (server_running.world.written ≡ server_script)
Session-server_expects_example =
    Session-server_expects written_by read_by calls written_by read_by calls (client0 1) server0
      client_ended server_running test_end calls-Frame calls-Frame (starts-Begins 1) both_ended
      ([], refl)

abbrev ports_of : World → List ℤ
ports_of w = w.ports

-- Two streams each way, from the port 5300 on.
abbrev two_streams : Local World
two_streams =
    let l = client0 0 in
    let c = l.ctl in
    record l {
      ctl = record c { mode = bidirectional_mode; num_streams = pos 2; bind_port = pos 5300 };
    }

calls-Binds : Binds ports_of calls
calls-Binds = record {
  connect =
      λ b l. (let w = l.world in record w { ports = w.ports ++ l.ctl.bind_port ∷ [] }, refl, refl);
  new_stream = λ b l. (l.world, refl, refl);
}

handle_state_client-create_streams_example :
    (l' : Local World) × (handle_state_client calls create_streams two_streams ≡ go l')
    × (l'.world.ports ≡ pos 5300 ∷ pos 5301 ∷ pos 5301 ∷ pos 5302 ∷ [])
handle_state_client-create_streams_example =
    handle_state_client-create_streams ports_of calls 5299 1 two_streams calls-Binds refl refl refl

calls-Succeeds : Succeeds calls
calls-Succeeds = record {
  write_state = λ s l. refl;
  send_parameters = λ l. (l, refl);
  get_parameters = λ l. (l, refl);
  listen = λ l. (l, refl);
  send_results = λ l. (l, refl);
  get_results = λ l. (l, refl);
  connect = λ b l. (_, refl);
  new_stream = λ b l. (l, refl);
  init_test = λ l. (l, refl);
  create_timers = λ l. (l, refl);
  create_omit_timer = λ l. (l, refl);
  create_send_timers = λ l. (l, refl);
  send = λ l. (l, refl);
  recv = λ l. (l, refl);
}

-- The client has not yet read what the server has sent.
Session-client_expects_example : IsGo (client_round calls client_ready (client0 0))
Session-client_expects_example =
    Session-client_expects written_by read_by calls written_by read_by calls (client0 0) server0
      (client0 0) server_running param_exchange client_ready calls-Frame calls-Frame
      (starts-Begins 0) (server_turn server_events counts0 counts1 begin server_starts ([], refl))
      (drop 1 (take 4 server_script), refl) refl refl calls-Succeeds

client_round-IsGo_example : IsGo (client_round calls client_ready (client0 0))
client_round-IsGo_example =
    client_round-IsGo calls client_ready (client0 0) param_exchange calls-Succeeds refl refl refl
