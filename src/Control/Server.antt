-- ===== src/Control/Server.antt =====
-- app/src/main/cpp/iperf/iperf_server_api.c: iperf_accept, iperf_handle_message_server and the loop of
-- iperf_run_server.
pub mod Kept
pub mod Moves
pub mod Round
pub mod Loop
use sber_wifi.Prelude.{Bool, true, false, not, ◌&&◌, List, [], ◌∷◌, if◌then◌else◌}
use sber_wifi.Prelude.Int.{ℤ, pos, negsuc, eq_ℤ, add_ℕ}
use sber_wifi.Test.{Mode, sender, receiver, bidirectional_mode, tcp, same_protocol}
use sber_wifi.Error.{ie_recvmessage, ie_message, ie_select}
use sber_wifi.Control.{
  State, test_start, test_running, test_end, param_exchange, create_streams, client_terminate,
  exchange_results, display_results, iperf_done, Ctl, Local, ErrorNumber, known, Outcome, go, stop,
  ◌>>=◌, StateRead, got_state, end_of_file, read_failed, Calls, set_state, same_mode, is_sending,
  iperf_set_send_state, iperf_exchange_parameters, iperf_exchange_results,
}

-- The local variables of iperf_run_server that count the streams, and `flag`.
pub record Counts : Type 0 where
  pub to_send : ℤ
  pub to_rec : ℤ
  pub send_accepted : ℤ
  pub rec_accepted : ℤ
  pub flag : ℤ

-- What select(2) has left, and whether the timers are run at the end of the round: the result is 0,
-- or the timeout was. The sockets count as not ready where the result is not positive.
pub record Event : Type 0 where
  pub select_failed : Bool
  pub positive : Bool
  pub listener_ready : Bool
  pub control_ready : Bool
  pub prot_listener_ready : Bool
  pub timers_due : Bool

-- A round, with the counts that it leaves.
pub data RoundOutcome (W : Type 0) : Type 0 where
  goes : Counts → Local W → RoundOutcome W
  stops : ErrorNumber → Local W → RoundOutcome W

infixl 5 ◌>>>◌
abbrev pub ◌>>>◌ :
    {W : Type 0} → RoundOutcome W → (Counts → Local W → RoundOutcome W) → RoundOutcome W
goes c l >>> f = f c l
stops e l >>> f = stops e l

abbrev pub with_counts : {W : Type 0} → Counts → Outcome W → RoundOutcome W
with_counts c (go l) = goes c l
with_counts c (stop e l) = stops e l

abbrev pub count_streams : Ctl → Counts → Counts
count_streams c n =
    if same_mode c.mode bidirectional_mode
    then record n { to_send = c.num_streams; to_rec = c.num_streams }
    else if same_mode c.mode receiver
    then record n { to_rec = c.num_streams; to_send = pos 0 }
    else record n { to_send = c.num_streams; to_rec = pos 0 }

-- The stream that is accepted next: a receiving one as long as one is missing, then a sending one.
unfoldable pub count_accepted : Counts → Counts
count_accepted n =
    if not (eq_ℤ n.rec_accepted n.to_rec)
    then record n { flag = pos 0; rec_accepted = add_ℕ n.rec_accepted 1 }
    else if not (eq_ℤ n.send_accepted n.to_send)
    then record n { flag = pos 1; send_accepted = add_ℕ n.send_accepted 1 }
    else n

abbrev pub all_accepted : Counts → Bool
all_accepted n = eq_ℤ n.rec_accepted n.to_rec && eq_ℤ n.send_accepted n.to_send

module _ {W : Type 0} (calls : Calls W) where
  abbrev affinity_if : Bool → Local W → Outcome W
  affinity_if true l = go l
  affinity_if false l = calls.set_affinity l

  abbrev take_control : Local W → Local W
  take_control l = let c = l.ctl in record l { ctl = record c { ctrl_free = false } }

  -- The server is free: the cookie, the parameters, and the call on_connect.
  unfoldable pub accept_client : Local W → Outcome W
  unfolding iperf_set_send_state iperf_exchange_parameters
  accept_client l =
      calls.read_cookie (take_control l)
      >>= iperf_set_send_state calls param_exchange
      >>= iperf_exchange_parameters calls
      >>= (λ l1. affinity_if (eq_ℤ l1.ctl.server_affinity (negsuc 0)) l1)
      >>= (λ l2. go (calls.on_connect l2))

  unfoldable pub iperf_accept : Local W → Outcome W
  unfolding accept_client
  iperf_accept l =
      calls.accept_control l
      >>= (λ l1. if l1.ctl.ctrl_free then accept_client l1 else calls.refuse l1)

  abbrev set_done : Local W → Local W
  set_done l = let c = l.ctl in record l { ctl = record c { done = true } }

  unfoldable pub end_of_test : Local W → Outcome W
  unfolding iperf_set_send_state iperf_exchange_results
  end_of_test l =
      iperf_set_send_state calls exchange_results
        (calls.report (calls.close_streams (calls.stats (calls.cpu_util (set_done l)))))
      >>= iperf_exchange_results calls
      >>= iperf_set_send_state calls display_results
      >>= (λ l1. go (calls.on_test_finish l1))

  abbrev report_end : Local W → Local W
  report_end l =
      set_state client_terminate (calls.report (set_state display_results (calls.cpu_util l)))

  -- The `switch` over the new state. CLIENT_TERMINATE sets i_errno and goes on.
  unfoldable pub handle_state_server : State → Local W → Outcome W
  unfolding end_of_test
  handle_state_server test_start l = go l
  handle_state_server test_end l = end_of_test l
  handle_state_server iperf_done l = go l
  handle_state_server client_terminate l =
      go (set_state iperf_done (calls.close_streams (report_end l)))
  handle_state_server _ l = stop (known ie_message) l

  unfoldable pub handle_read_server : StateRead × Local W → Outcome W
  unfolding handle_state_server
  handle_read_server (got_state s, l) = handle_state_server s (set_state s l)
  handle_read_server (end_of_file, l) = go (set_state iperf_done l)
  handle_read_server (read_failed, l) = stop (known ie_recvmessage) l

  unfoldable pub iperf_handle_message_server : Local W → Outcome W
  unfolding handle_read_server
  iperf_handle_message_server l = handle_read_server (calls.read_state l)

  abbrev is_creating : State → Bool
  is_creating create_streams = true
  is_creating _ = false

  abbrev listener_round : Counts → Local W → RoundOutcome W
  listener_round n l =
      with_counts n (iperf_accept l) >>> (λ n1 l1. goes (count_streams l1.ctl n1) l1)

  abbrev listener_if : Bool → Counts → Local W → RoundOutcome W
  listener_if true n l = listener_round n l
  listener_if false n l = goes n l

  abbrev message_if : Bool → Local W → Outcome W
  message_if true l = iperf_handle_message_server l
  message_if false l = go l

  -- A connection for a stream that is not closed already.
  abbrev add_stream : Counts → Local W → RoundOutcome W
  add_stream n l =
      if eq_ℤ n.flag (negsuc 0)
      then goes n l
      else with_counts (record n { flag = negsuc 0 }) (calls.new_stream (eq_ℤ n.flag (pos 1)) l)

  unfoldable pub stream_round : Counts → Local W → RoundOutcome W
  unfolding count_accepted
  stream_round n l =
      with_counts n (calls.accept_stream l)
      >>> (λ n1 l1. if calls.is_closed l1 then goes n1 l1 else add_stream (count_accepted n1) l1)

  abbrev stream_if : Bool → Counts → Local W → RoundOutcome W
  stream_if true n l = stream_round n l
  stream_if false n l = goes n l

  -- The listening sockets once all streams are there.
  abbrev settle_listeners : Local W → Outcome W
  settle_listeners l =
      if not (same_protocol l.ctl.protocol tcp)
      then go (calls.close_prot_listener l)
      else if l.ctl.tuned
      then calls.reopen_listener l
      else go l

  abbrev send_timers_if : Bool → Local W → Outcome W
  send_timers_if true l = calls.create_send_timers l
  send_timers_if false l = go l

  unfoldable pub start_test : Local W → Outcome W
  unfolding iperf_set_send_state
  start_test l =
      settle_listeners l
      >>= (λ l1. iperf_set_send_state calls test_start (calls.clear_prot_listener l1))
      >>= calls.init_test
      >>= calls.create_timers
      >>= calls.create_omit_timer
      >>= (λ l2. send_timers_if (is_sending l2.ctl.mode) l2)
      >>= iperf_set_send_state calls test_running

  abbrev start_if : Bool → Local W → Outcome W
  start_if true l = start_test l
  start_if false l = go l

  abbrev create_round : Bool → Counts → Local W → RoundOutcome W
  create_round ready n l =
      stream_if ready n l >>> (λ n1 l1. with_counts n1 (start_if (all_accepted n1) l1))

  abbrev create_if : Bool → Bool → Counts → Local W → RoundOutcome W
  create_if true ready n l = create_round ready n l
  create_if false ready n l = goes n l

  abbrev move_data : Mode → Local W → Outcome W
  move_data bidirectional_mode l = calls.recv l >>= calls.send
  move_data sender l = calls.send l
  move_data receiver l = calls.recv l

  abbrev is_running : State → Bool
  is_running test_running = true
  is_running _ = false

  abbrev data_if : Bool → Local W → Outcome W
  data_if true l = move_data l.ctl.mode l
  data_if false l = go l

  -- What a round does where select has a positive result.
  unfoldable pub ready_round : Event → Counts → Local W → RoundOutcome W
  unfolding iperf_accept iperf_handle_message_server stream_round start_test
  ready_round e n l =
      listener_if (e.listener_ready && not (is_creating l.ctl.state)) n l
      >>> (λ n1 l1. with_counts n1 (message_if e.control_ready l1))
      >>> (λ n2 l2. create_if (is_creating l2.ctl.state) e.prot_listener_ready n2 l2)
      >>> (λ n3 l3. with_counts n3 (data_if (is_running l3.ctl.state) l3))

  abbrev ready_if : Bool → Event → Counts → Local W → RoundOutcome W
  ready_if true e n l = ready_round e n l
  ready_if false e n l = goes n l

  abbrev timers_if : Bool → Local W → Local W
  timers_if true l = calls.run_timers l
  timers_if false l = l

  -- One round of the loop of iperf_run_server; every error ends it behind cleanup_server.
  unfoldable pub server_round : Event → Counts → Local W → RoundOutcome W
  unfolding ready_round
  server_round e n l =
      if e.select_failed
      then stops (known ie_select) l
      else ready_if e.positive e n l >>> (λ n1 l1. goes n1 (timers_if e.timers_due l1))

  abbrev cleaned : RoundOutcome W → RoundOutcome W
  cleaned (goes n l) = goes n l
  cleaned (stops e l) = stops e (calls.cleanup_server l)

  abbrev is_done : State → Bool
  is_done iperf_done = true
  is_done _ = false

  -- The loop, over what select gives in each round, and cleanup_server behind it.
  unfoldable pub serve : List Event → Counts → Local W → RoundOutcome W
  unfolding server_round
  serve [] n l = goes n l
  serve (e ∷ rest) n l = elim (is_done l.ctl.state) [
    | true ↦ goes n (calls.cleanup_server l)
    | false ↦ cleaned (server_round e n l) >>> serve rest
  ]
