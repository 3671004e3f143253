-- ===== src/Control/Client.antt =====
-- app/src/main/cpp/iperf/iperf_client_api.c: iperf_create_streams, iperf_handle_message_client,
-- iperf_client_end and the loop of iperf_run_client.
pub mod Kept
pub mod Moves
pub mod Loop
pub mod Ports
pub mod Progress
use sber_wifi.Prelude.{
  ℕ, zero, suc, ◌+◌, Bool, true, false, not, ◌&&◌, ◌||◌, Option, none, some, List, [], ◌∷◌, leb,
  ◌==◌, if◌then◌else◌,
}
use sber_wifi.Prelude.Int.{ℤ, pos, pos_part, eq_ℤ, add_ℕ}
use sber_wifi.Test.{Mode, sender, receiver, bidirectional_mode, udp, same_protocol}
use sber_wifi.Error.{
  ie_ctrlclose, ie_recvmessage, ie_serverterm, ie_accessdenied, ie_ctrlread, ie_message, ie_select,
}
use sber_wifi.Control.{
  State, test_start, test_running, test_end, param_exchange, create_streams, server_terminate,
  exchange_results, display_results, iperf_done, access_denied, server_error, Ctl, Local, known,
  remote, Outcome, go, stop, ◌>>=◌, StateRead, got_state, end_of_file, read_failed, Calls,
  set_state, same_mode, is_sending, iperf_set_send_state, iperf_exchange_parameters,
  iperf_exchange_results,
}

-- The port that stream `i` is bound to: `orig_bind_port`, and `i` on top unless it is 0.
abbrev pub port_of : ℤ → ℕ → ℤ
port_of orig_bind_port i =
    if eq_ℤ orig_bind_port (pos 0) then orig_bind_port else add_ℕ orig_bind_port i

abbrev pub set_bind_port : {W : Type 0} → ℤ → Local W → Local W
set_bind_port port l = let c = l.ctl in record l { ctl = record c { bind_port = port } }

-- What select(2) has left: a negative result that is not EINTR, and whether the control socket can
-- be read. `read` is false also where the result is 0.
pub record Event : Type 0 where
  pub select_failed : Bool
  pub readable : Bool

module _ {W : Type 0} (calls : Calls W) where
  -- The rounds from `i` on, `left` of them.
  unfoldable pub connect_from : Bool → ℤ → ℕ → ℕ → Local W → Outcome W
  connect_from is_sender orig_bind_port i zero l = go l
  connect_from is_sender orig_bind_port i (suc left) l =
      calls.connect is_sender (set_bind_port (port_of orig_bind_port i) l)
      >>= calls.new_stream is_sender
      >>= connect_from is_sender orig_bind_port (i + 1) left

  unfoldable pub iperf_create_streams : Bool → Local W → Outcome W
  unfolding connect_from
  iperf_create_streams is_sender l =
      connect_from is_sender l.ctl.bind_port 0 (pos_part l.ctl.num_streams) l

  unfoldable pub iperf_client_end : Local W → Outcome W
  unfolding iperf_set_send_state
  iperf_client_end l =
      iperf_set_send_state calls iperf_done (calls.report (calls.close_streams l))
      >>= (λ l1. go (calls.close_control l1))

  -- A failing iperf_client_end is not looked at.
  abbrev ignore : Outcome W → Outcome W
  ignore (go l) = go l
  ignore (stop e l) = go l

  -- The two numbers behind SERVER_ERROR; the first becomes i_errno, the second errno.
  abbrev read_second : ℕ → Option ℕ × Local W → Outcome W
  read_second err (none, l) = stop (known ie_ctrlread) l
  read_second err (some errno, l) = stop (remote err) l

  abbrev read_numbers : Option ℕ × Local W → Outcome W
  read_numbers (none, l) = stop (known ie_ctrlread) l
  read_numbers (some err, l) = read_second err (calls.read_number l)

  -- A report of the test so far, in the state DISPLAY_RESULTS.
  abbrev pub report_end : State → Local W → Local W
  report_end oldstate l =
      set_state oldstate (calls.report (set_state display_results (calls.cpu_util l)))

  abbrev create_both : Local W → Outcome W
  create_both l = iperf_create_streams true l >>= iperf_create_streams false

  abbrev send_timers_if : Bool → Local W → Outcome W
  send_timers_if true l = calls.create_send_timers l
  send_timers_if false l = go l

  -- The `switch` over the new state.
  unfoldable pub handle_state_client : State → Local W → Outcome W
  unfolding iperf_exchange_parameters iperf_exchange_results iperf_create_streams iperf_client_end
  handle_state_client param_exchange l =
      iperf_exchange_parameters calls l >>= (λ l1. go (calls.on_connect l1))
  handle_state_client create_streams l =
      if same_mode l.ctl.mode bidirectional_mode
      then create_both l
      else iperf_create_streams (is_sending l.ctl.mode) l
  handle_state_client test_start l =
      calls.init_test l
      >>= calls.create_timers
      >>= calls.create_omit_timer
      >>= (λ l1. send_timers_if (is_sending l1.ctl.mode) l1)
  handle_state_client test_running l = go l
  handle_state_client exchange_results l = iperf_exchange_results calls l
  handle_state_client display_results l = ignore (iperf_client_end (calls.on_test_finish l))
  handle_state_client iperf_done l = go l
  handle_state_client server_terminate l =
      stop (known ie_serverterm) (report_end server_terminate l)
  handle_state_client access_denied l = stop (known ie_accessdenied) l
  handle_state_client server_error l = read_numbers (calls.read_number l)
  handle_state_client _ l = stop (known ie_message) l

  unfoldable pub handle_read_client : StateRead × Local W → Outcome W
  unfolding handle_state_client
  handle_read_client (got_state s, l) = handle_state_client s (set_state s l)
  handle_read_client (end_of_file, l) = stop (known ie_ctrlclose) l
  handle_read_client (read_failed, l) = stop (known ie_recvmessage) l

  unfoldable pub iperf_handle_message_client : Local W → Outcome W
  unfolding handle_read_client
  iperf_handle_message_client l = handle_read_client (calls.read_state l)

  -- `Is the test done yet?`
  abbrev pub is_over : Ctl → Bool
  is_over c =
      not c.omitting
      && ((not (eq_ℤ c.duration (pos 0)) && c.done)
          || ((not (c.bytes == 0) && leb c.bytes c.bytes_sent)
              || (not (c.blocks == 0) && leb c.blocks c.blocks_sent)))

  abbrev set_nonblocking : Bool → Local W → Local W
  set_nonblocking on l = if same_protocol l.ctl.protocol udp then l else calls.setnonblocking on l

  abbrev first_round : Local W → Local W
  first_round l =
      let c = l.ctl in
      if l.ctl.startup
      then set_nonblocking true (record l { ctl = record c { startup = false } })
      else l

  abbrev set_done : Local W → Local W
  set_done l = let c = l.ctl in record l { ctl = record c { done = true } }

  unfoldable pub end_test : Local W → Outcome W
  unfolding iperf_set_send_state
  end_test l =
      iperf_set_send_state calls test_end
        (calls.stats (calls.cpu_util (set_done (set_nonblocking false l))))

  abbrev pub move_data : Mode → Local W → Outcome W
  move_data bidirectional_mode l = calls.send l >>= calls.recv
  move_data sender l = calls.send l
  move_data receiver l = calls.recv l

  abbrev end_if : Bool → Local W → Outcome W
  end_if true l = end_test l
  end_if false l = go l

  -- The round in the state TEST_RUNNING.
  unfoldable pub run_round : Local W → Outcome W
  unfolding end_test
  run_round l =
      let l0 = first_round l in
      move_data l0.ctl.mode l0
      >>= (λ l1. let l2 = calls.run_timers l1 in end_if (is_over l2.ctl) l2)

  -- What follows the control message in a round; in reverse mode the data are drained after the
  -- end of the test.
  unfoldable pub after_message : State → Local W → Outcome W
  unfolding run_round
  after_message test_running l = run_round l
  after_message test_end l = if same_mode l.ctl.mode receiver then calls.recv l else go l
  after_message _ l = go l

  abbrev message_if : Bool → Local W → Outcome W
  message_if true l = iperf_handle_message_client l
  message_if false l = go l

  -- One round of the loop of iperf_run_client.
  unfoldable pub client_round : Event → Local W → Outcome W
  unfolding iperf_handle_message_client after_message
  client_round e l =
      if e.select_failed
      then stop (known ie_select) l
      else message_if e.readable l >>= (λ l1. after_message l1.ctl.state l1)

  abbrev pub is_done : State → Bool
  is_done iperf_done = true
  is_done _ = false

  -- The loop, over what select gives in each round; with no more events it waits.
  unfoldable pub run_client : List Event → Local W → Outcome W
  unfolding client_round
  run_client [] l = go l
  run_client (e ∷ rest) l = elim (is_done l.ctl.state) [
    | true ↦ go l
    | false ↦ client_round e l >>= run_client rest
  ]
