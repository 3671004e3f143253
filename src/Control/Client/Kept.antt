-- ===== src/Control/Client/Kept.antt =====
-- iperf_client_api.c: what the parts of the loop of iperf_run_client leave in view.
use sber_wifi.Prelude.{
  ℕ, zero, suc, ◌+◌, ◌≡◌, refl, ap, ◌∙◌, Bool, true, false, List, ◌==◌, if◌then◌else◌,
}
use sber_wifi.Prelude.Int.{ℤ, pos_part}
use sber_wifi.Test.{Mode, sender, receiver, bidirectional_mode, udp, same_protocol}
use sber_wifi.Control.{
  State, test_start, test_end, param_exchange, create_streams, iperf_done, Local, ◌>>=◌, Calls,
  same_mode, is_sending, iperf_exchange_parameters, iperf_exchange_results,
}
use sber_wifi.Control.Frame.{
  push, Gives-if, Gives-true, view, Shows, Frame, Shows-transport, Shows-kept,
  iperf_set_send_state-Shows,
}
use sber_wifi.Control.Client.{
  port_of, set_bind_port, connect_from, iperf_create_streams, iperf_client_end, handle_state_client,
  end_test, move_data, create_both, send_timers_if, set_nonblocking, first_round, set_done,
}

module _ {W : Type 0} (written read : W → List State) (calls : Calls W) where
  pub connect_from-Shows :
      (is_sender : Bool) (port : ℤ) (i left : ℕ) (l : Local W)
      → Frame written read calls
      → Shows written read (view written read l) (connect_from calls is_sender port i left l)
  unfolding connect_from
  connect_from-Shows is_sender port i zero l frame = refl
  connect_from-Shows is_sender port i (suc left) l frame =
      Shows-kept written read (view written read l) _ _
        (Shows-kept written read (view written read l) _ _
          (frame.connect is_sender (set_bind_port (port_of port i) l)) (frame.new_stream is_sender))
        (λ l1. connect_from-Shows is_sender port (i + 1) left l1 frame)

  pub iperf_create_streams-Shows :
      (is_sender : Bool) (l : Local W)
      → Frame written read calls
      → Shows written read (view written read l) (iperf_create_streams calls is_sender l)
  unfolding iperf_create_streams
  iperf_create_streams-Shows is_sender l frame =
      connect_from-Shows is_sender l.ctl.bind_port 0 (pos_part l.ctl.num_streams) l frame

  pub create_both-Shows :
      (l : Local W)
      → Frame written read calls
      → Shows written read (view written read l) (create_both calls l)
  create_both-Shows l frame =
      Shows-kept written read (view written read l) (iperf_create_streams calls true l)
        (iperf_create_streams calls false) (iperf_create_streams-Shows true l frame)
        (λ l1. iperf_create_streams-Shows false l1 frame)

  pub send_timers_if-Shows :
      (b : Bool) (l : Local W)
      → Frame written read calls
      → Shows written read (view written read l) (send_timers_if calls b l)
  send_timers_if-Shows true l frame = frame.create_send_timers l
  send_timers_if-Shows false l frame = refl

  pub test_start-Shows :
      (l : Local W)
      → Frame written read calls
      → Shows written read (view written read l) (handle_state_client calls test_start l)
  unfolding handle_state_client
  test_start-Shows l frame =
      let v = view written read l in
      Shows-kept written read v _ _
        (Shows-kept written read v _ _
          (Shows-kept written read v _ _ (frame.init_test l) frame.create_timers)
          frame.create_omit_timer)
        (λ l1. send_timers_if-Shows _ l1 frame)

  pub create_streams-Shows :
      (l : Local W)
      → Frame written read calls
      → Shows written read (view written read l) (handle_state_client calls create_streams l)
  unfolding handle_state_client
  create_streams-Shows l frame =
      Gives-if (λ t. view written read t ≡ view written read l)
        (same_mode l.ctl.mode bidirectional_mode) (create_both calls l)
        (iperf_create_streams calls (is_sending l.ctl.mode) l) (create_both-Shows l frame)
        (iperf_create_streams-Shows (is_sending l.ctl.mode) l frame)

  pub iperf_exchange_parameters-Shows :
      (l : Local W)
      → Frame written read calls
      → l.ctl.role ≡ b'c'
      → Shows written read (view written read l) (iperf_exchange_parameters calls l)
  unfolding iperf_exchange_parameters
  iperf_exchange_parameters-Shows l frame client =
      Gives-true _ _ _ _ (ap (λ r. r == b'c') client) (frame.send_parameters l)

  pub param_exchange-Shows :
      (l : Local W)
      → Frame written read calls
      → l.ctl.role ≡ b'c'
      → Shows written read (view written read l) (handle_state_client calls param_exchange l)
  unfolding handle_state_client
  param_exchange-Shows l frame client =
      Shows-kept written read (view written read l) _ _
        (iperf_exchange_parameters-Shows l frame client) frame.on_connect

  pub exchange_results-Shows :
      (l : Local W)
      → Frame written read calls
      → Shows written read (view written read l) (iperf_exchange_results calls l)
  unfolding iperf_exchange_results
  exchange_results-Shows l frame =
      let v = view written read l in
      Gives-if (λ t. view written read t ≡ v) (l.ctl.role == b'c')
        (calls.send_results l >>= calls.get_results) (calls.get_results l >>= calls.send_results)
        (Shows-kept written read v _ _ (frame.send_results l) frame.get_results)
        (Shows-kept written read v _ _ (frame.get_results l) frame.send_results)

  pub iperf_client_end-Shows :
      (l : Local W)
      → Frame written read calls
      → Shows written read (push iperf_done (view written read l)) (iperf_client_end calls l)
  unfolding iperf_client_end
  iperf_client_end-Shows l frame =
      let l1 = calls.report (calls.close_streams l) in
      Shows-kept written read (push iperf_done (view written read l)) _ _
        (Shows-transport written read (push iperf_done (view written read l1)) _ _
          (ap (push iperf_done) (frame.report (calls.close_streams l) ∙ frame.close_streams l))
          (iperf_set_send_state-Shows written read calls iperf_done l1 frame))
        frame.close_control

  set_nonblocking-Keeps :
      (on : Bool) (l : Local W)
      → Frame written read calls
      → view written read (set_nonblocking calls on l) ≡ view written read l
  set_nonblocking-Keeps on l frame =
      elim (same_protocol l.ctl.protocol udp)
        as (λ b.
          view written read (if b then l else calls.setnonblocking on l) ≡ view written read l) [
            | true ↦ refl
            | false ↦ frame.setnonblocking on l
          ]

  pub first_round-Keeps :
      (l : Local W)
      → Frame written read calls
      → view written read (first_round calls l) ≡ view written read l
  first_round-Keeps l frame =
      let c = l.ctl in
      let l1 = record l { ctl = record c { startup = false } } in
      elim l.ctl.startup
        as (λ b.
          view written read (if b then set_nonblocking calls true l1 else l)
          ≡ view written read l) [ true ↦ set_nonblocking-Keeps true l1 frame | false ↦ refl ]

  pub end_test-Shows :
      (l : Local W)
      → Frame written read calls
      → Shows written read (push test_end (view written read l)) (end_test calls l)
  unfolding end_test
  end_test-Shows l frame =
      let l0 = set_done calls (set_nonblocking calls false l) in
      let l1 = calls.stats (calls.cpu_util l0) in
      Shows-transport written read (push test_end (view written read l1)) _ _
        (ap (push test_end) (
          frame.stats (calls.cpu_util l0)
          ∙ frame.cpu_util l0
          ∙ set_nonblocking-Keeps false l frame))
        (iperf_set_send_state-Shows written read calls test_end l1 frame)

  pub move_data-Shows :
      (mode : Mode) (l : Local W)
      → Frame written read calls
      → Shows written read (view written read l) (move_data calls mode l)
  move_data-Shows bidirectional_mode l frame =
      Shows-kept written read (view written read l) _ _ (frame.send l) frame.recv
  move_data-Shows sender l frame = frame.send l
  move_data-Shows receiver l frame = frame.recv l
