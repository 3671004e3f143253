-- ===== src/Control/Server/Kept.antt =====
-- iperf_server_api.c: what the parts of the loop of iperf_run_server leave in view.
use sber_wifi.Prelude.{◌≡◌, refl, ap, ◌∙◌, Bool, true, false, not, List, ◌==◌}
use sber_wifi.Test.{Mode, sender, receiver, bidirectional_mode, tcp, same_protocol}
use sber_wifi.Control.{
  State, test_start, test_running, param_exchange, create_streams, exchange_results,
  display_results, Local, ErrorNumber, Outcome, go, stop, ◌>>=◌, Calls, iperf_exchange_parameters,
  report_listen_error, listened, iperf_exchange_results,
}
use sber_wifi.Control.Frame.{
  View, push, take_free, Gives, Gives-if, Gives-false, view, Shows, Frame, Shows-bind,
  Shows-transport, Shows-kept, Shows-moves, Shows-bind_moves, iperf_set_send_state-Shows,
}
use sber_wifi.Control.Server.{
  affinity_if, take_control, accept_client, set_done, end_of_test, settle_listeners, send_timers_if,
  start_test, move_data, data_if,
}

module _ {W : Type 0} (written read : W → List State) (calls : Calls W) where
  stopped-Gives :
      (P : Local W → Type 0) (e : ErrorNumber) (m : Outcome W) → Gives P (m >>= (λ l. stop e l))
  stopped-Gives P e (go l) = tt
  stopped-Gives P e (stop x l) = tt

  report_listen_error-Gives :
      (P : Local W → Type 0) (e : ErrorNumber) (l : Local W)
      → Gives P (report_listen_error calls e l)
  unfolding report_listen_error
  report_listen_error-Gives P e l = stopped-Gives P e _

  listened-Shows :
      (v : View) (m : Outcome W)
      → Frame written read calls
      → Shows written read v m
      → Shows written read (push create_streams v) (listened calls m)
  listened-Shows v (go l) frame e =
      Shows-transport written read _ _ _ (ap (push create_streams) e)
        (iperf_set_send_state-Shows written read calls create_streams l frame)
  listened-Shows v (stop x l) frame e = report_listen_error-Gives _ x l

  -- The server's side of the exchange of parameters.
  exchange_parameters-Shows :
      (l : Local W)
      → Frame written read calls
      → l.ctl.role ≡ b's'
      → Shows written read
          (push create_streams (view written read l))
          (iperf_exchange_parameters calls l)
  unfolding iperf_exchange_parameters
  exchange_parameters-Shows l frame server =
      let v = view written read l in
      Gives-false _ _ _ _ (ap (λ r. r == b'c') server) (
        Shows-bind written read v (push create_streams v) (calls.get_parameters l) _
          (frame.get_parameters l)
          (λ l1 e.
            listened-Shows v (calls.listen l1) frame
              (Shows-transport written read (view written read l1) v _ e (frame.listen l1))))

  affinity_if-Shows :
      (b : Bool) (l : Local W)
      → Frame written read calls
      → Shows written read (view written read l) (affinity_if calls b l)
  affinity_if-Shows true l frame = refl
  affinity_if-Shows false l frame = frame.set_affinity l

  pub accept_client-Shows :
      (l : Local W)
      → Frame written read calls
      → l.ctl.role ≡ b's'
      → Shows written read
          (push create_streams (push param_exchange (take_free (view written read l))))
          (accept_client calls l)
  unfolding accept_client
  accept_client-Shows l frame server =
      let v = push param_exchange (take_free (view written read l)) in
      let w = push create_streams v in
      Shows-kept written read w _ _
        (Shows-kept written read w _ _
          (Shows-bind written read v w _ (iperf_exchange_parameters calls)
            (Shows-moves written read calls param_exchange (take_free (view written read l)) _ frame
              (frame.read_cookie (take_control calls l)))
            (λ l1 e.
              Shows-transport written read _ _ _ (ap (push create_streams) e)
                (exchange_parameters-Shows l1 frame (ap (λ t. t.role) e ∙ server))))
          (λ l1. affinity_if-Shows _ l1 frame))
        frame.on_connect

  exchange_results-Shows :
      (l : Local W)
      → Frame written read calls
      → Shows written read (view written read l) (iperf_exchange_results calls l)
  unfolding iperf_exchange_results
  exchange_results-Shows l frame =
      let v = view written read l in
      Gives-if (λ t. view written read t ≡ v) (l.ctl.role == b'c')
        (calls.send_results l >>= calls.get_results) (calls.get_results l >>= calls.send_results)
        (Shows-kept written read v _ _ (frame.send_results l) frame.get_results)
        (Shows-kept written read v _ _ (frame.get_results l) frame.send_results)

  pub end_of_test-Shows :
      (l : Local W)
      → Frame written read calls
      → Shows written read
          (push display_results (push exchange_results (view written read l)))
          (end_of_test calls l)
  unfolding end_of_test
  end_of_test-Shows l frame =
      let v = view written read l in
      let l1 = calls.stats (calls.cpu_util (set_done calls l)) in
      let l2 = calls.report (calls.close_streams l1) in
      Shows-kept written read (push display_results (push exchange_results v)) _ _
        (Shows-moves written read calls display_results (push exchange_results v) _ frame (
          Shows-kept written read (push exchange_results v) _ _
            (Shows-transport written read (push exchange_results (view written read l2)) _ _
              (ap (push exchange_results) (
                frame.report (calls.close_streams l1)
                ∙ frame.close_streams l1
                ∙ frame.stats (calls.cpu_util (set_done calls l))
                ∙ frame.cpu_util (set_done calls l)))
              (iperf_set_send_state-Shows written read calls exchange_results l2 frame))
            (λ l3. exchange_results-Shows l3 frame)))
        frame.on_test_finish

  settle_listeners-Shows :
      (l : Local W)
      → Frame written read calls
      → Shows written read (view written read l) (settle_listeners calls l)
  settle_listeners-Shows l frame =
      let keeps = λ (t : Local W). view written read t ≡ view written read l in
      Gives-if keeps (not (same_protocol l.ctl.protocol tcp)) (go (calls.close_prot_listener l)) _
        (frame.close_prot_listener l)
        (Gives-if keeps l.ctl.tuned (calls.reopen_listener l) (go l) (frame.reopen_listener l) refl)

  send_timers_if-Shows :
      (b : Bool) (l : Local W)
      → Frame written read calls
      → Shows written read (view written read l) (send_timers_if calls b l)
  send_timers_if-Shows true l frame = frame.create_send_timers l
  send_timers_if-Shows false l frame = refl

  pub start_test-Shows :
      (l : Local W)
      → Frame written read calls
      → Shows written read
          (push test_running (push test_start (view written read l)))
          (start_test calls l)
  unfolding start_test
  start_test-Shows l frame =
      let v = view written read l in
      let w = push test_start v in
      Shows-moves written read calls test_running w _ frame (
        Shows-kept written read w _ _
          (Shows-kept written read w _ _
            (Shows-kept written read w _ _
              (Shows-kept written read w _ _
                (Shows-bind_moves written read calls test_start v _ _ frame
                  (settle_listeners-Shows l frame) frame.clear_prot_listener)
                frame.init_test)
              frame.create_timers)
            frame.create_omit_timer)
          (λ l1. send_timers_if-Shows _ l1 frame))

  move_data-Shows :
      (mode : Mode) (l : Local W)
      → Frame written read calls
      → Shows written read (view written read l) (move_data calls mode l)
  move_data-Shows bidirectional_mode l frame =
      Shows-kept written read (view written read l) _ _ (frame.recv l) frame.send
  move_data-Shows sender l frame = frame.send l
  move_data-Shows receiver l frame = frame.recv l

  pub data_if-Shows :
      (b : Bool) (l : Local W)
      → Frame written read calls
      → Shows written read (view written read l) (data_if calls b l)
  data_if-Shows true l frame = move_data-Shows l.ctl.mode l frame
  data_if-Shows false l frame = refl
