-- ===== src/Control/Client/Loop.antt =====
-- iperf_client_api.c: the rounds of iperf_run_client are moves of the client's machine.
use sber_wifi.Prelude.{◌≡◌, refl, sym, ap, ◌∙◌, Bool, true, false, List, [], ◌∷◌}
use sber_wifi.Test.{receiver}
use sber_wifi.Control.{
  State, test_start, test_running, test_end, param_exchange, create_streams, server_terminate,
  exchange_results, display_results, iperf_start, iperf_done, access_denied, server_error,
  client_terminate, other_state, Local, go, Calls, same_mode,
}
use sber_wifi.Control.Frame.{
  View, push, Runs, Runs.here, Runs-append, Runs_one, Gives, Gives-bind, Gives-if, Gives-elim,
  Gives-map, Runs_refl, Gives-go, view, Frame, Shows-transport,
}
use sber_wifi.Control.Client.{
  Event, iperf_handle_message_client, end_test, move_data, run_round, after_message, client_round,
  run_client, is_done, first_round, end_if, message_if,
}
use sber_wifi.Control.Client.Kept.{first_round-Keeps, end_test-Shows, move_data-Shows}
use sber_wifi.Control.Client.Moves.{ClientMove, finish, Runs-role, handle_read_client-Runs}

module _ {W : Type 0} (written read : W → List State) (calls : Calls W) where
  -- What is sent at the end of a round.
  end_if-Runs :
      (b : Bool) (v : View) (l : Local W)
      → Frame written read calls
      → view written read l ≡ v
      → v.state ≡ test_running
      → Gives (λ t. Runs ClientMove v (view written read t)) (end_if calls b l)
  end_if-Runs true v l frame e running =
      Gives-map (λ t. view written read t ≡ push test_end v)
        (λ t. Runs ClientMove v (view written read t)) (λ t w. Runs_one (finish running w))
        (end_test calls l)
        (Shows-transport written read (push test_end (view written read l)) _ _
          (ap (push test_end) e) (end_test-Shows written read calls l frame))
  end_if-Runs false v l frame e running = Runs_refl (sym e)

  run_round-Runs :
      (l : Local W)
      → Frame written read calls
      → l.ctl.state ≡ test_running
      → Gives (λ t. Runs ClientMove (view written read l) (view written read t)) (run_round calls l)
  unfolding run_round
  run_round-Runs l frame running =
      let v = view written read l in
      let l0 = first_round calls l in
      let e0 = first_round-Keeps written read calls l frame in
      Gives-bind (λ t. Runs ClientMove v (view written read t)) (λ t. view written read t ≡ v)
        (move_data calls l0.ctl.mode l0) _
        (Shows-transport written read (view written read l0) v _ e0
          (move_data-Shows written read calls l0.ctl.mode l0 frame))
        (λ l1 e. end_if-Runs _ v (calls.run_timers l1) frame (frame.run_timers l1 ∙ e) running)

  message_if-Runs :
      (b : Bool) (l : Local W)
      → Frame written read calls
      → l.ctl.role ≡ b'c'
      → Gives
          (λ t. Runs ClientMove (view written read l) (view written read t))
          (message_if calls b l)
  unfolding iperf_handle_message_client
  message_if-Runs true l frame client =
      handle_read_client-Runs written read calls (view written read l) (calls.read_state l) frame
        client (frame.read_state l)
  message_if-Runs false l frame client = here

  drain-Runs :
      (l : Local W)
      → Frame written read calls
      → Gives
          (λ t. Runs ClientMove (view written read l) (view written read t))
          (after_message calls test_end l)
  unfolding after_message
  drain-Runs l frame =
      let keeps = λ (t : Local W). view written read t ≡ view written read l in
      Gives-map keeps (λ t. Runs ClientMove (view written read l) (view written read t))
        (λ t e. Runs_refl (sym e)) _
        (Gives-if keeps (same_mode l.ctl.mode receiver) _ (go l) (frame.recv l) refl)

  after_message-Runs :
      (s : State) (l : Local W)
      → Frame written read calls
      → l.ctl.state ≡ s
      → Gives
          (λ t. Runs ClientMove (view written read l) (view written read t))
          (after_message calls s l)
  unfolding after_message
  after_message-Runs test_running l frame e = run_round-Runs l frame e
  after_message-Runs test_end l frame e = drain-Runs l frame
  after_message-Runs param_exchange l frame e = here
  after_message-Runs create_streams l frame e = here
  after_message-Runs test_start l frame e = here
  after_message-Runs exchange_results l frame e = here
  after_message-Runs display_results l frame e = here
  after_message-Runs iperf_done l frame e = here
  after_message-Runs server_terminate l frame e = here
  after_message-Runs access_denied l frame e = here
  after_message-Runs server_error l frame e = here
  after_message-Runs client_terminate l frame e = here
  after_message-Runs iperf_start l frame e = here
  after_message-Runs (other_state c) l frame e = here

  client_round-Runs :
      (e : Event) (l : Local W)
      → Frame written read calls
      → l.ctl.role ≡ b'c'
      → Gives
          (λ t. Runs ClientMove (view written read l) (view written read t))
          (client_round calls e l)
  unfolding client_round
  client_round-Runs e l frame client =
      let goal = λ (t : Local W). Runs ClientMove (view written read l) (view written read t) in
      Gives-if goal e.select_failed _ _ tt (
        Gives-bind goal goal (message_if calls e.readable l) _
          (message_if-Runs e.readable l frame client)
          (λ l1 r.
            Gives-map _ goal (λ t r1. Runs-append r r1) _
              (after_message-Runs l1.ctl.state l1 frame refl)))

  run_client-Gives :
      (events : List Event) (l : Local W)
      → Frame written read calls
      → l.ctl.role ≡ b'c'
      → Gives
          (λ t. Runs ClientMove (view written read l) (view written read t))
          (run_client calls events l)
  unfolding run_client
  run_client-Gives [] l frame client = here
  run_client-Gives (e ∷ rest) l frame client =
      let goal = λ (t : Local W). Runs ClientMove (view written read l) (view written read t) in
      Gives-elim goal (is_done calls l.ctl.state) (go l) _ here (
        Gives-bind goal goal (client_round calls e l) _ (client_round-Runs e l frame client)
          (λ l1 r.
            Gives-map _ goal (λ t r1. Runs-append r r1) _
              (run_client-Gives rest l1 frame (Runs-role r ∙ client))))

  -- A run of the client's loop that ends with no error goes through moves of the client's machine: a
  -- state that is followed is heard first, TEST_END is sent only out of TEST_RUNNING, and DISPLAY_RESULTS
  -- is answered by IPERF_DONE, or by nothing where that cannot be written. The calls that are left to
  -- other parts neither change the state nor send one.
  pub run_client-Runs :
      (events : List Event) (l l' : Local W)
      → Frame written read calls
      → l.ctl.role ≡ b'c'
      → run_client calls events l ≡ go l'
      → Runs ClientMove (view written read l) (view written read l')
  run_client-Runs events l l' frame client =
      Gives-go (λ t. Runs ClientMove (view written read l) (view written read t))
        (run_client calls events l) l' (run_client-Gives events l frame client)
