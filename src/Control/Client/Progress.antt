-- ===== src/Control/Client/Progress.antt =====
-- iperf_client_api.c: a round of iperf_run_client goes on where the calls of other parts succeed and
-- the state that is read is one of a test.
use sber_wifi.Prelude.{
  ℕ, zero, suc, ◌+◌, ◌≡◌, refl, ap, ◌∙◌, Bool, true, false, ◌==◌, if◌then◌else◌,
}
use sber_wifi.Prelude.Int.{ℤ, pos_part}
use sber_wifi.Test.{Mode, sender, receiver, bidirectional_mode}
use sber_wifi.Control.{
  State, test_start, test_running, test_end, param_exchange, create_streams, server_terminate,
  exchange_results, display_results, iperf_start, iperf_done, access_denied, server_error,
  client_terminate, other_state, Local, Outcome, go, stop, ◌>>=◌, StateRead, got_state, Calls,
  set_state, same_mode, is_sending, iperf_set_send_state, iperf_exchange_parameters,
  iperf_exchange_results, sent_state, listened,
}
use sber_wifi.Control.Client.{
  Event, port_of, set_bind_port, connect_from, iperf_create_streams, handle_state_client,
  handle_read_client, iperf_handle_message_client, is_over, end_test, move_data, run_round,
  after_message, client_round, set_done, set_nonblocking, first_round, end_if, message_if, ignore,
  create_both, send_timers_if,
}
use sber_wifi.Control.System.Safety.{is_expected}

abbrev pub IsGo : {W : Type 0} → Outcome W → Type 0
IsGo {W} m = (l : Local W) × (m ≡ go l)

IsGo-bind :
    {W : Type 0} (m : Outcome W) (f : Local W → Outcome W)
    → IsGo m
    → ((l : Local W) → IsGo (f l))
    → IsGo (m >>= f)
IsGo-bind m f g h = let r = h g.0 in (r.0, ap (λ t. t >>= f) g.1 ∙ r.1)

IsGo-if : {W : Type 0} (b : Bool) (m n : Outcome W) → IsGo m → IsGo n → IsGo (if b then m else n)
IsGo-if true m n g h = g
IsGo-if false m n g h = h

IsGo-false :
    {W : Type 0} (b : Bool) (m n : Outcome W) → b ≡ false → IsGo n → IsGo (if b then m else n)
IsGo-false true m n e g = absurd cc
IsGo-false false m n e g = g

-- Calls that succeed, in whatever state.
pub record Succeeds {W : Type 0} (calls : Calls W) : Type 0 where
  pub write_state : (s : State) (l : Local W) → (calls.write_state s l).0 ≡ true
  pub send_parameters : (l : Local W) → IsGo (calls.send_parameters l)
  pub get_parameters : (l : Local W) → IsGo (calls.get_parameters l)
  pub listen : (l : Local W) → IsGo (calls.listen l)
  pub send_results : (l : Local W) → IsGo (calls.send_results l)
  pub get_results : (l : Local W) → IsGo (calls.get_results l)
  pub connect : (b : Bool) (l : Local W) → IsGo (calls.connect b l)
  pub new_stream : (b : Bool) (l : Local W) → IsGo (calls.new_stream b l)
  pub init_test : (l : Local W) → IsGo (calls.init_test l)
  pub create_timers : (l : Local W) → IsGo (calls.create_timers l)
  pub create_omit_timer : (l : Local W) → IsGo (calls.create_omit_timer l)
  pub create_send_timers : (l : Local W) → IsGo (calls.create_send_timers l)
  pub send : (l : Local W) → IsGo (calls.send l)
  pub recv : (l : Local W) → IsGo (calls.recv l)

module _ {W : Type 0} (calls : Calls W) where
  sent_state-IsGo : (r : Bool × Local W) → r.0 ≡ true → IsGo (sent_state calls r)
  sent_state-IsGo (true, l) e = (l, refl)
  sent_state-IsGo (false, l) e = absurd cc

  iperf_set_send_state-IsGo :
      (s : State) (l : Local W) → Succeeds calls → IsGo (iperf_set_send_state calls s l)
  unfolding iperf_set_send_state
  iperf_set_send_state-IsGo s l ok =
      sent_state-IsGo (calls.write_state s (set_state s l)) (ok.write_state s (set_state s l))

  listened-IsGo : (m : Outcome W) → Succeeds calls → IsGo m → IsGo (listened calls m)
  listened-IsGo (go l) ok g = iperf_set_send_state-IsGo create_streams l ok
  listened-IsGo (stop e l) ok g = let h = g.1 in absurd cc

  parameters-IsGo : (l : Local W) → Succeeds calls → IsGo (iperf_exchange_parameters calls l)
  unfolding iperf_exchange_parameters
  parameters-IsGo l ok =
      IsGo-if (l.ctl.role == b'c') (calls.send_parameters l) _ (ok.send_parameters l) (
        IsGo-bind (calls.get_parameters l) (λ l1. listened calls (calls.listen l1))
          (ok.get_parameters l) (λ l1. listened-IsGo (calls.listen l1) ok (ok.listen l1)))

  results-IsGo : (l : Local W) → Succeeds calls → IsGo (iperf_exchange_results calls l)
  unfolding iperf_exchange_results
  results-IsGo l ok =
      IsGo-if (l.ctl.role == b'c') _ _
        (IsGo-bind (calls.send_results l) calls.get_results (ok.send_results l) ok.get_results)
        (IsGo-bind (calls.get_results l) calls.send_results (ok.get_results l) ok.send_results)

  connect_from-IsGo :
      (b : Bool) (port : ℤ) (i left : ℕ) (l : Local W)
      → Succeeds calls
      → IsGo (connect_from calls b port i left l)
  unfolding connect_from
  connect_from-IsGo b port i zero l ok = (l, refl)
  connect_from-IsGo b port i (suc left) l ok =
      IsGo-bind _ (connect_from calls b port (i + 1) left)
        (IsGo-bind (calls.connect b (set_bind_port (port_of port i) l)) (calls.new_stream b)
          (ok.connect b (set_bind_port (port_of port i) l)) (ok.new_stream b))
        (λ l1. connect_from-IsGo b port (i + 1) left l1 ok)

  streams-IsGo : (b : Bool) (l : Local W) → Succeeds calls → IsGo (iperf_create_streams calls b l)
  unfolding iperf_create_streams
  streams-IsGo b l ok = connect_from-IsGo b l.ctl.bind_port 0 (pos_part l.ctl.num_streams) l ok

  move_data-IsGo : (mode : Mode) (l : Local W) → Succeeds calls → IsGo (move_data calls mode l)
  move_data-IsGo bidirectional_mode l ok = IsGo-bind (calls.send l) calls.recv (ok.send l) ok.recv
  move_data-IsGo sender l ok = ok.send l
  move_data-IsGo receiver l ok = ok.recv l

  end_test-IsGo : (l : Local W) → Succeeds calls → IsGo (end_test calls l)
  unfolding end_test
  end_test-IsGo l ok =
      iperf_set_send_state-IsGo test_end
        (calls.stats (calls.cpu_util (set_done calls (set_nonblocking calls false l)))) ok

  end_if-IsGo : (b : Bool) (l : Local W) → Succeeds calls → IsGo (end_if calls b l)
  end_if-IsGo true l ok = end_test-IsGo l ok
  end_if-IsGo false l ok = (l, refl)

  after_message-IsGo : (s : State) (l : Local W) → Succeeds calls → IsGo (after_message calls s l)
  unfolding after_message run_round
  after_message-IsGo test_running l ok =
      let l0 = first_round calls l in
      IsGo-bind (move_data calls l0.ctl.mode l0) _ (move_data-IsGo l0.ctl.mode l0 ok)
        (λ l1. end_if-IsGo (is_over calls (calls.run_timers l1).ctl) (calls.run_timers l1) ok)
  after_message-IsGo test_end l ok =
      IsGo-if (same_mode l.ctl.mode receiver) (calls.recv l) (go l) (ok.recv l) (l, refl)
  after_message-IsGo param_exchange l ok = (l, refl)
  after_message-IsGo create_streams l ok = (l, refl)
  after_message-IsGo test_start l ok = (l, refl)
  after_message-IsGo exchange_results l ok = (l, refl)
  after_message-IsGo display_results l ok = (l, refl)
  after_message-IsGo iperf_done l ok = (l, refl)
  after_message-IsGo server_terminate l ok = (l, refl)
  after_message-IsGo access_denied l ok = (l, refl)
  after_message-IsGo server_error l ok = (l, refl)
  after_message-IsGo client_terminate l ok = (l, refl)
  after_message-IsGo iperf_start l ok = (l, refl)
  after_message-IsGo (other_state c) l ok = (l, refl)

  send_timers_if-IsGo : (b : Bool) (l : Local W) → Succeeds calls → IsGo (send_timers_if calls b l)
  send_timers_if-IsGo true l ok = ok.create_send_timers l
  send_timers_if-IsGo false l ok = (l, refl)

  ignore-IsGo : (m : Outcome W) → IsGo (ignore calls m)
  ignore-IsGo (go l) = (l, refl)
  ignore-IsGo (stop e l) = (l, refl)

  handle_state_client-IsGo :
      (s : State) (l : Local W)
      → Succeeds calls
      → is_expected s ≡ true
      → IsGo (handle_state_client calls s l)
  unfolding handle_state_client
  handle_state_client-IsGo param_exchange l ok e =
      IsGo-bind (iperf_exchange_parameters calls l) _ (parameters-IsGo l ok)
        (λ l1. (calls.on_connect l1, refl))
  handle_state_client-IsGo create_streams l ok e =
      IsGo-if (same_mode l.ctl.mode bidirectional_mode) (create_both calls l) _
        (IsGo-bind (iperf_create_streams calls true l) (iperf_create_streams calls false)
          (streams-IsGo true l ok) (λ l1. streams-IsGo false l1 ok))
        (streams-IsGo (is_sending l.ctl.mode) l ok)
  handle_state_client-IsGo test_start l ok e =
      IsGo-bind _ _
        (IsGo-bind _ calls.create_omit_timer
          (IsGo-bind (calls.init_test l) calls.create_timers (ok.init_test l) ok.create_timers)
          ok.create_omit_timer)
        (λ l1. send_timers_if-IsGo (is_sending l1.ctl.mode) l1 ok)
  handle_state_client-IsGo test_running l ok e = (l, refl)
  handle_state_client-IsGo exchange_results l ok e = results-IsGo l ok
  handle_state_client-IsGo display_results l ok e = ignore-IsGo _
  handle_state_client-IsGo iperf_done l ok e = (l, refl)
  handle_state_client-IsGo _ l ok e = absurd cc

  handle_read_client-IsGo :
      (r : StateRead × Local W) (s : State)
      → Succeeds calls
      → r.0 ≡ got_state s
      → is_expected s ≡ true
      → IsGo (handle_read_client calls r)
  unfolding handle_read_client
  handle_read_client-IsGo (got_state s1, l) s ok e h =
      let same : s1 ≡ s = cc in
      handle_state_client-IsGo s1 (set_state s1 l) ok (ap is_expected same ∙ h)
  handle_read_client-IsGo (r, l) s ok e h = absurd cc

  message_if-IsGo :
      (b : Bool) (l : Local W) (s : State)
      → Succeeds calls
      → (calls.read_state l).0 ≡ got_state s
      → is_expected s ≡ true
      → IsGo (message_if calls b l)
  unfolding iperf_handle_message_client
  message_if-IsGo true l s ok e h = handle_read_client-IsGo (calls.read_state l) s ok e h
  message_if-IsGo false l s ok e h = (l, refl)

  -- Where select has not failed, the calls of other parts succeed, and the state that can be read is
  -- PARAM_EXCHANGE, CREATE_STREAMS, TEST_START, TEST_RUNNING, EXCHANGE_RESULTS, DISPLAY_RESULTS or
  -- IPERF_DONE: a round of the client's loop ends with no error.
  pub client_round-IsGo :
      (e : Event) (l : Local W) (s : State)
      → Succeeds calls
      → e.select_failed ≡ false
      → (calls.read_state l).0 ≡ got_state s
      → is_expected s ≡ true
      → IsGo (client_round calls e l)
  unfolding client_round
  client_round-IsGo e l s ok live r h = IsGo-false e.select_failed _ _ live (
      IsGo-bind (message_if calls e.readable l) (λ l1. after_message calls l1.ctl.state l1)
        (message_if-IsGo e.readable l s ok r h) (λ l1. after_message-IsGo l1.ctl.state l1 ok))
