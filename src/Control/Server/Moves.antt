-- ===== src/Control/Server/Moves.antt =====
-- iperf_server_api.c: the server of a test as a machine that knows nothing but its state, whether it
-- is free, and the messages sent and heard; iperf_accept and iperf_handle_message_server are moves of
-- it.
use sber_wifi.Prelude.{◌≡◌, refl, sym, ap, ◌∙◌, Bool, true, false, List, if◌then◌else◌}
use sber_wifi.Control.{
  State, test_start, test_running, test_end, param_exchange, create_streams, server_terminate,
  exchange_results, display_results, iperf_start, iperf_done, access_denied, server_error,
  client_terminate, other_state, Local, Outcome, StateRead, got_state, end_of_file, read_failed,
  Calls, set_state,
}
use sber_wifi.Control.Frame.{
  View, to, push, hear, take_free, Runs, Runs.here, Runs.next, Runs_one, Runs_refl, after_read,
  Gives, Gives-bind, Gives-map, view, Shows, Frame, Shows-transport,
}
use sber_wifi.Control.Server.{
  handle_state_server, handle_read_server, accept_client, iperf_accept, report_end,
}
use sber_wifi.Control.Server.Kept.{accept_client-Shows, end_of_test-Shows}

-- The states that the server only takes over.
abbrev pub is_noted : State → Bool
is_noted test_start = true
is_noted iperf_done = true
is_noted _ = false

pub data ServerMove (v w : View) : Type 0 where
  accept :
      v.free ≡ true → w ≡ push create_streams (push param_exchange (take_free v)) → ServerMove v w
  start : v.state ≡ create_streams → w ≡ push test_running (push test_start v) → ServerMove v w
  note : (s : State) → is_noted s ≡ true → w ≡ to s (hear s v) → ServerMove v w
  finish : w ≡ push display_results (push exchange_results (hear test_end v)) → ServerMove v w
  terminated : w ≡ to iperf_done (hear client_terminate v) → ServerMove v w
  hung_up : w ≡ to iperf_done v → ServerMove v w

pub Moves-role : {v w : View} → ServerMove v w → w.role ≡ v.role
Moves-role (accept h e) = ap (λ t. t.role) e
Moves-role (start h e) = ap (λ t. t.role) e
Moves-role (note s h e) = ap (λ t. t.role) e
Moves-role (finish e) = ap (λ t. t.role) e
Moves-role (terminated e) = ap (λ t. t.role) e
Moves-role (hung_up e) = ap (λ t. t.role) e

pub Runs-role : {v w : View} → Runs ServerMove v w → w.role ≡ v.role
Runs-role here = refl
Runs-role (next r m) = Moves-role m ∙ Runs-role r

module _ {W : Type 0} (written read : W → List State) (calls : Calls W) where
  -- Calls that leave one move.
  move-Runs :
      (v w : View) (m : Outcome W)
      → ((t : View) → t ≡ w → ServerMove v t)
      → Shows written read w m
      → Gives (λ t. Runs ServerMove v (view written read t)) m
  move-Runs v w m move =
      Gives-map (λ t. view written read t ≡ w) (λ t. Runs ServerMove v (view written read t))
        (λ t e. Runs_one (move (view written read t) e)) m

  accept_or_refuse-Runs :
      (b : Bool) (v : View) (l : Local W)
      → Frame written read calls
      → v.role ≡ b's'
      → view written read l ≡ v
      → l.ctl.ctrl_free ≡ b
      → Gives
          (λ t. Runs ServerMove v (view written read t))
          (if b then accept_client calls l else calls.refuse l)
  accept_or_refuse-Runs true v l frame server e free =
      move-Runs v (push create_streams (push param_exchange (take_free v))) (accept_client calls l)
        (λ t. accept (sym (ap (λ t1. t1.free) e) ∙ free))
        (Shows-transport written read
          (push create_streams (push param_exchange (take_free (view written read l)))) _ _
          (ap (λ t. push create_streams (push param_exchange (take_free t))) e)
          (accept_client-Shows written read calls l frame (ap (λ t. t.role) e ∙ server)))
  accept_or_refuse-Runs false v l frame server e free =
      Gives-map (λ t. view written read t ≡ view written read l)
        (λ t. Runs ServerMove v (view written read t)) (λ t k. Runs_refl (sym (k ∙ e)))
        (calls.refuse l) (frame.refuse l)

  pub iperf_accept-Runs :
      (l : Local W)
      → Frame written read calls
      → l.ctl.role ≡ b's'
      → Gives
          (λ t. Runs ServerMove (view written read l) (view written read t))
          (iperf_accept calls l)
  unfolding iperf_accept
  iperf_accept-Runs l frame server =
      let v = view written read l in
      Gives-bind (λ t. Runs ServerMove v (view written read t)) (λ t. view written read t ≡ v)
        (calls.accept_control l) _ (frame.accept_control l)
        (λ l1 e. accept_or_refuse-Runs l1.ctl.ctrl_free v l1 frame server e refl)

  handle_state_server-Runs :
      (s : State) (v : View) (l : Local W)
      → Frame written read calls
      → view written read l ≡ to s (hear s v)
      → Gives (λ t. Runs ServerMove v (view written read t)) (handle_state_server calls s l)
  unfolding handle_state_server
  handle_state_server-Runs test_start v l frame e = Runs_one (note test_start refl e)
  handle_state_server-Runs iperf_done v l frame e = Runs_one (note iperf_done refl e)
  handle_state_server-Runs test_end v l frame e =
      move-Runs v (push display_results (push exchange_results (hear test_end v))) _ (λ t. finish)
        (Shows-transport written read
          (push display_results (push exchange_results (view written read l))) _ _
          (ap (λ t. push display_results (push exchange_results t)) e)
          (end_of_test-Shows written read calls l frame))
  handle_state_server-Runs client_terminate v l frame e =
      let l1 = set_state display_results (calls.cpu_util l) in
      Runs_one (
        terminated (
          ap (to iperf_done) (
            frame.close_streams (report_end calls l)
            ∙ ap (to client_terminate)
                (frame.report l1 ∙ ap (to display_results) (frame.cpu_util l ∙ e)))))
  handle_state_server-Runs test_running v l frame e = tt
  handle_state_server-Runs param_exchange v l frame e = tt
  handle_state_server-Runs create_streams v l frame e = tt
  handle_state_server-Runs exchange_results v l frame e = tt
  handle_state_server-Runs display_results v l frame e = tt
  handle_state_server-Runs server_terminate v l frame e = tt
  handle_state_server-Runs access_denied v l frame e = tt
  handle_state_server-Runs server_error v l frame e = tt
  handle_state_server-Runs iperf_start v l frame e = tt
  handle_state_server-Runs (other_state c) v l frame e = tt

  pub handle_read_server-Runs :
      (v : View) (r : StateRead × Local W)
      → Frame written read calls
      → view written read r.1 ≡ after_read r.0 v
      → Gives (λ t. Runs ServerMove v (view written read t)) (handle_read_server calls r)
  unfolding handle_read_server
  handle_read_server-Runs v (got_state s, l) frame e =
      handle_state_server-Runs s v (set_state s l) frame (ap (to s) e)
  handle_read_server-Runs v (end_of_file, l) frame e = Runs_one (hung_up (ap (to iperf_done) e))
  handle_read_server-Runs v (read_failed, l) frame e = tt
