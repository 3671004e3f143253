-- ===== src/Control/Client/Moves.antt =====
-- iperf_client_api.c: the client of a test as a machine that knows nothing but its state and the
-- messages sent and heard, and iperf_handle_message_client as a move of it.
use sber_wifi.Prelude.{ℕ, ◌≡◌, refl, ap, ◌∙◌, Bool, true, false, Option, none, some, List}
use sber_wifi.Control.{
  sent_state, State, test_start, test_running, test_end, param_exchange, create_streams,
  server_terminate, exchange_results, display_results, iperf_start, iperf_done, access_denied,
  server_error, client_terminate, other_state, Local, Outcome, go, ◌>>=◌, StateRead, got_state,
  end_of_file, read_failed, Calls, set_state, iperf_set_send_state,
}
use sber_wifi.Control.Frame.{
  View, to, push, hear, Runs, Runs.here, Runs.next, Runs_one, after_read, after_write, Gives,
  Gives-map, view, Shows, Frame,
}
use sber_wifi.Control.Client.{
  read_second, iperf_client_end, handle_state_client, handle_read_client, ignore, read_numbers,
}
use sber_wifi.Control.Client.Kept.{
  test_start-Shows, create_streams-Shows, param_exchange-Shows, exchange_results-Shows,
}

-- The states that the client only takes over.
abbrev pub is_followed : State → Bool
is_followed param_exchange = true
is_followed create_streams = true
is_followed test_start = true
is_followed test_running = true
is_followed exchange_results = true
is_followed iperf_done = true
is_followed _ = false

pub data ClientMove (v w : View) : Type 0 where
  follow : (s : State) → is_followed s ≡ true → w ≡ to s (hear s v) → ClientMove v w
  finish : v.state ≡ test_running → w ≡ push test_end v → ClientMove v w
  close : w ≡ push iperf_done (hear display_results v) → ClientMove v w
  close_unsent : w ≡ to iperf_done (hear display_results v) → ClientMove v w

pub Moves-role : {v w : View} → ClientMove v w → w.role ≡ v.role
Moves-role (follow s h e) = ap (λ t. t.role) e
Moves-role (finish h e) = ap (λ t. t.role) e
Moves-role (close e) = ap (λ t. t.role) e
Moves-role (close_unsent e) = ap (λ t. t.role) e

pub Runs-role : {v w : View} → Runs ClientMove v w → w.role ≡ v.role
Runs-role here = refl
Runs-role (next r m) = Moves-role m ∙ Runs-role r

module _ {W : Type 0} (written read : W → List State) (calls : Calls W) where
  follow-Runs :
      (s : State) (v : View) (l : Local W) (m : Outcome W)
      → is_followed s ≡ true
      → view written read l ≡ to s (hear s v)
      → Shows written read (view written read l) m
      → Gives (λ t. Runs ClientMove v (view written read t)) m
  follow-Runs s v l m followed e =
      Gives-map (λ t. view written read t ≡ view written read l)
        (λ t. Runs ClientMove v (view written read t)) (λ t w. Runs_one (follow s followed (w ∙ e)))
        m

  -- What iperf_client_end leaves, by whether IPERF_DONE could be written.
  closed-Runs :
      (v : View) (r : Bool × Local W)
      → Frame written read calls
      → view written read r.1 ≡ after_write r.0 iperf_done (to iperf_done (hear display_results v))
      → Gives
          (λ t. Runs ClientMove v (view written read t))
          (ignore calls (sent_state calls r >>= (λ l. go (calls.close_control l))))
  closed-Runs v (true, l) frame e = Runs_one (close (frame.close_control l ∙ e))
  closed-Runs v (false, l) frame e = Runs_one (close_unsent e)

  close-Runs :
      (v : View) (l : Local W)
      → Frame written read calls
      → view written read l ≡ to display_results (hear display_results v)
      → Gives
          (λ t. Runs ClientMove v (view written read t))
          (handle_state_client calls display_results l)
  unfolding handle_state_client iperf_client_end iperf_set_send_state
  close-Runs v l frame e =
      let l1 = calls.on_test_finish l in
      let l2 = calls.report (calls.close_streams l1) in
      let kept = frame.report (calls.close_streams l1) ∙ frame.close_streams l1 in
      let w = calls.write_state iperf_done (set_state iperf_done l2) in
      closed-Runs v w frame (
        frame.write_state iperf_done (set_state iperf_done l2)
        ∙ ap (λ t. after_write w.0 iperf_done (to iperf_done t))
            (kept ∙ frame.on_test_finish l ∙ e))

  read_second-Gives :
      (P : Local W → Type 0) (err : ℕ) (r : Option ℕ × Local W) → Gives P (read_second calls err r)
  read_second-Gives P err (none, l) = tt
  read_second-Gives P err (some errno, l) = tt

  read_numbers-Gives :
      (P : Local W → Type 0) (r : Option ℕ × Local W) → Gives P (read_numbers calls r)
  read_numbers-Gives P (none, l) = tt
  read_numbers-Gives P (some err, l) = read_second-Gives P err (calls.read_number l)

  handle_state_client-Runs :
      (s : State) (v : View) (l : Local W)
      → Frame written read calls
      → v.role ≡ b'c'
      → view written read l ≡ to s (hear s v)
      → Gives (λ t. Runs ClientMove v (view written read t)) (handle_state_client calls s l)
  unfolding handle_state_client
  handle_state_client-Runs param_exchange v l frame client e =
      follow-Runs param_exchange v l _ refl e
        (param_exchange-Shows written read calls l frame (ap (λ w. w.role) e ∙ client))
  handle_state_client-Runs create_streams v l frame client e =
      follow-Runs create_streams v l _ refl e (create_streams-Shows written read calls l frame)
  handle_state_client-Runs test_start v l frame client e =
      follow-Runs test_start v l _ refl e (test_start-Shows written read calls l frame)
  handle_state_client-Runs test_running v l frame client e =
      follow-Runs test_running v l (go l) refl e refl
  handle_state_client-Runs exchange_results v l frame client e =
      follow-Runs exchange_results v l _ refl e (exchange_results-Shows written read calls l frame)
  handle_state_client-Runs display_results v l frame client e = close-Runs v l frame e
  handle_state_client-Runs iperf_done v l frame client e =
      follow-Runs iperf_done v l (go l) refl e refl
  handle_state_client-Runs server_terminate v l frame client e = tt
  handle_state_client-Runs access_denied v l frame client e = tt
  handle_state_client-Runs server_error v l frame client e =
      read_numbers-Gives _ (calls.read_number l)
  handle_state_client-Runs test_end v l frame client e = tt
  handle_state_client-Runs client_terminate v l frame client e = tt
  handle_state_client-Runs iperf_start v l frame client e = tt
  handle_state_client-Runs (other_state c) v l frame client e = tt

  pub handle_read_client-Runs :
      (v : View) (r : StateRead × Local W)
      → Frame written read calls
      → v.role ≡ b'c'
      → view written read r.1 ≡ after_read r.0 v
      → Gives (λ t. Runs ClientMove v (view written read t)) (handle_read_client calls r)
  unfolding handle_read_client
  handle_read_client-Runs v (got_state s, l) frame client e =
      handle_state_client-Runs s v (set_state s l) frame client (ap (to s) e)
  handle_read_client-Runs v (end_of_file, l) frame client e = tt
  handle_read_client-Runs v (read_failed, l) frame client e = tt
