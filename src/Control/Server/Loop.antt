-- ===== src/Control/Server/Loop.antt =====
-- iperf_server_api.c: the rounds of iperf_run_server are moves of the server's machine.
use sber_wifi.Prelude.{◌≡◌, refl, sym, ap, ◌∙◌, Bool, true, false, not, ◌&&◌, List, [], ◌∷◌}
use sber_wifi.Prelude.Int.{pos, negsuc, eq_ℤ}
use sber_wifi.Control.{State, test_start, test_running, create_streams, Local, Calls}
use sber_wifi.Control.Frame.{
  View, push, Runs, Runs.here, Runs-append, Runs_one, Runs_refl, Gives, Gives-map, view, Frame,
}
use sber_wifi.Control.Server.{
  iperf_handle_message_server, is_creating, listener_if, message_if, add_stream, stream_round,
  stream_if, start_if, create_if, all_accepted, count_accepted, is_running, ready_round, ready_if,
  timers_if, server_round, cleaned, is_done, serve, Counts, Event, RoundOutcome, goes, stops, ◌>>>◌,
  with_counts, iperf_accept, start_test, data_if,
}
use sber_wifi.Control.Server.Kept.{start_test-Shows, data_if-Shows}
use sber_wifi.Control.Server.Moves.{
  ServerMove, start, Runs-role, iperf_accept-Runs, handle_read_server-Runs,
}
use sber_wifi.Control.Server.Round.{
  GivesRound, GivesRound-bind, GivesRound-with_counts, GivesRound-if, GivesRound-elim,
  GivesRound-map, GivesRound-goes,
}

is_creating-true :
    {W : Type 0} (calls : Calls W) (s : State) → is_creating calls s ≡ true → s ≡ create_streams
is_creating-true calls create_streams e = refl
is_creating-true calls _ e = cc

module _ {W : Type 0} (written read : W → List State) (calls : Calls W) where
  -- What follows the view `v`, as moves of the server.
  abbrev After : View → Local W → Type 0
  After v t = Runs ServerMove v (view written read t)

  -- A part of a round behind the moves that end in the view of `l`.
  Round_then :
      (v : View) (m : RoundOutcome W) (l : Local W)
      → After v l
      → GivesRound (After (view written read l)) m
      → GivesRound (After v) m
  Round_then v (goes n l1) l r g = Runs-append r g
  Round_then v (stops e l1) l r g = g

  Round-bind :
      (v : View) (m : RoundOutcome W) (f : Counts → Local W → RoundOutcome W)
      → v.role ≡ b's'
      → GivesRound (After v) m
      → ((n1 : Counts)
          → (l1 : Local W) → l1.ctl.role ≡ b's'
          → GivesRound (After (view written read l1)) (f n1 l1))
      → GivesRound (After v) (m >>> f)
  Round-bind v m f server g h =
      GivesRound-bind (After v) (After v) m f g
        (λ n1 l1 r. Round_then v (f n1 l1) l1 r (h n1 l1 (Runs-role r ∙ server)))

  listener_if-Runs :
      (b : Bool) (n : Counts) (l : Local W)
      → Frame written read calls
      → l.ctl.role ≡ b's'
      → GivesRound (After (view written read l)) (listener_if calls b n l)
  listener_if-Runs true n l frame server =
      let goal = λ (t : Local W). Runs ServerMove (view written read l) (view written read t) in
      GivesRound-bind goal goal (with_counts n (iperf_accept calls l)) _
        (GivesRound-with_counts goal n (iperf_accept calls l)
          (iperf_accept-Runs written read calls l frame server))
        (λ n1 l1 r. r)
  listener_if-Runs false n l frame server = here

  message_if-Runs :
      (b : Bool) (l : Local W)
      → Frame written read calls
      → Gives (After (view written read l)) (message_if calls b l)
  unfolding iperf_handle_message_server
  message_if-Runs true l frame =
      handle_read_server-Runs written read calls (view written read l) (calls.read_state l) frame
        (frame.read_state l)
  message_if-Runs false l frame = here

  -- A connection for a stream keeps the view.
  abbrev Same : View → Local W → Type 0
  Same v t = view written read t ≡ v

  add_stream-Shows :
      (n : Counts) (l : Local W)
      → Frame written read calls
      → GivesRound (Same (view written read l)) (add_stream calls n l)
  add_stream-Shows n l frame =
      let same = λ (t : Local W). view written read t ≡ view written read l in
      GivesRound-if same (eq_ℤ n.flag (negsuc 0)) (goes n l) _ refl (
        GivesRound-with_counts same _ (calls.new_stream (eq_ℤ n.flag (pos 1)) l)
          (frame.new_stream _ l))

  stream_if-Shows :
      (b : Bool) (n : Counts) (l : Local W)
      → Frame written read calls
      → GivesRound (Same (view written read l)) (stream_if calls b n l)
  unfolding stream_round
  stream_if-Shows true n l frame =
      let same = λ (t : Local W). view written read t ≡ view written read l in
      GivesRound-bind same same (with_counts n (calls.accept_stream l)) _
        (GivesRound-with_counts same n (calls.accept_stream l) (frame.accept_stream l))
        (λ n1 l1 e. GivesRound-if same (calls.is_closed l1) (goes n1 l1) _ e (
          GivesRound-map (λ t. view written read t ≡ view written read l1) same (λ t e1. e1 ∙ e) _
            (add_stream-Shows (count_accepted n1) l1 frame)))
  stream_if-Shows false n l frame = refl

  start_if-Runs :
      (b : Bool) (l : Local W)
      → Frame written read calls
      → l.ctl.state ≡ create_streams
      → Gives (After (view written read l)) (start_if calls b l)
  start_if-Runs true l frame creating =
      Gives-map
        (λ t. view written read t ≡ push test_running (push test_start (view written read l)))
        (After (view written read l)) (λ t e. Runs_one (start creating e)) (start_test calls l)
        (start_test-Shows written read calls l frame)
  start_if-Runs false l frame creating = here

  create_if-Runs :
      (b ready : Bool) (n : Counts) (l : Local W)
      → Frame written read calls
      → is_creating calls l.ctl.state ≡ b
      → GivesRound (After (view written read l)) (create_if calls b ready n l)
  unfolding stream_round
  create_if-Runs true ready n l frame creating =
      let v = view written read l in
      let goal = λ (t : Local W). Runs ServerMove v (view written read t) in
      GivesRound-bind goal (λ t. view written read t ≡ v) (stream_if calls ready n l) _
        (stream_if-Shows ready n l frame)
        (λ n1 l1 e. GivesRound-with_counts goal n1 (start_if calls (all_accepted n1) l1) (
          Gives-map _ goal (λ t r. Runs-append (Runs_refl (sym e)) r) _
            (start_if-Runs (all_accepted n1) l1 frame
              (ap (λ t. t.state) e ∙ is_creating-true calls l.ctl.state creating))))
  create_if-Runs false ready n l frame creating = here

  data-Runs :
      (b : Bool) (l : Local W)
      → Frame written read calls
      → Gives (After (view written read l)) (data_if calls b l)
  data-Runs b l frame =
      Gives-map (λ t. view written read t ≡ view written read l) (After (view written read l))
        (λ t e. Runs_refl (sym e)) (data_if calls b l) (data_if-Shows written read calls b l frame)

  ready_round-Runs :
      (e : Event) (n : Counts) (l : Local W)
      → Frame written read calls
      → l.ctl.role ≡ b's'
      → GivesRound (After (view written read l)) (ready_round calls e n l)
  unfolding ready_round
  ready_round-Runs e n l frame server =
      let v = view written read l in
      Round-bind v _ _ server
        (Round-bind v _ _ server
          (Round-bind v _ _ server
            (listener_if-Runs (e.listener_ready && not (is_creating calls l.ctl.state)) n l frame
              server)
            (λ n1 l1 s1.
              GivesRound-with_counts (After (view written read l1)) n1
                (message_if calls e.control_ready l1) (message_if-Runs e.control_ready l1 frame)))
          (λ n2 l2 s2.
            create_if-Runs (is_creating calls l2.ctl.state) e.prot_listener_ready n2 l2 frame refl))
        (λ n3 l3 s3.
          GivesRound-with_counts (After (view written read l3)) n3
            (data_if calls (is_running calls l3.ctl.state) l3)
            (data-Runs (is_running calls l3.ctl.state) l3 frame))

  timers_if-Keeps :
      (b : Bool) (l : Local W)
      → Frame written read calls
      → view written read (timers_if calls b l) ≡ view written read l
  timers_if-Keeps true l frame = frame.run_timers l
  timers_if-Keeps false l frame = refl

  ready_if-Runs :
      (b : Bool) (e : Event) (n : Counts) (l : Local W)
      → Frame written read calls
      → l.ctl.role ≡ b's'
      → GivesRound (After (view written read l)) (ready_if calls b e n l)
  ready_if-Runs true e n l frame server = ready_round-Runs e n l frame server
  ready_if-Runs false e n l frame server = here

  server_round-Runs :
      (e : Event) (n : Counts) (l : Local W)
      → Frame written read calls
      → l.ctl.role ≡ b's'
      → GivesRound (After (view written read l)) (server_round calls e n l)
  unfolding server_round
  server_round-Runs e n l frame server =
      let v = view written read l in
      GivesRound-if (After v) e.select_failed _ _ tt (
        Round-bind v (ready_if calls e.positive e n l) _ server
          (ready_if-Runs e.positive e n l frame server)
          (λ n1 l1 s1. Runs_refl (sym (timers_if-Keeps e.timers_due l1 frame))))

  cleaned-Runs :
      (v : View) (m : RoundOutcome W)
      → GivesRound (After v) m
      → GivesRound (After v) (cleaned calls m)
  cleaned-Runs v (goes n l) g = g
  cleaned-Runs v (stops e l) g = g

  serve-Gives :
      (events : List Event) (n : Counts) (l : Local W)
      → Frame written read calls
      → l.ctl.role ≡ b's'
      → GivesRound (After (view written read l)) (serve calls events n l)
  unfolding serve
  serve-Gives [] n l frame server = here
  serve-Gives (e ∷ rest) n l frame server =
      let v = view written read l in
      GivesRound-elim (After v) (is_done calls l.ctl.state) (goes n (calls.cleanup_server l)) _
        (Runs_refl (sym (frame.cleanup_server l)))
        (Round-bind v (cleaned calls (server_round calls e n l)) _ server
          (cleaned-Runs v _ (server_round-Runs e n l frame server))
          (λ n1 l1 s1. serve-Gives rest n1 l1 frame s1))

  -- A run of the server's loop that ends with no error goes through moves of the server's machine: only
  -- a free server takes a client, and it sends PARAM_EXCHANGE and CREATE_STREAMS to it; TEST_START and
  -- TEST_RUNNING are sent only out of CREATE_STREAMS; TEST_END is answered by EXCHANGE_RESULTS and
  -- DISPLAY_RESULTS; every other state that is heard changes nothing but the own state, to itself or to
  -- IPERF_DONE. The calls that are left to other parts neither change the state nor send one.
  pub serve-Runs :
      (events : List Event) (n n' : Counts) (l l' : Local W)
      → Frame written read calls
      → l.ctl.role ≡ b's'
      → serve calls events n l ≡ goes n' l'
      → Runs ServerMove (view written read l) (view written read l')
  serve-Runs events n n' l l' frame server =
      GivesRound-goes (After (view written read l)) (serve calls events n l) n' l'
        (serve-Gives events n l frame server)
