-- ===== src/Control/Trial.antt =====
-- A client and a server on one control connection: the calls of other parts do nothing, and what
-- each end reads is put before it.
use sber_wifi.Prelude.{ℕ, ◌≡◌, refl, Bool, true, false, none, List, [], ◌∷◌, ◌++◌}
use sber_wifi.Prelude.Int.{ℤ, pos, negsuc}
use sber_wifi.Test.{sender, receiver, tcp}
use sber_wifi.Control.{
  State, iperf_start, other_state, Ctl, Local, Outcome, go, StateRead, got_state, end_of_file,
  Calls,
}
use sber_wifi.Control.Frame.{Frame, view, after_read}
use sber_wifi.Control.Client
use sber_wifi.Control.Client.{run_client, handle_state_client}
use sber_wifi.Control.Server
use sber_wifi.Control.Server.{Counts, goes, serve}
use sber_wifi.Control.System.Phases.{server_script, client_script}

pub record World : Type 0 where
  pub inbox : List State
  pub read : List State
  pub written : List State
  pub ports : List ℤ

abbrev pub read_next : List State → Ctl → World → StateRead × Local World
read_next [] c w = (end_of_file, record { ctl = record c { startup = false }; world = w })
read_next (s ∷ rest) c w =
    (got_state s, record { ctl = c; world = record w { inbox = rest; read = w.read ++ s ∷ [] } })

abbrev pub keep : Local World → Outcome World
keep l = go l

abbrev pub calls : Calls World
calls = record {
  read_state = λ l. read_next l.world.inbox l.ctl l.world;
  write_state = λ s l.
      (true, let w = l.world in record l { world = record w { written = w.written ++ s ∷ [] } });
  send_parameters = keep;
  get_parameters = keep;
  listen = keep;
  write_number = λ l. (true, l);
  read_number = λ l. (none, l);
  send_results = keep;
  get_results = keep;
  connect = λ b l. go (
      let w = l.world in record l { world = record w { ports = w.ports ++ l.ctl.bind_port ∷ [] } });
  new_stream = λ b. keep;
  init_test = keep;
  create_timers = keep;
  create_omit_timer = keep;
  create_send_timers = keep;
  send = keep;
  recv = keep;
  accept_control = keep;
  read_cookie = keep;
  refuse = keep;
  set_affinity = keep;
  accept_stream = keep;
  is_closed = λ l. false;
  on_connect = λ l. l;
  on_test_finish = λ l. l;
  cpu_util = λ l. l;
  stats = λ l. l;
  report = λ l. l;
  close_streams = λ l. l;
  close_control = λ l. l;
  setnonblocking = λ b l. l;
  run_timers = λ l. l;
  clear_prot_listener = λ l. l;
  close_prot_listener = λ l. l;
  reopen_listener = keep;
  cleanup_server = λ l. l;
}

abbrev pub written_by : World → List State
written_by w = w.written

abbrev pub read_by : World → List State
read_by w = w.read

read_next-view :
    (inbox : List State) (c : Ctl) (w : World)
    → view written_by read_by (read_next inbox c w).1
      ≡ after_read (read_next inbox c w).0 (view written_by read_by (record { ctl = c; world = w }))
read_next-view [] c w = refl
read_next-view (s ∷ rest) c w = refl

pub calls-Frame : Frame written_by read_by calls
calls-Frame = record {
  read_state = λ l. read_next-view l.world.inbox l.ctl l.world;
  write_state = λ s l. refl;
  send_parameters = λ l. refl;
  get_parameters = λ l. refl;
  listen = λ l. refl;
  send_results = λ l. refl;
  get_results = λ l. refl;
  connect = λ b l. refl;
  new_stream = λ b l. refl;
  init_test = λ l. refl;
  create_timers = λ l. refl;
  create_omit_timer = λ l. refl;
  create_send_timers = λ l. refl;
  send = λ l. refl;
  recv = λ l. refl;
  accept_control = λ l. refl;
  read_cookie = λ l. refl;
  refuse = λ l. refl;
  set_affinity = λ l. refl;
  accept_stream = λ l. refl;
  reopen_listener = λ l. refl;
  on_connect = λ l. refl;
  on_test_finish = λ l. refl;
  cpu_util = λ l. refl;
  stats = λ l. refl;
  report = λ l. refl;
  close_streams = λ l. refl;
  close_control = λ l. refl;
  setnonblocking = λ b l. refl;
  run_timers = λ l. refl;
  clear_prot_listener = λ l. refl;
  close_prot_listener = λ l. refl;
  cleanup_server = λ l. refl;
}

-- One stream from the client to the server; the test is over when `bytes` are sent, or goes on where
-- that is 0.
abbrev pub ctl : ℕ → State → Bool → ℕ → Ctl
ctl role state free bytes = record {
  role = role;
  state = state;
  mode = sender;
  done = false;
  omitting = false;
  duration = pos 10;
  bytes = bytes;
  blocks = 0;
  bytes_sent = 1;
  blocks_sent = 1;
  num_streams = pos 1;
  bind_port = pos 0;
  server_affinity = negsuc 0;
  ctrl_free = free;
  protocol = tcp;
  startup = true;
  tuned = false;
}

abbrev pub client0 : ℕ → Local World
client0 bytes = record {
  ctl = ctl b'c' (other_state (pos 0)) false bytes;
  world = record { inbox = server_script; read = []; written = []; ports = [] };
}

abbrev pub server0 : Local World
server0 = record {
  ctl = record (ctl b's' iperf_start true 0) { mode = receiver };
  world = record { inbox = client_script; read = []; written = []; ports = [] };
}

abbrev pub client_ready : Client.Event
client_ready = record { select_failed = false; readable = true }

abbrev pub counts0 : Counts
counts0 = record {
  to_send = pos 0;
  to_rec = pos 0;
  send_accepted = pos 0;
  rec_accepted = pos 0;
  flag = negsuc 0;
}

abbrev pub server_ready : Bool → Bool → Bool → Server.Event
server_ready listener control stream = record {
  select_failed = false;
  positive = true;
  listener_ready = listener;
  control_ready = control;
  prot_listener_ready = stream;
  timers_due = false;
}

-- The world after each end has read some states and written some.
abbrev pub after : Local World → State → List State → List State → List State → Local World
after l s inbox read written =
    let c = l.ctl in
    let w = l.world in
    record {
      ctl = record c { state = s };
      world = record w { inbox = inbox; read = read; written = written };
    }

-- A stream has been connected, from a port that the system chooses, and data have been moved.
abbrev pub connected : Local World → Local World
connected l =
    let w = l.world in
    let c = l.ctl in
    record { ctl = record c { startup = false }; world = record w { ports = pos 0 ∷ [] } }

abbrev pub busy : State → List State → List State → List State → Local World
busy s inbox read written =
    let l = after server0 s inbox read written in
    let c = l.ctl in record l { ctl = record c { ctrl_free = false } }

abbrev pub counts1 : Counts
counts1 = record counts0 { to_rec = pos 1; rec_accepted = pos 1 }
