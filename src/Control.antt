-- ===== src/Control.antt =====
-- app/src/main/cpp/iperf/iperf_api.h and iperf_api.c: the states of the control connection, and
-- the calls by which client and server go through a test. `W` is what the calls change beside the
-- fields in Ctl: the sockets, the streams, the timers and the output. Each call that this part
-- leaves to another one, or to the system, is a field of Calls.
pub mod Frame
pub mod Client
pub mod Server
pub mod System
pub mod Trial
pub mod Examples
use sber_wifi.Prelude.{ℕ, Bool, true, false, not, Option, ◌==◌, if◌then◌else◌}
use sber_wifi.Prelude.Int.{ℤ}
use sber_wifi.Test.{Mode, ProtocolId}
use sber_wifi.Error.{IErr, ie_sendmessage, ie_ctrlwrite}

-- The values of `state` that iperf_api.h names, and any other signed char.
pub data State : Type 0 where
  test_start test_running test_end param_exchange create_streams server_terminate : State
  client_terminate exchange_results display_results iperf_start iperf_done : State
  access_denied server_error : State
  other_state : ℤ → State

-- The fields of struct iperf_test that decide how a test goes on, and the local variable `startup` of
-- iperf_run_client.
pub record Ctl : Type 0 where
  pub role : ℕ
  pub state : State
  pub mode : Mode
  pub done : Bool
  pub omitting : Bool
  pub duration : ℤ
  pub bytes : ℕ
  pub blocks : ℕ
  pub bytes_sent : ℕ
  pub blocks_sent : ℕ
  pub num_streams : ℤ
  pub bind_port : ℤ
  pub server_affinity : ℤ
  pub ctrl_free : Bool  -- ctrl_sck is -1
  pub protocol : ProtocolId
  pub startup : Bool
  pub tuned : Bool  -- no_delay, mss or socket_bufsize is set

pub record Local (W : Type 0) : Type 0 where
  pub ctl : Ctl
  pub world : W

-- i_errno: a number of its enum, or one that the server sent.
pub data ErrorNumber : Type 0 where
  known : IErr → ErrorNumber
  remote : ℕ → ErrorNumber

-- `return 0`, or `return -1` with i_errno; either way with what has been changed.
pub data Outcome (W : Type 0) : Type 0 where
  go : Local W → Outcome W
  stop : ErrorNumber → Local W → Outcome W

infixl 5 ◌>>=◌
abbrev pub ◌>>=◌ : {W : Type 0} → Outcome W → (Local W → Outcome W) → Outcome W
go l >>= f = f l
stop e l >>= f = stop e l

-- What read(2) or Nread of one byte gives.
pub data StateRead : Type 0 where
  got_state : State → StateRead
  end_of_file : StateRead
  read_failed : StateRead

pub record Calls (W : Type 0) : Type 0 where
  pub read_state : Local W → StateRead × Local W
  pub write_state : State → Local W → Bool × Local W
  pub send_parameters : Local W → Outcome W
  pub get_parameters : Local W → Outcome W
  pub listen : Local W → Outcome W
  pub write_number : Local W → Bool × Local W
  pub read_number : Local W → Option ℕ × Local W
  pub send_results : Local W → Outcome W
  pub get_results : Local W → Outcome W
  -- `connect` of the protocol; the flag is that of the stream
  pub connect : Bool → Local W → Outcome W
  -- iperf_new_stream, and the sets of sockets, the mode of the socket and on_new_stream behind it
  pub new_stream : Bool → Local W → Outcome W
  pub init_test : Local W → Outcome W
  pub create_timers : Local W → Outcome W
  pub create_omit_timer : Local W → Outcome W
  pub create_send_timers : Local W → Outcome W
  pub send : Local W → Outcome W
  pub recv : Local W → Outcome W
  pub accept_control : Local W → Outcome W
  pub read_cookie : Local W → Outcome W
  pub refuse : Local W → Outcome W
  pub set_affinity : Local W → Outcome W
  pub accept_stream : Local W → Outcome W
  pub is_closed : Local W → Bool
  pub on_connect : Local W → Local W
  pub on_test_finish : Local W → Local W
  pub cpu_util : Local W → Local W
  pub stats : Local W → Local W
  pub report : Local W → Local W
  pub close_streams : Local W → Local W
  pub close_control : Local W → Local W
  pub setnonblocking : Bool → Local W → Local W  -- on the socket of each stream
  pub run_timers : Local W → Local W
  pub clear_prot_listener : Local W → Local W
  pub close_prot_listener : Local W → Local W
  pub reopen_listener : Local W → Outcome W
  pub cleanup_server : Local W → Local W

abbrev pub set_state : {W : Type 0} → State → Local W → Local W
set_state s l = let c = l.ctl in record l { ctl = record c { state = s } }

abbrev pub same_mode : Mode → Mode → Bool
same_mode Mode.sender Mode.sender = true
same_mode Mode.receiver Mode.receiver = true
same_mode Mode.bidirectional_mode Mode.bidirectional_mode = true
same_mode _ _ = false

-- `test->mode != 0`
abbrev pub is_sending : Mode → Bool
is_sending mode = not (same_mode mode Mode.receiver)

module _ {W : Type 0} (calls : Calls W) where
  abbrev sent_state : Bool × Local W → Outcome W
  sent_state (true, l) = go l
  sent_state (false, l) = stop (known ie_sendmessage) l

  unfoldable pub iperf_set_send_state : State → Local W → Outcome W
  iperf_set_send_state state l = sent_state (calls.write_state state (set_state state l))

  -- A four-byte number is written.
  abbrev number_written : Bool × Local W → Outcome W
  number_written (true, l) = go l
  number_written (false, l) = stop (known ie_ctrlwrite) l

  -- What the server does where `listen` has failed with `e`.
  unfoldable pub report_listen_error : ErrorNumber → Local W → Outcome W
  unfolding iperf_set_send_state
  report_listen_error e l =
      iperf_set_send_state server_error l
      >>= (λ l1. number_written (calls.write_number l1))
      >>= (λ l2. number_written (calls.write_number l2))
      >>= (λ l3. stop e l3)

  abbrev listened : Outcome W → Outcome W
  listened (go l) = iperf_set_send_state create_streams l
  listened (stop e l) = report_listen_error e l

  unfoldable pub iperf_exchange_parameters : Local W → Outcome W
  unfolding iperf_set_send_state report_listen_error
  iperf_exchange_parameters l =
      if l.ctl.role == b'c'
      then calls.send_parameters l
      else calls.get_parameters l >>= (λ l1. listened (calls.listen l1))

  unfoldable pub iperf_exchange_results : Local W → Outcome W
  iperf_exchange_results l =
      if l.ctl.role == b'c'
      then calls.send_results l >>= calls.get_results
      else calls.get_results l >>= calls.send_results
