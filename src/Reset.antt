-- ===== src/Reset.antt =====
-- app/src/main/cpp/iperf/iperf_api.c: iperf_reset_test, by which the server forgets a client. The
-- timers that a test holds are known by their handles; tmr_cancel and iperf_free_stream change a
-- state `W`, and the memory of texts is not modelled.
pub mod Serves
pub mod Examples
use sber_wifi.Prelude.{ℕ, ◌*◌, Bool, false, Option, none, some, List, [], ◌∷◌, replicate}
use sber_wifi.Prelude.Int.{ℤ, pos, negsuc}
use sber_wifi.Prelude.Float.{Float}
use sber_wifi.Libc.{Text}
use sber_wifi.Test.{Test, tcp, receiver, set_protocol}
use sber_wifi.Control.{State, other_state}

-- The fields of struct iperf_test beside those of Test. `none` is a NULL timer.
pub record Held (F : Float) (S : Type 0) (W : Type 0) : Type 0 where
  pub test : Test F
  pub streams : List S
  pub omit_timer : Option ℕ
  pub timer : Option ℕ
  pub stats_timer : Option ℕ
  pub reporter_timer : Option ℕ
  pub done : Bool
  pub remote_congestion_used : Option Text
  pub state : State
  pub ctrl_sck : ℤ
  pub prot_listener : ℤ
  pub bytes_sent : ℕ
  pub blocks_sent : ℕ
  pub bytes_received : ℕ
  pub blocks_received : ℕ
  pub other_side_has_retransmits : ℤ
  pub read_set : ℕ → Bool
  pub write_set : ℕ → Bool
  pub cookie : List ℕ
  pub multisend : ℤ
  pub server_output_list : List Text
  pub world : W

-- The fields of a test that are set to the same values for every client.
unfoldable pub reset_configuration : (F : Float) → Bool → Test F → Test F
unfolding set_protocol
reset_configuration F retransmits t =
    let t1 : Test F =
      (set_protocol F retransmits tcp
        (record t { role = b's'; mode = receiver; sender_has_retransmits = pos 0 })).1 in
    record t1 {
      omit = pos 0;
      duration = pos 10;
      server_affinity = negsuc 0;
      reverse = false;
      bidirectional = false;
      no_delay = false;
      num_streams = pos 1;
      settings = (record t1.settings {
        socket_bufsize = pos 0;
        blksize = pos (128 * 1024);
        rate = 0;
        burst = pos 0;
        mss = pos 0;
        tos = pos 0;
      });
      udp_counters_64bit = false;
      title = none;
      extra_data = none;
    }

module _ (F : Float) {S W : Type 0} (retransmits : Bool) (free_stream : S → W → W)
    (tmr_cancel : ℕ → W → W) where
  unfoldable pub free_streams : List S → W → W
  free_streams [] w = w
  free_streams (sp ∷ rest) w = free_streams rest (free_stream sp w)

  abbrev cancel : Option ℕ → W → W
  cancel none w = w
  cancel (some t) w = tmr_cancel t w

  unfoldable pub iperf_reset_test : Held F S W → Held F S W
  unfolding free_streams reset_configuration
  iperf_reset_test h =
      let w1 = cancel h.omit_timer (free_streams h.streams h.world) in
      let w2 = cancel h.stats_timer (cancel h.timer w1) in
      record h {
        world = cancel h.reporter_timer w2;
        streams = [];
        omit_timer = none;
        timer = none;
        stats_timer = none;
        reporter_timer = none;
        done = false;
        remote_congestion_used = none;
        test = reset_configuration F retransmits h.test;
        state = other_state (pos 0);
        ctrl_sck = negsuc 0;
        prot_listener = negsuc 0;
        bytes_sent = 0;
        blocks_sent = 0;
        bytes_received = 0;
        blocks_received = 0;
        other_side_has_retransmits = pos 0;
        read_set = λ s. false;
        write_set = λ s. false;
        cookie = replicate 37 0;
        multisend = pos 10;
        server_output_list = [];
      }
