-- ===== src/Timing/Examples.antt =====
-- The timers of a test with doubles that are whole numbers, two streams, and a malloc that
-- counts up; and a server whose timer and whose send timer are due at the same time.
use sber_wifi.Prelude.{
  ℕ, suc, ◌+◌, ◌≡◌, refl, ◌≢◌, true, false, not, none, some, List, [], ◌∷◌, arith, ◌==◌,
  if◌then◌else◌,
}
use sber_wifi.Prelude.Int.{pos}
use sber_wifi.Prelude.Numbers.{whole_numbers}
use mathlib.Core.Path.{subst}
use sber_wifi.Time.{IperfTime, IsNormal, iperf_time_add_usecs, iperf_time_compare}
use sber_wifi.Timer.{
  Timer, Timers, find, list_add, list_walk, list_remove, list_resort, node, next, next_in,
  tmr_create, tmr_cancel,
}
use sber_wifi.Params.{u64_of}
use sber_wifi.Timer.Insert.{count}
use sber_wifi.Timer.Run.{fault, reschedule, tmr_run, run_from}
use sber_wifi.Timing.{
  Sender, Plan, Timed, Calls, Made, made, failed, create, create_when, timers_at,
  create_client_timers, create_server_timers, iperf_create_send_timers,
}
use sber_wifi.Timing.Callbacks.{
  call_timer, timer_proc, server_timer_proc, free_streams, cancel_in, cleanup_server,
}
use sber_wifi.Timing.Sound.{refs, active, holds, send_refs, Sound, no_others, Behaves}
use sber_wifi.Timing.Creates.{Leaves, IsIdle, create_timers-Sound}
use sber_wifi.Timing.Sends.{HasNoTimers, iperf_create_send_timers-Sound}
use sber_wifi.Timing.Procs.{timer_proc-Sound}
use sber_wifi.Timing.Cleanup.{cleanup_server-Sound}

abbrev noon : IperfTime
noon = record { secs = 43200; usecs = 0 }

-- The world is the next address.
abbrev counting : Calls whole_numbers ℕ
counting = record {
  malloc = λ s w. (if count w s.timers + count w s.free_timers == 0 then some w else none, suc w);
  clock = λ w. (some noon, w);
  getnow = λ w. (noon, w);
  nonzero = λ a. not (a == 0);
  stats_callback = λ w. w;
  reporter_callback = λ w. w;
  iperf_reset_stats = λ w. w;
  report_omit_done = λ w. w;
  iperf_check_throttle = λ a t w. w;
  close_socket = λ a w. w;
  free_stream = λ a w. w;
  close_ctrl_sck = λ w. w;
  close_listener = λ w. w;
  free_congestion_used = λ w. w;
}

noon-IsNormal : IsNormal noon
noon-IsNormal = record { secs_fit = omega arith; usecs_small = omega arith }

noon_read : (t : IperfTime) → some noon ≡ some t → noon ≡ t
noon_read t e = cc

counting-Behaves : Behaves counting
counting-Behaves = record {
  fresh = λ s w m e. ground arith;
  normal = λ w t e. subst IsNormal (noon_read t e) noon-IsNormal;
  getnow = λ w. noon-IsNormal;
}

abbrev plan : Plan whole_numbers
plan = record {
  duration = pos 10;
  omit_time = pos 0;
  stats_interval = 1;
  reporter_interval = 1;
  rate = 1000000;
  pacing_timer = pos 1000;
}

abbrev stream : ℕ → Sender
stream a = record { sp = a; green_light = false; send_timer = none }

abbrev idle : Timed ℕ
idle = record {
  timer = none;
  stats_timer = none;
  reporter_timer = none;
  omit_timer = none;
  streams = stream 501 ∷ stream 502 ∷ [];
  done = false;
  omitting = false;
  timers = record { timers = []; free_timers = [] };
  world = 100;
}

idle-Sound : Sound no_others idle
unfolding refs active holds send_refs find
idle-Sound = record {
  inv = record { sorted = tt; normal = tt; distinct = λ h. omega arith };
  matches = λ c h. ground arith;
  periods = λ h t e. absurd cc;
}

create_timers-Sound_example :
    Leaves (Sound no_others) (create_client_timers counting plan idle)
    × Leaves (Sound no_others) (create_server_timers counting plan idle)
unfolding IsIdle
create_timers-Sound_example =
    create_timers-Sound counting counting-Behaves plan idle (refl, refl, refl) idle-Sound

iperf_create_send_timers-Sound_example :
    Leaves (Sound no_others) (iperf_create_send_timers counting plan idle)
unfolding HasNoTimers
iperf_create_send_timers-Sound_example =
    iperf_create_send_timers-Sound counting counting-Behaves plan idle (refl, (refl, tt)) idle-Sound

abbrev state_of : Made ℕ → Timed ℕ
state_of (made s) = s
state_of (failed s) = s

state_of-Sound : (m : Made ℕ) → Leaves (Sound no_others) m → Sound no_others (state_of m)
unfolding Leaves
state_of-Sound (made s) v = v
state_of-Sound (failed s) v = v

-- A server whose streams have their timers, and then its own three.
abbrev paced : Timed ℕ
paced = state_of (iperf_create_send_timers counting plan idle)

abbrev running : Timed ℕ
running = state_of (create_server_timers counting plan paced)

paced-Sound : Sound no_others paced
unfolding HasNoTimers
paced-Sound = state_of-Sound _ iperf_create_send_timers-Sound_example

running-Sound : Sound no_others running
unfolding create_server_timers iperf_create_send_timers timers_at create_when create tmr_create
    list_add list_walk iperf_time_add_usecs iperf_time_compare IsIdle
running-Sound =
    state_of-Sound _
      (create_timers-Sound counting counting-Behaves plan paced (refl, refl, refl) paced-Sound).1

running-handles :
    (running.timer ≡ some 102)
    × (running.stats_timer ≡ some 103)
    × (running.reporter_timer ≡ some 104)
    × (running.streams
        ≡ record { sp = 501; green_light = true; send_timer = some 100 }
          ∷ record { sp = 502; green_light = true; send_timer = some 101 }
          ∷ [])
unfolding create_server_timers iperf_create_send_timers timers_at create_when create tmr_create
    list_add list_walk iperf_time_add_usecs iperf_time_compare u64_of
running-handles = (refl, refl, refl, refl)

-- The timer that ends the test of the server, 50 seconds after noon.
abbrev last_timer : Timer
last_timer = record {
  handle = 102;
  proc = 0;
  client_data = 0;
  usecs = 50000000;
  periodic = false;
  time = record { secs = 43250; usecs = 0 };
}

last_timer-active : find 102 running.timers.timers ≡ some last_timer
unfolding create_server_timers iperf_create_send_timers timers_at create_when create tmr_create
    list_add list_walk iperf_time_add_usecs iperf_time_compare u64_of find
last_timer-active = refl

timer_proc-Sound_example :
    (s' : Timed ℕ) × (ts : Timers) × (timer_proc counting true last_timer last_timer.time running
      ≡ some s')
    × (reschedule 102 s'.timers ≡ some ts)
    × Sound no_others (record s' { timers = ts })
timer_proc-Sound_example =
    timer_proc-Sound counting true last_timer last_timer.time 102 running
      (record { secs_fit = omega arith; usecs_small = omega arith }) last_timer-active running-Sound

cleanup_server-Sound_example :
    (s' : Timed ℕ) × (cleanup_server counting running ≡ some s')
    × (Sound no_others s'
        × ((c h : ℕ) → c ≢ 4 → active c h s'.timers ≡ 0)
        × (s'.streams ≡ running.streams))
cleanup_server-Sound_example = cleanup_server-Sound counting running running-Sound

-- The same server, once its timer and a send timer are both due: the timer function of the server
-- frees the streams, and tmr_run goes on with the freed send timer, which it then finds on no list
-- that it may be taken off.
abbrev due_timers : List Timer
due_timers =
    last_timer
    ∷ record {
      handle = 100;
      proc = 4;
      client_data = 501;
      usecs = 1000;
      periodic = true;
      time = record { secs = 43250; usecs = 500 };
    }
    ∷ []

abbrev due_state : Timed ℕ
due_state = record idle {
  timer = some 102;
  streams = record { sp = 501; green_light = true; send_timer = some 100 } ∷ [];
  timers = record { timers = due_timers; free_timers = [] };
}

tmr_run-freed :
    tmr_run
      (call_timer counting true)
      10
      (record { secs = 43250; usecs = 1000 })
      due_state.timers
      due_state
    ≡ fault
unfolding tmr_run run_from node next next_in call_timer timer_proc server_timer_proc free_streams
    cancel_in tmr_cancel find list_remove reschedule list_resort iperf_time_compare
tmr_run-freed = refl
