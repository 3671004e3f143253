-- ===== src/Timing/Callbacks.antt =====
-- iperf_client_api.c, iperf_server_api.c and iperf_api.c: the timer functions of the two programs,
-- and cleanup_server.
use sber_wifi.Prelude.{ℕ, Bool, true, false, Option, none, some, List, [], ◌∷◌, ◌==◌, if◌then◌else◌}
use sber_wifi.Prelude.Float.{Float}
use sber_wifi.Time.{IperfTime}
use sber_wifi.Timer.{Timer, Timers, tmr_cancel, tmr_reset}
use sber_wifi.Timer.Run.{reschedule}
use sber_wifi.Timing.{
  code, test_end, stats, reporter, omit, send, Sender, Timed, Calls, ◌>>=◌, map_some,
}

-- `if (p != NULL) tmr_cancel(p)`
unfoldable pub cancel_in : {W : Type 0} → Option ℕ → Timed W → Option (Timed W)
unfolding tmr_cancel
cancel_in none s = some s
cancel_in (some h) s = map_some (λ timers. record s { timers = timers }) (tmr_cancel h s.timers)

-- `if (p != NULL) tmr_reset(now, p)`
unfoldable pub reset_in : {W : Type 0} → IperfTime → Option ℕ → Timed W → Option (Timed W)
unfolding tmr_reset
reset_in now none s = some s
reset_in now (some h) s =
    map_some (λ timers. record s { timers = timers }) (tmr_reset now h s.timers)

abbrev pub change : {W : Type 0} → (W → W) → Timed W → Timed W
change f s = record s { world = f s.world }

-- The end of a round of tmr_run.
unfoldable pub round_off : {W : Type 0} → ℕ → Timed W → Option (Timed W)
unfolding reschedule
round_off h s = map_some (λ timers. record s { timers = timers }) (reschedule h s.timers)

module _ {F : Float} {W : Type 0} (calls : Calls F W) where
  -- The loop of server_timer_proc; iperf_free_stream cancels the send timer after it has freed the
  -- rest of the stream.
  unfoldable pub free_streams : List Sender → Timed W → Option (Timed W)
  unfolding cancel_in
  free_streams [] s = some s
  free_streams (x ∷ rest) s = do
    s' ← cancel_in x.send_timer (
        change (λ w. calls.free_stream x.sp (calls.close_socket x.sp w))
          (record s { streams = rest }))
    free_streams rest s'

  unfoldable pub test_timer_proc : Timed W → Option (Timed W)
  test_timer_proc s = some (record s { timer = none; done = true })

  unfoldable pub server_timer_proc : Timed W → Option (Timed W)
  unfolding free_streams
  server_timer_proc s =
      let over = free_streams s.streams (record s { timer = none; done = true }) in
      if s.done
      then some (record s { timer = none })
      else map_some (change calls.close_ctrl_sck) over

  -- client_stats_timer_proc and server_stats_timer_proc
  unfoldable pub stats_timer_proc : Timed W → Option (Timed W)
  stats_timer_proc s = some (if s.done then s else change calls.stats_callback s)

  -- client_reporter_timer_proc and server_reporter_timer_proc
  unfoldable pub reporter_timer_proc : Timed W → Option (Timed W)
  reporter_timer_proc s = some (if s.done then s else change calls.reporter_callback s)

  -- client_omit_timer_proc and server_omit_timer_proc
  unfoldable pub omit_timer_proc : IperfTime → Timed W → Option (Timed W)
  unfolding reset_in
  omit_timer_proc now s = do
    s' ← reset_in now s.stats_timer (
        change (λ w. calls.report_omit_done (calls.iperf_reset_stats w))
          (record s { omit_timer = none; omitting = false }))
    reset_in now s'.reporter_timer s'

  -- The indirect call of `t->timer_proc` in the two programs; `none` for any other address.
  unfoldable pub timer_proc : Bool → Timer → IperfTime → Timed W → Option (Timed W)
  unfolding test_timer_proc server_timer_proc stats_timer_proc reporter_timer_proc omit_timer_proc
  timer_proc is_server t now s =
      if t.proc == code test_end
      then if is_server then server_timer_proc s else test_timer_proc s
      else if t.proc == code stats
      then stats_timer_proc s
      else if t.proc == code reporter
      then reporter_timer_proc s
      else if t.proc == code omit
      then omit_timer_proc now s
      else if t.proc == code send
      then some (change (calls.iperf_check_throttle t.client_data now) s)
      else none

  -- As tmr_run calls it: the timers stand beside the rest of the state.
  unfoldable pub call_timer :
      Bool → Timer → IperfTime → Timers → Timed W → Option (Timers × Timed W)
  unfolding timer_proc
  call_timer is_server t now timers s =
      map_some (λ s'. (s'.timers, s')) (timer_proc is_server t now (record s { timers = timers }))

  unfoldable pub cleanup_server : Timed W → Option (Timed W)
  unfolding cancel_in
  cleanup_server s = do
    s1 ← cancel_in s.stats_timer (change (λ w. calls.close_listener (calls.close_ctrl_sck w)) s)
    s2 ← cancel_in s.reporter_timer (record s1 { stats_timer = none })
    s3 ← cancel_in s.omit_timer (record s2 { reporter_timer = none })
    s4 ← cancel_in s.timer (change calls.free_congestion_used (record s3 { omit_timer = none }))
    some (record s4 { timer = none })
