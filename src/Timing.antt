-- ===== src/Timing.antt =====
-- app/src/main/cpp/iperf/iperf_client_api.c, iperf_server_api.c and iperf_api.c: the timers of a
-- test, which the test holds by their handles, and the functions that they call. malloc, the clock
-- and what the timer functions do to the rest of the program change a state `W`. A handle that is
-- cancelled or reset while it is not on the active list is the fault `none`.
pub mod Sound
pub mod Callbacks
pub mod Creates
pub mod Sends
pub mod Fires
pub mod Ended
pub mod Procs
pub mod Cleanup
pub mod Examples
use sber_wifi.Prelude.{
  ℕ, ◌+◌, ◌*◌, Bool, true, false, not, Option, none, some, List, [], ◌∷◌, ◌++◌, ◌==◌, if◌then◌else◌,
}
use sber_wifi.Prelude.Int.{ℤ, pos, negsuc, eq_ℤ, add_ℤ}
use sber_wifi.Prelude.Float.{Float}
use sber_wifi.Time.{IperfTime}
use sber_wifi.Timer.{Timers, tmr_create}
use sber_wifi.Params.{u64_of, is_set}

-- The timer functions, and what their addresses and their timers are.
pub data Kind : Type 0 where
  test_end stats reporter omit send : Kind

abbrev pub code : Kind → ℕ
code test_end = 0  -- test_timer_proc, server_timer_proc
code stats = 1  -- client_stats_timer_proc, server_stats_timer_proc
code reporter = 2  -- client_reporter_timer_proc, server_reporter_timer_proc
code omit = 3  -- client_omit_timer_proc, server_omit_timer_proc
code send = 4  -- send_timer_proc

abbrev pub is_periodic : Kind → Bool
is_periodic test_end = false
is_periodic stats = true
is_periodic reporter = true
is_periodic omit = false
is_periodic send = true

-- The fields of struct iperf_test that the timers read.
pub record Plan (F : Float) : Type 0 where
  pub duration : ℤ
  pub omit_time : ℤ  -- `omit`
  pub stats_interval : F.Double
  pub reporter_interval : F.Double
  pub rate : ℕ
  pub pacing_timer : ℤ

-- A stream, by its address.
pub record Sender : Type 0 where
  pub sp : ℕ
  pub green_light : Bool
  pub send_timer : Option ℕ

-- Those that change, the static variables of timer.c, and the rest of the program. `none` is NULL.
pub record Timed (W : Type 0) : Type 0 where
  pub timer : Option ℕ
  pub stats_timer : Option ℕ
  pub reporter_timer : Option ℕ
  pub omit_timer : Option ℕ
  pub streams : List Sender
  pub done : Bool
  pub omitting : Bool
  pub timers : Timers
  pub world : W

-- `a * SEC_TO_US` for an int
abbrev pub in_usecs : ℤ → ℤ
in_usecs (pos n) = pos (n * 1000000)
in_usecs (negsuc n) = negsuc (n * 1000000 + 999999)

-- What the functions call in other parts. The first result of the clock is `none` where it fails,
-- `nonzero` is `!= 0` on double.
pub record Calls (F : Float) (W : Type 0) : Type 0 where
  pub malloc : Timers → W → Option ℕ × W
  pub clock : W → Option IperfTime × W
  pub getnow : W → IperfTime × W  -- of timer.c, on NULL
  pub nonzero : F.Double → Bool
  pub stats_callback : W → W
  pub reporter_callback : W → W
  pub iperf_reset_stats : W → W
  pub report_omit_done : W → W
  pub iperf_check_throttle : ℕ → IperfTime → W → W
  pub close_socket : ℕ → W → W
  pub free_stream : ℕ → W → W  -- iperf_free_stream, but for the timer
  pub close_ctrl_sck : W → W
  pub close_listener : W → W
  pub free_congestion_used : W → W

-- `return -1` with IEINITTEST, or the state; either way with what has been changed.
pub data Made (W : Type 0) : Type 0 where
  made : Timed W → Made W
  failed : Timed W → Made W

abbrev pub if_made : {W : Type 0} → Made W → (Timed W → Made W) → Made W
if_made (made s) f = f s
if_made (failed s) f = failed s

infixl 5 ◌>>=◌
abbrev pub ◌>>=◌ : {A B : Type 0} → Option A → (A → Option B) → Option B
none >>= f = none
some a >>= f = f a

abbrev pub map_some : {A B : Type 0} → (A → B) → Option A → Option B
map_some f none = none
map_some f (some a) = some (f a)

abbrev pub store_timer : {W : Type 0} → ℕ → Timed W → Timed W
store_timer h s = record s { timer = some h }

abbrev pub store_stats : {W : Type 0} → ℕ → Timed W → Timed W
store_stats h s = record s { stats_timer = some h }

abbrev pub store_reporter : {W : Type 0} → ℕ → Timed W → Timed W
store_reporter h s = record s { reporter_timer = some h }

abbrev pub store_omit : {W : Type 0} → ℕ → Timed W → Timed W
store_omit h s = record s { omit_timer = some h }

module _ {F : Float} {W : Type 0} (calls : Calls F W) where
  abbrev created : (ℕ → Timed W → Timed W) → Option (ℕ × Timers) → Timed W → Made W
  created put none s = failed s
  created put (some (h, timers)) s = made (put h (record s { timers = timers }))

  -- A call of tmr_create with the test that follows it; `put` stores the handle.
  unfoldable pub create : Kind → IperfTime → ℕ → ℕ → (ℕ → Timed W → Timed W) → Timed W → Made W
  unfolding tmr_create
  create k now client_data usecs put s =
      let memory = calls.malloc s.timers s.world in
      created put (tmr_create memory.0 now (code k) client_data usecs (is_periodic k) s.timers)
        (record s { world = memory.1 })

  -- The test itself is the client data 0.
  unfoldable pub create_when :
      Bool → Kind → IperfTime → ℕ → (ℕ → Timed W → Timed W) → Timed W → Made W
  unfolding create
  create_when true k now usecs put s = create k now 0 usecs put s
  create_when false k now usecs put s = made s

  abbrev pub started : Bool → Timed W → Timed W
  started timed s = record s {
    timer = none;
    stats_timer = none;
    reporter_timer = none;
    done = if timed then false else s.done;
  }

  -- create_client_timers with `grace` 0, and create_server_timers with its 40 seconds. The second
  -- time that the server sets stats_timer and reporter_timer to NULL changes nothing.
  unfoldable pub timers_at : ℤ → Plan F → Option IperfTime → Timed W → Made W
  unfolding create_when
  timers_at grace plan none s = failed s
  timers_at grace plan (some now) s =
      let timed = not (eq_ℤ plan.duration (pos 0)) in
      let all = add_ℤ (add_ℤ plan.duration plan.omit_time) grace in
      let period = λ (d : F.Double). F.trunc (F.mul d (F.of_ℕ 1000000)) in
      let first =
        create_when timed test_end now (u64_of (in_usecs all)) store_timer (started timed s) in
      let second = if_made first (
        create_when (calls.nonzero plan.stats_interval) stats now (period plan.stats_interval)
          store_stats) in
      if_made second (
        create_when (calls.nonzero plan.reporter_interval) reporter now
          (period plan.reporter_interval) store_reporter)

  unfoldable pub create_client_timers : Plan F → Timed W → Made W
  unfolding timers_at
  create_client_timers plan s =
      let now = calls.clock s.world in timers_at (pos 0) plan now.0 (record s { world = now.1 })

  unfoldable pub create_server_timers : Plan F → Timed W → Made W
  unfolding timers_at
  create_server_timers plan s =
      let now = calls.clock s.world in timers_at (pos 40) plan now.0 (record s { world = now.1 })

  -- Where tmr_create fails its NULL has been stored.
  unfoldable pub omit_at : Plan F → Option IperfTime → Timed W → Made W
  unfolding create
  omit_at plan none s = failed s
  omit_at plan (some now) s =
      create omit now 0 (u64_of (in_usecs plan.omit_time)) store_omit
        (record s { omitting = true; omit_timer = none })

  -- create_client_omit_timer and create_server_omit_timer
  unfoldable pub create_omit_timer : Plan F → Timed W → Made W
  unfolding omit_at
  create_omit_timer plan s =
      let now = calls.clock s.world in
      if eq_ℤ plan.omit_time (pos 0)
      then made (record s { omit_timer = none; omitting = false })
      else omit_at plan now.0 (record s { world = now.1 })

  abbrev with_timer : Sender → Option (ℕ × Timers) → Timed W → Sender × Bool × Timed W
  with_timer x none s = (record x { send_timer = none }, false, s)
  with_timer x (some (h, timers)) s =
      (record x { send_timer = some h }, true, record s { timers = timers })

  -- What the loop does to one stream, and whether it goes on. tmr_create is given no time.
  unfoldable pub send_timer_of : Plan F → Sender → Timed W → Sender × Bool × Timed W
  unfolding tmr_create
  send_timer_of plan x s =
      let lit : Sender = record x { green_light = true } in
      let now = calls.getnow s.world in
      let memory = calls.malloc s.timers now.1 in
      if plan.rate == 0
      then (lit, true, s)
      else with_timer lit
          (tmr_create memory.0 now.0 (code send) x.sp (u64_of plan.pacing_timer) (is_periodic send)
            s.timers)
          (record s { world = memory.1 })

  abbrev go_on : Bool → Timed W → (Timed W → Made W) → Made W
  go_on true s f = f s
  go_on false s f = failed s

  -- The streams that the loop has done, and those ahead of it.
  unfoldable pub send_timers_from : Plan F → List Sender → List Sender → Timed W → Made W
  unfolding send_timer_of
  send_timers_from plan behind [] s = made s
  send_timers_from plan behind (x ∷ ahead) s =
      let (x', goes_on, s') = send_timer_of plan x s in
      go_on goes_on (record s' { streams = behind ++ (x' ∷ ahead) })
        (send_timers_from plan (behind ++ (x' ∷ [])) ahead)

  unfoldable pub iperf_create_send_timers : Plan F → Timed W → Made W
  unfolding send_timers_from
  iperf_create_send_timers plan s =
      let now = calls.clock s.world in
      if is_set now.0
      then send_timers_from plan [] s.streams (record s { world = now.1 })
      else failed (record s { world = now.1 })
