-- ===== src/Timing/Cleanup.antt =====
-- iperf_server_api.c: cleanup_server cancels the timers of the test.
use sber_wifi.Prelude.{
  ℕ, ◌+◌, ◌≡◌, refl, ap, ◌∙◌, ◌≢◌, Option, none, some, arith, ◌==◌, if◌then◌else◌,
}
use sber_wifi.Prelude.Float.{Float}
use sber_wifi.Timer.{Timers}
use sber_wifi.Timing.{Timed, Calls, ◌>>=◌}
use sber_wifi.Timing.Callbacks.{cancel_in, change, cleanup_server}
use sber_wifi.Timing.Sound.{holds, refs, active, Sound, no_others, world-Sound}
use sber_wifi.Timing.Fires.{Drops, cancelled-Sound}

-- The pointer `p` less, in the place for the timer function at `k`.
Forgets : {W : Type 0} → ℕ → Option ℕ → Timed W → Timed W → Type 0
Forgets k p s s' = (c j : ℕ) → refs c j s ≡ refs c j s' + (if c == k then holds p j else 0)

forgotten-Drops :
    {W : Type 0} (k h : ℕ) (s s' : Timed W)
    → Forgets k (some h) s s'
    → Drops k h no_others no_others s s'
unfolding Forgets holds
forgotten-Drops k h s s' f = record {
  elsewhere = λ c j ne. ground (arith, f c j);
  here = λ c. ground (arith, f c h);
}

cancel_in-Sound :
    {W : Type 0} (k : ℕ) (p : Option ℕ) (s s' : Timed W)
    → s'.timers ≡ s.timers
    → Forgets k p s s'
    → Sound no_others s
    → (ts : Timers) × (cancel_in p s ≡ some (record s { timers = ts }))
      × Sound no_others (record s' { timers = ts })
unfolding cancel_in Forgets holds refs
cancel_in-Sound k none s s' same f v = (
  s.timers,
  refl,
  record {
    inv = v.inv;
    matches = λ c j. ground (arith, f c j, v.matches c j);
    periods = v.periods;
  },
)
cancel_in-Sound k (some h) s s' same f v =
    let (ts, cancels, sound) = cancelled-Sound s s' k h v (forgotten-Drops k h s s' f) in
    (ts, rw cancels refl, sound)

-- The call ends without a fault, in a state of which `Q` holds.
Ends : {W : Type 0} → (Timed W → Type 0) → Option (Timed W) → Type 0
Ends Q o = (s' : _) × (o ≡ some s') × Q s'

then-Ends :
    {W : Type 0} (Q : Timed W → Type 0) (k : ℕ) (p : Option ℕ) (s s' : Timed W)
    (f : Timed W → Option (Timed W))
    → s'.timers ≡ s.timers
    → Forgets k p s s'
    → Sound no_others s
    → ((ts : Timers)
        → Sound no_others (record s' { timers = ts })
        → Ends Q (f (record s { timers = ts })))
    → Ends Q (cancel_in p s >>= f)
unfolding Ends
then-Ends Q k p s s' f same forgets v next =
    let (ts, cancels, sound) = cancel_in-Sound k p s s' same forgets v in
    let (end, e, q) = next ts sound in (end, ap (λ x. x >>= f) cancels ∙ e, q)

Cleaned : {W : Type 0} → Timed W → Timed W → Type 0
Cleaned s s' =
    Sound no_others s' × ((c h : ℕ) → c ≢ 4 → active c h s'.timers ≡ 0) × (s'.streams ≡ s.streams)

cleaned_of :
    {W : Type 0} (s : Timed W)
    → Sound no_others s
    → s.timer ≡ none
    → s.stats_timer ≡ none
    → s.reporter_timer ≡ none
    → s.omit_timer ≡ none
    → (c h : ℕ) → c ≢ 4
    → active c h s.timers ≡ 0
unfolding refs
cleaned_of s v no_timer no_stats no_reporter no_omit c h ne = ground (arith, holds, v.matches c h)

module _ {F : Float} {W : Type 0} (calls : Calls F W) where
  -- From a test that holds exactly its active timers, cleanup_server cancels only active timers, and
  -- leaves no timer active but those of the streams; the test holds exactly these.
  pub cleanup_server-Sound :
      (s : Timed W)
      → Sound no_others s
      → (s' : Timed W) × (cleanup_server calls s ≡ some s')
        × (Sound no_others s'
            × ((c h : ℕ) → c ≢ 4 → active c h s'.timers ≡ 0)
            × (s'.streams ≡ s.streams))
  unfolding cleanup_server Ends Forgets refs Cleaned
  cleanup_server-Sound s v =
      let w = calls.close_listener (calls.close_ctrl_sck s.world) in
      let a0 : Timed W = record s { world = w } in
      then-Ends (Cleaned s) 1 s.stats_timer a0 (record a0 { stats_timer = none }) _ refl
        (λ c j. ground (arith, holds)) (world-Sound s s.done s.omitting w v)
        (λ t1 v1.
          let a1 : Timed W = record a0 { stats_timer = none; timers = t1 } in
          then-Ends (Cleaned s) 2 s.reporter_timer a1 (record a1 { reporter_timer = none }) _ refl
            (λ c j. ground (arith, holds)) v1
            (λ t2 v2.
              let a2 : Timed W = record a1 { reporter_timer = none; timers = t2 } in
              then-Ends (Cleaned s) 3 s.omit_timer a2 (record a2 { omit_timer = none }) _ refl
                (λ c j. ground (arith, holds)) v2
                (λ t3 v3.
                  let a3 : Timed W =
                    change calls.free_congestion_used
                      (record a2 { omit_timer = none; timers = t3 }) in
                  then-Ends (Cleaned s) 0 s.timer a3 (record a3 { timer = none }) _ refl
                    (λ c j. ground (arith, holds))
                    (world-Sound (record a2 { omit_timer = none; timers = t3 }) s.done s.omitting
                      (calls.free_congestion_used w) v3)
                    (λ t4 v4. (
                      record a3 { timer = none; timers = t4 },
                      refl,
                      (v4, cleaned_of _ v4 refl refl refl refl, refl),
                    )))))
