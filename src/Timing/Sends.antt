-- ===== src/Timing/Sends.antt =====
-- iperf_api.c: iperf_create_send_timers gives every stream a send timer that is active.
use sber_wifi.Prelude.{
  ℕ, ◌+◌, ◌≡◌, refl, sym, ap, ◌∙◌, inl, inr, Bool, true, none, some, List, [], ◌∷◌, ◌++◌, arith,
  ◌==◌, if◌then◌else◌, Bool-cases, Option-cases,
}
use sber_wifi.Prelude.Float.{Float}
use mathlib.Core.List.{append_assoc}
use sber_wifi.Timer.{Timers, tmr_create}
use sber_wifi.Params.{u64_of, is_set}
use sber_wifi.Timing.{
  code, is_periodic, Sender, Plan, Timed, Calls, send, send_timer_of, send_timers_from,
  iperf_create_send_timers,
}
use sber_wifi.Timing.Sound.{holds, send_refs, refs, Sound, no_others, Behaves, world-Sound}
use sber_wifi.Timing.Creates.{Leaves, Adds, created-Sound}

send_refs-append :
    (l r : List Sender) (h : ℕ) → send_refs (l ++ r) h ≡ send_refs l h + send_refs r h
unfolding send_refs
send_refs-append [] r h = omega arith
send_refs-append (x ∷ l) r h = ground (arith, send_refs-append l r h)

-- The streams hold no timers.
unfoldable pub HasNoTimers : List Sender → Type 0
HasNoTimers [] = Unit
HasNoTimers (x ∷ l) = (x.send_timer ≡ none) × HasNoTimers l

-- The test after one stream has been visited.
abbrev visited : {W : Type 0} → List Sender → List Sender → Sender × Bool × Timed W → Timed W
visited behind ahead (x, goes_on, s) = record s { streams = behind ++ (x ∷ ahead) }

lit_refs :
    (behind ahead : List Sender) (x : Sender) (h : ℕ)
    → send_refs (behind ++ (record x { green_light = true } ∷ ahead)) h
      ≡ send_refs (behind ++ (x ∷ ahead)) h
unfolding send_refs
lit_refs behind ahead x h =
    send_refs-append behind (record x { green_light = true } ∷ ahead) h
    ∙ sym (send_refs-append behind (x ∷ ahead) h)

lit-Sound :
    {W : Type 0} (behind ahead : List Sender) (x : Sender) (s : Timed W) (w : W)
    → s.streams ≡ behind ++ (x ∷ ahead)
    → Sound no_others s
    → Sound no_others
        (record s { streams = behind ++ (record x { green_light = true } ∷ ahead); world = w })
unfolding refs
lit-Sound behind ahead x s w e v = record {
  inv = v.inv;
  matches = λ c h. rw (lit_refs behind ahead x h, sym (ap (λ l. send_refs l h) e)) (v.matches c h);
  periods = v.periods;
}

stored_refs :
    (behind ahead : List Sender) (x : Sender) (h j : ℕ)
    → x.send_timer ≡ none
    → send_refs (behind ++ (record x { green_light = true; send_timer = some h } ∷ ahead)) j
      ≡ send_refs (behind ++ (x ∷ ahead)) j + (if h == j then 1 else 0)
unfolding send_refs holds
stored_refs behind ahead x h j e =
    let after =
      send_refs-append behind (record x { green_light = true; send_timer = some h } ∷ ahead) j in
    let before = send_refs-append behind (x ∷ ahead) j in ground (arith, after, before)

stored-Adds :
    {W : Type 0} (behind ahead : List Sender) (x : Sender) (s : Timed W) (h : ℕ) (ts : Timers)
    (w : W)
    → s.streams ≡ behind ++ (x ∷ ahead)
    → x.send_timer ≡ none
    → Adds 4 h s (record s {
      streams = behind ++ (record x { green_light = true; send_timer = some h } ∷ ahead);
      timers = ts;
      world = w;
    })
unfolding refs
stored-Adds behind ahead x s h ts w e idle =
    let at = λ (j : ℕ).
      stored_refs behind ahead x h j idle
      ∙ ap (λ l. send_refs l j + (if h == j then 1 else 0)) (sym e) in
    record { elsewhere = λ c j ne. ground (arith, at j); here = λ c. ground (arith, at h) }

failed_refs :
    (behind ahead : List Sender) (x : Sender) (h : ℕ)
    → x.send_timer ≡ none
    → send_refs (behind ++ (record x { green_light = true; send_timer = none } ∷ ahead)) h
      ≡ send_refs (behind ++ (x ∷ ahead)) h
unfolding send_refs holds
failed_refs behind ahead x h e =
    let after =
      send_refs-append behind (record x { green_light = true; send_timer = none } ∷ ahead) h in
    let before = send_refs-append behind (x ∷ ahead) h in ground (arith, after, before)

failed-Sound :
    {W : Type 0} (behind ahead : List Sender) (x : Sender) (s : Timed W) (w : W)
    → s.streams ≡ behind ++ (x ∷ ahead)
    → x.send_timer ≡ none
    → Sound no_others s
    → Sound no_others (record s {
      streams = behind ++ (record x { green_light = true; send_timer = none } ∷ ahead);
      world = w;
    })
unfolding refs
failed-Sound behind ahead x s w e idle v = record {
  inv = v.inv;
  matches = λ c h.
      rw (failed_refs behind ahead x h idle, sym (ap (λ l. send_refs l h) e)) (v.matches c h);
  periods = v.periods;
}

module _ {F : Float} {W : Type 0} (calls : Calls F W) (good : Behaves calls) where
  send_timer_of-Sound :
      (plan : Plan F) (behind ahead : List Sender) (x : Sender) (s : Timed W)
      → s.streams ≡ behind ++ (x ∷ ahead)
      → x.send_timer ≡ none
      → Sound no_others s
      → Sound no_others (visited behind ahead (send_timer_of calls plan x s))
  unfolding send_timer_of
  send_timer_of-Sound plan behind ahead x s e idle v =
      let now = calls.getnow s.world in
      let memory = calls.malloc s.timers now.1 in
      elim (Bool-cases (plan.rate == 0)) [
        | inl unpaced ↦ rw unpaced (lit-Sound behind ahead x s s.world e v)
        | inr paced ↦
            elim (Option-cases (
              tmr_create memory.0 now.0 (code send) x.sp (u64_of plan.pacing_timer)
                (is_periodic send) s.timers)) [
                  | inl fail ↦ rw (paced, fail) (failed-Sound behind ahead x s memory.1 e idle v)
                  | inr ((h, ts), ok) ↦
                      rw (paced, ok)
                        (created-Sound memory.0 now.0 send x.sp (u64_of plan.pacing_timer) s _ h v
                          (good.getnow s.world) (good.fresh s.timers now.1) ok
                          (stored-Adds behind ahead x s h ts memory.1 e idle))
                ]
      ]

  send_timers_from-Leaves :
      (plan : Plan F) (behind ahead : List Sender) (s : Timed W)
      → s.streams ≡ behind ++ ahead
      → HasNoTimers ahead
      → Sound no_others s
      → Leaves (Sound no_others) (send_timers_from calls plan behind ahead s)
  unfolding send_timers_from Leaves HasNoTimers
  send_timers_from-Leaves plan behind [] s e a v = v
  send_timers_from-Leaves plan behind (x ∷ ahead) s e a v =
      let one = send_timer_of calls plan x s in
      let next = visited behind ahead one in
      let next_sound = send_timer_of-Sound plan behind ahead x s e a.0 v in
      elim (Bool-cases one.1) [
        | inl on ↦ rw on (
            send_timers_from-Leaves plan (behind ++ (one.0 ∷ [])) ahead next
              (sym (append_assoc behind (one.0 ∷ []) ahead)) a.1 next_sound)
        | inr off ↦ rw off next_sound
      ]

  -- From a test that holds exactly the active timers and whose streams hold none,
  -- iperf_create_send_timers ends, whether it fails or not,
  -- with the test holding exactly the active timers, each in its place, in a well-formed timers
  -- package. malloc returns an address that is not in use, and the clock a normal time.
  pub iperf_create_send_timers-Sound :
      (plan : Plan F) (s : Timed W)
      → HasNoTimers s.streams
      → Sound no_others s
      → Leaves (Sound no_others) (iperf_create_send_timers calls plan s)
  unfolding iperf_create_send_timers Leaves
  iperf_create_send_timers-Sound plan s a v =
      let now = calls.clock s.world in
      let read : Sound no_others (record s { world = now.1 }) =
        world-Sound s s.done s.omitting now.1 v in
      elim (Bool-cases (is_set now.0)) [
        | inl reads ↦ rw reads (send_timers_from-Leaves plan [] s.streams _ refl a read)
        | inr fails ↦ rw fails read
      ]
