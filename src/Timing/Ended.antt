-- ===== src/Timing/Ended.antt =====
-- A test once the pointer to the timer that is called is NULL, or once a stream is gone.
use sber_wifi.Prelude.{ℕ, ◌<◌, ◌≡◌, ◌∙◌, ◌⊎◌, Bool, false, Option, none, some, List, ◌∷◌, arith}
use sber_wifi.Timer.{Timer, find}
use sber_wifi.Timing.{Sender, Timed}
use sber_wifi.Timing.Sound.{
  holds, send_refs, refs, of_timer, active, Sound, no_others, one_other, active-found,
}
use sber_wifi.Timing.Fires.{Drops}

pub one_other-Drops : {W : Type 0} (k h : ℕ) (s : Timed W) → Drops k h (one_other k h) no_others s s
one_other-Drops k h s = record { elsewhere = λ c j ne. ground arith; here = λ c. ground arith }

pub holds_of_one : (p : Option ℕ) (h : ℕ) → 0 < holds p h → p ≡ some h
unfolding holds
holds_of_one none h e = absurd (omega arith)
holds_of_one (some a) h e = ground arith

-- The test, once the pointer of the timer that is called is NULL.
pub ended-Sound :
    {W : Type 0} (h : ℕ) (s : Timed W) (over : Bool)
    → Sound no_others s
    → 0 < active 0 h s.timers
    → Sound (one_other 0 h) (record s { timer = none; done = over })
unfolding refs
ended-Sound h s over v e =
    let at : s.timer ≡ some h = holds_of_one s.timer h (ground (arith, v.matches 0 h)) in
    record {
      inv = v.inv;
      matches = λ c j. ground (arith, holds, v.matches c j);
      periods = v.periods;
    }

pub omitted-Sound :
    {W : Type 0} (h : ℕ) (s : Timed W) (w : W)
    → Sound no_others s
    → 0 < active 3 h s.timers
    → Sound (one_other 3 h) (record s { omit_timer = none; omitting = false; world = w })
unfolding refs
omitted-Sound h s w v e =
    let at : s.omit_timer ≡ some h = holds_of_one s.omit_timer h (ground (arith, v.matches 3 h)) in
    record {
      inv = v.inv;
      matches = λ c j. ground (arith, holds, v.matches c j);
      periods = v.periods;
    }

-- A stream less, that holds no timer.
pub unpaced-Sound :
    {W : Type 0} {e : ℕ → ℕ → ℕ} (x : Sender) (rest : List Sender) (s : Timed W) (w : W)
    → s.streams ≡ x ∷ rest
    → x.send_timer ≡ none
    → Sound e s
    → Sound e (record s { streams = rest; world = w })
unfolding refs
unpaced-Sound x rest s w at never v = record {
  inv = v.inv;
  matches = λ c j. ground (arith, send_refs, holds, v.matches c j);
  periods = v.periods;
}

-- A stream less, that holds the timer `a`.
pub stream-Drops :
    {W : Type 0} {e : ℕ → ℕ → ℕ} (a : ℕ) (x : Sender) (rest : List Sender) (s : Timed W) (w : W)
    → s.streams ≡ x ∷ rest
    → x.send_timer ≡ some a
    → Drops 4 a e e s (record s { streams = rest; world = w })
unfolding refs
stream-Drops a x rest s w at held = record {
  elsewhere = λ c j ne. ground (arith, send_refs, holds);
  here = λ c. ground (arith, send_refs, holds);
}

pub five_cases : (n : ℕ) → n < 5 → (n ≡ 0) ⊎ ((n ≡ 1) ⊎ ((n ≡ 2) ⊎ ((n ≡ 3) ⊎ (n ≡ 4))))
five_cases n e = ground arith

-- An active timer has one of the timer functions of the test.
pub kinds_of :
    {W : Type 0} (t : Timer) (h : ℕ) (s : Timed W)
    → find h s.timers.timers ≡ some t
    → Sound no_others s
    → (t.proc ≡ 0) ⊎ ((t.proc ≡ 1) ⊎ ((t.proc ≡ 2) ⊎ ((t.proc ≡ 3) ⊎ (t.proc ≡ 4))))
unfolding refs of_timer
kinds_of t h s found v =
    let one = v.matches t.proc h ∙ active-found t.proc h s.timers t found in
    five_cases t.proc (ground arith)
