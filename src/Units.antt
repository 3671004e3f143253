-- ===== src/Units.antt =====
-- app/src/main/cpp/iperf/units.c: numbers with a unit suffix. `double` is the parameter `F`, and
-- `scan` is sscanf(s, "%lf%c", &n, &suffix): the number, and the suffix, 0 where there is none.
use sber_wifi.Prelude.{ℕ, ◌^◌, ◌||◌, ◌==◌, if◌then◌else◌}
use sber_wifi.Prelude.Float.{Float}
use sber_wifi.Libc.{Text}

-- The power of the unit that a suffix stands for.
unfoldable pub suffix_power : ℕ → ℕ
suffix_power suffix =
    if suffix == b't' || suffix == b'T'
    then 4
    else if suffix == b'g' || suffix == b'G'
    then 3
    else if suffix == b'm' || suffix == b'M'
    then 2
    else if suffix == b'k' || suffix == b'K'
    then 1
    else 0

module _ (F : Float) (scan : Text → F.Double × ℕ) where
  -- The `switch` on the suffix; TERA_UNIT and the others are exact.
  unfoldable pub scaled : ℕ → F.Double × ℕ → F.Double
  unfolding suffix_power
  scaled unit (n, suffix) =
      if suffix_power suffix == 0 then n else F.mul n (F.of_ℕ (unit ^ suffix_power suffix))

  unfoldable pub unit_atof : Text → F.Double
  unfolding scaled
  unit_atof s = scaled 1024 (scan s)

  unfoldable pub unit_atof_rate : Text → F.Double
  unfolding scaled
  unit_atof_rate s = scaled 1000 (scan s)

  -- The conversion to iperf_size_t.
  unfoldable pub unit_atoi : Text → ℕ
  unfolding scaled
  unit_atoi s = F.trunc (scaled 1024 (scan s))
