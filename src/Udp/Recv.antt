-- ===== src/Udp/Recv.antt =====
-- iperf_udp.c: iperf_udp_recv on every branch.
use sber_wifi.Prelude.{ℕ, suc, ◌+◌, ◌^◌, ◌≤◌, ◌<◌, ◌≡◌, refl, Bool, true, List, ◌∷◌, arith}
use sber_wifi.Prelude.Int.{pos}
use sber_wifi.Prelude.Float.{Float}
use sber_wifi.Time.{IperfTime}
use sber_wifi.Udp.{Stream, account, measure_jitter, parse_header, iperf_udp_recv, u64}
use sber_wifi.Udp.Seen.{count}
use sber_wifi.Udp.Loss.{Accounts, account-Accounts}

module _ (F : Float) where
  -- Accounts speaks of the counters alone.
  Accounts-same :
      (seen : List ℕ) (sp sp' : Stream F)
      → Accounts F seen sp
      → sp'.packet_count ≡ sp.packet_count
      → sp'.cnt_error ≡ sp.cnt_error
      → Accounts F seen sp'
  Accounts-same seen sp sp' v ep ec = record {
    small = omega (arith, v.small);
    within = rw ep v.within;
    top = rw ep v.top;
    once = v.once;
    lost = rw (ep, ec) v.lost;
  }

  -- While the test runs and each packet arrives at most once, with numbers from 1 up to 2 ^ 31 - 2,
  -- packet_count stays the highest number seen, and the loss count of iperf_udp_recv the number of
  -- packets that are missing up to it, in whatever order they arrive: a new packet joins the ones
  -- accounted for.
  pub iperf_udp_recv-Accounts :
      (n : ℕ) (buffer : List ℕ) (wide : Bool) (arrival : IperfTime) (seen : List ℕ) (sp : Stream F)
      → Accounts F seen sp
      → count (parse_header wide buffer).1 seen ≡ 0
      → 1 ≤ (parse_header wide buffer).1
      → (parse_header wide buffer).1 + 1 < 2 ^ 31
      → Accounts F
          ((parse_header wide buffer).1 ∷ seen)
          (iperf_udp_recv F (pos (suc n)) buffer true wide arrival sp).1
  unfolding iperf_udp_recv measure_jitter
  iperf_udp_recv-Accounts n buffer wide arrival seen sp v absent lo hi =
      let p : ℕ = (parse_header wide buffer).1 in
      let counted : Stream F = record sp {
        bytes_received = u64 (sp.bytes_received + suc n);
        bytes_received_this_interval = u64 (sp.bytes_received_this_interval + suc n);
      } in
      let w =
        account-Accounts F seen counted p (Accounts-same seen sp counted v refl refl) absent lo
          hi in
      Accounts-same (p ∷ seen) (account F p counted) _ w refl refl
