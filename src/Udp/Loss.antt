-- ===== src/Udp/Loss.antt =====
-- iperf_udp.c: the loss count of iperf_udp_recv is the number of packets that are missing.
use sber_wifi.Prelude.{
  ℕ, ◌+◌, ◌^◌, ◌≤◌, ◌<◌, ◌≡◌, ◌⊎◌, ap, inl, inr, List, ◌∷◌, arith, ltb, Bool-cases, length,
}
use sber_wifi.Prelude.Float.{Float}
use sber_wifi.Udp.{Stream, account}
use sber_wifi.Udp.Seen.{count, Within, length-lt, Within-weaken, count-above}

-- The highest number stays the highest where one below it joins.
top_kept :
    (seen : List ℕ) (p n n' : ℕ)
    → n' ≡ n
    → 0 < n
    → (n ≡ 0) ⊎ (0 < count n seen)
    → 0 < count n' (p ∷ seen)
top_kept seen p n n' same some_packet (inl none_yet) = absurd (omega arith)
top_kept seen p n n' same some_packet (inr held) = ground (arith, ap (λ k. count k seen) same)

module _ (F : Float) where
  -- The stream after the packets `seen`: no number was seen twice, the highest of them is
  -- `packet_count`, which is 0 before the first, and the numbers up to it that were not seen are the
  -- losses.
  pub record Accounts (seen : List ℕ) (sp : Stream F) : Type 0 where
    pub small : sp.packet_count + 1 < 2 ^ 31
    pub within : Within sp.packet_count seen
    pub top : (sp.packet_count ≡ 0) ⊎ (0 < count sp.packet_count seen)
    pub once : (x : ℕ) → count x seen ≤ 1
    pub lost : sp.cnt_error + length seen ≡ sp.packet_count

  -- The number joins the ones seen.
  seen-once :
      (seen : List ℕ) (sp : Stream F) (p : ℕ)
      → Accounts seen sp
      → count p seen ≡ 0
      → (x : ℕ) → count x (p ∷ seen) ≤ 1
  seen-once seen sp p v absent x = ground (arith, v.once x)

  ahead :
      (seen : List ℕ) (sp : Stream F) (p : ℕ)
      → Accounts seen sp
      → p + 1 < 2 ^ 31
      → sp.packet_count < p
      → Accounts (p ∷ seen) (account F p sp)
  unfolding account
  ahead seen sp p v hp lt =
      let at : (account F p sp).packet_count ≡ p = ground arith in
      record {
        small = omega (arith, at);
        within = (
          omega arith,
          omega (arith, at),
          Within-weaken sp.packet_count _ seen (omega (arith, at)) v.within,
        );
        top = inr (ground (arith, at));
        once = seen-once seen sp p v (count-above sp.packet_count p seen v.within lt);
        lost = ground arith;
      }

  behind :
      (seen : List ℕ) (sp : Stream F) (p : ℕ)
      → Accounts seen sp
      → count p seen ≡ 0
      → 1 ≤ p
      → p ≤ sp.packet_count
      → Accounts (p ∷ seen) (account F p sp)
  unfolding account
  behind seen sp p v absent lo le =
      let short : length seen < sp.packet_count =
        length-lt sp.packet_count seen p v.within v.once lo le absent in
      let at : (account F p sp).packet_count ≡ sp.packet_count = ground arith in
      record {
        small = omega (arith, at);
        within = (
          lo,
          omega (arith, at),
          Within-weaken sp.packet_count _ seen (omega (arith, at)) v.within,
        );
        top =
            inr (
              top_kept seen p sp.packet_count (account F p sp).packet_count at (omega arith) v.top);
        once = seen-once seen sp p v absent;
        lost = ground arith;
      }

  pub account-Accounts :
      (seen : List ℕ) (sp : Stream F) (p : ℕ)
      → Accounts seen sp
      → count p seen ≡ 0
      → 1 ≤ p
      → p + 1 < 2 ^ 31
      → Accounts (p ∷ seen) (account F p sp)
  account-Accounts seen sp p v absent lo hi = elim (Bool-cases (ltb sp.packet_count p)) [
    | inl forward ↦ ahead seen sp p v hi (ground arith)
    | inr back ↦ behind seen sp p v absent lo (ground arith)
  ]
