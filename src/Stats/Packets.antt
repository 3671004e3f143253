-- ===== src/Stats/Packets.antt =====
-- iperf_api.c: the packet counts of the intervals of a stream are the counts of the stream, for the
-- protocols other than TCP.
use sber_wifi.Prelude.{
  ℕ, ◌+◌, ◌^◌, ◌<◌, ◌≡◌, refl, sym, ap, ◌∙◌, Bool, true, false, Option, none, some, List, [], ◌∷◌,
  ◌++◌, arith, if◌then◌else◌,
}
use sber_wifi.Prelude.Float.{Float}
use sber_wifi.Time.{IperfTime, u32, sub_u32}
use sber_wifi.Test.{same_protocol, tcp}
use sber_wifi.Stats.{
  TcpInfo, Interval, StreamResult, Measured, Counted, add_to_interval_list, count_packets,
  time_interval, measure, gather, gather_all, iperf_stats_callback, last_interval,
}

if-false : {A : Type 0} (b : Bool) (x y : A) → b ≡ false → (if b then x else y) ≡ y
if-false true x y e = absurd cc
if-false false x y e = refl

module _ {F : Float} where
  abbrev pub total : (Interval F → ℕ) → List (Interval F) → ℕ
  total f [] = 0
  total f (ir ∷ rest) = f ir + total f rest

  total-append :
      (f : Interval F → ℕ) (l : List (Interval F)) (ir : Interval F)
      → total f (l ++ ir ∷ []) ≡ total f l + f ir
  total-append f [] ir = omega arith
  total-append f (x ∷ l) ir = let e = total-append f l ir in omega arith

  last_interval-append :
      (l : List (Interval F)) (ir : Interval F) → last_interval (l ++ ir ∷ []) ≡ some ir
  last_interval-append [] ir = refl
  last_interval-append (x ∷ []) ir = refl
  last_interval-append (x ∷ y ∷ l) ir = last_interval-append (y ∷ l) ir

  -- A count as it was at the end of the last interval.
  abbrev pub at_last : (Interval F → ℕ) → Option (Interval F) → ℕ
  at_last f none = 0
  at_last f (some ir) = f ir

  -- The intervals add up to the count at the end of the last one.
  pub record IsSummed (l : List (Interval F)) : Type 0 where
    pub packets :
        u32 (total (λ ir. ir.interval_packet_count) l)
        ≡ at_last (λ ir. ir.packet_count) (last_interval l)
    pub errors :
        u32 (total (λ ir. ir.interval_cnt_error) l) ≡ at_last (λ ir. ir.cnt_error) (last_interval l)
    pub outoforder :
        u32 (total (λ ir. ir.interval_outoforder_packets) l)
        ≡ at_last (λ ir. ir.outoforder_packets) (last_interval l)

  -- The int counts of a stream.
  pub record Fits (sp : Measured F) : Type 0 where
    pub packets : sp.packet_count < 2 ^ 32
    pub errors : sp.cnt_error < 2 ^ 32
    pub outoforder : sp.outoforder_packets < 2 ^ 32

  -- One count, over an interval that is added.
  added-total :
      (f g : Interval F → ℕ) (l : List (Interval F)) (ir : Interval F) (n : ℕ)
      → n < 2 ^ 32
      → u32 (total f l) ≡ at_last g (last_interval l)
      → u32 (f ir) ≡ sub_u32 n (at_last g (last_interval l))
      → u32 (total f (l ++ ir ∷ [])) ≡ n
  added-total f g l ir n fits sum e = let e1 = total-append f l ir in omega arith

  count_of :
      (before : Option (Interval F)) (sp : Measured F) (temp : Interval F)
      → Fits sp
      → let ir = count_packets before sp temp in
        (u32 ir.interval_packet_count
          ≡ sub_u32 sp.packet_count (at_last (λ t. t.packet_count) before))
        × (u32 ir.interval_cnt_error ≡ sub_u32 sp.cnt_error (at_last (λ t. t.cnt_error) before))
        × (u32 ir.interval_outoforder_packets
            ≡ sub_u32 sp.outoforder_packets (at_last (λ t. t.outoforder_packets) before))
  unfolding count_packets
  count_of none sp temp fits =
      let a = fits.packets in
      let b = fits.errors in let c = fits.outoforder in (omega arith, omega arith, omega arith)
  count_of (some irp) sp temp fits = (omega arith, omega arith, omega arith)

  kept_counts :
      (before : Option (Interval F)) (sp : Measured F) (temp : Interval F)
      → let ir = count_packets before sp temp in
        (ir.packet_count ≡ sp.packet_count)
        × (ir.cnt_error ≡ sp.cnt_error)
        × (ir.outoforder_packets ≡ sp.outoforder_packets)
  unfolding count_packets
  kept_counts none sp temp = (refl, refl, refl)
  kept_counts (some irp) sp temp = (refl, refl, refl)

  -- The intervals of a stream add up to its counts.
  pub record IsCurrent (sp : Measured F) : Type 0 where
    pub packets :
        u32 (total (λ ir. ir.interval_packet_count) sp.result.interval_results) ≡ sp.packet_count
    pub errors : u32 (total (λ ir. ir.interval_cnt_error) sp.result.interval_results) ≡ sp.cnt_error
    pub outoforder :
        u32 (total (λ ir. ir.interval_outoforder_packets) sp.result.interval_results)
        ≡ sp.outoforder_packets

  added-IsCurrent :
      (sp : Measured F) (temp : Interval F) (sp1 : Measured F)
      → Fits sp
      → IsSummed sp.result.interval_results
      → sp1.result.interval_results
        ≡ sp.result.interval_results
          ++ count_packets (last_interval sp.result.interval_results) sp temp ∷ []
      → sp1.packet_count ≡ sp.packet_count
      → sp1.cnt_error ≡ sp.cnt_error
      → sp1.outoforder_packets ≡ sp.outoforder_packets
      → IsCurrent sp1
  added-IsCurrent sp temp sp1 fits sum e p c o =
      let l = sp.result.interval_results in
      let ir = count_packets (last_interval l) sp temp in
      let counts = count_of (last_interval l) sp temp fits in
      record {
        packets =
            ap (λ t. u32 (total (λ x. x.interval_packet_count) t)) e
            ∙ added-total (λ x. x.interval_packet_count) (λ x. x.packet_count) l ir sp.packet_count
                fits.packets sum.packets counts.0
            ∙ sym p;
        errors =
            ap (λ t. u32 (total (λ x. x.interval_cnt_error) t)) e
            ∙ added-total (λ x. x.interval_cnt_error) (λ x. x.cnt_error) l ir sp.cnt_error
                fits.errors sum.errors counts.1
            ∙ sym c;
        outoforder =
            ap (λ t. u32 (total (λ x. x.interval_outoforder_packets) t)) e
            ∙ added-total (λ x. x.interval_outoforder_packets) (λ x. x.outoforder_packets) l ir
                sp.outoforder_packets fits.outoforder sum.outoforder counts.2
            ∙ sym o;
      }

  -- The counts at the end of the interval that is added.
  added-IsSummed :
      (sp : Measured F) (temp : Interval F) (sp1 : Measured F)
      → sp1.result.interval_results
        ≡ sp.result.interval_results
          ++ count_packets (last_interval sp.result.interval_results) sp temp ∷ []
      → sp1.packet_count ≡ sp.packet_count
      → sp1.cnt_error ≡ sp.cnt_error
      → sp1.outoforder_packets ≡ sp.outoforder_packets
      → IsCurrent sp1
      → IsSummed sp1.result.interval_results
  added-IsSummed sp temp sp1 e p c o current =
      let l = sp.result.interval_results in
      let ir = count_packets (last_interval l) sp temp in
      let last = ap last_interval e ∙ last_interval-append l ir in
      let kept = kept_counts (last_interval l) sp temp in
      record {
        packets = current.packets ∙ p ∙ sym kept.0 ∙ sym (ap (at_last (λ x. x.packet_count)) last);
        errors = current.errors ∙ c ∙ sym kept.1 ∙ sym (ap (at_last (λ x. x.cnt_error)) last);
        outoforder =
            current.outoforder
            ∙ o
            ∙ sym kept.2
            ∙ sym (ap (at_last (λ x. x.outoforder_packets)) last);
      }

  abbrev pub All : (Measured F → Type 0) → List (Measured F) → Type 0
  All P [] = Unit
  All P (sp ∷ rest) = P sp × All P rest

  -- A stream before the statistics are gathered.
  pub record IsReady (sp : Measured F) : Type 0 where
    pub fits : Fits sp
    pub summed : IsSummed sp.result.interval_results

  -- A stream behind them.
  pub record IsGathered (sp : Measured F) : Type 0 where
    pub ready : IsReady sp
    pub current : IsCurrent sp

  module _ {W : Type 0} (to_float : F.Double → F.Double) (clock : W → IperfTime × W)
      (tcp_info : ℕ → W → Option TcpInfo × W) where
    gather-IsGathered :
        (test : Counted F) (sp : Measured F) (temp : Interval F) (w : W)
        → same_protocol test.protocol tcp ≡ false
        → IsReady sp
        → IsGathered (gather to_float clock tcp_info test sp temp w).1
    unfolding gather measure time_interval add_to_interval_list
    gather-IsGathered test sp temp w udp ready =
        let a =
          time_interval to_float clock tcp_info sp (record temp { omitted = test.omitting }) w in
        let l = sp.result.interval_results in
        let b : Interval F × StreamResult F × W =
          (count_packets (last_interval l) sp a.0, a.1, a.2) in
        let m = if-false (same_protocol test.protocol tcp) _ b udp in
        let sp1 = (gather to_float clock tcp_info test sp temp w).1 in
        let e : sp1.result.interval_results ≡ l ++ count_packets (last_interval l) sp a.0 ∷ [] =
          ap (λ t. t.1.interval_results ++ t.0 ∷ []) m in
        let current = added-IsCurrent sp a.0 sp1 ready.fits ready.summed e refl refl refl in
        record {
          ready = record {
            fits = record {
              packets = ready.fits.packets;
              errors = ready.fits.errors;
              outoforder = ready.fits.outoforder;
            };
            summed = added-IsSummed sp a.0 sp1 e refl refl refl current;
          };
          current = current;
        }

    gather_all-IsGathered :
        (test : Counted F) (l : List (Measured F)) (temp : Interval F) (w : W)
        → same_protocol test.protocol tcp ≡ false
        → All IsReady l
        → All IsGathered (gather_all to_float clock tcp_info test l temp w).0
    unfolding gather_all
    gather_all-IsGathered test [] temp w udp ready = tt
    gather_all-IsGathered test (sp ∷ rest) temp w udp ready =
        let a = gather to_float clock tcp_info test sp temp w in
        (
          gather-IsGathered test sp temp w udp ready.0,
          gather_all-IsGathered test rest a.0 a.2 udp ready.1,
        )

    -- In a test that is not over TCP, where the counts of each stream fit an int and its intervals add up
    -- to the counts at the end of the last one: behind iperf_stats_callback the intervals of each stream
    -- add up, modulo 2 ^ 32, to its counts of packets, of losses and of packets out of order, and they
    -- can be gathered again.
    pub iperf_stats_callback-IsGathered :
        (temp : Interval F) (test : Counted F) (w : W)
        → same_protocol test.protocol tcp ≡ false
        → All IsReady test.streams
        → All IsGathered (iperf_stats_callback to_float clock tcp_info temp test w).0.streams
    unfolding iperf_stats_callback
    iperf_stats_callback-IsGathered temp test w = gather_all-IsGathered test test.streams temp w
