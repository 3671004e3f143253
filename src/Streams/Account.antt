-- ===== src/Streams/Account.antt =====
-- iperf_api.c: what iperf_send counts is what the streams have sent.
use sber_wifi.Prelude.{
  ℕ, zero, suc, ◌+◌, ◌*◌, ◌≤◌, ◌≡◌, refl, ap, ◌∙◌, ◌⊎◌, inl, inr, Bool, true, false, ◌&&◌, Option,
  List, [], ◌∷◌, arith, Bool-cases, Option-cases, length,
}
use sber_wifi.Prelude.Int.{ℤ, pos, negsuc, eq_ℤ}
use sber_wifi.Prelude.Float.{Float}
use sber_wifi.Time.{IperfTime}
use sber_wifi.Udp.{u64}
use sber_wifi.Streams.{
  Flow, Sending, Round, iperf_check_throttle, paced, reached, count_sent, is_selected, throttle_if,
  send_round, tick_if, send_rounds, throttle_all, rounds_of, end_send, iperf_send,
}

result_cases : (r : ℤ) → ((n : ℕ) × (r ≡ pos n)) ⊎ (r ≡ negsuc 0) ⊎ ((e : ℕ) × (r ≡ negsuc (suc e)))
result_cases (pos n) = inl (n, refl)
result_cases (negsuc zero) = inr (inl refl)
result_cases (negsuc (suc e)) = inr (inr (e, refl))

suc_mul : (n k : ℕ) → suc n * k ≡ k + n * k
suc_mul n k = omega arith

module _ (F : Float) {W : Type 0} (sent : W → ℕ → ℕ) (clock : W → IperfTime × W)
    (snd : W → ℕ → ℤ × W) (total calls tries : W → ℕ) where
  -- `total`, `calls` and `tries` are the bytes that the streams have sent, the sends that have not
  -- failed, and all sends.
  pub record Ledger : Type 0 where
    pub ok :
        (w : W) (socket n : ℕ)
        → (snd w socket).0 ≡ pos n
        → (total (snd w socket).1 ≡ total w + n)
          × (calls (snd w socket).1 ≡ calls w + 1)
          × (tries (snd w socket).1 ≡ tries w + 1)
    pub failed :
        (w : W) (socket e : ℕ)
        → (snd w socket).0 ≡ negsuc e
        → (total (snd w socket).1 ≡ total w)
          × (calls (snd w socket).1 ≡ calls w)
          × (tries (snd w socket).1 ≡ tries w + 1)
    pub ticks :
        (w : W)
        → (total (clock w).1 ≡ total w)
          × (calls (clock w).1 ≡ calls w)
          × (tries (clock w).1 ≡ tries w)

  -- Between two points of the program: the counts have grown with what was sent, modulo 2 ^ 64,
  -- and there were at most `k` sends.
  pub record Counted (k : ℕ) (t : Sending) (w : W) (t' : Sending) (w' : W) : Type 0 where
    pub bytes : u64 (t'.bytes_sent + total w) ≡ u64 (t.bytes_sent + total w')
    pub blocks : u64 (t'.blocks_sent + calls w) ≡ u64 (t.blocks_sent + calls w')
    pub bound : tries w' ≤ tries w + k

  Counted-refl : (k : ℕ) (t : Sending) (w : W) → Counted k t w t w
  Counted-refl k t w = record { bytes = refl; blocks = refl; bound = omega arith }

  Counted-trans :
      (j k : ℕ) (t : Sending) (w : W) (t1 : Sending) (w1 : W) (t2 : Sending) (w2 : W)
      → Counted j t w t1 w1
      → Counted k t1 w1 t2 w2
      → Counted (j + k) t w t2 w2
  Counted-trans j k t w t1 w1 t2 w2 a b = record {
    bytes = omega (arith, a.bytes, b.bytes);
    blocks = omega (arith, a.blocks, b.blocks);
    bound = omega (arith, a.bound, b.bound);
  }

  throttle-Counted :
      (b : Bool) (sp : Flow) (now : IperfTime) (t : Sending) (w : W)
      → let t' = (throttle_if F sent clock snd b sp now t w).1 in
        (t'.bytes_sent ≡ t.bytes_sent) × (t'.blocks_sent ≡ t.blocks_sent)
  unfolding iperf_check_throttle
  throttle-Counted true sp now t w = (ground arith, ground arith)
  throttle-Counted false sp now t w = (refl, refl)

  step-Counted :
      (sp : Flow) (now : IperfTime) (t : Sending) (w : W) (n : ℕ)
      → Ledger
      → (snd w sp.socket).0 ≡ pos n
      → let w1 = (snd w sp.socket).1 in
        Counted 1 t w
          (throttle_if F sent clock snd
            (paced F sent clock snd t)
            sp
            now
            (count_sent F sent clock snd n t)
            w1).1
          w1
  step-Counted sp now t w n laws e =
      let (sum, more, one) = laws.ok w sp.socket n e in
      let (same_bytes, same_blocks) =
        throttle-Counted (paced F sent clock snd t) sp now (count_sent F sent clock snd n t)
          (snd w sp.socket).1 in
      record {
        bytes = omega (arith, sum, same_bytes);
        blocks = omega (arith, more, same_blocks);
        bound = omega (arith, one);
      }

  weaken :
      (j k : ℕ) (t : Sending) (w : W) (t' : Sending) (w' : W)
      → j ≤ k
      → Counted j t w t' w'
      → Counted k t w t' w'
  weaken j k t w t' w' le c = record {
    bytes = c.bytes;
    blocks = c.blocks;
    bound = omega (arith, c.bound);
  }

  failed-Counted :
      (k : ℕ) (t : Sending) (w : W) (socket e : ℕ)
      → Ledger
      → (snd w socket).0 ≡ negsuc e
      → Counted (suc k) t w t (snd w socket).1
  failed-Counted k t w socket e laws h =
      let (same, calls_same, one) = laws.failed w socket e h in
      record {
        bytes = omega (arith, same);
        blocks = omega (arith, calls_same);
        bound = omega (arith, one);
      }

  send_round-Counted :
      (ms : ℕ) (fds : Option (ℕ → Bool)) (now : IperfTime) (active : Bool) (flows : List Flow)
      (t : Sending) (w : W)
      → Ledger
      → let r = send_round F sent clock snd ms fds now active flows t w in
        Counted (length flows) t w r.test r.world × (length r.flows ≡ length flows)
  unfolding send_round
  send_round-Counted ms fds now active [] t w laws = (Counted-refl 0 t w, refl)
  send_round-Counted ms fds now active (sp ∷ rest) t w laws =
      elim (Bool-cases
        (sp.green_light && sp.sender && is_selected F sent clock snd fds sp.socket)) [
          | inr unready ↦
              let (c, size) = send_round-Counted ms fds now active rest t w laws in
              rw (unready, send_round) (weaken _ _ t w _ _ (omega arith) c, ap suc size)
          | inl ready ↦ elim (result_cases (snd w sp.socket).0) [
            | inl (n, h) ↦
                let one = step-Counted sp now t w n laws h in
                let t' =
                  (throttle_if F sent clock snd (paced F sent clock snd t) sp now
                    (count_sent F sent clock snd n t) (snd w sp.socket).1).1 in
                elim (Bool-cases (reached F sent clock snd ms t')) [
                  | inl full ↦
                      rw (ready, send_round)
                        (rw h (rw full (weaken _ _ t w _ _ (omega arith) one, refl)))
                  | inr more ↦
                      let (c, size) =
                        send_round-Counted ms fds now true rest t' (snd w sp.socket).1 laws in
                      rw (ready, send_round)
                        (rw h (
                          rw more (
                            weaken _ _ t w _ _ (omega arith)
                                (Counted-trans _ _ t w t' (snd w sp.socket).1 _ _ one c),
                            ap suc size,
                          )))
                ]
            | inr (inl h) ↦
                rw (ready, send_round)
                  (rw h (failed-Counted (length rest) t w sp.socket 0 laws h, refl))
            | inr (inr (e, h)) ↦
                rw (ready, send_round)
                  (rw h (failed-Counted (length rest) t w sp.socket (suc e) laws h, refl))
          ]
        ]

  tick-Counted :
      (b : Bool) (now : IperfTime) (t : Sending) (w : W)
      → Ledger
      → Counted 0 t w t (tick_if F sent clock snd b now w).1
  tick-Counted false now t w laws = Counted-refl 0 t w
  tick-Counted true now t w laws =
      let (same, calls_same, tries_same) = laws.ticks w in
      record {
        bytes = omega (arith, same);
        blocks = omega (arith, calls_same);
        bound = omega (arith, tries_same);
      }

  send_rounds-Counted :
      (n : ℕ) (fds : Option (ℕ → Bool)) (now : IperfTime) (flows : List Flow) (t : Sending) (w : W)
      → Ledger
      → let r = send_rounds F sent clock snd n fds now flows t w in
        Counted (n * length flows) t w r.test r.world × (length r.flows ≡ length flows)
  unfolding send_rounds
  send_rounds-Counted zero fds now flows t w laws = (Counted-refl _ t w, refl)
  send_rounds-Counted (suc n) fds now flows t w laws =
      let w0 = (tick_if F sent clock snd (paced F sent clock snd t) now w).1 in
      let now' = (tick_if F sent clock snd (paced F sent clock snd t) now w).0 in
      let r = send_round F sent clock snd (suc n) fds now' false flows t w0 in
      let ticked = tick-Counted (paced F sent clock snd t) now t w laws in
      let (c, size) = send_round-Counted (suc n) fds now' false flows t w0 laws in
      let once = Counted-trans _ _ t w t w0 r.test r.world ticked c in
      let (cs, sizes) = send_rounds-Counted n fds now' r.flows r.test r.world laws in
      let all = Counted-trans _ _ t w r.test r.world _ _ once cs in
      let product : suc n * length flows ≡ length flows + n * length flows =
        suc_mul n (length flows) in
      let product' : n * length r.flows ≡ n * length flows = ap (λ k. n * k) size in
      let room : 0 + length flows ≤ suc n * length flows = omega (arith, product) in
      let more : 0 + length flows + n * length r.flows ≤ suc n * length flows =
        omega (arith, product, product') in
      elim (Option-cases r.error) [
        | inr (e, failed) ↦
            rw (failed, send_rounds)
              (weaken (0 + length flows) (suc n * length flows) t w r.test r.world room once, size)
        | inl fine ↦ elim (Bool-cases r.active) [
          | inl on ↦
              rw (fine, send_rounds)
                (rw on (
                  weaken (0 + length flows + n * length r.flows) (suc n * length flows) t w _ _ more
                      all,
                  sizes ∙ size,
                ))
          | inr off ↦
              rw (fine, send_rounds)
                (rw off (
                  weaken (0 + length flows) (suc n * length flows) t w r.test r.world room once,
                  size,
                ))
        ]
      ]

  throttle_all-Counted :
      (flows : List Flow) (now : IperfTime) (t : Sending) (w : W)
      → let (flows', t') = throttle_all F sent clock snd flows now t w in
        (length flows' ≡ length flows)
        × (t'.bytes_sent ≡ t.bytes_sent)
        × (t'.blocks_sent ≡ t.blocks_sent)
  throttle_all-Counted [] now t w = (refl, refl, refl)
  throttle_all-Counted (sp ∷ rest) now t w =
      let t' = (iperf_check_throttle F sent clock snd sp now t w).1 in
      let (bytes, blocks) = throttle-Counted true sp now t w in
      let (size, bytes', blocks') = throttle_all-Counted rest now t' w in
      (ap suc size, bytes' ∙ bytes, blocks' ∙ blocks)

  end_send-Counted :
      (fds : Option (ℕ → Bool)) (r : Round W)
      → Ledger
      → let r' = (end_send F sent clock snd fds r).0 in Counted 0 r.test r.world r'.test r'.world
  unfolding end_send
  end_send-Counted fds r laws =
      let t = r.test in
      elim (Bool-cases (eq_ℤ t.burst (pos 0))) [
        | inl plain ↦ rw (plain, end_send) (Counted-refl 0 r.test r.world)
        | inr burst ↦
            let (same, calls_same, tries_same) = laws.ticks r.world in
            let (size, bytes, blocks) =
              throttle_all-Counted r.flows (clock r.world).0 r.test (clock r.world).1 in
            rw (burst, end_send)
              (record {
                bytes = omega (arith, same, bytes);
                blocks = omega (arith, calls_same, blocks);
                bound = omega (arith, tries_same);
              })
      ]

  -- Whatever the clock, the throttle and the caller's set, iperf_send adds to the counts of the
  -- test the bytes and the sends of its streams that have not failed, modulo 2 ^ 64, also where it
  -- returns an error, and it makes at most one send for each stream and round that it may make.
  pub iperf_send-Counted :
      (fds : Option (ℕ → Bool)) (now : IperfTime) (flows : List Flow) (t : Sending) (w : W)
      → Ledger
      → let r = (iperf_send F sent clock snd fds now flows t w).0 in
        Counted (rounds_of F sent clock snd t * length flows) t w r.test r.world
  unfolding iperf_send
  iperf_send-Counted fds now flows t w laws =
      let n = rounds_of F sent clock snd t in
      let r = send_rounds F sent clock snd n fds now flows t w in
      let (c, size) = send_rounds-Counted n fds now flows t w laws in
      let r' = (end_send F sent clock snd fds r).0 in
      let all =
        Counted-trans (n * length flows) 0 t w r.test r.world r'.test r'.world c
          (end_send-Counted fds r laws) in
      elim (Option-cases r.error) [
        | inr (e, failed) ↦ rw (failed, iperf_send) c
        | inl fine ↦ rw (fine, iperf_send) (weaken _ _ t w _ _ (omega arith) all)
      ]
