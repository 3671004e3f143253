-- ===== src/Streams/Receive.antt =====
-- iperf_api.c: iperf_recv counts what the streams have received and takes their sockets out of
-- the set.
use sber_wifi.Prelude.{
  ℕ, ◌+◌, ◌≡◌, refl, ap, ◌∙◌, ◌⊎◌, inl, inr, Bool, true, false, not, ◌&&◌, ◌||◌, List, [], ◌∷◌,
  arith, ◌==◌, Bool-cases,
}
use sber_wifi.Prelude.Int.{ℤ, pos, negsuc}
use sber_wifi.Udp.{u64}
use sber_wifi.Streams.{Flow, Sending, iperf_recv, count_received, put}

-- A stream of the list receives on the socket.
abbrev pub receives : ℕ → List Flow → Bool
receives s [] = false
receives s (sp ∷ rest) = (not sp.sender && s == sp.socket) || receives s rest

sign_cases : (r : ℤ) → ((n : ℕ) × (r ≡ pos n)) ⊎ ((e : ℕ) × (r ≡ negsuc e))
sign_cases (pos n) = inl (n, refl)
sign_cases (negsuc e) = inr (e, refl)

-- The set after a receive, or an error.
abbrev Left : (ℕ → Bool) → ℤ → (ℕ → Bool) → Type 0
Left expected r fds = ((r ≡ pos 0) × ((s : ℕ) → fds s ≡ expected s)) ⊎ ((e : ℕ) × (r ≡ negsuc e))

Left-weaken :
    (x y : ℕ → Bool) (r : ℤ) (fds : ℕ → Bool) → ((s : ℕ) → x s ≡ y s) → Left x r fds → Left y r fds
Left-weaken x y r fds same (inl (done, left)) = inl (done, λ s. left s ∙ same s)
Left-weaken x y r fds same (inr failed) = inr failed

skip_lem :
    (fds : ℕ → Bool) (sp : Flow) (rest : List Flow) (s : ℕ)
    → (fds sp.socket && not sp.sender) ≡ false
    → (fds s && not (receives s rest)) ≡ (fds s && not (receives s (sp ∷ rest)))
skip_lem fds sp rest s skipped = elim (Bool-cases (s == sp.socket)) [
  | inl same ↦
      let at : s ≡ sp.socket = ground arith in
      let there : fds s ≡ fds sp.socket = ap fds at in ground arith
  | inr other ↦ ground arith
]

take_lem :
    (fds : ℕ → Bool) (sp : Flow) (rest : List Flow) (s : ℕ)
    → (fds sp.socket && not sp.sender) ≡ true
    → (put sp.socket false fds s && not (receives s rest)) ≡ (fds s && not (receives s (sp ∷ rest)))
take_lem fds sp rest s ready = ground arith

module _ {W : Type 0} (rcv : W → ℕ → ℤ × W) (total calls : W → ℕ) where
  -- `total` and `calls` are the bytes that the streams have received, and the receives that have
  -- not failed.
  pub record Ledger : Type 0 where
    pub ok :
        (w : W) (socket n : ℕ)
        → (rcv w socket).0 ≡ pos n
        → (total (rcv w socket).1 ≡ total w + n) × (calls (rcv w socket).1 ≡ calls w + 1)
    pub failed :
        (w : W) (socket e : ℕ)
        → (rcv w socket).0 ≡ negsuc e
        → (total (rcv w socket).1 ≡ total w) × (calls (rcv w socket).1 ≡ calls w)

  -- What a call leaves: the counts have grown with what was received, modulo 2 ^ 64; it returns 0
  -- with the sockets of all receiving streams taken out of the set and no other, or an error.
  pub record Received (fds : ℕ → Bool) (flows : List Flow) (t : Sending) (w : W)
      (r : ℤ × Sending × (ℕ → Bool) × W) : Type 0 where
    pub bytes : u64 (r.1.bytes_received + total w) ≡ u64 (t.bytes_received + total r.3)
    pub blocks : u64 (r.1.blocks_received + calls w) ≡ u64 (t.blocks_received + calls r.3)
    pub fds_left :
        ((r.0 ≡ pos 0) × ((s : ℕ) → r.2 s ≡ (fds s && not (receives s flows))))
        ⊎ ((e : ℕ) × (r.0 ≡ negsuc e))

  -- Whatever the set and the streams, iperf_recv counts what its streams receive, also where it
  -- returns an error, and where it returns 0 it has taken the sockets of the receiving streams out
  -- of the set.
  pub iperf_recv-Received :
      (fds : ℕ → Bool) (flows : List Flow) (t : Sending) (w : W)
      → Ledger
      → Received fds flows t w (iperf_recv rcv fds flows t w)
  unfolding iperf_recv
  iperf_recv-Received fds [] t w laws = record {
    bytes = refl;
    blocks = refl;
    fds_left = inl (refl, λ s. ground arith);
  }
  iperf_recv-Received fds (sp ∷ rest) t w laws =
      elim (Bool-cases (fds sp.socket && not sp.sender)) [
        | inr skipped ↦
            let v = iperf_recv-Received fds rest t w laws in
            rw (skipped, iperf_recv)
              (record {
                bytes = v.bytes;
                blocks = v.blocks;
                fds_left = Left-weaken _ _ _ _ (λ s. skip_lem fds sp rest s skipped) v.fds_left;
              })
        | inl ready ↦ elim (sign_cases (rcv w sp.socket).0) [
          | inr (e, h) ↦
              let (same, calls_same) = laws.failed w sp.socket e h in
              rw (ready, iperf_recv)
                (rw h (record {
                  bytes = omega (arith, same);
                  blocks = omega (arith, calls_same);
                  fds_left = inr (e, refl);
                }))
          | inl (n, h) ↦
              let (sum, more) = laws.ok w sp.socket n h in
              let v =
                iperf_recv-Received (put sp.socket false fds) rest (count_received rcv n t)
                  (rcv w sp.socket).1 laws in
              rw (ready, iperf_recv)
                (rw h (record {
                  bytes = omega (arith, sum, v.bytes);
                  blocks = omega (arith, more, v.blocks);
                  fds_left = Left-weaken _ _ _ _ (λ s. take_lem fds sp rest s ready) v.fds_left;
                }))
        ]
      ]
