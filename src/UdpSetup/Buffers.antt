-- ===== src/UdpSetup/Buffers.antt =====
-- What holds of the buffers of a socket that iperf_udp_accept or iperf_udp_connect returns.
use sber_wifi.Prelude.{
  ℕ, ◌≡◌, refl, sym, ap, ◌∙◌, ◌⊎◌, inl, inr, Bool, true, false, ◌&&◌, Option, none, some, arith,
  Bool-cases,
}
use sber_wifi.Prelude.Int.{ℤ, pos, negsuc, ◌≤ℤ◌, ltb_ℤ, eq_ℤ, add_ℕ}
use sber_wifi.Error.{IErr, ie_setbuf}
use sber_wifi.UdpSetup.{
  System, UdpTest, Reply, reply, error, if_reply, need, need_value, verify, set_sizes, checked,
  grow, iperf_udp_buffercheck, set_buffers,
}

-- Where there is a reply, this holds of it.
unfoldable pub Replies : {A W : Type 0} → (A → W → Type 0) → Reply A W → Type 0
Replies P (reply a w) = P a w
Replies P (error e w) = Unit

pub Replies-if_reply :
    {A B W V : Type 0} (P : A → W → Type 0) (Q : B → V → Type 0) (fail : IErr → W → Reply B V)
    (f : A → W → Reply B V) (r : Reply A W)
    → Replies P r
    → ((e : IErr) (w : W) → Replies Q (fail e w))
    → ((a : A) (w : W) → P a w → Replies Q (f a w))
    → Replies Q (if_reply fail f r)
unfolding Replies
Replies-if_reply P Q fail f (reply a w) p bad good = good a w p
Replies-if_reply P Q fail f (error e w) p bad good = bad e w

Replies-map :
    {A W : Type 0} (P Q : A → W → Type 0) (r : Reply A W)
    → Replies P r
    → ((a : A) (w : W) → P a w → Q a w)
    → Replies Q r
unfolding Replies
Replies-map P Q (reply a w) p f = f a w p
Replies-map P Q (error e w) p f = tt

-- The size `actual` is not below the size that is asked for, where one is.
pub IsEnough : ℤ → ℤ → Type 0
IsEnough bufsize actual = (bufsize ≡ pos 0) ⊎ (bufsize ≤ℤ actual)

eq_zero : (a : ℤ) → eq_ℤ a (pos 0) ≡ true → a ≡ pos 0
eq_zero (pos n) e = ground arith
eq_zero (negsuc n) e = absurd cc

module _ {W : Type 0} (os : System W) where
  -- Both sizes of the socket `s` have been set between `w` and `w1`, where one is asked for.
  pub Sets : ℤ → ℕ → W → W → Type 0
  Sets bufsize s w w1 =
      (bufsize ≡ pos 0) × (w1 ≡ w)
      ⊎ (w0 : W) × (os.set_rcvbuf s bufsize w ≡ (true, w0))
        × (os.set_sndbuf s bufsize w0 ≡ (true, w1))

  -- The sizes of the two buffers of the socket `s`, as they were set and then read back.
  pub HasBuffers : ℕ → ℤ → Type 0
  unfolding IsEnough Sets
  HasBuffers s bufsize =
      (w0 : W) × (w1 : W) × (w2 : W) × (w3 : W) × (snd : ℤ) × (rcv : ℤ) × Sets bufsize s w0 w1
      × (os.get_sndbuf s w1 ≡ (some snd, w2))
      × (os.get_rcvbuf s w2 ≡ (some rcv, w3))
      × IsEnough bufsize snd
      × IsEnough bufsize rcv

  need-Replies : (e : IErr) (o : Bool × W) → Replies (λ ok w. o ≡ (true, w)) (need os e o)
  unfolding Replies
  need-Replies e (true, w) = refl
  need-Replies e (false, w) = tt

  set_sizes-Replies :
      (bufsize : ℤ) (s : ℕ) (w : W)
      → Replies (λ ok w1. Sets bufsize s w w1) (set_sizes os bufsize s w)
  unfolding Replies Sets
  set_sizes-Replies bufsize s w = elim (Bool-cases (eq_ℤ bufsize (pos 0))) [
    | inl unset ↦ rw unset (inl (eq_zero bufsize unset, refl))
    | inr asked ↦ rw asked (
        Replies-if_reply (λ ok w0. os.set_rcvbuf s bufsize w ≡ (true, w0)) _ _ _ _
          (need-Replies ie_setbuf (os.set_rcvbuf s bufsize w)) (λ e w'. tt)
          (λ ok w0 rcv.
            Replies-map (λ ok w1. os.set_sndbuf s bufsize w0 ≡ (true, w1)) _ _
              (need-Replies ie_setbuf (os.set_sndbuf s bufsize w0))
              (λ ok w1 snd. inr (w0, rcv, snd))))
  ]

  verify-Replies :
      (bufsize blksize actual : ℤ) (w : W)
      → Replies
          (λ small w'. IsEnough bufsize actual × (w' ≡ w))
          (verify os bufsize blksize actual w)
  unfolding Replies IsEnough
  verify-Replies bufsize blksize actual w = elim (Bool-cases (eq_ℤ bufsize (pos 0))) [
    | inl unset ↦ rw unset (inl (eq_zero bufsize unset), refl)
    | inr asked ↦ elim (Bool-cases (ltb_ℤ actual bufsize)) [
      | inl short ↦ rw (asked, short) tt
      | inr long ↦ rw (asked, long) (inr (ground arith), refl)
    ]
  ]

  need_value-Replies :
      {A : Type 0} (e : IErr) (o : Option A × W)
      → Replies (λ a w. o ≡ (some a, w)) (need_value os e o)
  unfolding Replies
  need_value-Replies e (some a, w) = refl
  need_value-Replies e (none, w) = tt

  buffercheck-Replies :
      (bufsize blksize : ℤ) (s : ℕ) (w : W)
      → Replies (λ small w'. HasBuffers s bufsize) (iperf_udp_buffercheck os bufsize blksize s w)
  unfolding iperf_udp_buffercheck Replies HasBuffers
  buffercheck-Replies bufsize blksize s w =
      Replies-if_reply (λ ok w1. Sets bufsize s w w1) _ _ _ (set_sizes os bufsize s w)
        (set_sizes-Replies bufsize s w) (λ e w'. tt)
        (λ ok w1 set.
          Replies-if_reply (λ snd w2. os.get_sndbuf s w1 ≡ (some snd, w2)) _ _ _ _
            (need_value-Replies ie_setbuf (os.get_sndbuf s w1)) (λ e w'. tt)
            (λ snd w2 read.
              Replies-if_reply (λ small w3. IsEnough bufsize snd × (w3 ≡ w2)) _ _ _ _
                (verify-Replies bufsize blksize snd w2) (λ e w'. tt)
                (λ small w3 enough.
                  Replies-if_reply (λ rcv w4. os.get_rcvbuf s w3 ≡ (some rcv, w4)) _ _ _ _
                    (need_value-Replies ie_setbuf (os.get_rcvbuf s w3)) (λ e w'. tt)
                    (λ rcv w4 read'.
                      Replies-if_reply (λ small' w5. IsEnough bufsize rcv × (w5 ≡ w4)) _ _ _ _
                        (verify-Replies bufsize blksize rcv w4) (λ e w'. tt)
                        (λ small' w5 enough'. (
                          w,
                          w1,
                          w3,
                          w4,
                          snd,
                          rcv,
                          set,
                          read ∙ ap (λ x. (some snd, x)) (sym enough.1),
                          read',
                          enough.0,
                          enough'.0,
                        ))))))

  -- The state `u'` differs from `u` in the size of the buffers only, which the socket `s` has.
  unfoldable pub Buffered : ℕ → UdpTest W → UdpTest W → Type 0
  unfolding HasBuffers
  Buffered s u u' =
      HasBuffers s u'.socket_bufsize
      × (u'.prot_listener ≡ u.prot_listener)
      × (u'.read_set ≡ u.read_set)
      × (u'.max_fd ≡ u.max_fd)

  checked-Replies :
      (s : ℕ) (u u0 : UdpTest W) (r : Reply Bool W)
      → Replies (λ small w. HasBuffers s u.socket_bufsize) r
      → u.prot_listener ≡ u0.prot_listener
      → u.read_set ≡ u0.read_set
      → u.max_fd ≡ u0.max_fd
      → Replies (λ small u'. Buffered s u0 u') (checked os u r)
  unfolding Replies Buffered
  checked-Replies s u u0 (reply small w) has listener set max = (has, listener, set, max)
  checked-Replies s u u0 (error e w) has listener set max = tt

  grow-Replies :
      (s : ℕ) (small : Bool) (u u0 : UdpTest W)
      → Buffered s u0 u
      → Replies (λ small' u'. Buffered s u0 u') (grow os s small u)
  unfolding grow Replies Buffered
  grow-Replies s small u u0 (has, listener, set, max) =
      let bufsize = add_ℕ u.blksize 1024 in
      elim (Bool-cases (small && eq_ℤ u.socket_bufsize (pos 0))) [
        | inl again ↦ rw again (
            checked-Replies s (record u { socket_bufsize = bufsize }) u0
              (iperf_udp_buffercheck os bufsize u.blksize s u.world)
              (buffercheck-Replies bufsize u.blksize s u.world) listener set max)
        | inr kept ↦ rw kept (has, listener, set, max)
      ]

  pub set_buffers-Replies :
      (s : ℕ) (u : UdpTest W) → Replies (λ small u'. Buffered s u u') (set_buffers os s u)
  unfolding set_buffers Replies
  set_buffers-Replies s u =
      Replies-if_reply (λ small u'. Buffered s u u') _ _ _
        (checked os u (iperf_udp_buffercheck os u.socket_bufsize u.blksize s u.world))
        (checked-Replies s u u _ (buffercheck-Replies u.socket_bufsize u.blksize s u.world) refl
          refl refl)
        (λ e w. tt) (λ small u' buffered. grow-Replies s small u' u buffered)
