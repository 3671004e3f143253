-- ===== src/UdpSetup.antt =====
-- app/src/main/cpp/iperf/iperf_udp.c: the set-up of UDP streams, iperf_udp_buffercheck,
-- iperf_udp_accept, iperf_udp_listen, iperf_udp_connect and iperf_udp_init. The calls of the system,
-- netannounce and netdial are parameters, which change a state `W`. What is printed is left out.
pub mod Buffers
pub mod Listens
pub mod Examples
use sber_wifi.Prelude.{
  ℕ, ◌-◌, ◌^◌, Bool, true, false, not, ◌&&◌, ◌||◌, Option, none, some, List, ◌∷◌, ltb,
  if◌then◌else◌,
}
use sber_wifi.Prelude.Int.{ℤ, pos, ltb_ℤ, eq_ℤ, add_ℕ}
use sber_wifi.Error.{
  IErr, ie_setbuf, ie_setbuf2, ie_streamaccept, ie_streamlisten, ie_streamconnect, ie_streamwrite,
  ie_streamread,
}

-- Where the result is a Bool, `true` is success; `none` is a negative result.
pub record System (W : Type 0) : Type 0 where
  pub set_rcvbuf : ℕ → ℤ → W → Bool × W
  pub set_sndbuf : ℕ → ℤ → W → Bool × W
  pub get_sndbuf : ℕ → W → Option ℤ × W
  pub get_rcvbuf : ℕ → W → Option ℤ × W
  pub recvfrom : ℕ → W → Option ℕ × W  -- the peer's address
  pub connect : ℕ → ℕ → W → Bool × W
  pub netannounce : W → Option ℕ × W
  pub netdial : W → Option ℕ × W
  pub set_timeout : ℕ → W → W
  pub write : ℕ → ℕ → W → Bool × W
  pub recv : ℕ → W → Bool × W

-- The fields of the test that the functions read or change.
pub record UdpTest (W : Type 0) : Type 0 where
  pub socket_bufsize : ℤ
  pub blksize : ℤ
  pub prot_listener : ℕ
  pub read_set : List ℕ
  pub max_fd : ℕ
  pub world : W

-- A result that is not negative, or -1 with i_errno; with the state.
pub data Reply (A W : Type 0) : Type 0 where
  reply : A → W → Reply A W
  error : IErr → W → Reply A W

abbrev pub if_reply :
    {A B W V : Type 0} → (IErr → W → Reply B V) → (A → W → Reply B V) → Reply A W → Reply B V
if_reply fail f (reply a w) = f a w
if_reply fail f (error e w) = fail e w

module _ {W : Type 0} (os : System W) where
  -- A call, or the error of its caller.
  abbrev pub need : IErr → Bool × W → Reply Bool W
  need e (true, w) = reply true w
  need e (false, w) = error e w

  abbrev pub need_value : {A : Type 0} → IErr → Option A × W → Reply A W
  need_value e (some a, w) = reply a w
  need_value e (none, w) = error e w

  -- A size that was read back: whether a block is larger than it.
  abbrev pub verify : ℤ → ℤ → ℤ → W → Reply Bool W
  verify bufsize blksize actual w =
      if not (eq_ℤ bufsize (pos 0)) && ltb_ℤ actual bufsize
      then error ie_setbuf2 w
      else reply (ltb_ℤ actual blksize) w

  abbrev pub set_sizes : ℤ → ℕ → W → Reply Bool W
  set_sizes bufsize s w =
      if eq_ℤ bufsize (pos 0)
      then reply true w
      else if_reply error (λ ok w1. need ie_setbuf (os.set_sndbuf s bufsize w1))
          (need ie_setbuf (os.set_rcvbuf s bufsize w))

  -- `true` is 1 and `false` 0.
  unfoldable pub iperf_udp_buffercheck : ℤ → ℤ → ℕ → W → Reply Bool W
  iperf_udp_buffercheck bufsize blksize s w =
      if_reply error
        (λ ok w1.
          if_reply error
            (λ snd w2.
              if_reply error
                (λ small w3.
                  if_reply error
                    (λ rcv w4.
                      if_reply error (λ small' w5. reply (small || small') w5)
                        (verify bufsize blksize rcv w4))
                    (need_value ie_setbuf (os.get_rcvbuf s w3)))
                (verify bufsize blksize snd w2))
            (need_value ie_setbuf (os.get_sndbuf s w1)))
        (set_sizes bufsize s w)

  abbrev pub at_world : UdpTest W → W → UdpTest W
  at_world u w = record u { world = w }

  abbrev pub checked : UdpTest W → Reply Bool W → Reply Bool (UdpTest W)
  checked u (reply small w) = reply small (at_world u w)
  checked u (error e w) = error e (at_world u w)

  -- UDP_BUFFER_EXTRA is 1024.
  unfoldable pub grow : ℕ → Bool → UdpTest W → Reply Bool (UdpTest W)
  unfolding iperf_udp_buffercheck
  grow s small u =
      let bufsize = add_ℕ u.blksize 1024 in
      if small && eq_ℤ u.socket_bufsize (pos 0)
      then checked (record u { socket_bufsize = bufsize })
          (iperf_udp_buffercheck bufsize u.blksize s u.world)
      else reply small u

  -- The check of the buffers, in iperf_udp_accept and in iperf_udp_connect.
  unfoldable pub set_buffers : ℕ → UdpTest W → Reply Bool (UdpTest W)
  unfolding iperf_udp_buffercheck grow
  set_buffers s u =
      if_reply error (grow s)
        (checked u (iperf_udp_buffercheck u.socket_bufsize u.blksize s u.world))

  abbrev pub listen_on : ℕ → UdpTest W → UdpTest W
  listen_on s u = record u {
    prot_listener = s;
    read_set = s ∷ u.read_set;
    max_fd = if ltb u.max_fd s then s else u.max_fd;
  }

  abbrev pub lift : {A : Type 0} → UdpTest W → Reply A W → Reply A (UdpTest W)
  lift u (reply a w) = reply a (at_world u w)
  lift u (error e w) = error e (at_world u w)

  -- iperf_udp_accept from its end: the answer to the client, the new listener, the buffers, the peer.
  abbrev pub send_answer : ℕ → ℕ → UdpTest W → Reply ℕ (UdpTest W)
  send_answer s listener u =
      if_reply error (λ ok u'. reply s u')
        (lift (listen_on listener u) (need ie_streamwrite (os.write s 987654321 u.world)))

  -- prot_listener is stored before the test; -1 as its bit pattern.
  abbrev pub announced : UdpTest W → Option ℕ × W → Reply ℕ (UdpTest W)
  announced u (some listener, w) = reply listener (at_world u w)
  announced u (none, w) = error ie_streamlisten (record u { prot_listener = 2 ^ 32 - 1; world = w })

  abbrev pub replace_listener : ℕ → UdpTest W → Reply ℕ (UdpTest W)
  replace_listener s u = if_reply error (send_answer s) (announced u (os.netannounce u.world))

  abbrev pub settle_buffers : ℕ → UdpTest W → Reply ℕ (UdpTest W)
  settle_buffers s u = if_reply error (λ small u'. replace_listener s u') (set_buffers s u)

  abbrev pub bind_peer : ℕ → ℕ → UdpTest W → Reply ℕ (UdpTest W)
  bind_peer s peer u =
      if_reply error (λ ok u'. settle_buffers s u')
        (lift u (need ie_streamaccept (os.connect s peer u.world)))

  unfoldable pub iperf_udp_accept : UdpTest W → Reply ℕ (UdpTest W)
  unfolding set_buffers
  iperf_udp_accept u =
      if_reply error (bind_peer u.prot_listener)
        (lift u (need_value ie_streamaccept (os.recvfrom u.prot_listener u.world)))

  unfoldable pub iperf_udp_listen : UdpTest W → Reply ℕ (UdpTest W)
  iperf_udp_listen u = lift u (need_value ie_streamlisten (os.netannounce u.world))

  unfoldable pub iperf_udp_connect : UdpTest W → Reply ℕ (UdpTest W)
  unfolding set_buffers
  iperf_udp_connect u =
      if_reply error
        (λ s u1.
          if_reply error
            (λ small u2.
              if_reply error
                (λ ok u3.
                  if_reply error (λ ok u4. reply s u4)
                    (lift u3 (need ie_streamread (os.recv s u3.world))))
                (lift u2 (need ie_streamwrite (os.write s 123456789 (os.set_timeout s u2.world)))))
            (set_buffers s u1))
        (lift u (need_value ie_streamconnect (os.netdial u.world)))
