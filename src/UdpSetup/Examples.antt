-- ===== src/UdpSetup/Examples.antt =====
-- A UDP server on a system whose buffers have 2048 bytes until they are set.
use sber_wifi.Prelude.{◌≡◌, refl, true, some, [], ◌∷◌}
use sber_wifi.Prelude.Int.{ℤ, pos}
use sber_wifi.UdpSetup.{
  System, UdpTest, reply, iperf_udp_buffercheck, grow, set_buffers, iperf_udp_accept,
}
use sber_wifi.UdpSetup.Buffers.{Replies}
use sber_wifi.UdpSetup.Listens.{Accepts, iperf_udp_accept-Accepts}

-- The world is the size of both buffers.
abbrev small_buffers : System ℤ
small_buffers = record {
  set_rcvbuf = λ s size w. (true, size);
  set_sndbuf = λ s size w. (true, size);
  get_sndbuf = λ s w. (some w, w);
  get_rcvbuf = λ s w. (some w, w);
  recvfrom = λ s w. (some 77, w);
  connect = λ s peer w. (true, w);
  netannounce = λ w. (some 9, w);
  netdial = λ w. (some 8, w);
  set_timeout = λ s w. w;
  write = λ s content w. (true, w);
  recv = λ s w. (true, w);
}

abbrev asking : ℤ → UdpTest ℤ
asking size = record {
  socket_bufsize = size;
  blksize = pos 4000;
  prot_listener = 5;
  read_set = 3 ∷ 5 ∷ [];
  max_fd = 5;
  world = pos 2048;
}

iperf_udp_accept-Accepts_example :
    Replies
      (λ s u'. Accepts small_buffers (asking (pos 0)) s u')
      (iperf_udp_accept small_buffers (asking (pos 0)))
iperf_udp_accept-Accepts_example = iperf_udp_accept-Accepts small_buffers (asking (pos 0))

-- With no size asked for the buffers grow to a block and 1024 bytes.
grows :
    iperf_udp_accept small_buffers (asking (pos 0))
    ≡ reply 5 (record {
      socket_bufsize = pos 5024;
      blksize = pos 4000;
      prot_listener = 9;
      read_set = 9 ∷ 3 ∷ 5 ∷ [];
      max_fd = 9;
      world = pos 5024;
    })
unfolding iperf_udp_accept set_buffers grow iperf_udp_buffercheck
grows = refl
