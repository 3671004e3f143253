-- ===== src/Udp/Packet.antt =====
-- iperf_udp.c: what iperf_udp_send writes into a datagram is what iperf_udp_recv reads.
use sber_wifi.Prelude.{
  ℕ, ◌+◌, ◌^◌, ◌≤◌, ◌<◌, ◌≡◌, refl, ◌⊎◌, inl, inr, Bool, true, false, List, ◌++◌, arith,
  if◌then◌else◌, length, length-append, drop, length-drop,
}
use sber_wifi.Prelude.Int.{ℤ, pos, negsuc, pos_part, is_neg}
use sber_wifi.Time.{IperfTime, u32}
use sber_wifi.Prelude.Float.{Float}
use sber_wifi.Udp.{datagram, Stream, be32, from_be, header, parse_header, iperf_udp_send, u64}

-- A header that is written for a time stamp of two 32-bit fields and a packet count below 2 ^ 31,
-- with 32-bit or 64-bit counters, is read back as that time and that count, whatever follows it.
pub parse_header-header :
    (wide : Bool) (before : IperfTime) (packet_count : ℕ) (rest : List ℕ)
    → before.secs < 2 ^ 32
    → before.usecs < 2 ^ 32
    → packet_count < 2 ^ 31
    → parse_header wide (header wide before packet_count ++ rest) ≡ (before, packet_count)
unfolding parse_header header from_be be32
parse_header-header true before p rest hs hu hp = ground arith
parse_header-header false before p rest hs hu hp = ground arith

header_fits : (wide : Bool) (t : IperfTime) (p : ℕ) → length (header wide t p) ≤ 16
unfolding header
header_fits true t p = omega arith
header_fits false t p = omega arith

sign_cases : (r : ℤ) → ((k : ℕ) × (r ≡ pos k)) ⊎ ((e : ℕ) × (r ≡ negsuc e))
sign_cases (pos k) = inl (k, refl)
sign_cases (negsuc e) = inr (e, refl)

parse_header-datagram :
    (wide : Bool) (before : IperfTime) (n : ℕ) (buffer : List ℕ)
    → before.secs < 2 ^ 32
    → before.usecs < 2 ^ 32
    → n < 2 ^ 31
    → parse_header wide (datagram wide before n buffer) ≡ (before, n)
unfolding datagram
parse_header-datagram wide before n buffer hs hu hn =
    parse_header-header wide before n (drop (length (header wide before n)) buffer) hs hu hn

length-datagram :
    (wide : Bool) (before : IperfTime) (n : ℕ) (buffer : List ℕ)
    → 16 ≤ length buffer
    → length (datagram wide before n buffer) ≡ length buffer
unfolding datagram
length-datagram wide before n buffer room =
    let front = header wide before n in
    omega (
      arith,
      length-append front (drop (length front) buffer),
      length-drop (length front) buffer,
      header_fits wide before n,
    )

-- The datagram that is sent numbers the packets one up, carries the time of sending, keeps the
-- length of the buffer, and is counted as sent when Nwrite does not fail: the byte count of the
-- stream and that of the interval grow by what Nwrite returned, and by nothing when it failed. The
-- time has 32-bit fields, the packet number stays below 2 ^ 31, and the buffer holds the header.
pub iperf_udp_send-parse_header :
    (F : Float) (nwrite : List ℕ → ℤ) (wide : Bool) (before : IperfTime) (buffer : List ℕ)
    (sp : Stream F)
    → before.secs < 2 ^ 32
    → before.usecs < 2 ^ 32
    → sp.packet_count + 1 < 2 ^ 31
    → 16 ≤ length buffer
    → let (sent, r, sp') = iperf_udp_send F nwrite wide before buffer sp in
      (parse_header wide sent ≡ (before, sp.packet_count + 1))
      × (length sent ≡ length buffer)
      × (sp'.packet_count ≡ sp.packet_count + 1)
      × (r ≡ nwrite sent)
      × (sp'.bytes_sent ≡ (if is_neg r then sp.bytes_sent else u64 (sp.bytes_sent + pos_part r)))
      × (sp'.bytes_sent_this_interval ≡ (
          if is_neg r
          then sp.bytes_sent_this_interval
          else u64 (sp.bytes_sent_this_interval + pos_part r)))
unfolding iperf_udp_send
iperf_udp_send-parse_header F nwrite wide before buffer sp hs hu hp room =
    let n : ℕ = u32 (sp.packet_count + 1) in
    let next : n ≡ sp.packet_count + 1 = omega arith in
    let sent = datagram wide before n buffer in
    let reads = parse_header-datagram wide before n buffer hs hu (omega arith) in
    let size = length-datagram wide before n buffer room in
    elim (sign_cases (nwrite sent)) [
      | inl (k, ok) ↦ ground (arith, reads, size)
      | inr (e, failed) ↦ ground (arith, reads, size)
    ]
