-- ===== src/Udp.antt =====
-- app/src/main/cpp/iperf/iperf_udp.c: iperf_udp_send and iperf_udp_recv, the test datagrams and
-- the receiver's accounting of loss, order and jitter. The `int` counters are bit patterns below
-- 2 ^ 32 in two's complement; `double` is the parameter `F`; Nread, Nwrite and the clock come as
-- their results.
pub mod Packet
pub mod Seen
pub mod Loss
pub mod Recv
pub mod Examples
use sber_wifi.Prelude.{
  ℕ, zero, suc, ◌+◌, ◌-◌, ◌*◌, ◌/◌, ◌%◌, ◌^◌, Bool, ◌&&◌, List, [], ◌∷◌, ◌++◌, ltb, leb,
  if◌then◌else◌, length, drop,
}
use sber_wifi.Prelude.Int.{ℤ, pos, negsuc}
use sber_wifi.Prelude.Float.{Float}
use sber_wifi.Time.{IperfTime, u32, iperf_time_diff}

-- The fields of struct iperf_stream and of its result that the two functions read or write.
pub record Stream (F : Float) : Type 0 where
  pub packet_count : ℕ
  pub cnt_error : ℕ
  pub outoforder_packets : ℕ
  pub jitter : F.Double
  pub prev_transit : F.Double
  pub bytes_received : ℕ
  pub bytes_received_this_interval : ℕ
  pub bytes_sent : ℕ
  pub bytes_sent_this_interval : ℕ

abbrev pub u64 : ℕ → ℕ
u64 n = n % 2 ^ 64

-- An int converted to uint64_t.
abbrev pub sign_extend : ℕ → ℕ
sign_extend n = if ltb n (2 ^ 31) then n else n + (2 ^ 64 - 2 ^ 32)

-- `n > 0` on an int
abbrev pub is_positive : ℕ → Bool
is_positive n = ltb 0 n && ltb n (2 ^ 31)

-- The bytes in memory of htonl(n) and of htobe64(n).
unfoldable pub be32 : ℕ → List ℕ
be32 n = n / 2 ^ 24 % 256 ∷ n / 2 ^ 16 % 256 ∷ n / 2 ^ 8 % 256 ∷ n % 256 ∷ []

unfoldable pub be64 : ℕ → List ℕ
unfolding be32
be64 n = be32 (n / 2 ^ 32) ++ be32 (n % 2 ^ 32)

-- ntohl and be64toh of the first bytes of a buffer; the buffer holds them all.
unfoldable pub from_be : ℕ → ℕ → List ℕ → ℕ
from_be zero acc l = acc
from_be (suc n) acc [] = acc
from_be (suc n) acc (b ∷ l) = from_be n (acc * 256 + b) l

-- What iperf_udp_send copies to the front of the buffer.
unfoldable pub header : Bool → IperfTime → ℕ → List ℕ
unfolding be32 be64
header counters_64bit before packet_count =
    if counters_64bit
    then be32 before.secs ++ (be32 before.usecs ++ be64 (sign_extend packet_count))
    else be32 before.secs ++ (be32 before.usecs ++ be32 packet_count)

-- What iperf_udp_recv reads: the time of sending and the sequence number.
unfoldable pub parse_header : Bool → List ℕ → IperfTime × ℕ
unfolding from_be
parse_header counters_64bit buffer = (
  record { secs = from_be 4 0 buffer; usecs = from_be 4 0 (drop 4 buffer) },
  if counters_64bit then from_be 8 0 (drop 8 buffer) else from_be 4 0 (drop 8 buffer),
)

-- The stream's buffer with the header copied over its front.
unfoldable pub datagram : Bool → IperfTime → ℕ → List ℕ → List ℕ
datagram counters_64bit before packet_count buffer =
    let front = header counters_64bit before packet_count in front ++ drop (length front) buffer

module _ (F : Float) where
  -- The sequence number: a gap is counted as loss, and a number that is not ahead as out of order,
  -- which takes back a loss.
  unfoldable pub account : ℕ → Stream F → Stream F
  account pcount sp =
      if leb (sign_extend (u32 (packet_count + 1))) pcount
      then record sp {
        cnt_error =
            if ltb (sign_extend (u32 (packet_count + 1))) pcount
            then u32 (
                sign_extend cnt_error
                + u64 (u64 (pcount + 2 ^ 64 - 1) + 2 ^ 64 - sign_extend packet_count))
            else cnt_error;
        packet_count = u32 pcount;
      }
      else record sp {
        outoforder_packets = u32 (outoforder_packets + 1);
        cnt_error = if is_positive cnt_error then cnt_error - 1 else cnt_error;
      }
    where
      open sp use {packet_count, cnt_error, outoforder_packets}

  -- iperf_time_in_secs
  unfoldable pub iperf_time_in_secs : IperfTime → F.Double
  iperf_time_in_secs t = F.add (F.of_ℕ t.secs) (F.div (F.of_ℕ t.usecs) (F.of_ℕ 1000000))

  -- The jitter of RFC 1889.
  unfoldable pub measure_jitter : IperfTime → IperfTime → Stream F → Stream F
  unfolding iperf_time_in_secs
  measure_jitter arrival_time sent_time sp =
      let temp_time = (iperf_time_diff arrival_time sent_time).1 in
      let transit = iperf_time_in_secs temp_time in
      let d = F.sub transit sp.prev_transit in
      let d' = if F.lt d (F.of_ℕ 0) then F.neg d else d in
      record sp {
        prev_transit = transit;
        jitter = F.add sp.jitter (F.div (F.sub d' sp.jitter) (F.of_ℕ 16));
      }

  -- `r` and `buffer` are what Nread returned and stored, `running` says whether the test's state
  -- is TEST_RUNNING.
  unfoldable pub iperf_udp_recv : ℤ → List ℕ → Bool → Bool → IperfTime → Stream F → ℤ × Stream F
  unfolding account measure_jitter parse_header
  iperf_udp_recv (negsuc e) buffer running counters_64bit arrival_time sp = (negsuc e, sp)
  iperf_udp_recv (pos zero) buffer running counters_64bit arrival_time sp = (pos 0, sp)
  iperf_udp_recv (pos (suc n)) buffer running counters_64bit arrival_time sp =
      let (sent_time, pcount) = parse_header counters_64bit buffer in
      let counted : Stream F = record sp {
        bytes_received = u64 (sp.bytes_received + suc n);
        bytes_received_this_interval = u64 (sp.bytes_received_this_interval + suc n);
      } in
      (
        pos (suc n),
        if running then measure_jitter arrival_time sent_time (account pcount counted) else sp,
      )

  -- The buffer that is handed to Nwrite, the returned number, and the stream. `nwrite` is Nwrite
  -- on the stream's socket, `before` the time.
  unfoldable pub iperf_udp_send :
      (List ℕ → ℤ) → Bool → IperfTime → List ℕ → Stream F → List ℕ × ℤ × Stream F
  iperf_udp_send nwrite counters_64bit before buffer sp =
      let packet_count = u32 (sp.packet_count + 1) in
      let sent = datagram counters_64bit before packet_count buffer in
      let sp' : Stream F = record sp { packet_count = packet_count } in
      elim (nwrite sent) [
        | negsuc e ↦ (sent, negsuc e, sp')
        | pos r ↦ (
          sent,
          pos r,
          record sp' {
            bytes_sent = u64 (sp.bytes_sent + r);
            bytes_sent_this_interval = u64 (sp.bytes_sent_this_interval + r);
          },
        )
      ]
