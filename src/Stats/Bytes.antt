-- ===== src/Stats/Bytes.antt =====
-- iperf_api.c and iperf_tcp.c: the bytes of the intervals of a stream are the bytes of the stream.
use sber_wifi.Prelude.{
  ℕ, ◌+◌, ◌≡◌, refl, ap, Bool, true, false, Option, none, some, List, [], ◌∷◌, ◌++◌, arith, ◌==◌,
  if◌then◌else◌,
}
use sber_wifi.Prelude.Int.{ℤ, pos, negsuc}
use sber_wifi.Prelude.Float.{Float}
use sber_wifi.Time.{IperfTime}
use sber_wifi.Udp.{u64}
use sber_wifi.Test.{same_protocol, tcp}
use sber_wifi.Control.{
  State, test_running, test_start, test_end, param_exchange, create_streams, server_terminate,
  client_terminate, exchange_results, display_results, iperf_start, iperf_done, access_denied,
  server_error, other_state,
}
use sber_wifi.Stats.{
  TcpInfo, Interval, StreamResult, Measured, Counted, add_to_interval_list, count_retransmits,
  count_packets, saved, save_tcpinfo, time_interval, measure, gather, last_interval,
}
use sber_wifi.Stats.Tcp.{iperf_tcp_recv, iperf_tcp_send}

-- What happens to a stream: data are moved, in a state of the test and with a result of Nread or of
-- Nwrite, or the statistics are gathered.
pub data Act (F : Float) : Type 0 where
  moved : State → ℤ → Act F
  gathered : Counted F → Act F

module _ {F : Float} where
  -- The bytes of all intervals.
  abbrev pub total_bytes : List (Interval F) → ℕ
  total_bytes [] = 0
  total_bytes (ir ∷ rest) = ir.bytes_transferred + total_bytes rest

  total_bytes-append :
      (l : List (Interval F)) (ir : Interval F)
      → total_bytes (l ++ ir ∷ []) ≡ total_bytes l + ir.bytes_transferred
  total_bytes-append [] ir = omega arith
  total_bytes-append (x ∷ l) ir = let e = total_bytes-append l ir in omega arith

  -- The bytes that a stream has moved, and those of them since the last interval.
  abbrev pub bytes_of : Bool → StreamResult F → ℕ
  bytes_of true rp = rp.bytes_sent
  bytes_of false rp = rp.bytes_received

  abbrev pub bytes_this_interval : Bool → StreamResult F → ℕ
  bytes_this_interval true rp = rp.bytes_sent_this_interval
  bytes_this_interval false rp = rp.bytes_received_this_interval

  -- No byte is missing from the intervals, and none is in two.
  abbrev pub Accounted : Bool → StreamResult F → Type 0
  Accounted sender rp =
      u64 (total_bytes rp.interval_results + bytes_this_interval sender rp)
      ≡ u64 (bytes_of sender rp)

  iperf_tcp_send-Accounted :
      (r : ℤ) (rp : StreamResult F) → Accounted true rp → Accounted true (iperf_tcp_send r rp).1
  unfolding iperf_tcp_send
  iperf_tcp_send-Accounted (pos r) rp h = omega arith
  iperf_tcp_send-Accounted (negsuc e) rp h = h

  iperf_tcp_recv-Accounted :
      (state : State) (r : ℤ) (rp : StreamResult F)
      → Accounted false rp
      → Accounted false (iperf_tcp_recv state r rp).1
  unfolding iperf_tcp_recv
  iperf_tcp_recv-Accounted test_running (pos r) rp h = omega arith
  iperf_tcp_recv-Accounted test_start (pos r) rp h = h
  iperf_tcp_recv-Accounted test_end (pos r) rp h = h
  iperf_tcp_recv-Accounted param_exchange (pos r) rp h = h
  iperf_tcp_recv-Accounted create_streams (pos r) rp h = h
  iperf_tcp_recv-Accounted server_terminate (pos r) rp h = h
  iperf_tcp_recv-Accounted client_terminate (pos r) rp h = h
  iperf_tcp_recv-Accounted exchange_results (pos r) rp h = h
  iperf_tcp_recv-Accounted display_results (pos r) rp h = h
  iperf_tcp_recv-Accounted iperf_start (pos r) rp h = h
  iperf_tcp_recv-Accounted iperf_done (pos r) rp h = h
  iperf_tcp_recv-Accounted access_denied (pos r) rp h = h
  iperf_tcp_recv-Accounted server_error (pos r) rp h = h
  iperf_tcp_recv-Accounted (other_state c) (pos r) rp h = h
  iperf_tcp_recv-Accounted state (negsuc e) rp h = h

  -- An interval of the bytes since the last one is added, and they are set back.
  added-Accounted :
      (sender : Bool) (rp rp1 : StreamResult F) (ir : Interval F)
      → ir.bytes_transferred
        ≡ (if sender then rp.bytes_sent_this_interval else rp.bytes_received_this_interval)
      → rp1.interval_results ≡ rp.interval_results
      → rp1.bytes_sent ≡ rp.bytes_sent
      → rp1.bytes_received ≡ rp.bytes_received
      → Accounted sender rp
      → Accounted sender (record rp1 {
        interval_results = rp1.interval_results ++ ir ∷ [];
        bytes_sent_this_interval = 0;
        bytes_received_this_interval = 0;
      })
  added-Accounted true rp rp1 ir all same sent received h =
      let e1 = total_bytes-append rp1.interval_results ir in
      let e2 = ap total_bytes same in omega arith
  added-Accounted false rp rp1 ir all same sent received h =
      let e1 = total_bytes-append rp1.interval_results ir in
      let e2 = ap total_bytes same in omega arith

  count_packets-bytes :
      (before : Option (Interval F)) (sp : Measured F) (temp : Interval F)
      → (count_packets before sp temp).bytes_transferred ≡ temp.bytes_transferred
  unfolding count_packets
  count_packets-bytes none sp temp = refl
  count_packets-bytes (some irp) sp temp = refl

  module _ {W : Type 0} (to_float : F.Double → F.Double) (clock : W → IperfTime × W)
      (tcp_info : ℕ → W → Option TcpInfo × W) where
    -- What a part of the gathering leaves of the bytes.
    record Keeps (temp : Interval F) (rp : StreamResult F) (m : Interval F × StreamResult F × W)
        : Type 0 where
      bytes_transferred : m.0.bytes_transferred ≡ temp.bytes_transferred
      interval_results : m.1.interval_results ≡ rp.interval_results
      sent : m.1.bytes_sent ≡ rp.bytes_sent
      received : m.1.bytes_received ≡ rp.bytes_received

    Keeps-if :
        (temp : Interval F) (rp : StreamResult F) (b : Bool) (m n : Interval F × StreamResult F × W)
        → Keeps temp rp m
        → Keeps temp rp n
        → Keeps temp rp (if b then m else n)
    Keeps-if temp rp true m n g h = g
    Keeps-if temp rp false m n g h = h

    saved-bytes :
        (o : Option TcpInfo) (ir : Interval F)
        → (saved to_float clock tcp_info o ir).bytes_transferred ≡ ir.bytes_transferred
    saved-bytes none ir = refl
    saved-bytes (some info) ir = refl

    measure-Keeps :
        (test : Counted F) (sp : Measured F) (temp : Interval F) (rp : StreamResult F) (w : W)
        → Keeps temp rp (measure to_float clock tcp_info test sp temp rp w)
    unfolding measure save_tcpinfo count_retransmits count_packets
    measure-Keeps test sp temp rp w =
        let a = save_tcpinfo to_float clock tcp_info sp.socket temp w in
        let b = count_retransmits a.0.tcp_info a.0 rp in
        let e = saved-bytes (tcp_info sp.socket w).0 temp in
        let before = last_interval sp.result.interval_results in
        Keeps-if temp rp (same_protocol test.protocol tcp)
          (if test.sender_has_retransmits == 1 then (b.0, b.1, a.1) else (a.0, rp, a.1))
          (count_packets before sp temp, rp, w)
          (Keeps-if temp rp (test.sender_has_retransmits == 1) (b.0, b.1, a.1) (a.0, rp, a.1)
            (record {
              bytes_transferred = e;
              interval_results = refl;
              sent = refl;
              received = refl;
            })
            (record {
              bytes_transferred = e;
              interval_results = refl;
              sent = refl;
              received = refl;
            }))
          (record {
            bytes_transferred = count_packets-bytes before sp temp;
            interval_results = refl;
            sent = refl;
            received = refl;
          })

    gather-Accounted :
        (test : Counted F) (sp : Measured F) (temp : Interval F) (w : W)
        → Accounted sp.sender sp.result
        → Accounted sp.sender (gather to_float clock tcp_info test sp temp w).1.result
    unfolding gather time_interval add_to_interval_list
    gather-Accounted test sp temp w h =
        let a =
          time_interval to_float clock tcp_info sp (record temp { omitted = test.omitting }) w in
        let b = measure to_float clock tcp_info test sp a.0 a.1 a.2 in
        let k = measure-Keeps test sp a.0 a.1 a.2 in
        added-Accounted sp.sender sp.result b.1 b.0 k.bytes_transferred k.interval_results k.sent
          k.received h

    abbrev move : Bool → State → ℤ → StreamResult F → StreamResult F
    move true state r rp = (iperf_tcp_send r rp).1
    move false state r rp = (iperf_tcp_recv state r rp).1

    abbrev pub act : Act F → Measured F × Interval F × W → Measured F × Interval F × W
    act (moved state r) (sp, temp, w) =
        (record sp { result = move sp.sender state r sp.result }, temp, w)
    act (gathered test) (sp, temp, w) =
        let a = gather to_float clock tcp_info test sp temp w in (a.1, a.0, a.2)

    abbrev pub acts : List (Act F) → Measured F × Interval F × W → Measured F × Interval F × W
    acts [] s = s
    acts (a ∷ rest) s = acts rest (act a s)

    move-Accounted :
        (sender : Bool) (state : State) (r : ℤ) (rp : StreamResult F)
        → Accounted sender rp
        → Accounted sender (move sender state r rp)
    move-Accounted true state r rp h = iperf_tcp_send-Accounted r rp h
    move-Accounted false state r rp h = iperf_tcp_recv-Accounted state r rp h

    -- However sends or receives of a TCP stream and gatherings of statistics follow each other: the bytes
    -- of all intervals and those since the last one are, modulo 2 ^ 64, the bytes that the stream has
    -- moved, where they were so before.
    pub acts-Accounted :
        (l : List (Act F)) (sp : Measured F) (temp : Interval F) (w : W)
        → Accounted sp.sender sp.result
        → let s = acts l (sp, temp, w) in Accounted s.0.sender s.0.result
    unfolding gather
    acts-Accounted [] sp temp w h = h
    acts-Accounted (moved state r ∷ rest) sp temp w h =
        acts-Accounted rest (record sp { result = move sp.sender state r sp.result }) temp w
          (move-Accounted sp.sender state r sp.result h)
    acts-Accounted (gathered test ∷ rest) sp temp w h =
        let a = gather to_float clock tcp_info test sp temp w in
        acts-Accounted rest a.1 a.0 a.2 (gather-Accounted test sp temp w h)
