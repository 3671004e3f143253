-- ===== src/Streams/Examples.antt =====
-- iperf_send and iperf_recv over one stream that moves 100 bytes each time.
use sber_wifi.Prelude.{ℕ, ◌+◌, ◌*◌, ◌≡◌, refl, Bool, true, false, none, [], ◌∷◌, arith}
use sber_wifi.Prelude.Int.{ℤ, pos}
use sber_wifi.Prelude.Numbers.{whole_numbers}
use sber_wifi.Time.{IperfTime}
use sber_wifi.Streams.{Flow, Sending, iperf_send, iperf_recv, rounds_of}
use sber_wifi.Streams.Account.{Ledger, Counted, iperf_send-Counted}
use sber_wifi.Streams.Receive
use sber_wifi.Streams.Receive.{Received, iperf_recv-Received}

-- The bytes moved, and the calls.
abbrev Moved : Type 0
Moved = ℕ × ℕ

abbrev move : Moved → ℕ → ℤ × Moved
move w socket = (pos 100, (w.0 + 100, w.1 + 1))

abbrev stopped : Moved → IperfTime × Moved
stopped w = (record { secs = 7; usecs = 0 }, w)

abbrev bytes_of : Moved → ℕ → ℕ
bytes_of w socket = w.0

abbrev flow : Bool → Flow
flow sender = record {
  socket = 5;
  sender = sender;
  green_light = true;
  start_time_fixed = record { secs = 3; usecs = 0 };
}

abbrev limited : Sending
limited = record {
  done = false;
  write_set = λ s. true;
  bytes_sent = 0;
  blocks_sent = 0;
  bytes_received = 0;
  blocks_received = 0;
  rate = 0;
  burst = pos 0;
  bytes = 100;
  blocks = 0;
  multisend = pos 10;
}

abbrev never : IperfTime
never = record { secs = 0; usecs = 0 }

-- With 100 bytes to send and ten rounds allowed, one call sends ten blocks: the `break` at the
-- limit leaves the pass over the streams, not the loop over the rounds.
send_overshoots :
    (iperf_send whole_numbers bytes_of stopped move none never
      (flow true ∷ [])
      limited
      (0, 0)).0.test.bytes_sent
    ≡ 1000
unfolding iperf_send
send_overshoots = refl

move-Ledger : Ledger whole_numbers bytes_of stopped move (λ w. w.0) (λ w. w.1) (λ w. w.1)
move-Ledger = record {
  ok = λ w socket n e. ground arith;
  failed = λ w socket e h. absurd (ground arith);
  ticks = λ w. (refl, refl, refl);
}

iperf_send-Counted_example :
    let r =
      (iperf_send whole_numbers bytes_of stopped move none never
        (flow true ∷ [])
        limited
        (0, 0)).0 in
    Counted whole_numbers bytes_of stopped move
      (λ w. w.0)
      (λ w. w.1)
      (λ w. w.1)
      (rounds_of whole_numbers bytes_of stopped move limited * 1)
      limited
      (0, 0)
      r.test
      r.world
iperf_send-Counted_example =
    iperf_send-Counted whole_numbers bytes_of stopped move (λ w. w.0) (λ w. w.1) (λ w. w.1) none
      never (flow true ∷ []) limited (0, 0) move-Ledger

receive-Ledger : Receive.Ledger move (λ w. w.0) (λ w. w.1)
receive-Ledger = record {
  ok = λ w socket n e. ground arith;
  failed = λ w socket e h. absurd (ground arith);
}

abbrev all_sockets : ℕ → Bool
all_sockets s = true

iperf_recv-Received_example :
    Received move
      (λ w. w.0)
      (λ w. w.1)
      all_sockets
      (flow false ∷ [])
      limited
      (0, 0)
      (iperf_recv move all_sockets (flow false ∷ []) limited (0, 0))
iperf_recv-Received_example =
    iperf_recv-Received move (λ w. w.0) (λ w. w.1) all_sockets (flow false ∷ []) limited (0, 0)
      receive-Ledger
