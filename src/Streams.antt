-- ===== src/Streams.antt =====
-- app/src/main/cpp/iperf/iperf_api.c: iperf_check_throttle, iperf_send and iperf_recv, the rounds
-- over the streams of a test. The data of a stream stand in a state `W`, which the stream's
-- functions `snd` and `rcv`, found by its socket, and the clock change. An fd_set is a test on
-- sockets.
pub mod Account
pub mod Receive
pub mod Examples
use sber_wifi.Prelude.{
  ℕ, zero, suc, ◌+◌, ◌*◌, Bool, true, false, not, ◌&&◌, ◌||◌, Option, none, some, List, [], ◌∷◌,
  ltb, leb, ◌==◌, if◌then◌else◌,
}
use sber_wifi.Prelude.Int.{ℤ, pos, negsuc, pos_part, eq_ℤ}
use sber_wifi.Prelude.Float.{Float}
use sber_wifi.Time.{IperfTime, iperf_time_diff}
use sber_wifi.Udp.{u64, iperf_time_in_secs}

-- The fields of struct iperf_stream that the rounds read or write.
pub record Flow : Type 0 where
  pub socket : ℕ
  pub sender : Bool
  pub green_light : Bool
  pub start_time_fixed : IperfTime

-- The fields of struct iperf_test and of its settings, but for the list of streams.
pub record Sending : Type 0 where
  pub done : Bool
  pub write_set : ℕ → Bool
  pub bytes_sent : ℕ
  pub blocks_sent : ℕ
  pub bytes_received : ℕ
  pub blocks_received : ℕ
  pub rate : ℕ
  pub burst : ℤ
  pub bytes : ℕ
  pub blocks : ℕ
  pub multisend : ℤ

-- FD_SET, FD_CLR
abbrev pub put : ℕ → Bool → (ℕ → Bool) → ℕ → Bool
put socket b set s = if s == socket then b else set s

-- What a pass over the streams leaves: the error number that ends iperf_send, if there is one,
-- whether a stream was active, the streams, the test and the rest.
pub record Round (W : Type 0) : Type 0 where
  pub error : Option ℤ
  pub active : Bool
  pub flows : List Flow
  pub test : Sending
  pub world : W

abbrev pub cons_flow : {W : Type 0} → Flow → Round W → Round W
cons_flow sp r = record r { flows = sp ∷ r.flows }

module _ (F : Float) {W : Type 0} (sent : W → ℕ → ℕ) (clock : W → IperfTime × W)
    (snd : W → ℕ → ℤ × W) where
  -- The stream and the test. `sent` is sp->result->bytes_sent.
  unfoldable pub iperf_check_throttle : Flow → IperfTime → Sending → W → Flow × Sending
  iperf_check_throttle sp now test w =
      let seconds = iperf_time_in_secs F (iperf_time_diff sp.start_time_fixed now).1 in
      let bits_per_second = F.trunc (F.div (F.of_ℕ (u64 (sent w sp.socket * 8))) seconds) in
      let below = ltb bits_per_second test.rate in
      if test.done then (sp, test) else (
        record sp { green_light = below },
        record test { write_set = put sp.socket below test.write_set },
      )

  -- `test->settings->rate != 0 && test->settings->burst == 0`
  abbrev pub paced : Sending → Bool
  paced t = not (t.rate == 0) && eq_ℤ t.burst (pos 0)

  abbrev pub reached : ℕ → Sending → Bool
  reached multisend t =
      ltb 1 multisend
      && ((not (t.bytes == 0) && leb t.bytes t.bytes_sent)
          || (not (t.blocks == 0) && leb t.blocks t.blocks_sent))

  abbrev pub count_sent : ℕ → Sending → Sending
  count_sent r t = record t {
    bytes_sent = u64 (t.bytes_sent + r);
    blocks_sent = u64 (t.blocks_sent + 1);
  }

  abbrev pub is_selected : Option (ℕ → Bool) → ℕ → Bool
  is_selected none socket = true
  is_selected (some set) socket = set socket

  abbrev pub throttle_if : Bool → Flow → IperfTime → Sending → W → Flow × Sending
  throttle_if true sp now t w = iperf_check_throttle sp now t w
  throttle_if false sp now t w = (sp, t)

  -- The inner loop of iperf_send.
  unfoldable pub send_round :
      ℕ → Option (ℕ → Bool) → IperfTime → Bool → List Flow → Sending → W → Round W
  send_round multisend set now active [] t w = record {
    error = none;
    active = active;
    flows = [];
    test = t;
    world = w;
  }
  send_round multisend set now active (sp ∷ rest) t w =
      elim (sp.green_light && sp.sender && is_selected set sp.socket) [
        | false ↦ cons_flow sp (send_round multisend set now active rest t w)
        | true ↦
            let (r, w1) = snd w sp.socket in
            elim r [
              | negsuc zero ↦ record {
                error = none;
                active = active;
                flows = sp ∷ rest;
                test = t;
                world = w1;
              }
              | negsuc (suc e) ↦ record {
                error = some (negsuc (suc e));
                active = active;
                flows = sp ∷ rest;
                test = t;
                world = w1;
              }
              | pos n ↦
                  let (sp', t') = throttle_if (paced t) sp now (count_sent n t) w1 in
                  elim (reached multisend t') [
                    | true ↦ record {
                      error = none;
                      active = true;
                      flows = sp' ∷ rest;
                      test = t';
                      world = w1;
                    }
                    | false ↦ cons_flow sp' (send_round multisend set now true rest t' w1)
                  ]
            ]
      ]

  -- The clock is read before a round where the rate is limited; `now` is the last time read.
  abbrev pub tick_if : Bool → IperfTime → W → IperfTime × W
  tick_if true now w = clock w
  tick_if false now w = (now, w)

  -- The outer loop, with the number of rounds left.
  unfoldable pub send_rounds : ℕ → Option (ℕ → Bool) → IperfTime → List Flow → Sending → W → Round W
  unfolding send_round
  send_rounds zero set now flows t w = record {
    error = none;
    active = false;
    flows = flows;
    test = t;
    world = w;
  }
  send_rounds (suc n) set now flows t w =
      let (now', w') = tick_if (paced t) now w in
      let r = send_round (suc n) set now' false flows t w' in
      elim r.error [
        | some e ↦ r
        | none ↦ if r.active then send_rounds n set now' r.flows r.test r.world else r
      ]

  abbrev pub throttle_all : List Flow → IperfTime → Sending → W → List Flow × Sending
  throttle_all [] now t w = ([], t)
  throttle_all (sp ∷ rest) now t w =
      let (sp', t') = iperf_check_throttle sp now t w in
      let (rest', t'') = throttle_all rest now t' w in (sp' ∷ rest', t'')

  -- How many rounds a call may make.
  abbrev pub rounds_of : Sending → ℕ
  rounds_of t =
      if not (eq_ℤ t.burst (pos 0))
      then pos_part t.burst
      else if t.rate == 0
      then pos_part t.multisend
      else 1

  abbrev pub clear_all : List Flow → (ℕ → Bool) → ℕ → Bool
  clear_all [] set = set
  clear_all (sp ∷ rest) set = clear_all rest (put sp.socket false set)

  abbrev clear_set : List Flow → Option (ℕ → Bool) → Option (ℕ → Bool)
  clear_set flows none = none
  clear_set flows (some set) = some (clear_all flows set)

  -- What follows the loops, where none has failed: the clock and a throttle of every stream after
  -- a burst, and the sockets taken out of the caller's set.
  unfoldable pub end_send : Option (ℕ → Bool) → Round W → Round W × Option (ℕ → Bool)
  unfolding iperf_check_throttle
  end_send set r =
      let t = r.test in
      elim (eq_ℤ t.burst (pos 0)) [
        | true ↦ (r, clear_set r.flows set)
        | false ↦
            let (now, w) = clock r.world in
            let (flows, test) = throttle_all r.flows now r.test w in
            (record r { flows = flows; test = test; world = w }, clear_set flows set)
      ]

  -- The returned number stands in `error`, `none` for 0; on an error i_errno is IESTREAMWRITE.
  -- `now` is the local variable before it is set.
  unfoldable pub iperf_send :
      Option (ℕ → Bool) → IperfTime → List Flow → Sending → W → Round W × Option (ℕ → Bool)
  unfolding send_rounds end_send
  iperf_send write_setP now flows t w =
      let r = send_rounds (rounds_of t) write_setP now flows t w in
      elim r.error [ some e ↦ (r, write_setP) | none ↦ end_send write_setP r ]

module _ {W : Type 0} (rcv : W → ℕ → ℤ × W) where
  abbrev pub count_received : ℕ → Sending → Sending
  count_received r t = record t {
    bytes_received = u64 (t.bytes_received + r);
    blocks_received = u64 (t.blocks_received + 1);
  }

  -- The returned number, the test, the set and the rest; below 0 i_errno is IESTREAMREAD.
  unfoldable pub iperf_recv : (ℕ → Bool) → List Flow → Sending → W → ℤ × Sending × (ℕ → Bool) × W
  iperf_recv read_setP [] t w = (pos 0, t, read_setP, w)
  iperf_recv read_setP (sp ∷ rest) t w = elim (read_setP sp.socket && not sp.sender) [
    | false ↦ iperf_recv read_setP rest t w
    | true ↦
        let (r, w1) = rcv w sp.socket in
        elim r [
          | negsuc e ↦ (negsuc e, t, read_setP, w1)
          | pos n ↦ iperf_recv (put sp.socket false read_setP) rest (count_received n t) w1
        ]
  ]
