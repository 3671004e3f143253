-- ===== src/Control/Client/Ports.antt =====
-- iperf_client_api.c: the local ports that iperf_create_streams binds the streams to, where the option
-- --cport has set bind_port.
use mathlib.Core.List.{append-nil, append_assoc}
use mathlib.Core.Path.{subst}
use sber_wifi.Prelude.{
  ℕ, zero, suc, ◌+◌, ◌≡◌, refl, sym, ap, ◌∙◌, Bool, true, false, List, [], ◌∷◌, ◌++◌, arith,
  if◌then◌else◌,
}
use sber_wifi.Prelude.Int.{ℤ, pos, pos_part}
use sber_wifi.Test.{bidirectional_mode}
use sber_wifi.Control.{create_streams, Ctl, Local, Outcome, go, ◌>>=◌, Calls, same_mode, is_sending}
use sber_wifi.Control.Client.{
  port_of, set_bind_port, connect_from, iperf_create_streams, create_both, handle_state_client,
}

-- The ports of the streams from `i` on, `left` of them.
abbrev pub ports_from : ℤ → ℕ → ℕ → List ℤ
ports_from port i zero = []
ports_from port i (suc left) = port_of port i ∷ ports_from port (i + 1) left

-- bind_port behind them.
abbrev pub port_behind : ℤ → ℕ → ℕ → ℤ → ℤ
port_behind port i zero before = before
port_behind port i (suc left) before = port_behind port (i + 1) left (port_of port i)

abbrev set_port : Ctl → ℤ → Ctl
set_port c port = record c { bind_port = port }

module _ {W : Type 0} (bound : W → List ℤ) where
  -- Connections that succeed, each on the port in bind_port, and streams that can be made.
  pub record Binds (calls : Calls W) : Type 0 where
    pub connect :
        (b : Bool) (l : Local W)
        → (w : W) × (calls.connect b l ≡ go (record l { world = w }))
          × (bound w ≡ bound l.world ++ l.ctl.bind_port ∷ [])
    pub new_stream :
        (b : Bool) (l : Local W)
        → (w : W) × (calls.new_stream b l ≡ go (record l { world = w })) × (bound w ≡ bound l.world)

  module _ (calls : Calls W) where
    -- What a number of streams leaves.
    abbrev pub Bound : Local W → List ℤ → ℤ → Outcome W → Type 0
    Bound l ports port m =
        (w : W) × (m ≡ go (record { ctl = set_port l.ctl port; world = w }))
        × (bound w ≡ bound l.world ++ ports)

    connect_from-Bound :
        (b : Bool) (port : ℤ) (i left : ℕ) (l : Local W)
        → Binds calls
        → Bound l
            (ports_from port i left)
            (port_behind port i left l.ctl.bind_port)
            (connect_from calls b port i left l)
    unfolding connect_from
    connect_from-Bound b port i zero l binds = (l.world, refl, sym (append-nil (bound l.world)))
    connect_from-Bound b port i (suc left) l binds =
        let l1 = set_bind_port (port_of port i) l in
        let c = binds.connect b l1 in
        let l2 = record l1 { world = c.0 } in
        let n = binds.new_stream b l2 in
        let l3 = record l2 { world = n.0 } in
        let r = connect_from-Bound b port (i + 1) left l3 binds in
        (
          r.0,
          ap (λ t. t >>= calls.new_stream b >>= connect_from calls b port (i + 1) left) c.1
              ∙ ap (λ t. t >>= connect_from calls b port (i + 1) left) n.1
              ∙ r.1,
          r.2
              ∙ ap (λ t. t ++ ports_from port (i + 1) left) (n.2 ∙ c.2)
              ∙ append_assoc (bound l.world) (port_of port i ∷ []) (ports_from port (i + 1) left),
        )

    iperf_create_streams-Bound :
        (b : Bool) (n : ℕ) (l : Local W)
        → Binds calls
        → l.ctl.num_streams ≡ pos n
        → Bound l
            (ports_from l.ctl.bind_port 0 n)
            (port_behind l.ctl.bind_port 0 n l.ctl.bind_port)
            (iperf_create_streams calls b l)
    unfolding iperf_create_streams
    iperf_create_streams-Bound b n l binds e =
        subst
          (λ k.
            Bound l (ports_from l.ctl.bind_port 0 n)
              (port_behind l.ctl.bind_port 0 n l.ctl.bind_port)
              (connect_from calls b l.ctl.bind_port 0 k l))
          (ap pos_part (sym e)) (connect_from-Bound b l.ctl.bind_port 0 n l binds)

  port_of-pos : (p i : ℕ) → port_of (pos (suc p)) i ≡ pos (suc p + i)
  port_of-pos p i = ground arith

  -- A port that is not 0 goes up by one with each stream.
  port_behind-last :
      (p i k : ℕ) (before : ℤ) → port_behind (pos (suc p)) i (suc k) before ≡ pos (suc p + i + k)
  port_behind-last p i zero before = port_of-pos p i ∙ ap pos (omega arith)
  port_behind-last p i (suc k) before =
      port_behind-last p (i + 1) k (port_of (pos (suc p)) i) ∙ ap pos (omega arith)

  -- In a bidirectional test of k + 1 streams each way, with --cport p where p is not 0, and where all
  -- connections and streams can be made, the client binds its sending streams to the ports p to p + k,
  -- and its receiving ones to the ports p + k to p + 2k: the port p + k is asked for twice.
  pub handle_state_client-create_streams :
      (calls : Calls W) (p k : ℕ) (l : Local W)
      → Binds calls
      → l.ctl.mode ≡ bidirectional_mode
      → l.ctl.bind_port ≡ pos (suc p)
      → l.ctl.num_streams ≡ pos (suc k)
      → (l' : Local W) × (handle_state_client calls create_streams l ≡ go l')
        × (bound l'.world
            ≡ (bound l.world ++ ports_from (pos (suc p)) 0 (suc k))
              ++ ports_from (pos (suc p + k)) 0 (suc k))
  unfolding handle_state_client
  handle_state_client-create_streams calls p k l binds mode port n =
      let a = iperf_create_streams-Bound calls true (suc k) l binds n in
      let behind = port_behind l.ctl.bind_port 0 (suc k) l.ctl.bind_port in
      let l1 : Local W = record { ctl = set_port l.ctl behind; world = a.0 } in
      let b = iperf_create_streams-Bound calls false (suc k) l1 binds n in
      let last =
        ap (λ t. port_behind t 0 (suc k) t) port
        ∙ port_behind-last p 0 k (pos (suc p))
        ∙ ap pos (omega arith) in
      (
        record { ctl = set_port l.ctl (port_behind behind 0 (suc k) behind); world = b.0 },
        ap
              (λ m.
                if same_mode m bidirectional_mode
                then create_both calls l
                else iperf_create_streams calls (is_sending m) l)
              mode
            ∙ ap (λ t. t >>= iperf_create_streams calls false) a.1
            ∙ b.1,
        b.2
            ∙ ap (λ t. t ++ ports_from behind 0 (suc k)) a.2
            ∙ ap (λ t. (bound l.world ++ ports_from t 0 (suc k)) ++ ports_from behind 0 (suc k))
                port
            ∙ ap
                (λ t.
                  (bound l.world ++ ports_from (pos (suc p)) 0 (suc k)) ++ ports_from t 0 (suc k))
                last,
      )
