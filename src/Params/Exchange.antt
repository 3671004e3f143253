-- ===== src/Params/Exchange.antt =====
-- iperf_api.c: the test of the server after iperf_exchange_parameters, compared with the client's.
use sber_wifi.Prelude.{
  ℕ, ◌^◌, ◌≤◌, ◌≡◌, ap, ◌∙◌, ◌≢◌, Bool, false, not, none, [], ◌∷◌, arith, ◌==◌, if◌then◌else◌,
}
use sber_wifi.Prelude.Int.{ℤ, pos, eq_ℤ}
use sber_wifi.Prelude.Float.{Float}
use sber_wifi.Libc.{Text, same_ignoring_case, to_lower}
use sber_wifi.Dscp.{codes}
use sber_wifi.Test.{
  Test, ProtocolId, tcp, udp, sctp, receiver, same_protocol, set_protocol, find_protocol,
  iperf_set_test_reverse, iperf_set_test_bidirectional, check_sender_has_retransmits,
}
use sber_wifi.Test.Direction.{mode_of}
use sber_wifi.Json.{Json, JsonLaws, first_field, keep_if, or_else}
use sber_wifi.Params.{
  parameters, send_parameters, take_protocol, take_direction, take_head, take_tail, get_parameters,
}
use sber_wifi.Params.Others.{
  only_protocol, only_direction, MirrorsOthers, get_parameters-MirrorsOthers,
}
use sber_wifi.Params.Items.{
  IsInt, got, omit_read, duration_read, num_streams_read, mss_read, socket_bufsize_read,
  blksize_read, pacing_timer_read, burst_read, tos_read, bytes_read, blocks_read, rate_read,
}

defaulted_ℤ : (x n old : ℤ) → x ≡ (if not (eq_ℤ n (pos 0)) then n else old) → old ≡ pos 0 → x ≡ n
defaulted_ℤ x n old e zero_old = ground arith

defaulted_ℕ : (x n old : ℕ) → x ≡ (if not (n == 0) then n else old) → old ≡ 0 → x ≡ n
defaulted_ℕ x n old e zero_old = ground arith

module _ (F : Float) (J : Json) (retransmits : Bool) where
  direction_lem :
      (j : J.Object) (t : Test F) (reverse bidirectional : Bool)
      → t.role ≡ b's'
      → t.mode ≡ receiver
      → t.reverse ≡ false
      → t.bidirectional ≡ false
      → J.get_item (codes "reverse") j ≡ or_else (keep_if reverse J.create_true) none
      → J.get_item (codes "bidirectional") j ≡ or_else (keep_if bidirectional J.create_true) none
      → let t' = take_direction F J retransmits j t in
        (t'.mode ≡ mode_of b's' reverse bidirectional)
        × (t'.reverse ≡ reverse)
        × (t'.bidirectional ≡ bidirectional)
  unfolding take_direction iperf_set_test_reverse iperf_set_test_bidirectional
      check_sender_has_retransmits mode_of
  direction_lem j t reverse bidirectional role mode r b e1 e2 =
      (ground arith, ground arith, ground arith)

  protocol_lem :
      (j : J.Object) (t : Test F) (id : ProtocolId)
      → t.protocols ≡ tcp ∷ udp ∷ []
      → id ≢ sctp
      → J.get_item (codes "tcp") j ≡ or_else (keep_if (same_protocol id tcp) J.create_true) none
      → J.get_item (codes "udp") j ≡ or_else (keep_if (same_protocol id udp) J.create_true) none
      → J.get_item (codes "sctp") j ≡ or_else (keep_if (same_protocol id sctp) J.create_true) none
      → (take_protocol F J retransmits j t).protocol ≡ id
  unfolding take_protocol set_protocol check_sender_has_retransmits find_protocol
  protocol_lem j t id known other e1 e2 e3 = ground arith

  -- The numbers of a client that a `double` and an `int` hold, and a protocol of this build.
  pub record Sendable (c : Test F) : Type 0 where
    pub protocol : c.protocol ≢ sctp
    pub omit : IsInt c.omit
    pub duration : IsInt c.duration
    pub num_streams : IsInt c.num_streams
    pub mss : IsInt c.settings.mss
    pub window : IsInt c.settings.socket_bufsize
    pub blksize : IsInt c.settings.blksize
    pub pacing_timer : IsInt c.settings.pacing_timer
    pub burst : IsInt c.settings.burst
    pub tos : IsInt c.settings.tos
    pub server_affinity : IsInt c.server_affinity
    pub flowlabel : IsInt c.settings.flowlabel
    pub fqrate : c.settings.fqrate ≤ 2 ^ 53
    pub bytes : c.settings.bytes ≤ 2 ^ 53
    pub blocks : c.settings.blocks ≤ 2 ^ 53
    pub rate : c.settings.rate ≤ 2 ^ 53

  -- A server that waits for parameters, with the defaults where the client may send none.
  pub record Fresh (s : Test F) : Type 0 where
    pub protocols : s.protocols ≡ tcp ∷ udp ∷ []
    pub role : s.role ≡ b's'
    pub mode : s.mode ≡ receiver
    pub reverse : s.reverse ≡ false
    pub bidirectional : s.bidirectional ≡ false
    pub mss : s.settings.mss ≡ pos 0
    pub window : s.settings.socket_bufsize ≡ pos 0
    pub burst : s.settings.burst ≡ pos 0
    pub tos : s.settings.tos ≡ pos 0
    pub bytes : s.settings.bytes ≡ 0
    pub blocks : s.settings.blocks ≡ 0
    pub rate : s.settings.rate ≡ 0

  -- The server's test `t` has what the client's test `c` sends, in the other direction, and the rest
  -- from the server's test `s` before.
  pub record Mirrors (c s t : Test F) : Type 0 where
    pub role : t.role ≡ s.role
    pub protocol : t.protocol ≡ c.protocol
    pub mode : t.mode ≡ mode_of b's' c.reverse c.bidirectional
    pub reverse : t.reverse ≡ c.reverse
    pub bidirectional : t.bidirectional ≡ c.bidirectional
    pub omit : t.omit ≡ c.omit
    pub duration : t.duration ≡ c.duration
    pub num_streams : t.num_streams ≡ c.num_streams
    pub mss : t.settings.mss ≡ c.settings.mss
    pub window : t.settings.socket_bufsize ≡ c.settings.socket_bufsize
    pub blksize :
        t.settings.blksize
        ≡ (if not (eq_ℤ c.settings.blksize (pos 0)) then c.settings.blksize else s.settings.blksize)
    pub pacing_timer : t.settings.pacing_timer ≡ (
        if not (eq_ℤ c.settings.pacing_timer (pos 0))
        then c.settings.pacing_timer
        else s.settings.pacing_timer)
    pub burst : t.settings.burst ≡ c.settings.burst
    pub tos : t.settings.tos ≡ c.settings.tos
    pub bytes : t.settings.bytes ≡ c.settings.bytes
    pub blocks : t.settings.blocks ≡ c.settings.blocks
    pub rate : t.settings.rate ≡ c.settings.rate
    pub others : MirrorsOthers F J retransmits c s t

module _ (F : Float) (J : Json) (laws : JsonLaws J) (retransmits : Bool) (version : Text) where
  -- A client with Sendable numbers sends its parameters to a Fresh server: the server takes over
  -- the protocol, the direction and the numbers of the client, and its mode is the one that the
  -- direction asks of a server. What is not sent the server keeps of its own: a block size, pacing
  -- timer, fair-queue rate or flow label of 0, an affinity of -1, a text that is NULL. The flags for
  -- no delay, the output of the server, 64-bit counters and a repeating payload are set where either
  -- end has them set.
  pub get_parameters-send_parameters :
      (c s : Test F)
      → Sendable F J retransmits c
      → Fresh F J retransmits s
      → Mirrors F J retransmits c s
          (get_parameters F J retransmits (send_parameters F J retransmits version c) s)
  unfolding get_parameters take_head take_tail first_field parameters same_ignoring_case to_lower
  get_parameters-send_parameters c s v w =
      let j = send_parameters F J retransmits version c in
      let s1 = take_protocol F J retransmits j s in
      let s2 = take_head F J retransmits j s1 in
      let s3 = take_direction F J retransmits j s2 in
      let p = only_protocol F J retransmits j s in
      let d = only_direction F J retransmits j s2 in
      let same : s3.settings ≡ s2.settings = ap (λ t. t.settings) d in
      let before : s1.settings ≡ s.settings = ap (λ t. t.settings) p in
      let (mode, reverse, bidirectional) =
        direction_lem F J retransmits j s2 c.reverse c.bidirectional (ap (λ t. t.role) p ∙ w.role)
          (ap (λ t. t.mode) p ∙ w.mode) (ap (λ t. t.reverse) p ∙ w.reverse)
          (ap (λ t. t.bidirectional) p ∙ w.bidirectional)
          (got F J laws retransmits version (codes "reverse") c)
          (got F J laws retransmits version (codes "bidirectional") c) in
      record {
        role = ap (λ t. t.role) d ∙ ap (λ t. t.role) p;
        protocol =
            ap (λ t. t.protocol) d
            ∙ protocol_lem F J retransmits j s c.protocol w.protocols v.protocol
                (got F J laws retransmits version (codes "tcp") c)
                (got F J laws retransmits version (codes "udp") c)
                (got F J laws retransmits version (codes "sctp") c);
        mode = mode;
        reverse = reverse;
        bidirectional = bidirectional;
        omit = ap (λ t. t.omit) d ∙ omit_read F J laws retransmits version c s1.omit v.omit;
        duration =
            ap (λ t. t.duration) d
            ∙ duration_read F J laws retransmits version c s1.duration v.duration;
        num_streams =
            ap (λ t. t.num_streams) d
            ∙ num_streams_read F J laws retransmits version c s1.num_streams v.num_streams;
        mss =
            defaulted_ℤ _ c.settings.mss s1.settings.mss
              (ap (λ s. s.mss) same ∙ mss_read F J laws retransmits version c s1.settings.mss v.mss)
              (ap (λ s. s.mss) before ∙ w.mss);
        window =
            defaulted_ℤ _ c.settings.socket_bufsize s3.settings.socket_bufsize
              (socket_bufsize_read F J laws retransmits version c s3.settings.socket_bufsize
                v.window)
              (ap (λ s. s.socket_bufsize) same ∙ ap (λ s. s.socket_bufsize) before ∙ w.window);
        blksize =
            blksize_read F J laws retransmits version c s3.settings.blksize v.blksize
            ∙ ap (λ old. if not (eq_ℤ c.settings.blksize (pos 0)) then c.settings.blksize else old)
                (ap (λ s. s.blksize) same ∙ ap (λ s. s.blksize) before);
        pacing_timer =
            pacing_timer_read F J laws retransmits version c s3.settings.pacing_timer v.pacing_timer
            ∙ ap
                (λ old.
                  if not (eq_ℤ c.settings.pacing_timer (pos 0))
                  then c.settings.pacing_timer
                  else old)
                (ap (λ s. s.pacing_timer) same ∙ ap (λ s. s.pacing_timer) before);
        burst =
            defaulted_ℤ _ c.settings.burst s3.settings.burst
              (burst_read F J laws retransmits version c s3.settings.burst v.burst)
              (ap (λ s. s.burst) same ∙ ap (λ s. s.burst) before ∙ w.burst);
        tos =
            defaulted_ℤ _ c.settings.tos s3.settings.tos
              (tos_read F J laws retransmits version c s3.settings.tos v.tos)
              (ap (λ s. s.tos) same ∙ ap (λ s. s.tos) before ∙ w.tos);
        bytes =
            defaulted_ℕ _ c.settings.bytes s1.settings.bytes
              (ap (λ s. s.bytes) same
                ∙ bytes_read F J laws retransmits version c s1.settings.bytes v.bytes)
              (ap (λ s. s.bytes) before ∙ w.bytes);
        blocks =
            defaulted_ℕ _ c.settings.blocks s1.settings.blocks
              (ap (λ s. s.blocks) same
                ∙ blocks_read F J laws retransmits version c s1.settings.blocks v.blocks)
              (ap (λ s. s.blocks) before ∙ w.blocks);
        rate =
            defaulted_ℕ _ c.settings.rate s3.settings.rate
              (rate_read F J laws retransmits version c s3.settings.rate v.rate)
              (ap (λ s. s.rate) same ∙ ap (λ s. s.rate) before ∙ w.rate);
        others =
            get_parameters-MirrorsOthers F J laws retransmits version c s v.server_affinity v.fqrate
              v.flowlabel;
      }
