-- ===== src/Test.antt =====
-- app/src/main/cpp/iperf/iperf.h and iperf_api.c: the configuration in struct iperf_test, and the
-- functions that set it. An `int` that the program compares or computes with is an integer, a flag
-- is a Bool, a `char *` is an optional text, `double` is the parameter `F`.
pub mod Direction
use sber_wifi.Prelude.{
  ℕ, Bool, true, false, not, ◌&&◌, Option, none, some, List, [], ◌∷◌, ◌==◌, if◌then◌else◌,
}
use sber_wifi.Prelude.Int.{ℤ, pos, negsuc}
use sber_wifi.Prelude.Float.{Float}
use sber_wifi.Libc.{Text}

-- enum iperf_mode
pub data Mode : Type 0 where
  sender receiver bidirectional_mode : Mode

-- Ptcp, Pudp and Psctp: the `id` of a struct protocol
pub data ProtocolId : Type 0 where
  tcp udp sctp : ProtocolId

-- AF_UNSPEC, AF_INET and AF_INET6
pub data Domain : Type 0 where
  unspec inet inet6 : Domain

pub record Settings : Type 0 where
  pub domain : Domain
  pub socket_bufsize : ℤ
  pub blksize : ℤ
  pub rate : ℕ
  pub fqrate : ℕ
  pub pacing_timer : ℤ
  pub burst : ℤ
  pub mss : ℤ
  pub tos : ℤ
  pub flowlabel : ℤ
  pub bytes : ℕ
  pub blocks : ℕ
  pub unit_format : ℕ
  pub num_ostreams : ℤ
  pub connect_timeout : ℤ

pub record Test (F : Float) : Type 0 where
  pub role : ℕ
  pub mode : Mode
  pub sender_has_retransmits : ℤ
  pub protocol : ProtocolId
  pub protocols : List ProtocolId
  pub server_hostname : Option Text
  pub bind_address : Option Text
  pub bind_port : ℤ
  pub server_port : ℤ
  pub omit : ℤ
  pub duration : ℤ
  pub diskfile_name : Option Text
  pub server_affinity : ℤ
  pub title : Option Text
  pub extra_data : Option Text
  pub congestion : Option Text
  pub congestion_used : Option Text
  pub pidfile : Option Text
  pub logfile : Option Text
  pub xbind_addrs : List Text
  pub daemon : Bool
  pub one_off : Bool
  pub no_delay : Bool
  pub reverse : Bool
  pub bidirectional : Bool
  pub verbose : Bool
  pub json_output : Bool
  pub zerocopy : Bool
  pub debug : Bool
  pub get_server_output : Bool
  pub udp_counters_64bit : Bool
  pub forceflush : Bool
  pub repeating_payload : Bool
  pub stats_interval : F.Double
  pub reporter_interval : F.Double
  pub num_streams : ℤ
  pub settings : Settings

abbrev pub same_protocol : ProtocolId → ProtocolId → Bool
same_protocol tcp tcp = true
same_protocol udp udp = true
same_protocol sctp sctp = true
same_protocol _ _ = false

abbrev pub is_receiver : Mode → Bool
is_receiver receiver = true
is_receiver _ = false

-- The search of get_protocol and set_protocol.
unfoldable pub find_protocol : ProtocolId → List ProtocolId → Option ProtocolId
find_protocol id [] = none
find_protocol id (p ∷ rest) = if same_protocol p id then some p else find_protocol id rest

-- `retransmits` is has_tcpinfo_retransmits(), which the headers of the platform decide.
module _ (F : Float) (retransmits : Bool) where
  unfoldable pub check_sender_has_retransmits : Test F → Test F
  check_sender_has_retransmits ipt =
      if not (is_receiver ipt.mode) && same_protocol ipt.protocol tcp && retransmits
      then record ipt { sender_has_retransmits = pos 1 }
      else record ipt { sender_has_retransmits = pos 0 }

  -- What the two functions below make of the mode.
  abbrev forward_mode : ℕ → Mode → Mode
  forward_mode role mode = if role == b'c' then sender else if role == b's' then receiver else mode

  abbrev reverse_mode : ℕ → Mode → Mode
  reverse_mode role mode = if role == b'c' then receiver else if role == b's' then sender else mode

  unfoldable pub iperf_set_test_role : ℕ → Test F → Test F
  unfolding check_sender_has_retransmits
  iperf_set_test_role role ipt = check_sender_has_retransmits (record ipt {
    role = role;
    mode =
        if not ipt.reverse
        then if ipt.bidirectional then bidirectional_mode else forward_mode role ipt.mode
        else reverse_mode role ipt.mode;
  })

  unfoldable pub iperf_set_test_reverse : Bool → Test F → Test F
  unfolding check_sender_has_retransmits
  iperf_set_test_reverse reverse ipt = check_sender_has_retransmits (record ipt {
    reverse = reverse;
    mode = if not reverse then forward_mode ipt.role ipt.mode else reverse_mode ipt.role ipt.mode;
  })

  unfoldable pub iperf_set_test_bidirectional : Bool → Test F → Test F
  unfolding iperf_set_test_reverse
  iperf_set_test_bidirectional bidirectional ipt =
      let ipt' : Test F = record ipt { bidirectional = bidirectional } in
      if bidirectional
      then record ipt' { mode = bidirectional_mode }
      else iperf_set_test_reverse ipt.reverse ipt'

  -- The returned number and the test; on -1 i_errno is IEPROTOCOL.
  unfoldable pub set_protocol : ProtocolId → Test F → ℤ × Test F
  unfolding find_protocol check_sender_has_retransmits
  set_protocol id test = elim (find_protocol id test.protocols) [
    | some p ↦ (pos 0, check_sender_has_retransmits (record test { protocol = p }))
    | none ↦ (negsuc 0, test)
  ]
