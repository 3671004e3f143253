-- ===== src/Params.antt =====
-- app/src/main/cpp/iperf/iperf_api.c: iperf_defaults, and the parameters of a test as the client
-- sends them (send_parameters) and the server takes them over (get_parameters). The object that
-- the one hands to JSON_write is the object that the other has from JSON_read. A flag is a Bool, so
-- the numbers 1 that send_parameters writes for a flag are written out.
pub mod Items
pub mod Others
pub mod Exchange
pub mod Examples
use sber_wifi.Prelude.{
  ℕ, ◌-◌, ◌*◌, ◌%◌, ◌^◌, Bool, true, false, not, ◌&&◌, ◌||◌, Option, none, some, [], ◌∷◌, ◌==◌,
  if◌then◌else◌,
}
use sber_wifi.Prelude.Int.{ℤ, pos, negsuc, eq_ℤ}
use sber_wifi.Prelude.Float.{Float}
use sber_wifi.Libc.{Text, int_of_long}
use sber_wifi.Dscp.{codes}
use sber_wifi.Test.{
  Test, Settings, tcp, udp, sctp, unspec, ProtocolId, same_protocol, is_receiver, set_protocol,
  iperf_set_test_reverse, iperf_set_test_bidirectional,
}
use sber_wifi.Json.{Json, Fields, add_fields}

-- The conversion of an int64_t to a uint64_t.
unfoldable pub u64_of : ℤ → ℕ
u64_of (pos n) = n % 2 ^ 64
u64_of (negsuc n) = 2 ^ 64 - 1 - n % 2 ^ 64

abbrev pub is_set : {A : Type 0} → Option A → Bool
is_set (some a) = true
is_set none = false

-- What a zeroed test has after iperf_defaults; the other fields stay as they are.
unfoldable pub iperf_defaults : (F : Float) → Bool → Test F → Test F
unfolding set_protocol
iperf_defaults F retransmits testp =
    (set_protocol F retransmits tcp (record testp {
      omit = pos 0;
      duration = pos 10;
      diskfile_name = none;
      server_affinity = negsuc 0;
      xbind_addrs = [];
      title = none;
      extra_data = none;
      congestion = none;
      congestion_used = none;
      server_port = pos 5201;
      stats_interval = F.of_ℕ 1;
      reporter_interval = F.of_ℕ 1;
      num_streams = pos 1;
      settings = (record testp.settings {
        domain = unspec;
        unit_format = b'a';
        socket_bufsize = pos 0;
        blksize = pos (128 * 1024);
        rate = 0;
        fqrate = 0;
        pacing_timer = pos 1000;
        burst = pos 0;
        mss = pos 0;
        bytes = 0;
        blocks = 0;
        connect_timeout = negsuc 0;
      });
      protocols = tcp ∷ udp ∷ [];
    })).1

module _ (F : Float) (J : Json) (retransmits : Bool) where
  abbrev number : ℤ → J.Item
  number n = J.create_number n

  abbrev text : Option Text → J.Item
  text (some s) = J.create_string s
  text none = J.create_true

  abbrev nonzero : ℤ → Bool
  nonzero n = not (eq_ℤ n (pos 0))

  abbrev positive : ℕ → Bool
  positive n = not (n == 0)

  -- The calls of cJSON_Add...ToObject, in their order, each with its `if`.
  unfoldable pub parameters : Text → Test F → Fields J
  parameters iperf_version test =
      let s = test.settings in
      (same_protocol test.protocol tcp, codes "tcp", J.create_true)
      ∷ (same_protocol test.protocol udp, codes "udp", J.create_true)
      ∷ (same_protocol test.protocol sctp, codes "sctp", J.create_true)
      ∷ (true, codes "omit", number test.omit)
      ∷ (
        not (eq_ℤ test.server_affinity (negsuc 0)),
        codes "server_affinity",
        number test.server_affinity,
      )
      ∷ (true, codes "time", number test.duration)
      ∷ (positive s.bytes, codes "num", number (pos s.bytes))
      ∷ (positive s.blocks, codes "blockcount", number (pos s.blocks))
      ∷ (nonzero s.mss, codes "MSS", number s.mss)
      ∷ (test.no_delay, codes "nodelay", J.create_true)
      ∷ (true, codes "parallel", number test.num_streams)
      ∷ (test.reverse, codes "reverse", J.create_true)
      ∷ (test.bidirectional, codes "bidirectional", J.create_true)
      ∷ (nonzero s.socket_bufsize, codes "window", number s.socket_bufsize)
      ∷ (nonzero s.blksize, codes "len", number s.blksize)
      ∷ (positive s.rate, codes "bandwidth", number (pos s.rate))
      ∷ (positive s.fqrate, codes "fqrate", number (pos s.fqrate))
      ∷ (nonzero s.pacing_timer, codes "pacing_timer", number s.pacing_timer)
      ∷ (nonzero s.burst, codes "burst", number s.burst)
      ∷ (nonzero s.tos, codes "TOS", number s.tos)
      ∷ (nonzero s.flowlabel, codes "flowlabel", number s.flowlabel)
      ∷ (is_set test.title, codes "title", text test.title)
      ∷ (is_set test.extra_data, codes "extra_data", text test.extra_data)
      ∷ (is_set test.congestion, codes "congestion", text test.congestion)
      ∷ (is_set test.congestion_used, codes "congestion_used", text test.congestion_used)
      ∷ (test.get_server_output, codes "get_server_output", number (pos 1))
      ∷ (test.udp_counters_64bit, codes "udp_counters_64bit", number (pos 1))
      ∷ (test.repeating_payload, codes "repeating_payload", number (pos 1))
      ∷ (true, codes "client_version", J.create_string iperf_version)
      ∷ []

  -- The object that send_parameters writes. The version is a constant of the build.
  unfoldable pub send_parameters : Text → Test F → J.Object
  unfolding parameters add_fields
  send_parameters iperf_version test = add_fields J (parameters iperf_version test) J.create_object

  -- `if ((j_p = cJSON_GetObjectItem(j, name)) != NULL) x = j_p->value...` for the kinds of x.
  unfoldable pub int_or : Option J.Item → ℤ → ℤ
  int_or none old = old
  int_or (some j_p) old = int_of_long (J.valueint j_p)

  unfoldable pub u64_or : Option J.Item → ℕ → ℕ
  unfolding u64_of
  u64_or none old = old
  u64_or (some j_p) old = u64_of (J.valueint j_p)

  unfoldable pub text_or : Option J.Item → Option Text → Option Text
  text_or none old = old
  text_or (some j_p) old = J.valuestring j_p

  abbrev pub flag_or : Option J.Item → Bool → Bool
  flag_or j_p old = is_set j_p || old

  abbrev protocol_if : Option J.Item → ProtocolId → Test F → Test F
  protocol_if none id test = test
  protocol_if (some j_p) id test = (set_protocol F retransmits id test).1

  unfoldable pub take_protocol : J.Object → Test F → Test F
  take_protocol j test = protocol_if (J.get_item (codes "sctp") j) sctp (
      protocol_if (J.get_item (codes "udp") j) udp
        (protocol_if (J.get_item (codes "tcp") j) tcp test))

  abbrev reverse_if : Option J.Item → Test F → Test F
  reverse_if none test = test
  reverse_if (some j_p) test = iperf_set_test_reverse F retransmits true test

  abbrev bidirectional_if : Option J.Item → Test F → Test F
  bidirectional_if none test = test
  bidirectional_if (some j_p) test = iperf_set_test_bidirectional F retransmits true test

  unfoldable pub take_direction : J.Object → Test F → Test F
  take_direction j test =
      bidirectional_if (J.get_item (codes "bidirectional") j)
        (reverse_if (J.get_item (codes "reverse") j) test)

  -- The fields that take a value of their own, up to the direction and from there on.
  unfoldable pub take_head : J.Object → Test F → Test F
  unfolding int_or u64_or
  take_head j test =
      let s : Settings = test.settings in
      record test {
        omit = int_or (J.get_item (codes "omit") j) test.omit;
        server_affinity = int_or (J.get_item (codes "server_affinity") j) test.server_affinity;
        duration = int_or (J.get_item (codes "time") j) test.duration;
        settings = (record s {
          bytes = u64_or (J.get_item (codes "num") j) s.bytes;
          blocks = u64_or (J.get_item (codes "blockcount") j) s.blocks;
          mss = int_or (J.get_item (codes "MSS") j) s.mss;
        });
        no_delay = flag_or (J.get_item (codes "nodelay") j) test.no_delay;
        num_streams = int_or (J.get_item (codes "parallel") j) test.num_streams;
      }

  unfoldable pub take_tail : J.Object → Test F → Test F
  unfolding int_or u64_or text_or
  take_tail j test =
      let s : Settings = test.settings in
      record test {
        settings = (record s {
          socket_bufsize = int_or (J.get_item (codes "window") j) s.socket_bufsize;
          blksize = int_or (J.get_item (codes "len") j) s.blksize;
          rate = u64_or (J.get_item (codes "bandwidth") j) s.rate;
          fqrate = u64_or (J.get_item (codes "fqrate") j) s.fqrate;
          pacing_timer = int_or (J.get_item (codes "pacing_timer") j) s.pacing_timer;
          burst = int_or (J.get_item (codes "burst") j) s.burst;
          tos = int_or (J.get_item (codes "TOS") j) s.tos;
          flowlabel = int_or (J.get_item (codes "flowlabel") j) s.flowlabel;
        });
        title = text_or (J.get_item (codes "title") j) test.title;
        extra_data = text_or (J.get_item (codes "extra_data") j) test.extra_data;
        congestion = text_or (J.get_item (codes "congestion") j) test.congestion;
        congestion_used = text_or (J.get_item (codes "congestion_used") j) test.congestion_used;
        get_server_output =
            flag_or (J.get_item (codes "get_server_output") j) test.get_server_output;
        udp_counters_64bit =
            flag_or (J.get_item (codes "udp_counters_64bit") j) test.udp_counters_64bit;
        repeating_payload =
            flag_or (J.get_item (codes "repeating_payload") j) test.repeating_payload;
      }

  -- The test after get_parameters has read the object.
  unfoldable pub get_parameters : J.Object → Test F → Test F
  unfolding take_protocol take_head take_direction take_tail
  get_parameters j test =
      let t : Test F = take_tail j (take_direction j (take_head j (take_protocol j test))) in
      let counts = not (is_receiver t.mode) && same_protocol t.protocol tcp && retransmits in
      record t { sender_has_retransmits = if counts then pos 1 else t.sender_has_retransmits }
