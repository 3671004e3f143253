-- ===== src/Params/Examples.antt =====
-- The exchange of parameters with objects that are lists, for a client in reverse mode.
use sber_wifi.Prelude.{
  ◌≡◌, refl, true, false, Option, none, some, List, [], ◌∷◌, ◌++◌, arith, if◌then◌else◌,
}
use sber_wifi.Prelude.Int.{ℤ, pos, negsuc}
use sber_wifi.Prelude.Numbers.{whole_numbers}
use sber_wifi.Libc.{Text, same_ignoring_case}
use sber_wifi.Dscp.{codes}
use sber_wifi.Test.{Test, Settings, tcp, udp, unspec, receiver}
use sber_wifi.Json.{Json, JsonLaws, or_else, keep_if}
use sber_wifi.Params.{send_parameters, get_parameters}
use sber_wifi.Params.Exchange.{Sendable, Fresh, Mirrors, get_parameters-send_parameters}

pub data ListItem : Type 0 where
  true_item : ListItem
  number_item : ℤ → ListItem
  string_item : Text → ListItem

abbrev pub item_int : ListItem → ℤ
item_int (number_item n) = n
item_int _ = pos 0

abbrev pub item_string : ListItem → Option Text
item_string (string_item s) = some s
item_string _ = none

unfoldable pub lookup : Text → List (Text × ListItem) → Option ListItem
lookup name [] = none
lookup name ((name', item) ∷ rest) =
    if same_ignoring_case name name' then some item else lookup name rest

abbrev pub lists : Json
unfolding lookup
lists = record {
  Object = List (Text × ListItem);
  Item = ListItem;
  create_object = [];
  add_item = λ name item o. o ++ (name, item) ∷ [];
  get_item = lookup;
  create_true = true_item;
  create_number = number_item;
  create_string = string_item;
  valueint = item_int;
  valuestring = item_string;
}

lookup-append :
    (name name' : Text) (item : ListItem) (o : List (Text × ListItem))
    → lookup name (o ++ (name', item) ∷ [])
      ≡ or_else (lookup name o) (keep_if (same_ignoring_case name name') item)
unfolding lookup
lookup-append name name' item [] = ground arith
lookup-append name name' item ((other, x) ∷ o) = ground (arith, lookup-append name name' item o)

pub lists-JsonLaws : JsonLaws lists
unfolding lookup
lists-JsonLaws = record {
  get_create = λ name. refl;
  get_add = lookup-append;
  number = λ n h. refl;
  string = λ text. refl;
}

abbrev pub plain_settings : Settings
plain_settings = record {
  domain = unspec;
  socket_bufsize = pos 0;
  blksize = pos 131072;
  rate = 0;
  fqrate = 0;
  pacing_timer = pos 1000;
  burst = pos 0;
  mss = pos 0;
  tos = pos 0;
  flowlabel = pos 0;
  bytes = 0;
  blocks = 0;
  unit_format = b'a';
  num_ostreams = pos 0;
  connect_timeout = negsuc 0;
}

-- A test after iperf_defaults.
abbrev pub plain_test : Test whole_numbers
plain_test = record {
  role = 0;
  mode = receiver;
  sender_has_retransmits = pos 0;
  protocol = tcp;
  protocols = tcp ∷ udp ∷ [];
  server_hostname = none;
  bind_address = none;
  bind_port = pos 0;
  server_port = pos 5201;
  omit = pos 0;
  duration = pos 10;
  diskfile_name = none;
  server_affinity = negsuc 0;
  title = none;
  extra_data = none;
  congestion = none;
  congestion_used = none;
  pidfile = none;
  logfile = none;
  xbind_addrs = [];
  daemon = false;
  one_off = false;
  no_delay = false;
  reverse = false;
  bidirectional = false;
  verbose = false;
  json_output = false;
  zerocopy = false;
  debug = false;
  get_server_output = false;
  udp_counters_64bit = false;
  forceflush = false;
  repeating_payload = false;
  stats_interval = 1;
  reporter_interval = 1;
  num_streams = pos 1;
  settings = plain_settings;
}

abbrev pub server_test : Test whole_numbers
server_test = record plain_test { role = b's' }

abbrev pub client_test : Test whole_numbers
client_test = record plain_test {
  role = b'c';
  protocol = udp;
  reverse = true;
  no_delay = true;
  udp_counters_64bit = true;
  title = some (codes "test");
  omit = pos 2;
  num_streams = pos 4;
  settings = record plain_settings { blksize = pos 1460; rate = 5000000; tos = pos 32 };
}

pub client-Sendable : Sendable whole_numbers lists true client_test
client-Sendable = record {
  protocol = ground arith;
  omit = (omega arith, omega arith);
  duration = (omega arith, omega arith);
  num_streams = (omega arith, omega arith);
  mss = (omega arith, omega arith);
  window = (omega arith, omega arith);
  blksize = (omega arith, omega arith);
  pacing_timer = (omega arith, omega arith);
  burst = (omega arith, omega arith);
  tos = (omega arith, omega arith);
  server_affinity = (omega arith, omega arith);
  flowlabel = (omega arith, omega arith);
  fqrate = omega arith;
  bytes = omega arith;
  blocks = omega arith;
  rate = omega arith;
}

server-Fresh : Fresh whole_numbers lists true server_test
server-Fresh = record {
  protocols = refl;
  role = refl;
  mode = refl;
  reverse = refl;
  bidirectional = refl;
  mss = refl;
  window = refl;
  burst = refl;
  tos = refl;
  bytes = refl;
  blocks = refl;
  rate = refl;
}

get_parameters-send_parameters_example : Mirrors whole_numbers lists true client_test server_test (
    get_parameters whole_numbers lists true
      (send_parameters whole_numbers lists true (codes "3.7") client_test)
      server_test)
get_parameters-send_parameters_example =
    get_parameters-send_parameters whole_numbers lists lists-JsonLaws true (codes "3.7") client_test
      server_test client-Sendable server-Fresh
