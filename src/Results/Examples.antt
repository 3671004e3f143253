-- ===== src/Results/Examples.antt =====
-- A server that has sent over two streams and a client that has received, with cJSON as lists.
use sber_wifi.Prelude.{
  ℕ, ◌≤◌, ◌≡◌, refl, ap, Bool, true, false, Option, none, some, List, [], ◌∷◌, ◌++◌, arith,
  if◌then◌else◌,
}
use sber_wifi.Prelude.Int.{ℤ, pos}
use sber_wifi.Prelude.Numbers.{whole_numbers}
use sber_wifi.Libc.{Text, same_ignoring_case}
use sber_wifi.Dscp.{codes}
use sber_wifi.Time.{IperfTime}
use sber_wifi.Test.{Mode, receiver, sender}
use sber_wifi.Json.{Json, JsonLaws, or_else, keep_if}
use sber_wifi.Ids.{Numbered}
use sber_wifi.Results.{JsonMore, StreamResults, ResultsTest, send_results}
use sber_wifi.Results.Reading.{get_results}
use sber_wifi.Results.Reports.{MoreLaws, IsInt, Fits}
use sber_wifi.Results.Loop.{Paired, AllFit, Absent}
use sber_wifi.Results.Exchanged.{exchanged, get_results-send_results}

mutual
  -- An item, an object and an array, of cJSON.
  data Node : Type 0 where
    true_node : Node
    number_node : ℤ → Node
    text_node : Text → Node
    double_node : ℕ → Node
    array_node : Nodes → Node

  data Object : Type 0 where
    empty : Object
    field : Text → Node → Object → Object

  data Nodes : Type 0 where
    no_objects : Nodes
    object : Object → Nodes → Nodes

abbrev int_of : Node → ℤ
int_of (number_node n) = n
int_of _ = pos 0

abbrev text_of : Node → Option Text
text_of (text_node s) = some s
text_of _ = none

abbrev double_of : Node → ℕ
double_of (double_node d) = d
double_of _ = 0

unfoldable objects_of : Nodes → List Object
objects_of no_objects = []
objects_of (object o rest) = o ∷ objects_of rest

abbrev items_of : Node → List Object
items_of (array_node l) = objects_of l
items_of _ = []

-- New fields and objects stand at the end.
unfoldable lookup : Text → Object → Option Node
unfolding same_ignoring_case
lookup name empty = none
lookup name (field name' item rest) =
    if same_ignoring_case name name' then some item else lookup name rest

unfoldable append_field : Text → Node → Object → Object
append_field name item empty = field name item empty
append_field name item (field name' item' rest) = field name' item' (append_field name item rest)

unfoldable append_object : Object → Nodes → Nodes
append_object o no_objects = object o no_objects
append_object o (object o' rest) = object o' (append_object o rest)

abbrev nodes : Json
nodes = record {
  Object = Object;
  Item = Node;
  create_object = empty;
  add_item = append_field;
  get_item = lookup;
  create_true = true_node;
  create_number = number_node;
  create_string = text_node;
  valueint = int_of;
  valuestring = text_of;
}

abbrev more_nodes : JsonMore nodes whole_numbers
more_nodes = record {
  Array = Nodes;
  create_array = no_objects;
  add_to_array = append_object;
  array_item = array_node;
  array_items = items_of;
  create_double = double_node;
  valuedouble = double_of;
}

lookup-append_field :
    (name name' : Text) (item : Node) (o : Object)
    → lookup name (append_field name' item o)
      ≡ or_else (lookup name o) (keep_if (same_ignoring_case name name') item)
unfolding lookup append_field
lookup-append_field name name' item empty = ground arith
lookup-append_field name name' item (field other x o) =
    ground (arith, lookup-append_field name name' item o)

objects_of-append_object :
    (o : Object) (l : Nodes) → objects_of (append_object o l) ≡ objects_of l ++ (o ∷ [])
unfolding objects_of append_object
objects_of-append_object o no_objects = refl
objects_of-append_object o (object o' l) = ap (λ x. o' ∷ x) (objects_of-append_object o l)

nodes-JsonLaws : JsonLaws nodes
unfolding lookup
nodes-JsonLaws = record {
  get_create = λ name. refl;
  get_add = lookup-append_field;
  number = λ n h. refl;
  string = λ text. refl;
}

more_nodes-MoreLaws : MoreLaws nodes whole_numbers more_nodes
unfolding objects_of
more_nodes-MoreLaws = record {
  double = λ d. refl;
  no_items = refl;
  more_items = objects_of-append_object;
}

abbrev at : ℕ → IperfTime
at s = record { secs = s; usecs = 0 }

abbrev stream : ℕ → Bool → ℕ → Numbered (StreamResults whole_numbers)
stream id sends bytes = record {
  id = id;
  stream = record {
    sender = sends;
    bytes_sent = if sends then bytes else 0;
    bytes_sent_omit = 0;
    bytes_received = if sends then 0 else bytes;
    stream_retrans = pos 7;
    jitter = 0;
    cnt_error = pos 0;
    packet_count = pos 12;
    peer_packet_count = pos 0;
    start_time = at 100;
    end_time = at 110;
    receiver_time = 0;
    sender_time = 0;
  };
}

abbrev test :
    Bool → Mode → List (Numbered (StreamResults whole_numbers)) → ResultsTest whole_numbers nodes
test is_server mode streams = record {
  mode = mode;
  is_server = is_server;
  cpu_util_total = 9;
  cpu_util_user = 5;
  cpu_util_system = 4;
  remote_total = 0;
  remote_user = 0;
  remote_system = 0;
  sender_has_retransmits = pos 1;
  other_side_has_retransmits = pos 0;
  congestion_used = some (codes "cubic");
  remote_congestion_used = none;
  get_server_output = true;
  json_output = false;
  json_top = true_node;
  server_output_list = codes "one" ∷ codes "two" ∷ [];
  json_server_output = none;
  server_output_text = none;
  streams = streams;
}

abbrev sending_server : ResultsTest whole_numbers nodes
sending_server = test true sender (stream 1 true 1000 ∷ stream 3 true 2000 ∷ [])

abbrev receiving_client : ResultsTest whole_numbers nodes
receiving_client = test false receiver (stream 1 false 900 ∷ stream 3 false 1900 ∷ [])

server_stream-Fits :
    (id bytes : ℕ)
    → id ≤ 10
    → bytes ≤ 10000
    → Fits whole_numbers nodes more_nodes nodes-JsonLaws more_nodes-MoreLaws
        (pos 1)
        (stream id true bytes)
unfolding IsInt
server_stream-Fits id bytes small few = record {
  id = (omega arith, omega arith);
  errors = (omega arith, omega arith);
  packets = (omega arith, omega arith);
  retransmits = (omega arith, omega arith);
  bytes = omega arith;
}

get_results-send_results_example :
    get_results whole_numbers nodes more_nodes
      (some (send_results whole_numbers nodes more_nodes sending_server))
      receiving_client
    ≡ (
      none,
      exchanged whole_numbers nodes more_nodes nodes-JsonLaws more_nodes-MoreLaws sending_server
          receiving_client,
    )
unfolding IsInt Paired AllFit Absent
get_results-send_results_example =
    get_results-send_results whole_numbers nodes more_nodes nodes-JsonLaws more_nodes-MoreLaws
      sending_server receiving_client (refl, (ground arith, tt), (refl, tt, refl))
      (
        server_stream-Fits 1 1000 (omega arith) (omega arith),
        (server_stream-Fits 3 2000 (omega arith) (omega arith), tt),
      )
      (omega arith, omega arith)
