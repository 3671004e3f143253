-- ===== src/Results.antt =====
-- app/src/main/cpp/iperf/iperf_api.c: send_results and get_results, the exchange of what the streams
-- have measured. The object goes through JSON_write and JSON_read, of Framing; what cJSON makes does
-- not fail here. What a debugging run prints is left out.
pub mod Reading
pub mod Reports
pub mod Loop
pub mod Exchanged
pub mod Examples
use sber_wifi.Prelude.{
  ℕ, ◌+◌, ◌-◌, ◌%◌, ◌^◌, Bool, true, false, not, ◌&&◌, Option, none, some, List, [], ◌∷◌, ◌++◌,
  if◌then◌else◌,
}
use sber_wifi.Prelude.Int.{ℤ, pos, negsuc, eq_ℤ}
use sber_wifi.Prelude.Float.{Float}
use sber_wifi.Libc.{Text}
use sber_wifi.Dscp.{codes}
use sber_wifi.Time.{IperfTime, iperf_time_diff}
use sber_wifi.Test.{Mode, receiver, bidirectional_mode}
use sber_wifi.Udp.{iperf_time_in_secs}
use sber_wifi.Json.{Json, Fields, add_fields}
use sber_wifi.Params.{is_set}
use sber_wifi.Ids.{Numbered}

-- What results need of cJSON beside Json: arrays of objects, and numbers that are doubles.
-- `array_items` is cJSON_GetArraySize and cJSON_GetArrayItem.
pub record JsonMore (J : Json) (F : Float) : Type 1 where
  pub Array : Type 0
  pub create_array : Array
  pub add_to_array : J.Object → Array → Array
  pub array_item : Array → J.Item
  pub array_items : J.Item → List J.Object
  pub create_double : F.Double → J.Item
  pub valuedouble : J.Item → F.Double

-- The fields of struct iperf_stream and of its result that the exchange reads or sets.
pub record StreamResults (F : Float) : Type 0 where
  pub sender : Bool
  pub bytes_sent : ℕ
  pub bytes_sent_omit : ℕ
  pub bytes_received : ℕ
  pub stream_retrans : ℤ
  pub jitter : F.Double
  pub cnt_error : ℤ
  pub packet_count : ℤ
  pub peer_packet_count : ℤ
  pub start_time : IperfTime
  pub end_time : IperfTime
  pub receiver_time : F.Double
  pub sender_time : F.Double

-- Those of struct iperf_test.
pub record ResultsTest (F : Float) (J : Json) : Type 0 where
  pub mode : Mode
  pub is_server : Bool
  pub cpu_util_total : F.Double
  pub cpu_util_user : F.Double
  pub cpu_util_system : F.Double
  pub remote_total : F.Double
  pub remote_user : F.Double
  pub remote_system : F.Double
  pub sender_has_retransmits : ℤ
  pub other_side_has_retransmits : ℤ
  pub congestion_used : Option Text
  pub remote_congestion_used : Option Text
  pub get_server_output : Bool
  pub json_output : Bool
  pub json_top : J.Item
  pub server_output_list : List Text
  pub json_server_output : Option J.Item
  pub server_output_text : Option Text
  pub streams : List (Numbered (StreamResults F))

abbrev pub is_receiver : Mode → Bool
is_receiver receiver = true
is_receiver _ = false

abbrev pub is_bidirectional : Mode → Bool
is_bidirectional bidirectional_mode = true
is_bidirectional _ = false

unfoldable pub joined : List Text → Text
joined [] = []
joined (line ∷ rest) = line ++ joined rest

module _ (F : Float) (J : Json) (M : JsonMore J F) where
  unfoldable pub seconds_between : IperfTime → IperfTime → F.Double
  unfolding iperf_time_in_secs iperf_time_diff
  seconds_between a b = iperf_time_in_secs F (iperf_time_diff a b).1

  abbrev pub bytes_of : StreamResults F → ℕ
  bytes_of sp =
      if sp.sender
      then (sp.bytes_sent + 2 ^ 64 - sp.bytes_sent_omit) % 2 ^ 64
      else sp.bytes_received

  abbrev pub retransmits_of : ℤ → StreamResults F → ℤ
  retransmits_of sender_has_retransmits sp =
      if sp.sender && not (eq_ℤ sender_has_retransmits (pos 0)) then sp.stream_retrans else negsuc 0

  unfoldable pub stream_fields : ℤ → Numbered (StreamResults F) → Fields J
  unfolding seconds_between
  stream_fields sender_has_retransmits n =
      let sp = n.stream in
      (true, codes "id", J.create_number (pos n.id))
      ∷ (true, codes "bytes", J.create_number (pos (bytes_of sp)))
      ∷ (true, codes "retransmits", J.create_number (retransmits_of sender_has_retransmits sp))
      ∷ (true, codes "jitter", M.create_double sp.jitter)
      ∷ (true, codes "errors", J.create_number sp.cnt_error)
      ∷ (true, codes "packets", J.create_number sp.packet_count)
      ∷ (true, codes "start_time", M.create_double (seconds_between sp.start_time sp.start_time))
      ∷ (true, codes "end_time", M.create_double (seconds_between sp.start_time sp.end_time))
      ∷ []

  unfoldable pub stream_object : ℤ → Numbered (StreamResults F) → J.Object
  unfolding stream_fields add_fields
  stream_object sender_has_retransmits n =
      add_fields J (stream_fields sender_has_retransmits n) J.create_object

  -- The loop of send_results over the streams.
  unfoldable pub add_streams_to : ℤ → List (Numbered (StreamResults F)) → M.Array → M.Array
  unfolding stream_object
  add_streams_to has [] j_streams = j_streams
  add_streams_to has (n ∷ rest) j_streams =
      add_streams_to has rest (M.add_to_array (stream_object has n) j_streams)

  abbrev pub text_item : Option Text → J.Item
  text_item none = J.create_string []
  text_item (some text) = J.create_string text

  unfoldable pub results_fields : ResultsTest F J → Fields J
  unfolding joined add_streams_to
  results_fields test =
      let has = if is_receiver test.mode then negsuc 0 else test.sender_has_retransmits in
      let output = test.is_server && test.get_server_output in
      (true, codes "cpu_util_total", M.create_double test.cpu_util_total)
      ∷ (true, codes "cpu_util_user", M.create_double test.cpu_util_user)
      ∷ (true, codes "cpu_util_system", M.create_double test.cpu_util_system)
      ∷ (true, codes "sender_has_retransmits", J.create_number has)
      ∷ (is_set test.congestion_used, codes "congestion_used", text_item test.congestion_used)
      ∷ (output && test.json_output, codes "server_output_json", test.json_top)
      ∷ (
        output && not test.json_output,
        codes "server_output_text",
        J.create_string (joined test.server_output_list),
      )
      ∷ (
        true,
        codes "streams",
        M.array_item (add_streams_to test.sender_has_retransmits test.streams M.create_array),
      )
      ∷ []

  -- The object that send_results writes.
  unfoldable pub send_results : ResultsTest F J → J.Object
  unfolding results_fields add_fields
  send_results test = add_fields J (results_fields test) J.create_object
