-- ===== src/Results/Reading.antt =====
-- iperf_api.c: get_results, which stores what the other end has sent.
use sber_wifi.Prelude.{ℕ, not, ◌&&◌, Option, none, some, List, [], ◌∷◌, if◌then◌else◌}
use sber_wifi.Prelude.Int.{ℤ, pos, eq_ℤ}
use sber_wifi.Prelude.Float.{Float}
use sber_wifi.Libc.{int_of_long}
use sber_wifi.Dscp.{codes}
use sber_wifi.Error.{IErr, ie_recvresults, ie_streamid}
use sber_wifi.Json.{Json}
use sber_wifi.Params.{u64_of}
use sber_wifi.Ids.{Numbered}
use sber_wifi.Results.{JsonMore, StreamResults, ResultsTest, is_receiver, is_bidirectional}

module _ (F : Float) (J : Json) (M : JsonMore J F) where
  -- What get_results reads of a stream.
  pub record Report : Type 0 where
    pub sid : ℤ
    pub bytes_transferred : ℕ
    pub retransmits : ℤ
    pub jitter : F.Double
    pub cerror : ℤ
    pub pcount : ℤ
    pub time : F.Double  -- end_time - start_time, or 0.0

  abbrev time_of : Option J.Item → Option J.Item → F.Double
  time_of (some j_start_time) (some j_end_time) =
      F.sub (M.valuedouble j_end_time) (M.valuedouble j_start_time)
  time_of _ _ = F.of_ℕ 0

  abbrev report_of :
      Option J.Item
      → Option J.Item
      → Option J.Item
      → Option J.Item
      → Option J.Item
      → Option J.Item
      → F.Double
      → Option Report
  report_of (some id) (some bytes) (some retransmits) (some jitter) (some errors) (some packets)
        time =
      some (record {
        sid = int_of_long (J.valueint id);
        bytes_transferred = u64_of (J.valueint bytes);
        retransmits = int_of_long (J.valueint retransmits);
        jitter = M.valuedouble jitter;
        cerror = int_of_long (J.valueint errors);
        pcount = int_of_long (J.valueint packets);
        time = time;
      })
  report_of _ _ _ _ _ _ time = none

  unfoldable pub read_stream : J.Object → Option Report
  unfolding int_of_long u64_of
  read_stream j_stream =
      report_of (J.get_item (codes "id") j_stream) (J.get_item (codes "bytes") j_stream)
        (J.get_item (codes "retransmits") j_stream) (J.get_item (codes "jitter") j_stream)
        (J.get_item (codes "errors") j_stream) (J.get_item (codes "packets") j_stream)
        (time_of (J.get_item (codes "start_time") j_stream)
          (J.get_item (codes "end_time") j_stream))

  -- What a stream takes over of the report of its other end.
  abbrev pub take_report : Report → StreamResults F → StreamResults F
  take_report r sp =
      if sp.sender
      then record sp {
        jitter = r.jitter;
        cnt_error = r.cerror;
        peer_packet_count = r.pcount;
        bytes_received = r.bytes_transferred;
        receiver_time = r.time;
      }
      else record sp {
        peer_packet_count = r.pcount;
        bytes_sent = r.bytes_transferred;
        stream_retrans = r.retransmits;
        sender_time = r.time;
      }

  abbrev pub cons_to :
      Numbered (StreamResults F)
      → Option (List (Numbered (StreamResults F)))
      → Option (List (Numbered (StreamResults F)))
  cons_to n none = none
  cons_to n (some rest) = some (n ∷ rest)

  -- The search for the stream, and what is stored in it; `none` if there is no such stream.
  unfoldable pub set_stream :
      Report → List (Numbered (StreamResults F)) → Option (List (Numbered (StreamResults F)))
  set_stream r [] = none
  set_stream r (n ∷ rest) =
      if eq_ℤ (pos n.id) r.sid
      then some (record n { stream = take_report r n.stream } ∷ rest)
      else cons_to n (set_stream r rest)

  -- The streams, and the last error.
  abbrev pub stored :
      Option IErr
      → List (Numbered (StreamResults F))
      → Option (List (Numbered (StreamResults F)))
      → Option IErr × List (Numbered (StreamResults F))
  stored error streams none = (some ie_streamid, streams)
  stored error streams (some streams') = (error, streams')

  abbrev pub store :
      Option IErr
      → List (Numbered (StreamResults F))
      → Option Report
      → Option IErr × List (Numbered (StreamResults F))
  store error streams none = (some ie_recvresults, streams)
  store error streams (some r) = stored error streams (set_stream r streams)

  -- The loop of get_results over the array.
  unfoldable pub read_streams :
      List J.Object
      → Option IErr
      → List (Numbered (StreamResults F))
      → Option IErr × List (Numbered (StreamResults F))
  unfolding read_stream set_stream
  read_streams [] error streams = (error, streams)
  read_streams (j_stream ∷ rest) error streams =
      let next = store error streams (read_stream j_stream) in read_streams rest next.0 next.1

  abbrev pub take_retransmits : ℤ → ResultsTest F J → ResultsTest F J
  take_retransmits result test =
      if is_receiver test.mode
      then record test { sender_has_retransmits = result; other_side_has_retransmits = pos 0 }
      else if is_bidirectional test.mode
      then record test { other_side_has_retransmits = result }
      else test

  abbrev pub take_output : Option J.Item → Option J.Item → ResultsTest F J → ResultsTest F J
  take_output (some json) _ test = record test { json_server_output = some json }
  take_output none (some text) test = record test { server_output_text = J.valuestring text }
  take_output none none test = test

  -- From the streams on. `none` stands for a result of 0, and an error for -1 with i_errno.
  abbrev pub take_streams :
      J.Object → Option J.Item → ResultsTest F J → Option IErr × ResultsTest F J
  take_streams j none test = (some ie_recvresults, test)
  take_streams j (some j_streams) test =
      let read = read_streams (M.array_items j_streams) none test.streams in
      let measured : ResultsTest F J = record test { streams = read.1 } in
      (
        read.0,
        if not test.is_server && test.get_server_output
            then take_output (J.get_item (codes "server_output_json") j)
                (J.get_item (codes "server_output_text") j) measured
            else measured,
      )

  abbrev pub take_all :
      J.Object
      → Option J.Item
      → Option J.Item
      → Option J.Item
      → Option J.Item
      → ResultsTest F J
      → Option IErr × ResultsTest F J
  take_all j (some total) (some user) (some system) (some has) test =
      take_streams j (J.get_item (codes "streams") j) (
        take_retransmits (int_of_long (J.valueint has)) (record test {
          remote_total = M.valuedouble total;
          remote_user = M.valuedouble user;
          remote_system = M.valuedouble system;
        }))
  take_all j _ _ _ _ test = (some ie_recvresults, test)

  abbrev pub take_congestion : Option J.Item → ResultsTest F J → ResultsTest F J
  take_congestion none test = test
  take_congestion (some item) test = record test { remote_congestion_used = J.valuestring item }

  -- The argument is what JSON_read returns.
  unfoldable pub get_results : Option J.Object → ResultsTest F J → Option IErr × ResultsTest F J
  unfolding read_streams int_of_long
  get_results none test = (some ie_recvresults, test)
  get_results (some j) test =
      let taken =
        take_all j (J.get_item (codes "cpu_util_total") j) (J.get_item (codes "cpu_util_user") j)
          (J.get_item (codes "cpu_util_system") j) (J.get_item (codes "sender_has_retransmits") j)
          test in
      (taken.0, take_congestion (J.get_item (codes "congestion_used") j) taken.1)
