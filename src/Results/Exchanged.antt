-- ===== src/Results/Exchanged.antt =====
-- get_results of what send_results sends, between two ends whose streams have the same numbers.
use sber_wifi.Prelude.{
  ◌≡◌, refl, ap, ◌∙◌, inl, inr, Bool, true, false, not, ◌&&◌, Option, none, some, if◌then◌else◌,
  Bool-cases,
}
use sber_wifi.Prelude.Int.{ℤ, pos, negsuc}
use sber_wifi.Prelude.Float.{Float}
use sber_wifi.Libc.{Text, same_ignoring_case, to_lower}
use sber_wifi.Dscp.{codes}
use sber_wifi.Json.{Json, JsonLaws, first_field, get-fields, keep_if, or_else}
use sber_wifi.Params.{is_set}
use sber_wifi.Results.{
  is_receiver, is_bidirectional, joined, text_item, JsonMore, ResultsTest, send_results,
  results_fields,
}
use sber_wifi.Results.Reading.{take_congestion, take_output, take_retransmits, get_results}
use sber_wifi.Results.Reports.{number_read, IsInt, MoreLaws, items-streams}
use sber_wifi.Results.Loop.{Streams, Paired, AllFit, reported, read_streams-Paired}

or_else-none : {A : Type 0} (o : Option A) → or_else o none ≡ o
or_else-none none = refl
or_else-none (some a) = refl

module _ (F : Float) (J : Json) (M : JsonMore J F) (laws : JsonLaws J) (more : MoreLaws J F M) where
  abbrev has_of : ResultsTest F J → ℤ
  has_of a = if is_receiver a.mode then negsuc 0 else a.sender_has_retransmits

  -- Whether the end `a` sends its output, and whether the end `b` takes it.
  abbrev sends_output : ResultsTest F J → Bool
  sends_output a = a.is_server && a.get_server_output

  abbrev takes_output : ResultsTest F J → Bool
  takes_output b = not b.is_server && b.get_server_output

  -- The end `b` with what the end `a` has sent it.
  pub exchanged : ResultsTest F J → ResultsTest F J → ResultsTest F J
  exchanged a b = record b {
    remote_total = a.cpu_util_total;
    remote_user = a.cpu_util_user;
    remote_system = a.cpu_util_system;
    sender_has_retransmits = if is_receiver b.mode then has_of a else b.sender_has_retransmits;
    other_side_has_retransmits =
        if is_receiver b.mode
        then pos 0
        else if is_bidirectional b.mode
        then has_of a
        else b.other_side_has_retransmits;
    streams = reported F J M laws more a.sender_has_retransmits a.streams b.streams;
    json_server_output =
        if takes_output b && sends_output a && a.json_output
        then some a.json_top
        else b.json_server_output;
    server_output_text =
        if takes_output b && sends_output a && not a.json_output
        then some (joined a.server_output_list)
        else b.server_output_text;
    remote_congestion_used =
        if is_set a.congestion_used then a.congestion_used else b.remote_congestion_used;
  }

  got :
      (name : Text) (a : ResultsTest F J)
      → J.get_item name (send_results F J M a) ≡ first_field J name (results_fields F J M a)
  unfolding send_results
  got name a = get-fields J laws name (results_fields F J M a)

  json_read :
      (a : ResultsTest F J)
      → J.get_item (codes "server_output_json") (send_results F J M a)
        ≡ keep_if (sends_output a && a.json_output) a.json_top
  unfolding first_field results_fields same_ignoring_case to_lower
  json_read a = got (codes "server_output_json") a ∙ or_else-none _

  text_read :
      (a : ResultsTest F J)
      → J.get_item (codes "server_output_text") (send_results F J M a)
        ≡ keep_if
            (sends_output a && not a.json_output)
            (J.create_string (joined a.server_output_list))
  unfolding first_field results_fields same_ignoring_case to_lower
  text_read a = got (codes "server_output_text") a ∙ or_else-none _

  congestion_read :
      (a : ResultsTest F J)
      → J.get_item (codes "congestion_used") (send_results F J M a)
        ≡ keep_if (is_set a.congestion_used) (text_item F J M a.congestion_used)
  unfolding first_field results_fields same_ignoring_case to_lower
  congestion_read a = got (codes "congestion_used") a ∙ or_else-none _

  output_taken :
      (wanted out json : Bool) (top : J.Item) (text : Text) (t : ResultsTest F J)
      → (if wanted
          then take_output F J M
              (keep_if (out && json) top)
              (keep_if (out && not json) (J.create_string text))
              t
          else t)
        ≡ record t {
          json_server_output = if wanted && out && json then some top else t.json_server_output;
          server_output_text =
              if wanted && out && not json then some text else t.server_output_text;
        }
  output_taken false out json top text t = refl
  output_taken true false json top text t = refl
  output_taken true true true top text t = refl
  output_taken true true false top text t =
      ap (λ x. record t { server_output_text = x }) (laws.string text)

  congestion_taken :
      (c : Option Text) (t : ResultsTest F J)
      → take_congestion F J M (keep_if (is_set c) (text_item F J M c)) t
        ≡ record t { remote_congestion_used = if is_set c then c else t.remote_congestion_used }
  congestion_taken none t = refl
  congestion_taken (some c) t = ap (λ x. record t { remote_congestion_used = x }) (laws.string c)

  abbrev remote : ResultsTest F J → ResultsTest F J → ResultsTest F J
  remote a b = record b {
    remote_total = a.cpu_util_total;
    remote_user = a.cpu_util_user;
    remote_system = a.cpu_util_system;
  }

  abbrev with_retransmits : ResultsTest F J → ResultsTest F J → ResultsTest F J
  with_retransmits a b = record b {
    remote_total = a.cpu_util_total;
    remote_user = a.cpu_util_user;
    remote_system = a.cpu_util_system;
    sender_has_retransmits = if is_receiver b.mode then has_of a else b.sender_has_retransmits;
    other_side_has_retransmits =
        if is_receiver b.mode
        then pos 0
        else if is_bidirectional b.mode
        then has_of a
        else b.other_side_has_retransmits;
  }

  retransmits_taken :
      (n : ℤ) (t : ResultsTest F J)
      → take_retransmits F J M n t ≡ record t {
        sender_has_retransmits = if is_receiver t.mode then n else t.sender_has_retransmits;
        other_side_has_retransmits =
            if is_receiver t.mode
            then pos 0
            else if is_bidirectional t.mode
            then n
            else t.other_side_has_retransmits;
      }
  retransmits_taken n t = elim (Bool-cases (is_receiver t.mode)) [
    | inl receives ↦ rw receives refl
    | inr sends ↦ elim (Bool-cases (is_bidirectional t.mode)) [
      | inl both ↦ rw (sends, both) refl
      | inr neither ↦ rw (sends, neither) refl
    ]
  ]

  -- All that get_results does behind its loop.
  rest_taken :
      (a b : ResultsTest F J) (measured : Streams F J M laws more)
      → take_congestion F J M
          (keep_if (is_set a.congestion_used) (text_item F J M a.congestion_used))
          (if takes_output b
            then take_output F J M
                (keep_if (sends_output a && a.json_output) a.json_top)
                (keep_if
                  (sends_output a && not a.json_output)
                  (J.create_string (joined a.server_output_list)))
                (record b { streams = measured })
            else record b { streams = measured })
        ≡ record b {
          streams = measured;
          json_server_output =
              if takes_output b && sends_output a && a.json_output
              then some a.json_top
              else b.json_server_output;
          server_output_text =
              if takes_output b && sends_output a && not a.json_output
              then some (joined a.server_output_list)
              else b.server_output_text;
          remote_congestion_used =
              if is_set a.congestion_used then a.congestion_used else b.remote_congestion_used;
        }
  rest_taken a b measured =
      let t : ResultsTest F J = record b { streams = measured } in
      ap
        (take_congestion F J M
          (keep_if (is_set a.congestion_used) (text_item F J M a.congestion_used)))
        (output_taken (takes_output b) (sends_output a) a.json_output a.json_top
          (joined a.server_output_list) t)
      ∙ congestion_taken a.congestion_used _

  -- After one end has read what the other end has sent, with no error, each of its streams has the
  -- report of the stream with its number, and the rest is taken over as it was sent.
  pub get_results-send_results :
      (a b : ResultsTest F J)
      → Paired F J M laws more a.streams b.streams
      → AllFit F J M laws more a.sender_has_retransmits a.streams
      → IsInt (has_of a)
      → get_results F J M (some (send_results F J M a)) b ≡ (none, exchanged a b)
  unfolding get_results first_field results_fields same_ignoring_case to_lower exchanged
  get_results-send_results a b paired fits int =
      let looped =
        read_streams-Paired F J M laws more a.sender_has_retransmits a.streams b.streams paired
          fits in
      rw
        (
          got (codes "cpu_util_total") a,
          got (codes "cpu_util_user") a,
          got (codes "cpu_util_system") a,
          got (codes "sender_has_retransmits") a,
          got (codes "streams") a,
          json_read a,
          text_read a,
          congestion_read a,
        )
        (rw
          (
            more.double a.cpu_util_total,
            more.double a.cpu_util_user,
            more.double a.cpu_util_system,
            number_read F J M laws more (has_of a) int,
            items-streams F J M laws more a.sender_has_retransmits a.streams,
          )
          (rw (retransmits_taken (has_of a) (remote a b)) (
            rw looped (
              ap (λ t. (none, t))
                (rest_taken a (with_retransmits a b)
                  (reported F J M laws more a.sender_has_retransmits a.streams b.streams))))))
