-- ===== src/Params/Others.antt =====
-- iperf_api.c: the flags, the texts and the other numbers behind iperf_exchange_parameters.
use sber_wifi.Prelude.{
  ◌^◌, ◌≤◌, ◌≡◌, refl, ap, ◌∙◌, Bool, not, ◌||◌, Option, none, some, arith, ◌==◌, if◌then◌else◌,
}
use sber_wifi.Prelude.Int.{pos, negsuc, eq_ℤ}
use sber_wifi.Prelude.Float.{Float}
use sber_wifi.Libc.{Text, same_ignoring_case, to_lower}
use sber_wifi.Dscp.{codes}
use sber_wifi.Test.{
  Test, set_protocol, iperf_set_test_reverse, iperf_set_test_bidirectional,
  check_sender_has_retransmits,
}
use sber_wifi.Json.{Json, JsonLaws, first_field, keep_if, or_else}
use sber_wifi.Params.{
  parameters, send_parameters, take_protocol, take_direction, take_head, take_tail, get_parameters,
  flag_or, text_or, is_set,
}
use sber_wifi.Params.Items.{IsInt, got, int_field, u64_field}

module _ (F : Float) (J : Json) (retransmits : Bool) where
  pub only_protocol :
      (j : J.Object) (t : Test F)
      → let t' = take_protocol F J retransmits j t in
        t' ≡ record t { protocol = t'.protocol; sender_has_retransmits = t'.sender_has_retransmits }
  unfolding take_protocol set_protocol check_sender_has_retransmits
  only_protocol j t = ground arith

  pub only_direction :
      (j : J.Object) (t : Test F)
      → let t' = take_direction F J retransmits j t in
        t' ≡ record t {
          mode = t'.mode;
          reverse = t'.reverse;
          bidirectional = t'.bidirectional;
          sender_has_retransmits = t'.sender_has_retransmits;
        }
  unfolding take_direction check_sender_has_retransmits iperf_set_test_reverse
      iperf_set_test_bidirectional
  only_direction j t = ground arith

  -- A flag that is set at either end, a text or a number of the client where it sends one.
  pub record MirrorsOthers (c s t : Test F) : Type 0 where
    pub no_delay : t.no_delay ≡ (c.no_delay || s.no_delay)
    pub get_server_output : t.get_server_output ≡ (c.get_server_output || s.get_server_output)
    pub udp_counters_64bit : t.udp_counters_64bit ≡ (c.udp_counters_64bit || s.udp_counters_64bit)
    pub repeating_payload : t.repeating_payload ≡ (c.repeating_payload || s.repeating_payload)
    pub title : t.title ≡ or_else c.title s.title
    pub extra_data : t.extra_data ≡ or_else c.extra_data s.extra_data
    pub congestion : t.congestion ≡ or_else c.congestion s.congestion
    pub congestion_used : t.congestion_used ≡ or_else c.congestion_used s.congestion_used
    pub server_affinity :
        t.server_affinity
        ≡ (if not (eq_ℤ c.server_affinity (negsuc 0)) then c.server_affinity else s.server_affinity)
    pub fqrate :
        t.settings.fqrate
        ≡ (if not (c.settings.fqrate == 0) then c.settings.fqrate else s.settings.fqrate)
    pub flowlabel : t.settings.flowlabel ≡ (
        if not (eq_ℤ c.settings.flowlabel (pos 0))
        then c.settings.flowlabel
        else s.settings.flowlabel)

module _ (F : Float) (J : Json) (laws : JsonLaws J) (retransmits : Bool) (version : Text) where
  flag_field :
      (i : Option J.Item) (item : J.Item) (b old : Bool)
      → i ≡ or_else (keep_if b item) none
      → flag_or F J retransmits i old ≡ (b || old)
  flag_field i item b old e = ground arith

  text_field :
      (i : Option J.Item) (text : Option Text) (old : Option Text) (item : J.Item)
      → ((s : Text) → text ≡ some s → item ≡ J.create_string s)
      → i ≡ or_else (keep_if (is_set text) item) none
      → text_or F J retransmits i old ≡ or_else text old
  unfolding text_or
  text_field i none old item is e = ground arith
  text_field i (some s) old item is e =
      let same : item ≡ J.create_string s = is s refl in
      let read = laws.string s in ground (arith, same, read)

  -- The other fields of the test behind get_parameters.
  pub get_parameters-MirrorsOthers :
      (c s : Test F)
      → IsInt c.server_affinity
      → c.settings.fqrate ≤ 2 ^ 53
      → IsInt c.settings.flowlabel
      → MirrorsOthers F J retransmits c s
          (get_parameters F J retransmits (send_parameters F J retransmits version c) s)
  unfolding get_parameters take_head take_tail first_field parameters same_ignoring_case to_lower
  get_parameters-MirrorsOthers c s affinity_IsInt fqrate_bound flowlabel_IsInt =
      let j = send_parameters F J retransmits version c in
      let s1 = take_protocol F J retransmits j s in
      let s2 = take_head F J retransmits j s1 in
      let s3 = take_direction F J retransmits j s2 in
      let p = only_protocol F J retransmits j s in
      let d = only_direction F J retransmits j s2 in
      let item = λ (name : Text). J.get_item name j in
      let g = λ (name : Text). got F J laws retransmits version name c in
      record {
        no_delay =
            ap (λ t. t.no_delay) d
            ∙ flag_field (item (codes "nodelay")) _ c.no_delay s1.no_delay (g (codes "nodelay"))
            ∙ ap (λ t. c.no_delay || t.no_delay) p;
        get_server_output =
            flag_field (item (codes "get_server_output")) _ c.get_server_output s3.get_server_output
              (g (codes "get_server_output"))
            ∙ ap (λ t. c.get_server_output || t.get_server_output) d
            ∙ ap (λ t. c.get_server_output || t.get_server_output) p;
        udp_counters_64bit =
            flag_field (item (codes "udp_counters_64bit")) _ c.udp_counters_64bit
              s3.udp_counters_64bit (g (codes "udp_counters_64bit"))
            ∙ ap (λ t. c.udp_counters_64bit || t.udp_counters_64bit) d
            ∙ ap (λ t. c.udp_counters_64bit || t.udp_counters_64bit) p;
        repeating_payload =
            flag_field (item (codes "repeating_payload")) _ c.repeating_payload s3.repeating_payload
              (g (codes "repeating_payload"))
            ∙ ap (λ t. c.repeating_payload || t.repeating_payload) d
            ∙ ap (λ t. c.repeating_payload || t.repeating_payload) p;
        title =
            text_field (item (codes "title")) c.title s3.title _ (λ x e. ground (arith, e))
              (g (codes "title"))
            ∙ ap (λ t. or_else c.title t.title) d
            ∙ ap (λ t. or_else c.title t.title) p;
        extra_data =
            text_field (item (codes "extra_data")) c.extra_data s3.extra_data _
              (λ x e. ground (arith, e)) (g (codes "extra_data"))
            ∙ ap (λ t. or_else c.extra_data t.extra_data) d
            ∙ ap (λ t. or_else c.extra_data t.extra_data) p;
        congestion =
            text_field (item (codes "congestion")) c.congestion s3.congestion _
              (λ x e. ground (arith, e)) (g (codes "congestion"))
            ∙ ap (λ t. or_else c.congestion t.congestion) d
            ∙ ap (λ t. or_else c.congestion t.congestion) p;
        congestion_used =
            text_field (item (codes "congestion_used")) c.congestion_used s3.congestion_used _
              (λ x e. ground (arith, e)) (g (codes "congestion_used"))
            ∙ ap (λ t. or_else c.congestion_used t.congestion_used) d
            ∙ ap (λ t. or_else c.congestion_used t.congestion_used) p;
        server_affinity =
            ap (λ t. t.server_affinity) d
            ∙ int_field F J laws retransmits version (item (codes "server_affinity"))
                (not (eq_ℤ c.server_affinity (negsuc 0))) c.server_affinity s1.server_affinity
                affinity_IsInt (g (codes "server_affinity"))
            ∙ ap
                (λ t.
                  if not (eq_ℤ c.server_affinity (negsuc 0))
                  then c.server_affinity
                  else t.server_affinity)
                p;
        fqrate =
            u64_field F J laws retransmits version (item (codes "fqrate"))
              (not (c.settings.fqrate == 0)) c.settings.fqrate s3.settings.fqrate fqrate_bound
              (g (codes "fqrate"))
            ∙ ap
                (λ t. if not (c.settings.fqrate == 0) then c.settings.fqrate else t.settings.fqrate)
                d
            ∙ ap
                (λ t. if not (c.settings.fqrate == 0) then c.settings.fqrate else t.settings.fqrate)
                p;
        flowlabel =
            int_field F J laws retransmits version (item (codes "flowlabel"))
              (not (eq_ℤ c.settings.flowlabel (pos 0))) c.settings.flowlabel s3.settings.flowlabel
              flowlabel_IsInt (g (codes "flowlabel"))
            ∙ ap
                (λ t.
                  if not (eq_ℤ c.settings.flowlabel (pos 0))
                  then c.settings.flowlabel
                  else t.settings.flowlabel)
                d
            ∙ ap
                (λ t.
                  if not (eq_ℤ c.settings.flowlabel (pos 0))
                  then c.settings.flowlabel
                  else t.settings.flowlabel)
                p;
      }
