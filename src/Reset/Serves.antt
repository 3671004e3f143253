-- ===== src/Reset/Serves.antt =====
-- iperf_api.c: what the next client finds behind iperf_reset_test.
use sber_wifi.Prelude.{ℕ, ◌≡◌, ap, ◌∙◌, Bool, not, arith, ◌==◌, if◌then◌else◌}
use sber_wifi.Prelude.Float.{Float}
use sber_wifi.Libc.{Text}
use sber_wifi.Test.{Test, set_protocol, find_protocol, check_sender_has_retransmits}
use sber_wifi.Json.{Json, JsonLaws}
use sber_wifi.Params.{send_parameters, get_parameters, take_protocol, take_head, take_tail}
use sber_wifi.Params.Items.{bytes_read}
use sber_wifi.Params.Exchange.{Sendable}
use sber_wifi.Params.Others.{only_protocol, only_direction}
use sber_wifi.Reset.{Held, iperf_reset_test, reset_configuration}

module _ (F : Float) (J : Json) (retransmits : Bool) where
  reset_kept :
      (t : Test F) → (reset_configuration F retransmits t).settings.bytes ≡ t.settings.bytes
  unfolding reset_configuration set_protocol check_sender_has_retransmits find_protocol
  reset_kept t = ground arith

module _ (F : Float) (J : Json) (laws : JsonLaws J) {S W : Type 0} (retransmits : Bool)
    (free_stream : S → W → W) (tmr_cancel : ℕ → W → W) (version : Text) where
  bytes_taken :
      (c s : Test F)
      → Sendable F J retransmits c
      → (get_parameters F J retransmits
          (send_parameters F J retransmits version c)
          s).settings.bytes
        ≡ (if not (c.settings.bytes == 0) then c.settings.bytes else s.settings.bytes)
  unfolding get_parameters take_head take_tail
  bytes_taken c s v =
      let j = send_parameters F J retransmits version c in
      let s1 = take_protocol F J retransmits j s in
      let s2 = take_head F J retransmits j s1 in
      ap (λ t. t.settings.bytes) (only_direction F J retransmits j s2)
      ∙ bytes_read F J laws retransmits version c s1.settings.bytes v.bytes
      ∙ ap (λ t. if not (c.settings.bytes == 0) then c.settings.bytes else t.settings.bytes)
          (only_protocol F J retransmits j s)

  -- The number of bytes that a client asks for outlives the reset: a client that asks for none, and has
  -- Sendable numbers, is served with that of the client before.
  pub iperf_reset_test-bytes :
      (h : Held F S W) (c : Test F)
      → c.settings.bytes ≡ 0
      → Sendable F J retransmits c
      → let s = (iperf_reset_test F retransmits free_stream tmr_cancel h).test in
        (get_parameters F J retransmits
          (send_parameters F J retransmits version c)
          s).settings.bytes
        ≡ h.test.settings.bytes
  unfolding iperf_reset_test
  iperf_reset_test-bytes h c unasked sendable =
      bytes_taken c (reset_configuration F retransmits h.test) sendable
      ∙ ap
          (λ n.
            if not (n == 0)
            then c.settings.bytes
            else (reset_configuration F retransmits h.test).settings.bytes)
          unasked
      ∙ reset_kept F J retransmits h.test
