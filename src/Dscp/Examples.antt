-- ===== src/Dscp/Examples.antt =====
-- dscp.c at some texts and at one byte.
use sber_wifi.Prelude.{◌≡◌, refl, some, arith, leb, if◌then◌else◌}
use sber_wifi.Prelude.Int.{pos}
use sber_wifi.Dscp.{parse_qos, iptos2str, codes}
use sber_wifi.Libc.{same_ignoring_case}
use sber_wifi.Dscp.Range.{parse_qos-iptos2str}

parse_qos-af21 : parse_qos (some (codes "AF21")) ≡ pos 0x48
unfolding parse_qos same_ignoring_case
parse_qos-af21 = refl

parse_qos-iptos2str_example :
    parse_qos (some (iptos2str (pos 200))) ≡ pos (if leb 200 64 then 200 else 0)
parse_qos-iptos2str_example = parse_qos-iptos2str 200 (omega arith)
