-- ===== src/Params/Items.antt =====
-- iperf_api.c: what get_parameters reads for one name of an object that send_parameters made.
use sber_wifi.Prelude.{
  ℕ, ◌-◌, ◌^◌, ◌≤◌, ◌≡◌, Bool, true, not, Option, none, arith, ◌==◌, if◌then◌else◌,
}
use sber_wifi.Prelude.Int.{ℤ, pos, negsuc, ◌≤ℤ◌, eq_ℤ}
use sber_wifi.Prelude.Float.{Float}
use sber_wifi.Libc.{Text, int_of_long, int_of_pattern, same_ignoring_case, to_lower}
use sber_wifi.Dscp.{codes}
use sber_wifi.Test.{Test}
use sber_wifi.Json.{Json, JsonLaws, first_field, get-fields, keep_if, or_else}
use sber_wifi.Params.{u64_of, parameters, send_parameters, int_or, u64_or}

-- The values of an int.
abbrev pub IsInt : ℤ → Type 0
IsInt n = (negsuc (2 ^ 31 - 1) ≤ℤ n) × (n ≤ℤ pos (2 ^ 31 - 1))

int_of_long-IsInt : (n : ℤ) → IsInt n → int_of_long n ≡ n
unfolding int_of_long int_of_pattern
int_of_long-IsInt n bounds = ground arith

module _ (F : Float) (J : Json) (laws : JsonLaws J) (retransmits : Bool) (version : Text) where
  pub got :
      (name : Text) (c : Test F)
      → J.get_item name (send_parameters F J retransmits version c)
        ≡ first_field J name (parameters F J retransmits version c)
  unfolding send_parameters
  got name c = get-fields J laws name (parameters F J retransmits version c)

  pub int_field :
      (i : Option J.Item) (b : Bool) (n : ℤ) (old : ℤ)
      → IsInt n
      → i ≡ or_else (keep_if b (J.create_number n)) none
      → int_or F J retransmits i old ≡ (if b then n else old)
  unfolding int_or
  int_field i b n old bounds e =
      let exact = laws.number n (omega (arith, bounds)) in
      let whole = int_of_long-IsInt n bounds in ground arith

  pub u64_field :
      (i : Option J.Item) (b : Bool) (n : ℕ) (old : ℕ)
      → n ≤ 2 ^ 53
      → i ≡ or_else (keep_if b (J.create_number (pos n))) none
      → u64_or F J retransmits i old ≡ (if b then n else old)
  unfolding u64_or u64_of
  u64_field i b n old bound e =
      let exact = laws.number (pos n) (omega (arith, bound)) in ground arith

  -- What the server reads for a number of the client.
  abbrev pub int_read : Text → Test F → ℤ → ℤ
  int_read name c old =
      int_or F J retransmits (J.get_item name (send_parameters F J retransmits version c)) old

  abbrev pub u64_read : Text → Test F → ℕ → ℕ
  u64_read name c old =
      u64_or F J retransmits (J.get_item name (send_parameters F J retransmits version c)) old

  pub omit_read : (c : Test F) (old : ℤ) → IsInt c.omit → int_read (codes "omit") c old ≡ c.omit
  unfolding first_field parameters same_ignoring_case to_lower
  omit_read c old bounds =
      int_field (J.get_item (codes "omit") (send_parameters F J retransmits version c)) (true)
        c.omit old bounds (got (codes "omit") c)

  pub duration_read :
      (c : Test F) (old : ℤ) → IsInt c.duration → int_read (codes "time") c old ≡ c.duration
  unfolding first_field parameters same_ignoring_case to_lower
  duration_read c old bounds =
      int_field (J.get_item (codes "time") (send_parameters F J retransmits version c)) (true)
        c.duration old bounds (got (codes "time") c)

  pub bytes_read :
      (c : Test F) (old : ℕ)
      → c.settings.bytes ≤ 2 ^ 53
      → u64_read (codes "num") c old
        ≡ (if not (c.settings.bytes == 0) then c.settings.bytes else old)
  unfolding first_field parameters same_ignoring_case to_lower
  bytes_read c old bounds =
      u64_field (J.get_item (codes "num") (send_parameters F J retransmits version c))
        (not (c.settings.bytes == 0)) c.settings.bytes old bounds (got (codes "num") c)

  pub blocks_read :
      (c : Test F) (old : ℕ)
      → c.settings.blocks ≤ 2 ^ 53
      → u64_read (codes "blockcount") c old
        ≡ (if not (c.settings.blocks == 0) then c.settings.blocks else old)
  unfolding first_field parameters same_ignoring_case to_lower
  blocks_read c old bounds =
      u64_field (J.get_item (codes "blockcount") (send_parameters F J retransmits version c))
        (not (c.settings.blocks == 0)) c.settings.blocks old bounds (got (codes "blockcount") c)

  pub mss_read :
      (c : Test F) (old : ℤ)
      → IsInt c.settings.mss
      → int_read (codes "MSS") c old
        ≡ (if not (eq_ℤ c.settings.mss (pos 0)) then c.settings.mss else old)
  unfolding first_field parameters same_ignoring_case to_lower
  mss_read c old bounds =
      int_field (J.get_item (codes "MSS") (send_parameters F J retransmits version c))
        (not (eq_ℤ c.settings.mss (pos 0))) c.settings.mss old bounds (got (codes "MSS") c)

  pub num_streams_read :
      (c : Test F) (old : ℤ)
      → IsInt c.num_streams
      → int_read (codes "parallel") c old ≡ c.num_streams
  unfolding first_field parameters same_ignoring_case to_lower
  num_streams_read c old bounds =
      int_field (J.get_item (codes "parallel") (send_parameters F J retransmits version c)) (true)
        c.num_streams old bounds (got (codes "parallel") c)

  pub socket_bufsize_read :
      (c : Test F) (old : ℤ)
      → IsInt c.settings.socket_bufsize
      → int_read (codes "window") c old
        ≡ (if not (eq_ℤ c.settings.socket_bufsize (pos 0)) then c.settings.socket_bufsize else old)
  unfolding first_field parameters same_ignoring_case to_lower
  socket_bufsize_read c old bounds =
      int_field (J.get_item (codes "window") (send_parameters F J retransmits version c))
        (not (eq_ℤ c.settings.socket_bufsize (pos 0))) c.settings.socket_bufsize old bounds
        (got (codes "window") c)

  pub blksize_read :
      (c : Test F) (old : ℤ)
      → IsInt c.settings.blksize
      → int_read (codes "len") c old
        ≡ (if not (eq_ℤ c.settings.blksize (pos 0)) then c.settings.blksize else old)
  unfolding first_field parameters same_ignoring_case to_lower
  blksize_read c old bounds =
      int_field (J.get_item (codes "len") (send_parameters F J retransmits version c))
        (not (eq_ℤ c.settings.blksize (pos 0))) c.settings.blksize old bounds (got (codes "len") c)

  pub rate_read :
      (c : Test F) (old : ℕ)
      → c.settings.rate ≤ 2 ^ 53
      → u64_read (codes "bandwidth") c old
        ≡ (if not (c.settings.rate == 0) then c.settings.rate else old)
  unfolding first_field parameters same_ignoring_case to_lower
  rate_read c old bounds =
      u64_field (J.get_item (codes "bandwidth") (send_parameters F J retransmits version c))
        (not (c.settings.rate == 0)) c.settings.rate old bounds (got (codes "bandwidth") c)

  pub pacing_timer_read :
      (c : Test F) (old : ℤ)
      → IsInt c.settings.pacing_timer
      → int_read (codes "pacing_timer") c old
        ≡ (if not (eq_ℤ c.settings.pacing_timer (pos 0)) then c.settings.pacing_timer else old)
  unfolding first_field parameters same_ignoring_case to_lower
  pacing_timer_read c old bounds =
      int_field (J.get_item (codes "pacing_timer") (send_parameters F J retransmits version c))
        (not (eq_ℤ c.settings.pacing_timer (pos 0))) c.settings.pacing_timer old bounds
        (got (codes "pacing_timer") c)

  pub burst_read :
      (c : Test F) (old : ℤ)
      → IsInt c.settings.burst
      → int_read (codes "burst") c old
        ≡ (if not (eq_ℤ c.settings.burst (pos 0)) then c.settings.burst else old)
  unfolding first_field parameters same_ignoring_case to_lower
  burst_read c old bounds =
      int_field (J.get_item (codes "burst") (send_parameters F J retransmits version c))
        (not (eq_ℤ c.settings.burst (pos 0))) c.settings.burst old bounds (got (codes "burst") c)

  pub tos_read :
      (c : Test F) (old : ℤ)
      → IsInt c.settings.tos
      → int_read (codes "TOS") c old
        ≡ (if not (eq_ℤ c.settings.tos (pos 0)) then c.settings.tos else old)
  unfolding first_field parameters same_ignoring_case to_lower
  tos_read c old bounds =
      int_field (J.get_item (codes "TOS") (send_parameters F J retransmits version c))
        (not (eq_ℤ c.settings.tos (pos 0))) c.settings.tos old bounds (got (codes "TOS") c)
