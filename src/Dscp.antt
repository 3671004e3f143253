-- ===== src/Dscp.antt =====
-- app/src/main/cpp/iperf/dscp.c: names for type-of-service values.
pub mod Range
pub mod Examples
use Prim.Native.Char.{code}
use Prim.Native.String.{String}
use Prim.Native.String
use sber_wifi.Prelude.{
  ℕ, ◌+◌, ◌-◌, ◌/◌, ◌%◌, Bool, true, false, not, ◌||◌, Option, none, some, List, [], ◌∷◌, ltb, ◌==◌,
  if◌then◌else◌,
}
use sber_wifi.Prelude.Int.{ℤ, pos, negsuc, pos_part, ltb_ℤ, is_neg}
use sber_wifi.Libc.{Text, strtol, same_ignoring_case}

abbrev pub codes : String → Text
codes String.[] = []
codes (String.◌∷◌ c s) = code c ∷ codes s

-- ipqos[] without its closing entry. IPTOS_LOWDELAY, IPTOS_THROUGHPUT and IPTOS_RELIABILITY are
-- those of netinet/ip.h.
abbrev pub ipqos : List (String × ℕ)
ipqos =
    ("af11", 0x28)
    ∷ ("af12", 0x30)
    ∷ ("af13", 0x38)
    ∷ ("af21", 0x48)
    ∷ ("af22", 0x50)
    ∷ ("af23", 0x58)
    ∷ ("af31", 0x68)
    ∷ ("af32", 0x70)
    ∷ ("af33", 0x78)
    ∷ ("af41", 0x88)
    ∷ ("af42", 0x90)
    ∷ ("af43", 0x98)
    ∷ ("cs0", 0x00)
    ∷ ("cs1", 0x20)
    ∷ ("cs2", 0x40)
    ∷ ("cs3", 0x60)
    ∷ ("cs4", 0x80)
    ∷ ("cs5", 0xa0)
    ∷ ("cs6", 0xc0)
    ∷ ("cs7", 0xe0)
    ∷ ("ef", 0xb8)
    ∷ ("lowdelay", 0x10)
    ∷ ("throughput", 0x08)
    ∷ ("reliability", 0x04)
    ∷ []

-- The search of parse_qos.
unfoldable pub find_name : Text → List (String × ℕ) → Option ℕ
find_name cp [] = none
find_name cp ((name, value) ∷ table) =
    if same_ignoring_case cp (codes name) then some value else find_name cp table

abbrev is_empty : Text → Bool
is_empty [] = true
is_empty (c ∷ l) = false

unfoldable pub checked_tos : Bool → ℤ → ℤ
checked_tos bad v = if bad || is_neg v || ltb_ℤ (pos 255) v then negsuc 0 else v

unfoldable pub parse_number : Text → ℤ
unfolding checked_tos
parse_number cp = let r = strtol cp 0 in checked_tos (is_empty cp || not (is_empty r.rest)) r.value

-- `none` is a NULL pointer.
unfoldable pub parse_qos : Option Text → ℤ
unfolding find_name parse_number
parse_qos none = negsuc 0
parse_qos (some cp) = elim (find_name cp ipqos) [ some value ↦ pos value | none ↦ parse_number cp ]

-- The search of iptos2str.
unfoldable pub find_value : ℕ → List (String × ℕ) → Option Text
find_value iptos [] = none
find_value iptos ((name, value) ∷ table) =
    if value == iptos then some (codes name) else find_value iptos table

abbrev hex_digit : ℕ → ℕ
hex_digit n = if ltb n 10 then n + b'0' else n - 10 + b'a'

-- "0x%02x" of a value up to 64
abbrev hex_text : ℕ → Text
hex_text n = b'0' ∷ b'x' ∷ hex_digit (n / 16) ∷ hex_digit (n % 16) ∷ []

unfoldable pub iptos2str : ℤ → Text
unfolding find_value
iptos2str iptos =
    let iptos' = if is_neg iptos || ltb_ℤ (pos 64) iptos then 0 else pos_part iptos in
    elim (find_value iptos' ipqos) [ some name ↦ name | none ↦ hex_text iptos' ]
