-- ===== src/Libc.antt =====
-- What the program uses of the C library on text: strtol, atoi, strcasecmp and tolower, over
-- strings as lists of bytes without the closing NUL. A long has 64 bits and an int 32.
use sber_wifi.Prelude.{
  ℕ, ◌+◌, ◌-◌, ◌*◌, ◌%◌, ◌^◌, Bool, true, false, ◌&&◌, ◌||◌, List, [], ◌∷◌, ltb, leb, ◌==◌,
  if◌then◌else◌,
}
use sber_wifi.Prelude.Int.{ℤ, pos, negsuc}

abbrev pub Text : Type 0
Text = List ℕ

abbrev is_between : ℕ → ℕ → ℕ → Bool
is_between lo hi c = leb lo c && leb c hi

unfoldable pub is_space : ℕ → Bool
is_space c = c == 32 || is_between 9 13 c

unfoldable pub to_lower : ℕ → ℕ
to_lower c = if is_between b'A' b'Z' c then c + 32 else c

-- The value of a digit in bases up to 36; 36 where the byte is none.
unfoldable pub digit_value : ℕ → ℕ
digit_value c =
    if is_between b'0' b'9' c
    then c - b'0'
    else if is_between b'a' b'z' c
    then c - b'a' + 10
    else if is_between b'A' b'Z' c
    then c - b'A' + 10
    else 36

unfoldable pub skip_spaces : Text → Text
unfolding is_space
skip_spaces [] = []
skip_spaces (c ∷ l) = if is_space c then skip_spaces l else c ∷ l

-- The number that the digits at the front spell, after `acc`, and what follows them.
unfoldable pub scan_digits : ℕ → ℕ → Text → ℕ × Text
unfolding digit_value
scan_digits base acc [] = (acc, [])
scan_digits base acc (c ∷ l) =
    if ltb (digit_value c) base
    then scan_digits base (acc * base + digit_value c) l
    else (acc, c ∷ l)

unfoldable pub starts_digit : ℕ → Text → Bool
unfolding digit_value
starts_digit base [] = false
starts_digit base (c ∷ l) = ltb (digit_value c) base

-- A sign, and the rest.
unfoldable pub scan_sign : Text → Bool × Text
scan_sign [] = (false, [])
scan_sign (c ∷ l) =
    if c == b'-' then (true, l) else if c == b'+' then (false, l) else (false, c ∷ l)

-- Base 0 is 16 behind 0x with a digit, 8 behind 0, and 10 otherwise.
unfoldable pub resolve_base : ℕ → Text → ℕ × Text
unfolding starts_digit
resolve_base base [] = (if base == 0 then 10 else base, [])
resolve_base base (c ∷ []) = (if base == 0 then (if c == b'0' then 8 else 10) else base, c ∷ [])
resolve_base base (c ∷ x ∷ l) =
    if base == 0
    then if c == b'0'
      then if to_lower x == b'x' && starts_digit 16 l then (16, l) else (8, c ∷ x ∷ l)
      else (10, c ∷ x ∷ l)
    else (base, c ∷ x ∷ l)

pub record Scanned : Type 0 where
  pub value : ℤ
  pub rest : Text  -- what endptr points to
  pub converted : Bool  -- whether endptr has moved from the start

-- A long out of range is the nearest long.
unfoldable pub clamp_long : Bool → ℕ → ℤ
clamp_long negative n =
    if negative
    then if n == 0 then pos 0 else if ltb (2 ^ 63) n then negsuc (2 ^ 63 - 1) else negsuc (n - 1)
    else if ltb (2 ^ 63 - 1) n
    then pos (2 ^ 63 - 1)
    else pos n

unfoldable pub strtol : Text → ℕ → Scanned
unfolding skip_spaces scan_sign resolve_base scan_digits starts_digit clamp_long to_lower
strtol text base =
    let (negative, body) = scan_sign (skip_spaces text) in
    let (base', digits) = resolve_base base body in
    let (n, rest) = scan_digits base' 0 digits in
    if starts_digit base' digits
    then record { value = clamp_long negative n; rest = rest; converted = true }
    else record { value = pos 0; rest = text; converted = false }

-- The conversion of a 64-bit pattern, and of a long, to an int.
unfoldable pub int_of_pattern : ℕ → ℤ
int_of_pattern n = let w = n % 2 ^ 32 in if ltb w (2 ^ 31) then pos w else negsuc (2 ^ 32 - w - 1)

unfoldable pub int_of_long : ℤ → ℤ
unfolding int_of_pattern
int_of_long (pos n) = int_of_pattern n
int_of_long (negsuc n) = int_of_pattern (2 ^ 32 - 1 - n % 2 ^ 32)

unfoldable pub atoi : Text → ℤ
unfolding strtol int_of_long
atoi text = int_of_long (strtol text 10).value

-- strcasecmp(a, b) == 0
unfoldable pub same_ignoring_case : Text → Text → Bool
unfolding to_lower
same_ignoring_case [] [] = true
same_ignoring_case (a ∷ s) (b ∷ t) = to_lower a == to_lower b && same_ignoring_case s t
same_ignoring_case _ _ = false
