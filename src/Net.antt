-- ===== src/Net.antt =====
-- app/src/main/cpp/iperf/net.c: Nread and Nwrite, which repeat read(2) and write(2) until the
-- whole buffer has been transferred. The system calls are parameters over a state `S` of the
-- kernel; `fuel` bounds the rounds, `none` is its end, and a round for each byte is enough. A
-- size_t that is returned is converted to an int.
pub mod Read
pub mod Write
pub mod Whole
pub mod Examples
use sber_wifi.Prelude.{
  ℕ, zero, suc, ◌-◌, Bool, true, false, Option, none, some, List, [], ◌∷◌, ◌++◌, ◌==◌,
  if◌then◌else◌, length, drop,
}
use sber_wifi.Prelude.Int.{ℤ, pos, negsuc}
use sber_wifi.Libc.{int_of_pattern}

-- NET_SOFTERROR and NET_HARDERROR of net.h
abbrev pub net_softerror : ℤ
net_softerror = negsuc 0

abbrev pub net_harderror : ℤ
net_harderror = negsuc 1

-- The errno classes that the two functions tell apart. EWOULDBLOCK is EAGAIN.
pub data Errno : Type 0 where
  eintr eagain enobufs other : Errno

-- What read(2) gives: the bytes that it stored (none at the end of the file), or an error.
pub data ReadResult : Type 0 where
  got : List ℕ → ReadResult
  read_error : Errno → ReadResult

-- What write(2) gives: the number of bytes taken, or an error.
pub data WriteResult : Type 0 where
  wrote : ℕ → WriteResult
  write_error : Errno → WriteResult

abbrev breaks_read : Errno → Bool
breaks_read eintr = true
breaks_read eagain = true
breaks_read _ = false

-- The loop's next round, with the bytes of this round in front of the buffer.
abbrev prepend {ℓ} : {S : Type ℓ} → List ℕ → Option (ℤ × List ℕ × S) → Option (ℤ × List ℕ × S)
prepend bs none = none
prepend bs (some (r, rest, s)) = some (r, bs ++ rest, s)

module _ {S : Type 0} (read : S → ℕ → ReadResult × S) where
  -- The returned number, the bytes stored in the buffer, and the kernel's state.
  unfoldable pub nread_loop : ℕ → ℕ → ℕ → S → Option (ℤ × List ℕ × S)
  unfolding int_of_pattern
  nread_loop zero count nleft s = none
  nread_loop (suc fuel) count nleft s =
      let (r, s') = read s nleft in
      elim (nleft == 0) [
        | true ↦ some (int_of_pattern (count - nleft), [], s)
        | false ↦ elim r [
          | got [] ↦ some (int_of_pattern (count - nleft), [], s')
          | got (b ∷ bs) ↦ prepend (b ∷ bs) (nread_loop fuel count (nleft - length (b ∷ bs)) s')
          | read_error e ↦
              if breaks_read e
              then some (int_of_pattern (count - nleft), [], s')
              else some (net_harderror, [], s')
        ]
      ]

  unfoldable pub nread : ℕ → ℕ → S → Option (ℤ × List ℕ × S)
  unfolding nread_loop
  nread fuel count s = nread_loop fuel count count s

module _ {S : Type 0} (write : S → List ℕ → WriteResult × S) where
  -- The returned number and the kernel's state; `buf` is what is left to write.
  unfoldable pub nwrite_loop : ℕ → ℕ → List ℕ → S → Option (ℤ × S)
  unfolding int_of_pattern
  nwrite_loop zero count buf s = none
  nwrite_loop (suc fuel) count buf s =
      let (r, s') = write s buf in
      elim (length buf == 0) [
        | true ↦ some (int_of_pattern count, s)
        | false ↦ elim r [
          | wrote zero ↦ some (net_softerror, s')
          | wrote (suc n) ↦ nwrite_loop fuel count (drop (suc n) buf) s'
          | write_error eintr ↦ some (int_of_pattern (count - length buf), s')
          | write_error eagain ↦ some (int_of_pattern (count - length buf), s')
          | write_error enobufs ↦ some (net_softerror, s')
          | write_error other ↦ some (net_harderror, s')
        ]
      ]

  unfoldable pub nwrite : ℕ → List ℕ → S → Option (ℤ × S)
  unfolding nwrite_loop
  nwrite fuel buf s = nwrite_loop fuel (length buf) buf s
