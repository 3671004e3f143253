-- ===== src/Framing.antt =====
-- app/src/main/cpp/iperf/iperf_api.c: JSON_write and JSON_read, which send an object as the length
-- of its text, four bytes in network order, and the text. `print` and `parse` are
-- cJSON_PrintUnformatted and cJSON_Parse, a text is the list of its bytes. Nread and Nwrite get
-- the fuel that they need for their buffers; `none` is its end, which the exact theorems exclude.
pub mod Exact
pub mod Examples
use sber_wifi.Prelude.{
  ℕ, suc, Bool, true, false, Option, none, some, List, ◌++◌, ◌==◌, if◌then◌else◌, length, drop,
}
use sber_wifi.Prelude.Int.{ℤ, pos, negsuc}
use sber_wifi.Time.{u32}
use sber_wifi.Net.{ReadResult, WriteResult, nread, nwrite}
use sber_wifi.Udp.{be32, from_be}

module _ {Object : Type 0} (print : Object → Option (List ℕ)) {S : Type 0}
    (write : S → List ℕ → WriteResult × S) where
  -- The second Nwrite, behind a first that returned `r`.
  unfoldable write_text : List ℕ → ℤ × S → Option (ℤ × S)
  write_text str (negsuc e, s) = some (negsuc 0, s)
  write_text str (pos n, s) = elim (nwrite write (suc (length str)) str s) [
    | none ↦ none
    | some (negsuc e, s') ↦ some (negsuc 0, s')
    | some (pos m, s') ↦ some (pos 0, s')
  ]

  unfoldable pub json_write : Object → S → Option (ℤ × S)
  unfolding write_text be32
  json_write json s = elim (print json) [
    | none ↦ some (negsuc 0, s)
    | some str ↦ elim (nwrite write 5 (be32 (u32 (length str))) s) [
      | none ↦ none
      | some r ↦ write_text str r
    ]
  ]

module _ {Object : Type 0} (parse : List ℕ → Option Object) {S : Type 0}
    (read : S → ℕ → ReadResult × S) where
  -- What follows the read of the length. `memory` says whether calloc succeeds.
  unfoldable read_text : Bool → ℕ → S → Option (Option Object × S)
  read_text false hsize s = some (none, s)
  read_text true hsize s = elim (nread read (suc hsize) hsize s) [
    | none ↦ none
    | some (negsuc e, str, s') ↦ some (none, s')
    | some (pos rc, str, s') ↦ some (if rc == hsize then parse str else none, s')
  ]

  -- The object, `none` for NULL. `nsize` are the four bytes that the variable holds before it is
  -- read: a read that ends early leaves some of them, and goes on.
  unfoldable pub json_read : Bool → List ℕ → S → Option (Option Object × S)
  unfolding read_text from_be
  json_read memory nsize s = elim (nread read 5 4 s) [
    | none ↦ none
    | some (negsuc e, bs, s') ↦ some (none, s')
    | some (pos r, bs, s') ↦ read_text memory (from_be 4 0 (bs ++ drop (length bs) nsize)) s'
  ]
