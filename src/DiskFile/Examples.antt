-- ===== src/DiskFile/Examples.antt =====
-- A file of eight bytes in blocks of four, over a snd that takes whole blocks and over one that takes
-- three bytes.
use sber_wifi.Prelude.{ℕ, ◌*◌, ◌≡◌, refl, false, some, List, [], ◌∷◌, ◌++◌, arith, take, drop}
use sber_wifi.Prelude.Int.{pos}
use sber_wifi.DiskFile.{Filed, FileCalls, at_front, fill_buffer, diskfile_send, passes}
use sber_wifi.DiskFile.Whole.{Copies, passes-whole}

-- The rest of the file, and what has been sent.
pub record Copy : Type 0 where
  pub rest : List ℕ
  pub wire : List ℕ

abbrev taking : ℕ → FileCalls Copy
taking r = record {
  read = λ n w. (some (take n w.rest), record w { rest = drop n w.rest });
  snd2 = λ buffer w. (pos r, record w { wire = w.wire ++ take r buffer });
  rcv2 = λ buffer w. (pos 0, buffer, w);
  write = λ bytes w. w;
  fsync = λ w. w;
}

abbrev four_taken : FileCalls Copy
four_taken = record (taking 4) { snd2 = λ buffer w. (pos 4, record w { wire = w.wire ++ buffer }) }

abbrev eight_bytes : List ℕ
eight_bytes = 1 ∷ 2 ∷ 3 ∷ 4 ∷ 5 ∷ 6 ∷ 7 ∷ 8 ∷ []

abbrev begun : Filed Copy
begun = record {
  buffer = 0 ∷ 0 ∷ 0 ∷ 0 ∷ [];
  diskfile_left = 0;
  done = false;
  world = record { rest = eight_bytes; wire = [] };
}

four_taken-Copies : Copies four_taken 4 (λ w. w.rest) (λ w. w.wire)
four_taken-Copies = record {
  reads = λ n w. refl;
  read_rest = λ n w. refl;
  read_wire = λ n w. refl;
  sends = λ buffer w. refl;
  sent_wire = λ buffer w. refl;
  sent_rest = λ buffer w. refl;
}

passes-whole_example :
    ((passes four_taken 4 2 begun).world.wire ≡ [] ++ take (2 * 4) eight_bytes)
    × ((passes four_taken 4 2 begun).world.rest ≡ drop (2 * 4) eight_bytes)
passes-whole_example =
    passes-whole four_taken 4 (λ w. w.rest) (λ w. w.wire) four_taken-Copies 2 begun (omega arith)
      (record { left = refl; going = refl; size = refl }) (omega arith)

-- The byte that is left behind goes to the front of the buffer, and what is read next over it: the
-- second pass sends 5, 6 and 7 behind 1, 2 and 3, and the byte 4 is lost.
overwritten : (passes (taking 3) 4 2 begun).world.wire ≡ 1 ∷ 2 ∷ 3 ∷ 5 ∷ 6 ∷ 7 ∷ []
unfolding passes diskfile_send fill_buffer at_front
overwritten = refl
