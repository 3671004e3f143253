-- ===== src/DiskFile/Whole.antt =====
-- A file that is sent in whole blocks.
use sber_wifi.Prelude.{
  ℕ, zero, suc, ◌+◌, ◌-◌, ◌*◌, ◌≤◌, ◌<◌, ◌≡◌, refl, sym, ap, ◌∙◌, true, false, some, List, [], ◌∷◌,
  ◌++◌, arith, ltb, ◌==◌, length, length-append, take, drop, take-append-drop, length-drop,
  take-add,
}
use sber_wifi.Prelude.Int.{pos}
use mathlib.Core.List.{append-nil, append_assoc}
use native.Mathlib.Nat.{zero-add, suc-add}
use sber_wifi.DiskFile.{Filed, FileCalls, at_front, fill_buffer, diskfile_send, passes}

-- What is left of the file and what has been sent. read(2) gives as many bytes as it is asked for
-- while there are any, and snd takes the whole buffer.
pub record Copies {W : Type 0} (calls : FileCalls W) (blksize : ℕ) (rest wire : W → List ℕ)
    : Type 0 where
  pub reads : (n : ℕ) (w : W) → (calls.read n w).0 ≡ some (take n (rest w))
  pub read_rest : (n : ℕ) (w : W) → rest (calls.read n w).1 ≡ drop n (rest w)
  pub read_wire : (n : ℕ) (w : W) → wire (calls.read n w).1 ≡ wire w
  pub sends : (buffer : List ℕ) (w : W) → (calls.snd2 buffer w).0 ≡ pos blksize
  pub sent_wire : (buffer : List ℕ) (w : W) → wire (calls.snd2 buffer w).1 ≡ wire w ++ buffer
  pub sent_rest : (buffer : List ℕ) (w : W) → rest (calls.snd2 buffer w).1 ≡ rest w

-- Nothing is left in the buffer.
pub record IsClean {W : Type 0} (blksize : ℕ) (s : Filed W) : Type 0 where
  pub left : s.diskfile_left ≡ 0
  pub going : s.done ≡ false
  pub size : length s.buffer ≡ blksize

drop_own : (l : List ℕ) → drop (length l) l ≡ []
drop_own [] = refl
drop_own (x ∷ l) = drop_own l

drop-nil : (n : ℕ) → drop {A = ℕ} n [] ≡ []
drop-nil zero = refl
drop-nil (suc n) = refl

drop-drop : (m n : ℕ) (l : List ℕ) → drop n (drop m l) ≡ drop (m + n) l
drop-drop zero n l = rw zero-add refl
drop-drop (suc m) n [] = rw (suc-add m n) (drop-nil n)
drop-drop (suc m) n (x ∷ l) = rw (suc-add m n) (drop-drop m n l)

at_front_exact :
    (bytes buffer : List ℕ) → length bytes ≡ length buffer → at_front bytes buffer ≡ bytes
unfolding at_front
at_front_exact bytes buffer e =
    ap (λ n. bytes ++ drop n buffer) e ∙ ap (λ l. bytes ++ l) (drop_own buffer) ∙ append-nil bytes

length-take : (n : ℕ) (l : List ℕ) → n ≤ length l → length (take n l) ≡ n
length-take n l e =
    let parts = sym (length-append (take n l) (drop n l)) ∙ ap length (take-append-drop n l) in
    omega (arith, parts, length-drop n l)

module _ {W : Type 0} (calls : FileCalls W) (blksize : ℕ) (rest wire : W → List ℕ)
    (good : Copies calls blksize rest wire) where
  -- A pass that reads a whole block, and one that sends it.
  abbrev filled : Filed W → Filed W
  filled s = record s {
    buffer = take blksize (rest s.world);
    done = false;
    world = (calls.read blksize s.world).1;
  }

  abbrev sent : Filed W → Filed W
  sent s = record s {
    buffer = take blksize (rest s.world);
    diskfile_left = 0;
    done = false;
    world = (calls.snd2 (take blksize (rest s.world)) (calls.read blksize s.world).1).1;
  }

  fill_buffer-whole :
      (s : Filed W)
      → 0 < blksize
      → IsClean blksize s
      → blksize ≤ length (rest s.world)
      → fill_buffer calls blksize s ≡ filled s
  unfolding fill_buffer
  fill_buffer-whole s some_bytes clean room =
      let size = length-take blksize (rest s.world) room in
      let below : ltb s.diskfile_left blksize ≡ true = ground (arith, clean.left) in
      let all : blksize - s.diskfile_left ≡ blksize = omega (arith, clean.left) in
      let not_end : (length (take blksize (rest s.world)) == 0) ≡ false = ground arith in
      rw (below, clean.going, all)
        (rw (good.reads blksize s.world) (
          rw not_end (
            ap (λ l. record s { buffer = l; done = false; world = (calls.read blksize s.world).1 })
              (at_front_exact (take blksize (rest s.world)) s.buffer (size ∙ sym clean.size)))))

  diskfile_send-whole :
      (s : Filed W)
      → 0 < blksize
      → IsClean blksize s
      → blksize ≤ length (rest s.world)
      → diskfile_send calls blksize s ≡ (pos blksize, sent s)
  unfolding diskfile_send
  diskfile_send-whole s some_bytes clean room =
      let none_left : blksize - blksize ≡ 0 = omega arith in
      let whole = good.sends (take blksize (rest s.world)) (calls.read blksize s.world).1 in
      rw (fill_buffer-whole s some_bytes clean room) (rw whole (rw none_left refl))

  -- `n` passes over a file that has at least `n` blocks left, from a buffer with nothing left in it,
  -- send the next `n` blocks of the file in their order and leave the file behind them; read(2) gives
  -- as much as it is asked for and snd takes the whole buffer.
  pub passes-whole :
      (n : ℕ) (s : Filed W)
      → 0 < blksize
      → IsClean blksize s
      → n * blksize ≤ length (rest s.world)
      → (wire (passes calls blksize n s).world ≡ wire s.world ++ take (n * blksize) (rest s.world))
        × (rest (passes calls blksize n s).world ≡ drop (n * blksize) (rest s.world))
  unfolding passes
  passes-whole zero s some_bytes clean room =
      let nothing : 0 * blksize ≡ 0 = omega arith in
      (
        sym (ap (λ k. wire s.world ++ take k (rest s.world)) nothing ∙ append-nil (wire s.world)),
        sym (ap (λ k. drop k (rest s.world)) nothing),
      )
  passes-whole (suc n) s some_bytes clean room =
      let w = s.world in
      let more : suc n * blksize ≡ blksize + n * blksize = omega arith in
      let pass = diskfile_send-whole s some_bytes clean (omega arith) in
      let block = take blksize (rest w) in
      let w' = (calls.read blksize w).1 in
      let rest_now : rest (sent s).world ≡ drop blksize (rest w) =
        good.sent_rest block w' ∙ good.read_rest blksize w in
      let wire_now : wire (sent s).world ≡ wire w ++ block =
        good.sent_wire block w' ∙ ap (λ l. l ++ block) (good.read_wire blksize w) in
      let room_now : n * blksize ≤ length (rest (sent s).world) =
        omega (arith, ap length rest_now, length-drop blksize (rest w)) in
      let clean_now : IsClean blksize (sent s) = record {
        left = refl;
        going = refl;
        size = length-take blksize (rest w) (omega arith);
      } in
      let (wired, left) = passes-whole n (sent s) some_bytes clean_now room_now in
      (
        ap (λ x. wire (passes calls blksize n x.1).world) pass
            ∙ wired
            ∙ ap (λ l. l ++ take (n * blksize) (rest (sent s).world)) wire_now
            ∙ ap (λ l. (wire w ++ block) ++ take (n * blksize) l) rest_now
            ∙ append_assoc (wire w) block (take (n * blksize) (drop blksize (rest w)))
            ∙ ap (λ l. wire w ++ l) (sym (take-add blksize (n * blksize) (rest w)))
            ∙ ap (λ k. wire w ++ take k (rest w)) (sym more),
        ap (λ x. rest (passes calls blksize n x.1).world) pass
            ∙ left
            ∙ ap (drop (n * blksize)) rest_now
            ∙ drop-drop blksize (n * blksize) (rest w)
            ∙ ap (λ k. drop k (rest w)) (sym more),
      )
