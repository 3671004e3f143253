-- ===== src/DiskFile.antt =====
-- app/src/main/cpp/iperf/iperf_api.c: diskfile_send and diskfile_recv, which stand between a test
-- with -F and the protocol's snd and rcv. The buffer of a stream is a list of blksize bytes; read(2),
-- write(2), fsync(2), snd and rcv change a state `W`. What a debugging run prints is left out.
pub mod Whole
pub mod Examples
use sber_wifi.Prelude.{
  ℕ, zero, suc, ◌-◌, Bool, true, not, ◌&&◌, Option, none, some, List, ◌++◌, ltb, ◌==◌,
  if◌then◌else◌, length, take, drop,
}
use sber_wifi.Prelude.Int.{ℤ, pos, negsuc}

-- The fields of struct iperf_stream, and `done` of the test.
pub record Filed (W : Type 0) : Type 0 where
  pub buffer : List ℕ
  pub diskfile_left : ℕ
  pub done : Bool
  pub world : W

-- `read` is given a number of bytes and returns at most so many, or `none` for -1; `snd2` is given
-- the buffer, and `rcv2` returns the buffer that it has filled.
pub record FileCalls (W : Type 0) : Type 0 where
  pub read : ℕ → W → Option (List ℕ) × W
  pub snd2 : List ℕ → W → ℤ × W
  pub rcv2 : List ℕ → W → ℤ × List ℕ × W
  pub write : List ℕ → W → W
  pub fsync : W → W

-- memcpy of the bytes to the front of the buffer.
unfoldable pub at_front : List ℕ → List ℕ → List ℕ
at_front bytes buffer = bytes ++ drop (length bytes) buffer

module _ {W : Type 0} (calls : FileCalls W) (blksize : ℕ) where
  abbrev stored : Option (List ℕ) → Filed W → Filed W
  stored none s = s
  stored (some bytes) s = record s {
    buffer = at_front bytes s.buffer;
    done = if length bytes == 0 && s.diskfile_left == 0 then true else s.done;
  }

  -- What is read goes to the front of the buffer.
  unfoldable pub fill_buffer : Filed W → Filed W
  unfolding at_front
  fill_buffer s =
      let file = calls.read (blksize - s.diskfile_left) s.world in
      if ltb s.diskfile_left blksize && not s.done
      then stored file.0 (record s { world = file.1 })
      else s

  abbrev shifted : ℕ → Filed W → Filed W
  shifted left s = record s {
    buffer =
        if not (left == 0) && ltb left blksize
        then at_front (take left (drop (blksize - left) s.buffer)) s.buffer
        else s.buffer;
    diskfile_left = left;
  }

  -- `snd2` returns at most blksize.
  abbrev settled : ℤ → Filed W → ℤ × Filed W
  settled (pos r) s = (pos r, shifted (blksize - r) s)
  settled (negsuc e) s = (negsuc e, s)

  unfoldable pub diskfile_send : Filed W → ℤ × Filed W
  unfolding fill_buffer at_front
  diskfile_send s =
      let filled = fill_buffer s in
      let sent = calls.snd2 filled.buffer filled.world in
      settled sent.0 (record filled { world = sent.1 })

  abbrev kept : ℤ → Filed W → Filed W
  kept (pos r) s =
      if r == 0 then s else record s { world = calls.fsync (calls.write (take r s.buffer) s.world) }
  kept (negsuc e) s = s

  unfoldable pub diskfile_recv : Filed W → ℤ × Filed W
  diskfile_recv s =
      let (r, buffer, w) = calls.rcv2 s.buffer s.world in
      (r, kept r (record s { buffer = buffer; world = w }))

  -- `n` passes, of which all the bytes are taken.
  unfoldable pub passes : ℕ → Filed W → Filed W
  unfolding diskfile_send
  passes zero s = s
  passes (suc n) s = passes n (diskfile_send s).1
