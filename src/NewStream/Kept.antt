-- ===== src/NewStream/Kept.antt =====
-- What iperf_new_stream takes, iperf_free_stream gives back; and what is held where it fails.
use sber_wifi.Prelude.{
  ℕ, ◌≤◌, ◌≡◌, refl, inl, inr, Bool, true, false, Option, none, some, List, [], ◌∷◌, ◌++◌, arith,
  ◌==◌, Bool-cases, Option-cases, length,
}
use sber_wifi.Libc.{Text}
use sber_wifi.Error.{IErr, ie_file, ie_createstream}
use sber_wifi.Ids.{Numbered}
use sber_wifi.NewStream.{
  fails, unmapped, template_of, Resources, StreamParts, Wanted, System, Attempt, created, failed,
  fault, take_out, ◌>>=◌, free, close, munmap, free_both, iperf_init_stream, init_made, with_buffer,
  with_file, iperf_new_stream,
}

unfoldable pub front_of : Option ℕ → List ℕ → List ℕ
front_of none l = l
front_of (some fd) l = fd ∷ l

-- What a call of iperf_new_stream at `s` leaves. A stream holds two blocks, a mapping, the file of
-- its buffer and the disk file, in front of what was held before. Where it fails no block and no
-- mapping stays, and at most one descriptor.
unfoldable pub Leaves : {W : Type 0} → Resources W → Attempt W → Type 0
unfolding front_of
Leaves s (created m streams s') =
    (s'.heap ≡ m.result ∷ m.sp ∷ s.heap)
    × (s'.fds ≡ front_of m.diskfile_fd (m.buffer_fd ∷ s.fds))
    × (s'.maps ≡ m.buffer ∷ s.maps)
Leaves s (failed e s') =
    (s'.heap ≡ s.heap)
    × (s'.maps ≡ s.maps)
    × ((kept : List ℕ) × (s'.fds ≡ kept ++ s.fds) × (length kept ≤ 1))
Leaves s fault = true ≡ false

pub take_out-cons : (a : ℕ) (l : List ℕ) → take_out a (a ∷ l) ≡ some l
unfolding take_out
take_out-cons a l = ground arith

free_both-cons :
    {W : Type 0} (sp result : ℕ) (heap : List ℕ) (s : Resources W)
    → free_both sp result (record s { heap = result ∷ sp ∷ heap }) ≡ some (record s { heap = heap })
unfolding free_both free
free_both-cons sp result heap s =
    rw (take_out-cons result (sp ∷ heap)) (rw (take_out-cons sp heap) refl)

pub take_out-front_of :
    (d : Option ℕ) (b : ℕ) (l : List ℕ) → take_out b (front_of d (b ∷ l)) ≡ some (front_of d l)
unfolding front_of take_out
take_out-front_of none b l = take_out-cons b l
take_out-front_of (some fd) b l = elim (Bool-cases (fd == b)) [
  | inl same ↦ ground (arith, take_out-cons b l)
  | inr other ↦ ground (arith, take_out-cons b l)
]

front_of-append : (d : Option ℕ) (l : List ℕ) → front_of d l ≡ front_of d [] ++ l
unfolding front_of
front_of-append none l = refl
front_of-append (some fd) l = refl

length-front_of : (d : Option ℕ) → length (front_of d []) ≤ 1
unfolding front_of
length-front_of none = omega arith
length-front_of (some fd) = omega arith

module _ {W : Type 0} (os : System W) where
  -- A stream that is mapped, in front of what was held before, with the files `fds`.
  abbrev taken : StreamParts → List ℕ → W → Resources W → Resources W
  taken m fds w s = record s {
    heap = m.result ∷ m.sp ∷ s.heap;
    fds = fds;
    maps = m.buffer ∷ s.maps;
    world = w;
  }

  undone :
      (m : StreamParts) (fds : List ℕ) (w : W) (s : Resources W)
      → (munmap m.buffer (taken m fds w s) >>= free_both m.sp m.result)
        ≡ some (record s { fds = fds; world = w })
  unfolding munmap
  undone m fds w s =
      rw (take_out-cons m.buffer s.maps)
        (free_both-cons m.sp m.result s.heap (record s { fds = fds; world = w }))

  -- The clean-up behind a failing iperf_init_stream leaves the disk file.
  failed-Leaves :
      (e : IErr) (m : StreamParts) (w : W) (s : Resources W)
      → Leaves s (
          fails e (
            close m.buffer_fd (taken m (front_of m.diskfile_fd (m.buffer_fd ∷ s.fds)) w s)
            >>= munmap m.buffer
            >>= free_both m.sp m.result))
  unfolding close Leaves
  failed-Leaves e m w s = rw (take_out-front_of m.diskfile_fd m.buffer_fd s.fds) (
      rw (undone m (front_of m.diskfile_fd s.fds) w s) (
        refl,
        refl,
        (
          front_of m.diskfile_fd [],
          front_of-append m.diskfile_fd s.fds,
          length-front_of m.diskfile_fd,
        ),
      ))

  -- The end of iperf_new_stream, with the disk file opened or not.
  init_made-Leaves :
      (want : Wanted) (streams : List (Numbered StreamParts)) (m : StreamParts) (w : W)
      (s : Resources W)
      → Leaves s
          (init_made os want streams m (taken m (front_of m.diskfile_fd (m.buffer_fd ∷ s.fds)) w s))
  unfolding init_made close Leaves front_of
  init_made-Leaves want streams m w s =
      let init = iperf_init_stream os m.socket want.tos (os.fill want.repeating_payload w) in
      elim (Option-cases init.0) [
        | inl fine ↦ rw fine (refl, refl, refl)
        | inr (e, fails) ↦ rw fails (failed-Leaves e m init.1 s)
      ]

  -- A clean-up that leaves the file of the buffer.
  left-Leaves :
      (e : IErr) (fd : ℕ) (w : W) (o : Option (Resources W)) (s : Resources W)
      → o ≡ some (record s { fds = fd ∷ s.fds; world = w })
      → Leaves s (fails e o)
  unfolding Leaves
  left-Leaves e fd w o s cleaned = rw cleaned (refl, refl, (fd ∷ [], refl, omega arith))

  -- A stream without a disk file.
  abbrev plain : ℕ → Bool → ℕ → ℕ → ℕ → ℕ → StreamParts
  plain socket sender sp result buffer_fd buffer =
      record (unmapped os socket sender sp result buffer_fd) { buffer = buffer }

  with_buffer-Leaves :
      (want : Wanted) (name : Option Text) (streams : List (Numbered StreamParts)) (socket : ℕ)
      (sender : Bool) (sp result buffer_fd buffer : ℕ) (w : W) (s : Resources W)
      → let m = plain socket sender sp result buffer_fd buffer in
        Leaves s (with_buffer os want name streams m (taken m (buffer_fd ∷ s.fds) w s))
  unfolding with_buffer front_of
  with_buffer-Leaves want none streams socket sender sp result buffer_fd buffer w s =
      init_made-Leaves want streams (plain socket sender sp result buffer_fd buffer) w s
  with_buffer-Leaves want (some name) streams socket sender sp result buffer_fd buffer w s =
      let m : StreamParts = plain socket sender sp result buffer_fd buffer in
      let file = os.open_file name m.sender w in
      elim (Option-cases file.0) [
        | inl fails ↦
            rw fails
              (left-Leaves ie_file m.buffer_fd file.1 _ s (undone m (m.buffer_fd ∷ s.fds) file.1 s))
        | inr (fd, opens) ↦ rw opens (
            init_made-Leaves want streams
              (record m { diskfile_fd = some fd; through_diskfile = true }) file.1 s)
      ]

  -- What is held between mkstemp and mmap.
  abbrev filed : ℕ → ℕ → ℕ → W → Resources W → Resources W
  filed sp result buffer_fd w s = record s {
    heap = result ∷ sp ∷ s.heap;
    fds = buffer_fd ∷ s.fds;
    world = w;
  }

  with_file-Leaves :
      (want : Wanted) (streams : List (Numbered StreamParts)) (socket : ℕ) (sender : Bool)
      (sp result buffer_fd : ℕ) (template : Text) (w : W) (s : Resources W)
      → Leaves s (
          with_file os want streams
            (unmapped os socket sender sp result buffer_fd)
            template
            (filed sp result buffer_fd w s))
  unfolding with_file
  with_file-Leaves want streams socket sender sp result buffer_fd template w s =
      let unlinked = os.unlink template w in
      let truncated = os.ftruncate buffer_fd unlinked.1 in
      let map = os.mmap buffer_fd truncated.1 in
      let cleaned = λ (w' : W).
        left-Leaves ie_createstream buffer_fd w' _ s
          (free_both-cons sp result s.heap (record s { fds = buffer_fd ∷ s.fds; world = w' })) in
      elim (Bool-cases unlinked.0) [
        | inr fails ↦ rw fails (cleaned unlinked.1)
        | inl ok ↦ elim (Bool-cases truncated.0) [
          | inr fails ↦ rw (ok, fails) (cleaned truncated.1)
          | inl fits ↦ elim (Option-cases map.0) [
            | inl fails ↦ rw (ok, fits) (rw fails (cleaned map.1))
            | inr (buffer, maps) ↦
                rw (ok, fits)
                  (rw maps (
                    with_buffer-Leaves want want.diskfile_name streams socket sender sp result
                      buffer_fd buffer map.1 s))
          ]
        ]
      ]

  -- A clean-up that leaves nothing.
  none_left-Leaves :
      (e : IErr) (w : W) (o : Option (Resources W)) (s : Resources W)
      → o ≡ some (record s { world = w })
      → Leaves s (fails e o)
  unfolding Leaves
  none_left-Leaves e w o s cleaned = rw cleaned (refl, refl, ([], refl, omega arith))

  -- Whatever the system answers, iperf_new_stream never gives back what it does not hold. A stream
  -- that it returns holds two blocks, a mapping, the file of its buffer and the disk file where one
  -- is asked for, and nothing else is held than before; where it fails, no block and no mapping
  -- stays, and at most one descriptor.
  pub iperf_new_stream-Leaves :
      (want : Wanted) (streams : List (Numbered StreamParts)) (socket : ℕ) (sender : Bool)
      (s : Resources W)
      → Leaves s (iperf_new_stream os want streams socket sender s)
  unfolding iperf_new_stream free Leaves
  iperf_new_stream-Leaves want streams socket sender s =
      let block = os.malloc s.world in
      let second = os.malloc block.1 in
      let file = os.mkstemp (template_of os want.tmp_template) second.1 in
      elim (Option-cases block.0) [
        | inl fails ↦ rw fails (refl, refl, ([], refl, omega arith))
        | inr (sp, got) ↦ elim (Option-cases second.0) [
          | inl fails ↦ rw got (
              rw fails
                (none_left-Leaves ie_createstream second.1 _ s (rw (take_out-cons sp s.heap) refl)))
          | inr (result, got2) ↦ elim (Option-cases file.0) [
            | inl fails ↦ rw got (
                rw got2 (
                  rw fails (
                    none_left-Leaves ie_createstream file.1 _ s
                      (free_both-cons sp result s.heap (record s { world = file.1 })))))
            | inr ((fd, name), made) ↦ rw got (
                rw got2 (
                  rw made (with_file-Leaves want streams socket sender sp result fd name file.1 s)))
          ]
        ]
      ]
