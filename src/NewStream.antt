-- ===== src/NewStream.antt =====
-- app/src/main/cpp/iperf/iperf_api.c: iperf_new_stream, iperf_init_stream and iperf_free_stream,
-- and what they take from the system: blocks of the heap, descriptors and mappings. The system's
-- calls change a state `W`; giving back what is not held is a fault.
pub mod Kept
pub mod Freed
pub mod Examples
use sber_wifi.Prelude.{
  ℕ, Bool, true, false, not, Option, none, some, List, [], ◌∷◌, ◌++◌, map, ◌==◌, if◌then◌else◌,
  take,
}
use sber_wifi.Libc.{Text}
use sber_wifi.Dscp.{codes}
use sber_wifi.Error.{IErr, ie_createstream, ie_initstream, ie_file, ie_setcos, ie_settos}
use sber_wifi.Ids.{Numbered, iperf_add_stream}

-- What a process holds: addresses of blocks, open descriptors, addresses of mappings.
pub record Resources (W : Type 0) : Type 0 where
  pub heap : List ℕ
  pub fds : List ℕ
  pub maps : List ℕ
  pub world : W

-- The fields of struct iperf_stream that stand for something held, and what iperf_new_stream puts
-- in beside them. `interval_results` has the addresses of the list's nodes.
pub record StreamParts : Type 0 where
  pub sp : ℕ
  pub result : ℕ
  pub interval_results : List ℕ
  pub buffer : ℕ
  pub buffer_fd : ℕ
  pub diskfile_fd : Option ℕ  -- `none` is -1
  pub through_diskfile : Bool  -- snd and rcv are diskfile_send and diskfile_recv
  pub socket : ℕ
  pub sender : Bool

-- What iperf_new_stream reads in the test.
pub record Wanted : Type 0 where
  pub tmp_template : Option Text
  pub diskfile_name : Option Text
  pub repeating_payload : Bool
  pub tos : ℕ

-- The system and the rest of the program. Where the result is a Bool, `true` is success. `fill` is
-- fill_with_repeating_pattern or readentropy, which ends the program where it fails.
pub record System (W : Type 0) : Type 0 where
  pub getenv : Text → Option Text
  pub temp_path : Text  -- tempPath
  pub malloc : W → Option ℕ × W
  pub mkstemp : Text → W → Option (ℕ × Text) × W  -- the descriptor, and the template filled in
  pub unlink : Text → W → Bool × W
  pub ftruncate : ℕ → W → Bool × W
  pub mmap : ℕ → W → Option ℕ × W
  pub open_file : Text → Bool → W → Option ℕ × W
  pub fill : Bool → W → W
  pub getsockname : ℕ → W → Bool × W
  pub getpeername : ℕ → W → Bool × W
  pub is_inet6 : ℕ → Bool
  pub setsockopt : Bool → ℕ → ℕ → W → Bool × W

pub data Attempt (W : Type 0) : Type 0 where
  created : StreamParts → List (Numbered StreamParts) → Resources W → Attempt W
  failed : IErr → Resources W → Attempt W
  fault : Attempt W

abbrev cons_to : ℕ → Option (List ℕ) → Option (List ℕ)
cons_to a none = none
cons_to a (some l) = some (a ∷ l)

unfoldable pub take_out : ℕ → List ℕ → Option (List ℕ)
take_out a [] = none
take_out a (b ∷ l) = if b == a then some l else cons_to b (take_out a l)

infixl 5 ◌>>=◌
abbrev pub ◌>>=◌ : {A B : Type 0} → Option A → (A → Option B) → Option B
none >>= f = none
some a >>= f = f a

unfoldable pub free : {W : Type 0} → ℕ → Resources W → Option (Resources W)
unfolding take_out
free a s = do heap ← take_out a s.heap; some (record s { heap = heap })

unfoldable pub close : {W : Type 0} → ℕ → Resources W → Option (Resources W)
unfolding take_out
close fd s = do fds ← take_out fd s.fds; some (record s { fds = fds })

unfoldable pub munmap : {W : Type 0} → ℕ → Resources W → Option (Resources W)
unfolding take_out
munmap a s = do maps ← take_out a s.maps; some (record s { maps = maps })

abbrev pub close_if : {W : Type 0} → Option ℕ → Resources W → Option (Resources W)
close_if none s = some s
close_if (some fd) s = close fd s

unfoldable pub free_intervals : {W : Type 0} → List ℕ → Resources W → Option (Resources W)
unfolding free
free_intervals [] s = some s
free_intervals (irp ∷ nirp) s = do s' ← free irp s; free_intervals nirp s'

-- The send timer that a stream may hold is in Timing.
unfoldable pub iperf_free_stream : {W : Type 0} → StreamParts → Resources W → Option (Resources W)
unfolding free close munmap free_intervals
iperf_free_stream m s = do
  s1 ← munmap m.buffer s
  s2 ← close m.buffer_fd s1
  s3 ← close_if m.diskfile_fd s2
  s4 ← free_intervals m.interval_results s3
  s5 ← free m.result s4
  free m.sp s5

-- `i_errno = e; return NULL;` after what is given back.
abbrev pub fails : {W : Type 0} → IErr → Option (Resources W) → Attempt W
fails e none = fault
fails e (some s) = failed e s

-- `free(sp->result); free(sp);`
unfoldable pub free_both : {W : Type 0} → ℕ → ℕ → Resources W → Option (Resources W)
unfolding free
free_both sp result s = do s' ← free result s; free sp s'

module _ {W : Type 0} (os : System W) where
  abbrev or_env : Option Text → Text → Option Text
  or_env none name = os.getenv name
  or_env (some dir) name = some dir

  abbrev or_temp_path : Option Text → Text
  or_temp_path none = os.temp_path
  or_temp_path (some dir) = dir

  -- `template`, of at most 1023 characters.
  unfoldable pub template_of : Option Text → Text
  template_of (some tmp_template) = take 1023 tmp_template
  template_of none =
      let dir = or_env (or_env (os.getenv (codes "TMPDIR")) (codes "TEMP")) (codes "TMP") in
      take 1023 (or_temp_path dir ++ codes "/iperf3.XXXXXX")

  -- The end of iperf_init_stream: the traffic class or the type of service.
  unfoldable pub set_tos : ℕ → ℕ → W → Option IErr × W
  set_tos socket tos w =
      let is_inet6 = os.is_inet6 socket in
      let (sets, w') = os.setsockopt is_inet6 socket tos w in
      if tos == 0
      then (none, w)
      else if sets
      then (none, w')
      else (some (if is_inet6 then ie_setcos else ie_settos), w')

  -- `none` is 0, and an error -1 with i_errno.
  unfoldable pub iperf_init_stream : ℕ → ℕ → W → Option IErr × W
  unfolding set_tos
  iperf_init_stream socket tos w =
      let (local, w1) = os.getsockname socket w in
      let (remote, w2) = os.getpeername socket w1 in
      if not local
      then (some ie_initstream, w1)
      else if not remote
      then (some ie_initstream, w2)
      else set_tos socket tos w2

  -- iperf_new_stream from its end, by what it has taken so far. Each step looks at one result.
  abbrev initialised :
      List (Numbered StreamParts) → StreamParts → Option IErr → Resources W → Attempt W
  initialised streams m none s = created m (iperf_add_stream streams m) s
  initialised streams m (some e) s =
      fails e (close m.buffer_fd s >>= munmap m.buffer >>= free_both m.sp m.result)

  unfoldable pub init_made :
      Wanted → List (Numbered StreamParts) → StreamParts → Resources W → Attempt W
  unfolding iperf_init_stream close munmap free_both iperf_add_stream
  init_made want streams m s =
      let init = iperf_init_stream m.socket want.tos (os.fill want.repeating_payload s.world) in
      initialised streams m init.0 (record s { world = init.1 })

  abbrev opened :
      Wanted → List (Numbered StreamParts) → StreamParts → Option ℕ → Resources W → Attempt W
  opened want streams m none s = fails ie_file (munmap m.buffer s >>= free_both m.sp m.result)
  opened want streams m (some diskfile_fd) s =
      init_made want streams (record m { diskfile_fd = some diskfile_fd; through_diskfile = true })
        (record s { fds = diskfile_fd ∷ s.fds })

  unfoldable pub with_buffer :
      Wanted → Option Text → List (Numbered StreamParts) → StreamParts → Resources W → Attempt W
  unfolding init_made
  with_buffer want none streams m s = init_made want streams m s
  with_buffer want (some diskfile_name) streams m s =
      let file = os.open_file diskfile_name m.sender s.world in
      opened want streams m file.0 (record s { world = file.1 })

  -- The stream before its buffer is mapped.
  abbrev pub unmapped : ℕ → Bool → ℕ → ℕ → ℕ → StreamParts
  unmapped socket sender sp result buffer_fd = record {
    sp = sp;
    result = result;
    interval_results = [];
    buffer = 0;
    buffer_fd = buffer_fd;
    diskfile_fd = none;
    through_diskfile = false;
    socket = socket;
    sender = sender;
  }

  abbrev mapped :
      Wanted → List (Numbered StreamParts) → StreamParts → Option ℕ → Resources W → Attempt W
  mapped want streams m none s = fails ie_createstream (free_both m.sp m.result s)
  mapped want streams m (some buffer) s =
      with_buffer want want.diskfile_name streams (record m { buffer = buffer })
        (record s { maps = buffer ∷ s.maps })

  unfoldable pub with_file :
      Wanted → List (Numbered StreamParts) → StreamParts → Text → Resources W → Attempt W
  unfolding with_buffer
  with_file want streams m template s =
      let unlinked = os.unlink template s.world in
      let truncated = os.ftruncate m.buffer_fd unlinked.1 in
      let map = os.mmap m.buffer_fd truncated.1 in
      if not unlinked.0
      then fails ie_createstream (free_both m.sp m.result (record s { world = unlinked.1 }))
      else if not truncated.0
      then fails ie_createstream (free_both m.sp m.result (record s { world = truncated.1 }))
      else mapped want streams m map.0 (record s { world = map.1 })

  abbrev filed :
      Wanted
      → List (Numbered StreamParts)
      → ℕ
      → Bool
      → ℕ
      → ℕ
      → Option (ℕ × Text)
      → Resources W
      → Attempt W
  filed want streams socket sender sp result none s = fails ie_createstream (free_both sp result s)
  filed want streams socket sender sp result (some (buffer_fd, name)) s =
      with_file want streams (unmapped socket sender sp result buffer_fd) name
        (record s { fds = buffer_fd ∷ s.fds })

  abbrev with_result :
      Wanted → List (Numbered StreamParts) → ℕ → Bool → ℕ → Option ℕ → Resources W → Attempt W
  with_result want streams socket sender sp none s = fails ie_createstream (free sp s)
  with_result want streams socket sender sp (some result) s =
      let file = os.mkstemp (template_of want.tmp_template) s.world in
      filed want streams socket sender sp result file.0
        (record s { heap = result ∷ s.heap; world = file.1 })

  abbrev with_sp :
      Wanted → List (Numbered StreamParts) → ℕ → Bool → Option ℕ → Resources W → Attempt W
  with_sp want streams socket sender none s = failed ie_createstream s
  with_sp want streams socket sender (some sp) s =
      let block = os.malloc s.world in
      with_result want streams socket sender sp block.0
        (record s { heap = sp ∷ s.heap; world = block.1 })

  unfoldable pub iperf_new_stream :
      Wanted → List (Numbered StreamParts) → ℕ → Bool → Resources W → Attempt W
  unfolding template_of with_file
  iperf_new_stream want streams socket sender s =
      let block = os.malloc s.world in
      with_sp want streams socket sender block.0 (record s { world = block.1 })
