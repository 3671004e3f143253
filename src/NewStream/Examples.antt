-- ===== src/NewStream/Examples.antt =====
-- Streams on a system that hands out numbers in turn; and on one that fails to unlink, and one on
-- which no socket has a name, where descriptors stay open.
use sber_wifi.Prelude.{ℕ, suc, ◌≡◌, refl, Bool, true, false, none, some, List, [], ◌∷◌}
use sber_wifi.Dscp.{codes}
use sber_wifi.Ids.{iperf_add_stream}
use sber_wifi.NewStream.{
  Resources, StreamParts, Wanted, System, Attempt, created, failed, take_out, close, free, munmap,
  iperf_free_stream, free_both, set_tos, iperf_init_stream, init_made, with_buffer, with_file,
  iperf_new_stream,
}
use sber_wifi.NewStream.Kept.{Leaves, iperf_new_stream-Leaves}
use sber_wifi.NewStream.Freed.{iperf_free_stream-iperf_new_stream}

-- The world is the next number.
abbrev in_turn : Bool → Bool → System ℕ
in_turn unlinks named = record {
  getenv = λ name. none;
  temp_path = codes "/tmp";
  malloc = λ w. (some w, suc w);
  mkstemp = λ template w. (some (w, template), suc w);
  unlink = λ name w. (unlinks, w);
  ftruncate = λ fd w. (true, w);
  mmap = λ fd w. (some w, suc w);
  open_file = λ name sender w. (some w, suc w);
  fill = λ repeating w. w;
  getsockname = λ socket w. (named, w);
  getpeername = λ socket w. (true, w);
  is_inet6 = λ socket. false;
  setsockopt = λ is_inet6 socket tos w. (true, w);
}

abbrev from_file : Wanted
from_file = record {
  tmp_template = none;
  diskfile_name = some (codes "in.bin");
  repeating_payload = false;
  tos = 0;
}

abbrev nothing : Resources ℕ
nothing = record { heap = []; fds = 3 ∷ []; maps = []; world = 100 }

iperf_new_stream-Leaves_example :
    Leaves nothing (iperf_new_stream (in_turn true true) from_file [] 3 true nothing)
iperf_new_stream-Leaves_example =
    iperf_new_stream-Leaves (in_turn true true) from_file [] 3 true nothing

abbrev first : StreamParts
first = record {
  sp = 100;
  result = 101;
  interval_results = [];
  buffer = 103;
  buffer_fd = 102;
  diskfile_fd = some 104;
  through_diskfile = true;
  socket = 3;
  sender = true;
}

iperf_free_stream-iperf_new_stream_example :
    iperf_free_stream
      (record first { interval_results = 106 ∷ 105 ∷ [] })
      (record {
        heap = 106 ∷ 105 ∷ 101 ∷ 100 ∷ [];
        fds = 104 ∷ 102 ∷ 3 ∷ [];
        maps = 103 ∷ [];
        world = 107;
      })
    ≡ some (record nothing { world = 107 })
unfolding iperf_new_stream with_file with_buffer init_made iperf_init_stream set_tos
    iperf_add_stream
iperf_free_stream-iperf_new_stream_example =
    iperf_free_stream-iperf_new_stream (in_turn true true) from_file [] 3 true nothing first
      (record { id = 1; stream = first } ∷ [])
      (record { heap = 101 ∷ 100 ∷ []; fds = 104 ∷ 102 ∷ 3 ∷ []; maps = 103 ∷ []; world = 105 })
      refl (106 ∷ 105 ∷ []) 107

-- The descriptors that stay open.
abbrev fds_of : Attempt ℕ → List ℕ
fds_of (created m streams s) = s.fds
fds_of (failed e s) = s.fds
fds_of Attempt.fault = []

-- The file of the buffer, where it cannot be unlinked.
unlinked : fds_of (iperf_new_stream (in_turn false true) from_file [] 3 true nothing) ≡ 102 ∷ 3 ∷ []
unfolding iperf_new_stream with_file with_buffer init_made iperf_init_stream set_tos
    iperf_add_stream free_both free take_out
unlinked = refl

-- The disk file, where iperf_init_stream fails.
unnamed : fds_of (iperf_new_stream (in_turn true false) from_file [] 3 true nothing) ≡ 104 ∷ 3 ∷ []
unfolding iperf_new_stream with_file with_buffer init_made iperf_init_stream set_tos
    iperf_add_stream free_both free take_out close munmap
unnamed = refl
