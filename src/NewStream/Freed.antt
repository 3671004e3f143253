-- ===== src/NewStream/Freed.antt =====
-- iperf_free_stream gives back what iperf_new_stream took, with the interval results since.
use sber_wifi.Prelude.{ℕ, ◌≡◌, refl, Bool, Option, none, some, List, [], ◌∷◌, ◌++◌}
use mathlib.Core.Path.{subst}
use sber_wifi.Ids.{Numbered}
use sber_wifi.NewStream.{
  Resources, StreamParts, Wanted, System, created, close_if, close, free, munmap, free_intervals,
  iperf_free_stream, iperf_new_stream,
}
use sber_wifi.NewStream.Kept.{
  Leaves, front_of, take_out-cons, take_out-front_of, iperf_new_stream-Leaves,
}

free_intervals-append :
    {W : Type 0} (irps heap : List ℕ) (s : Resources W)
    → free_intervals irps (record s { heap = irps ++ heap }) ≡ some (record s { heap = heap })
unfolding free_intervals free
free_intervals-append [] heap s = refl
free_intervals-append (irp ∷ nirp) heap s =
    rw (take_out-cons irp (nirp ++ heap)) (free_intervals-append nirp heap s)

close_if-front_of :
    {W : Type 0} (d : Option ℕ) (l : List ℕ) (s : Resources W)
    → close_if d (record s { fds = front_of d l }) ≡ some (record s { fds = l })
unfolding close front_of
close_if-front_of none l s = refl
close_if-front_of (some fd) l s = rw (take_out-cons fd l) refl

free_held :
    {W : Type 0} (m : StreamParts) (w : W) (s : Resources W)
    → iperf_free_stream m (record s {
      heap = m.interval_results ++ (m.result ∷ m.sp ∷ s.heap);
      fds = front_of m.diskfile_fd (m.buffer_fd ∷ s.fds);
      maps = m.buffer ∷ s.maps;
      world = w;
    })
      ≡ some (record s { world = w })
unfolding iperf_free_stream munmap close free
free_held m w s =
    let h = m.interval_results ++ (m.result ∷ m.sp ∷ s.heap) in
    let base : Resources _ = record s { heap = h; world = w } in
    rw (take_out-cons m.buffer s.maps) (
      rw (take_out-front_of m.diskfile_fd m.buffer_fd s.fds) (
        rw (close_if-front_of m.diskfile_fd s.fds base) (
          rw
            (free_intervals-append m.interval_results (m.result ∷ m.sp ∷ s.heap)
              (record s { world = w }))
            (rw (take_out-cons m.result (m.sp ∷ s.heap)) (rw (take_out-cons m.sp s.heap) refl)))))

-- What is held after iperf_new_stream, in one equation.
held_by :
    {W : Type 0} (m : StreamParts) (irps : List ℕ) (w : W) (s s' : Resources W)
    → s'.heap ≡ m.result ∷ m.sp ∷ s.heap
    → s'.fds ≡ front_of m.diskfile_fd (m.buffer_fd ∷ s.fds)
    → s'.maps ≡ m.buffer ∷ s.maps
    → iperf_free_stream
        (record m { interval_results = irps })
        (record s' { heap = irps ++ s'.heap; world = w })
      ≡ some (record s { world = w })
held_by m irps w s s' heap fds maps =
    rw (heap, fds, maps) (free_held (record m { interval_results = irps }) w s)

module _ {W : Type 0} (os : System W) where
  -- iperf_free_stream of a stream that iperf_new_stream has returned, with any interval results
  -- allocated since, leaves exactly the blocks, descriptors and mappings from before the stream.
  pub iperf_free_stream-iperf_new_stream :
      (want : Wanted) (streams : List (Numbered StreamParts)) (socket : ℕ) (sender : Bool)
      (s : Resources W) (m : StreamParts) (streams' : List (Numbered StreamParts))
      (s' : Resources W)
      → iperf_new_stream os want streams socket sender s ≡ created m streams' s'
      → (irps : List ℕ) (w : W)
      → iperf_free_stream
          (record m { interval_results = irps })
          (record s' { heap = irps ++ s'.heap; world = w })
        ≡ some (record s { world = w })
  unfolding Leaves
  iperf_free_stream-iperf_new_stream want streams socket sender s m streams' s' e irps w =
      let (heap, fds, maps) =
        subst (Leaves s) e (iperf_new_stream-Leaves os want streams socket sender s) in
      held_by m irps w s s' heap fds maps
