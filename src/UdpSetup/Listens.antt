-- ===== src/UdpSetup/Listens.antt =====
-- What holds where iperf_udp_accept and iperf_udp_connect return a socket.
use sber_wifi.Prelude.{
  ℕ, ◌≤◌, ◌≡◌, refl, sym, ap, ◌∙◌, inl, inr, Bool, some, ◌∷◌, arith, Option-cases,
}
use mathlib.Core.Path.{subst}
use sber_wifi.Error.{ie_streamaccept, ie_streamwrite}
use sber_wifi.UdpSetup.{
  announced, send_answer, replace_listener, settle_buffers, bind_peer, System, UdpTest, Reply,
  reply, error, need, need_value, listen_on, lift, iperf_udp_accept,
}
use sber_wifi.UdpSetup.Buffers.{
  Replies, Replies-if_reply, HasBuffers, Buffered, set_buffers-Replies,
}

module _ {W : Type 0} (os : System W) where
  -- What iperf_udp_accept leaves: the old listener is the stream's socket, with buffers of the size
  -- asked for, and the one that netannounce gives is listened to and within max_fd.
  pub Accepts : UdpTest W → ℕ → UdpTest W → Type 0
  Accepts u s u' =
      (s ≡ u.prot_listener)
      × HasBuffers os s u'.socket_bufsize
      × ((w : W) × ((os.netannounce w).0 ≡ some u'.prot_listener))
      × (u'.read_set ≡ u'.prot_listener ∷ u.read_set)
      × (u'.prot_listener ≤ u'.max_fd)
      × (u.max_fd ≤ u'.max_fd)

  -- Nothing but the world is changed.
  Same : UdpTest W → UdpTest W → Type 0
  Same u u' =
      (u'.prot_listener ≡ u.prot_listener)
      × (u'.read_set ≡ u.read_set)
      × (u'.max_fd ≡ u.max_fd)
      × (u'.socket_bufsize ≡ u.socket_bufsize)

  lift-Replies :
      {A : Type 0} (u : UdpTest W) (r : Reply A W) → Replies (λ a u'. Same u u') (lift os u r)
  unfolding Replies Same
  lift-Replies u (reply a w) = (refl, refl, refl, refl)
  lift-Replies u (error e w) = tt

  -- The descriptor is one that netannounce has given.
  Announces : UdpTest W → ℕ → UdpTest W → Type 0
  unfolding Same
  Announces u listener u' = Same u u' × ((w : W) × ((os.netannounce w).0 ≡ some listener))

  announced-Replies :
      (u : UdpTest W) → Replies (Announces u) (announced os u (os.netannounce u.world))
  unfolding Replies Announces
  announced-Replies u = elim (Option-cases (os.netannounce u.world).0) [
    | inl fails ↦ rw fails tt
    | inr (listener, given) ↦ rw given ((refl, refl, refl, refl), (u.world, given))
  ]

  accepted :
      (u u1 u2 u3 u4 u5 : UdpTest W) (listener : ℕ)
      → Same u u1
      → Same u1 u2
      → Buffered os u.prot_listener u2 u3
      → Announces u3 listener u4
      → Same (listen_on os listener u4) u5
      → Accepts u u.prot_listener u5
  unfolding Accepts Buffered Same Announces
  accepted u u1 u2 u3 u4 u5 listener (l1, s1, m1, b1) (l2, s2, m2, b2) (has, l3, s3, m3)
        ((l4, s4, m4, b4), (w, given)) (l5, s5, m5, b5) =
      let set : u4.read_set ≡ u.read_set = s4 ∙ s3 ∙ s2 ∙ s1 in
      (
        refl,
        subst (HasBuffers os u.prot_listener) (sym (b5 ∙ b4)) has,
        (w, given ∙ ap (λ l. some l) (sym l5)),
        s5 ∙ ap (λ l. listener ∷ l) set ∙ ap (λ x. x ∷ u.read_set) (sym l5),
        ground arith,
        ground arith,
      )

  -- Where iperf_udp_accept returns a socket it is the listener from before, whose two buffers,
  -- set where a size is asked for and then read back, have at least that size, and the listener from
  -- then on is the descriptor that netannounce gave, in the set of sockets to read and within max_fd.
  pub iperf_udp_accept-Accepts :
      (u : UdpTest W) → Replies (λ s u'. Accepts u s u') (iperf_udp_accept os u)
  unfolding iperf_udp_accept Replies
  iperf_udp_accept-Accepts u =
      let s = u.prot_listener in
      Replies-if_reply (λ (peer : ℕ) (u1 : UdpTest W). Same u u1) (λ s' u5. Accepts u s' u5) error
        (bind_peer os s) _ (lift-Replies u (need_value os ie_streamaccept (os.recvfrom s u.world)))
        (λ e w. tt)
        (λ peer u1 same1.
          Replies-if_reply (λ (ok : Bool) (u2 : UdpTest W). Same u1 u2) (λ s' u5. Accepts u s' u5)
            error (λ (ok : Bool) (u2 : UdpTest W). settle_buffers os s u2) _
            (lift-Replies u1 (need os ie_streamaccept (os.connect s peer u1.world))) (λ e w. tt)
            (λ ok u2 same2.
              Replies-if_reply (λ (small : Bool) (u3 : UdpTest W). Buffered os s u2 u3)
                (λ s' u5. Accepts u s' u5) error
                (λ (small : Bool) (u3 : UdpTest W). replace_listener os s u3) _
                (set_buffers-Replies os s u2) (λ e w. tt)
                (λ small u3 buffered.
                  Replies-if_reply (λ (listener : ℕ) (u4 : UdpTest W). Announces u3 listener u4)
                    (λ s' u5. Accepts u s' u5) error (send_answer os s) _ (announced-Replies u3)
                    (λ e w. tt)
                    (λ listener u4 given4.
                      Replies-if_reply
                        (λ (ok : Bool) (u5 : UdpTest W). Same (listen_on os listener u4) u5)
                        (λ s' u5. Accepts u s' u5) error
                        (λ (ok : Bool) (u5 : UdpTest W). reply s u5) _
                        (lift-Replies (listen_on os listener u4)
                          (need os ie_streamwrite (os.write s 987654321 u4.world)))
                        (λ e w. tt)
                        (λ ok u5 same5.
                          accepted u u1 u2 u3 u4 u5 listener same1 same2 buffered given4 same5)))))
