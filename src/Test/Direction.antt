-- ===== src/Test/Direction.antt =====
-- app/src/main/cpp/iperf/iperf_api.c: how iperf_set_test_role, iperf_set_test_reverse and
-- iperf_set_test_bidirectional keep the mode of a test in step with its role and its two flags.
use sber_wifi.Prelude.{
  ℕ, ◌≡◌, refl, ◌⊎◌, inl, Bool, true, false, not, ◌&&◌, arith, ◌==◌, if◌then◌else◌,
}
use sber_wifi.Prelude.Int.{ℤ, pos}
use sber_wifi.Prelude.Float.{Float}
use sber_wifi.Test.{
  check_sender_has_retransmits, Mode, sender, receiver, bidirectional_mode, ProtocolId, tcp, Test,
  same_protocol, is_receiver, iperf_set_test_role, iperf_set_test_reverse,
  iperf_set_test_bidirectional, set_protocol,
}

-- The mode that a role and the two flags ask for.
unfoldable pub mode_of : ℕ → Bool → Bool → Mode
mode_of role reverse bidirectional =
    if bidirectional
    then bidirectional_mode
    else if role == b'c'
    then if reverse then receiver else sender
    else if reverse
    then sender
    else receiver

abbrev pub HasRole : ℕ → Type 0
HasRole role = (role ≡ b'c') ⊎ (role ≡ b's')

-- 1 on a sender of TCP whose platform counts retransmits.
unfoldable pub counts_retransmits : Bool → Mode → ProtocolId → ℤ
counts_retransmits retransmits mode id =
    if not (is_receiver mode) && same_protocol id tcp && retransmits then pos 1 else pos 0

module _ {F : Float} (retransmits : Bool) where
  -- The flags exclude each other; a test with a role has the mode they ask for, and a client
  -- knows whether it counts retransmits.
  pub record Directed (t : Test F) : Type 0 where
    pub exclusive : (t.reverse ≡ false) ⊎ (t.bidirectional ≡ false)
    pub mode : HasRole t.role → t.mode ≡ mode_of t.role t.reverse t.bidirectional
    pub counts :
        t.role ≡ b'c' → t.sender_has_retransmits ≡ counts_retransmits retransmits t.mode t.protocol

  pub role-Directed :
      (role : ℕ) (t : Test F)
      → HasRole role
      → (t.reverse ≡ false) ⊎ (t.bidirectional ≡ false)
      → Directed (iperf_set_test_role F retransmits role t)
  unfolding iperf_set_test_role check_sender_has_retransmits mode_of counts_retransmits
  role-Directed role t has exclusive = record {
    exclusive = ground arith;
    mode = λ _. ground arith;
    counts = λ _. ground arith;
  }

  pub reverse-Directed :
      (t : Test F)
      → Directed t
      → t.bidirectional ≡ false
      → Directed (iperf_set_test_reverse F retransmits true t)
  unfolding iperf_set_test_reverse check_sender_has_retransmits mode_of counts_retransmits
  reverse-Directed t v one = record {
    exclusive = ground arith;
    mode = λ has. ground arith;
    counts = λ _. ground arith;
  }

  pub bidirectional-Directed :
      (t : Test F)
      → Directed t
      → t.reverse ≡ false
      → Directed (iperf_set_test_bidirectional F retransmits true t)
  unfolding iperf_set_test_bidirectional mode_of counts_retransmits
  bidirectional-Directed t v none_set = record {
    exclusive = inl none_set;
    mode = λ has. refl;
    counts =
        λ client. let before = v.mode (inl client) in let known = v.counts client in ground arith;
  }

  pub protocol-Directed :
      (id : ProtocolId) (t : Test F) → Directed t → Directed (set_protocol F retransmits id t).1
  unfolding set_protocol check_sender_has_retransmits counts_retransmits
  protocol-Directed id t v = record {
    exclusive = let e = v.exclusive in ground arith;
    mode = λ has. let role : HasRole t.role = ground arith in let m = v.mode role in ground arith;
    counts =
        λ client. let role : t.role ≡ b'c' = ground arith in let c = v.counts role in ground arith;
  }

  -- A change that leaves alone all that has to do with the direction.
  pub record SameDirection (t t' : Test F) : Type 0 where
    pub role : t'.role ≡ t.role
    pub mode : t'.mode ≡ t.mode
    pub reverse : t'.reverse ≡ t.reverse
    pub bidirectional : t'.bidirectional ≡ t.bidirectional
    pub protocol : t'.protocol ≡ t.protocol
    pub counts : t'.sender_has_retransmits ≡ t.sender_has_retransmits

  pub same-Directed : (t t' : Test F) → SameDirection t t' → Directed t → Directed t'
  same-Directed t t' s v = record {
    exclusive = let e = v.exclusive in let r = s.reverse in let b = s.bidirectional in ground arith;
    mode = λ has.
        let same_role = s.role in
        let r = s.reverse in
        let b = s.bidirectional in
        let m = s.mode in let role : HasRole t.role = ground arith in let same = v.mode role in cc;
    counts = λ client.
        let same_role = s.role in
        let m = s.mode in
        let i = s.protocol in
        let c = s.counts in
        let role : t.role ≡ b'c' = ground arith in let same = v.counts role in cc;
  }
