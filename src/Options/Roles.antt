-- ===== src/Options/Roles.antt =====
-- iperf_api.c: the role, the direction and the side of a test after iperf_parse_arguments.
use mathlib.Core.Path.{subst}
use sber_wifi.Prelude.{
  ℕ, ◌≡◌, refl, inl, inr, Bool, true, false, ◌&&◌, some, List, [], ◌∷◌, arith, ◌==◌,
}
use sber_wifi.Prelude.Int.{ℤ}
use sber_wifi.Prelude.Float.{Float}
use sber_wifi.Libc.{Text}
use sber_wifi.Test.{
  Test, udp, receiver, iperf_set_test_role, iperf_set_test_reverse, iperf_set_test_bidirectional,
  set_protocol, check_sender_has_retransmits,
}
use sber_wifi.Test.Direction.{
  Directed, SameDirection, same-Directed, HasRole, mode_of, role-Directed, reverse-Directed,
  bidirectional-Directed, protocol-Directed,
}
use sber_wifi.Error.{
  ie_servclient, ie_reversebidir, ie_serveronly, ie_clientonly, ie_blocksize, ie_udpblocksize,
  ie_endconditions, ie_norole,
}
use sber_wifi.Options
use sber_wifi.Options.Bounds.{ok_of_bind, passed, ok-injective}
use sber_wifi.Options.{start}

module _ (F : Float) (retransmits : Bool) (zero_copy : Bool) (scan : Text → F.Double × ℕ)
    (atof : Text → F.Double) where
  -- While the options are read: the test is directed, and as long as no flag of the client has
  -- been seen, no direction is set.
  pub record Reading (p : Options.Parse F) : Type 0 where
    pub directed : Directed retransmits p.test
    pub plain : p.client_flag ≡ false → (p.test.reverse ≡ false) × (p.test.bidirectional ≡ false)

  role-plain :
      (role : ℕ) (p : Options.Parse F)
      → Reading p
      → let t = iperf_set_test_role F retransmits role p.test in
        p.client_flag ≡ false → (t.reverse ≡ false) × (t.bidirectional ≡ false)
  unfolding iperf_set_test_role check_sender_has_retransmits
  role-plain role p v unset = let pl = v.plain unset in ground arith

  option-Reading :
      (flag : Options.Flag) (optarg : Text) (p p' : Options.Parse F)
      → Reading p
      → Options.parse_option F retransmits zero_copy scan atof flag optarg p ≡ Options.ok p'
      → Reading p'
  unfolding Options.parse_option
  option-Reading Options.server optarg p p' v e =
      let t = p.test in
      let (_, done) = passed (t.role == b'c') ie_servclient _ e in
      let q : Options.Parse F = record p { test = iperf_set_test_role F retransmits b's' t } in
      let d = role-Directed retransmits b's' t (inr refl) v.directed.exclusive in
      subst Reading (ok-injective q p' done) (record { directed = d; plain = role-plain b's' p v })
  option-Reading Options.client optarg p p' v e =
      let t = p.test in
      let (_, done) = passed (t.role == b's') ie_servclient _ e in
      let t' = iperf_set_test_role F retransmits b'c' t in
      let t'' : Test F = record t' { server_hostname = some optarg } in
      let q : Options.Parse F = record p { test = t'' } in
      let d = role-Directed retransmits b'c' t (inl refl) v.directed.exclusive in
      let same : SameDirection retransmits t' t'' = record {
        role = refl;
        mode = refl;
        reverse = refl;
        bidirectional = refl;
        protocol = refl;
        counts = refl;
      } in
      subst Reading (ok-injective q p' done)
        (record { directed = same-Directed retransmits t' t'' same d; plain = role-plain b'c' p v })
  option-Reading Options.udp_flag optarg p p' v e =
      let t = p.test in
      let q : Options.Parse F = record p {
        test = (set_protocol F retransmits udp t).1;
        client_flag = true;
      } in
      let d = protocol-Directed retransmits udp p.test v.directed in
      subst Reading (ok-injective q p' e) (record { directed = d; plain = λ unset. ground arith })
  option-Reading Options.reverse optarg p p' v e =
      let t = p.test in
      let (one, done) = passed t.bidirectional ie_reversebidir _ e in
      let q : Options.Parse F = record p {
        test = iperf_set_test_reverse F retransmits true t;
        client_flag = true;
      } in
      let d = reverse-Directed retransmits p.test v.directed one in
      subst Reading (ok-injective q p' done)
        (record { directed = d; plain = λ unset. ground arith })
  option-Reading Options.bidir optarg p p' v e =
      let t = p.test in
      let (one, done) = passed t.reverse ie_reversebidir _ e in
      let q : Options.Parse F = record p {
        test = iperf_set_test_bidirectional F retransmits true t;
        client_flag = true;
      } in
      let d = bidirectional-Directed retransmits p.test v.directed one in
      subst Reading (ok-injective q p' done)
        (record { directed = d; plain = λ unset. ground arith })
  option-Reading _ optarg p p' v e = record {
    directed =
        same-Directed retransmits p.test p'.test
          (record {
            role = ground arith;
            mode = ground arith;
            reverse = ground arith;
            bidirectional = ground arith;
            protocol = ground arith;
            counts = ground arith;
          })
          v.directed;
    plain =
        λ unset. let c : p.client_flag ≡ false = ground arith in let pl = v.plain c in ground arith;
  }

  options-Reading :
      (options : List (Options.Flag × Text)) (p p' : Options.Parse F)
      → Reading p
      → Options.parse_options F retransmits zero_copy scan atof options p ≡ Options.ok p'
      → Reading p'
  unfolding Options.parse_options
  options-Reading [] p p' v e = subst Reading (ok-injective p p' e) v
  options-Reading ((flag, optarg) ∷ rest) p p' v e =
      let (q, first, more) =
        ok_of_bind (Options.parse_option F retransmits zero_copy scan atof flag optarg p) _ e in
      options-Reading rest q p' (option-Reading flag optarg p q v first) more

  -- The direction of a test that can be run: a server receives, whatever it is asked for later.
  pub record Settled (t : Test F) : Type 0 where
    pub directed : Directed retransmits t
    pub role : HasRole t.role
    pub server : t.role ≡ b's' → t.mode ≡ receiver

  settle-Settled :
      (b : ℤ) (p : Options.Parse F)
      → Reading p
      → (p.test.role == b's' && p.client_flag) ≡ false
      → Options.no_role F retransmits zero_copy scan atof
          (Options.settle F retransmits zero_copy scan atof b p)
        ≡ false
      → Settled (Options.settle F retransmits zero_copy scan atof b p)
  unfolding Options.settle mode_of
  settle-Settled b p v client role = record {
    directed =
        same-Directed retransmits p.test (Options.settle F retransmits zero_copy scan atof b p)
          (record {
            role = refl;
            mode = refl;
            reverse = refl;
            bidirectional = refl;
            protocol = refl;
            counts = refl;
          })
          v.directed;
    role = ground arith;
    server = λ is.
        let unset : p.client_flag ≡ false = ground arith in
        let (r, bi) = v.plain unset in let m = v.directed.mode (inr is) in ground arith;
  }

  finish-Settled :
      (p : Options.Parse F) (t : Test F)
      → Reading p
      → Options.finish F retransmits zero_copy scan atof p ≡ Options.ok t
      → Settled t
  unfolding Options.finish Options.check_conditions
  finish-Settled p t v e =
      let t0 = p.test in
      let b = Options.default_blksize F retransmits zero_copy scan atof p in
      let final = Options.settle F retransmits zero_copy scan atof b p in
      let (_, e1) = passed (t0.role == b'c' && p.server_flag) ie_serveronly _ e in
      let (client, e2) = passed (t0.role == b's' && p.client_flag) ie_clientonly _ e1 in
      let (_, e3) =
        passed (Options.bad_blksize F retransmits zero_copy scan atof p b) ie_blocksize _ e2 in
      let (_, e4) =
        passed (Options.bad_udp_blksize F retransmits zero_copy scan atof p b) ie_udpblocksize _
          e3 in
      let (_, e5) =
        passed (Options.several_ends F retransmits zero_copy scan atof p final) ie_endconditions _
          e4 in
      let (role, e6) =
        passed (Options.no_role F retransmits zero_copy scan atof final) ie_norole _ e5 in
      subst Settled (ok-injective final t e6) (settle-Settled b p v client role)

  -- From a test whose flags are unset, an accepted command line, in whatever order its options
  -- stand, leaves the client or the server role; the mode is the one that the role and the flags
  -- reverse and bidirectional ask for, of which at most one is set; a client knows whether it
  -- counts retransmits; a server is a receiver.
  pub iperf_parse_arguments-Settled :
      (options : List (Options.Flag × Text)) (t t' : Test F)
      → Directed retransmits t
      → t.reverse ≡ false
      → t.bidirectional ≡ false
      → Options.iperf_parse_arguments F retransmits zero_copy scan atof options t ≡ Options.ok t'
      → Settled t'
  unfolding Options.iperf_parse_arguments
  iperf_parse_arguments-Settled options t t' d r b e =
      let (p, parsed, finished) =
        ok_of_bind (Options.parse_options F retransmits zero_copy scan atof options (start t)) _
          e in
      let begun : Reading (start t) = record { directed = d; plain = λ _. (r, b) } in
      finish-Settled p t' (options-Reading options (start t) p begun parsed) finished
