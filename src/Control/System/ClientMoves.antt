-- ===== src/Control/System/ClientMoves.antt =====
-- iperf_client_api.c: a move of the client takes it from one phase of a test to another.
use sber_wifi.Prelude.{◌≡◌, refl, sym, ap, ◌∙◌, true, List, [], ◌∷◌, ◌++◌, drop}
use mathlib.Core.List.{append-nil}
use sber_wifi.Control.{
  State, test_start, test_running, test_end, param_exchange, create_streams, exchange_results,
  display_results, iperf_done,
}
use sber_wifi.Control.Frame.{View, to, push, hear}
use sber_wifi.Control.Client.Moves.{ClientMove, follow, finish, close, close_unsent, is_followed}
use sber_wifi.Control.System.{IsPrefix}
use sber_wifi.Control.System.Phases.{
  ClientPhase, ServerPhase, server_script, client_heard, client_sent, client_state, server_sent,
  server_heard, ClientAt, IsPrefix-trans, server_sent-IsPrefix, next-eq, no-next, running-hears,
  Follows,
}

-- A client in the state that `client_heard k` leads to follows the next entry of the script.
followed-Follows :
    (k k1 : ClientPhase) (s t : State) (later : List State)
    → client_heard k ++ t ∷ later ≡ server_script
    → client_state k1 ≡ t
    → client_sent k1 ≡ client_sent k
    → client_heard k1 ≡ client_heard k ++ t ∷ []
    → IsPrefix (client_heard k ++ s ∷ []) server_script
    → (k2 : ClientPhase) × Follows k s k2
followed-Follows k k1 s t later at state sent heard h =
    let e = next-eq (client_heard k) s t later (h.0, h.1 ∙ sym at) in
    (k1, (state ∙ sym e, sent, heard ∙ ap (λ x. client_heard k ++ x ∷ []) (sym e)))

-- Nothing stands behind the whole script.
script-ends : (X : Type 0) (s : State) → IsPrefix (server_script ++ s ∷ []) server_script → X
script-ends X s h = absurd (no-next server_script s h)

follow-Follows :
    (k : ClientPhase) (q : ServerPhase) (s : State)
    → is_followed s ≡ true
    → IsPrefix (client_heard k ++ s ∷ []) (server_sent q)
    → IsPrefix (server_heard q) (client_sent k)
    → IsPrefix (client_heard k ++ s ∷ []) server_script
    → (k1 : ClientPhase) × Follows k s k1
follow-Follows ClientPhase.idle q s followed h behind h1 =
    followed-Follows ClientPhase.idle ClientPhase.exchanging s param_exchange (drop 1 server_script)
      refl refl refl refl h1
follow-Follows ClientPhase.exchanging q s followed h behind h1 =
    followed-Follows ClientPhase.exchanging ClientPhase.creating s create_streams
      (drop 2 server_script) refl refl refl refl h1
follow-Follows ClientPhase.creating q s followed h behind h1 =
    followed-Follows ClientPhase.creating ClientPhase.starting s test_start (drop 3 server_script)
      refl refl refl refl h1
follow-Follows ClientPhase.starting q s followed h behind h1 =
    followed-Follows ClientPhase.starting ClientPhase.running s test_running (drop 4 server_script)
      refl refl refl refl h1
follow-Follows ClientPhase.running q s followed h behind h1 = absurd (running-hears q s h behind)
follow-Follows ClientPhase.ending q s followed h behind h1 =
    followed-Follows ClientPhase.ending ClientPhase.results s exchange_results
      (drop 5 server_script) refl refl refl refl h1
follow-Follows ClientPhase.results q s followed h behind h1 =
    let e = next-eq (client_heard ClientPhase.results) s display_results [] h1 in
    let e1 = ap is_followed (sym e) ∙ followed in cc
follow-Follows ClientPhase.closed q s followed h behind h1 = script-ends _ s h1
follow-Follows ClientPhase.closed_silently q s followed h behind h1 = script-ends _ s h1

-- Only in the phase of the results DISPLAY_RESULTS is the next.
display_results-phase :
    (k : ClientPhase) (q : ServerPhase)
    → IsPrefix (client_heard k ++ display_results ∷ []) (server_sent q)
    → IsPrefix (server_heard q) (client_sent k)
    → IsPrefix (client_heard k ++ display_results ∷ []) server_script
    → k ≡ ClientPhase.results
display_results-phase ClientPhase.results q h behind h1 = refl
display_results-phase ClientPhase.running q h behind h1 =
    absurd (running-hears q display_results h behind)
display_results-phase ClientPhase.closed q h behind h1 = script-ends _ display_results h1
display_results-phase ClientPhase.closed_silently q h behind h1 = script-ends _ display_results h1
display_results-phase _ q h behind h1 = let e = h1.1 in cc

pub running-phase : (k : ClientPhase) → client_state k ≡ test_running → k ≡ ClientPhase.running
running-phase ClientPhase.running e = refl
running-phase _ e = cc

-- Where the client has come to.
pub record Next (k : ClientPhase) (w : View) : Type 0 where
  pub phase : ClientPhase
  pub at : ClientAt phase w
  pub sent : IsPrefix (client_sent k) (client_sent phase)

hears :
    (v w : View) (k : ClientPhase) (q : ServerPhase) (s : State)
    → v.heard ≡ client_heard k
    → w.heard ≡ v.heard ++ s ∷ []
    → IsPrefix w.heard (server_sent q)
    → IsPrefix (client_heard k ++ s ∷ []) (server_sent q)
hears v w k q s at e h = (h.0, ap (λ t. t ++ h.0) (sym (e ∙ ap (λ t. t ++ s ∷ []) at)) ∙ h.1)

in_script :
    (k : ClientPhase) (q : ServerPhase) (s : State)
    → IsPrefix (client_heard k ++ s ∷ []) (server_sent q)
    → IsPrefix (client_heard k ++ s ∷ []) server_script
in_script k q s h =
    IsPrefix-trans (client_heard k ++ s ∷ []) (server_sent q) server_script h
      (server_sent-IsPrefix q)

same-IsPrefix : {xs ys : List State} → ys ≡ xs → IsPrefix xs ys
same-IsPrefix {xs} {ys} e = ([], append-nil xs ∙ sym e)

follow-Next :
    (k : ClientPhase) (s : State) (v w : View)
    → ClientAt k v
    → w ≡ to s (hear s v)
    → (k1 : ClientPhase) × Follows k s k1
    → Next k w
follow-Next k s v w at e f = record {
  phase = f.0;
  at = record {
    state = ap (λ t. t.state) e ∙ sym f.1.0;
    sent = ap (λ t. t.sent) e ∙ at.sent ∙ sym f.1.1;
    heard = ap (λ t. t.heard) e ∙ ap (λ t. t ++ s ∷ []) at.heard ∙ sym f.1.2;
  };
  sent = same-IsPrefix f.1.1;
}

-- The moves that are not the following of a state, by the phase in which they are possible.
finish-Next :
    (k : ClientPhase) (v w : View)
    → ClientAt k v
    → k ≡ ClientPhase.running
    → w ≡ push test_end v
    → Next k w
finish-Next k v w at phase e = record {
  phase = ClientPhase.ending;
  at = record {
    state = ap (λ t. t.state) e;
    sent = ap (λ t. t.sent) e ∙ ap (λ t. t ++ test_end ∷ []) (at.sent ∙ ap client_sent phase);
    heard = ap (λ t. t.heard) e ∙ at.heard ∙ ap client_heard phase;
  };
  sent = (test_end ∷ [], ap (λ t. client_sent t ++ test_end ∷ []) phase);
}

close-Next :
    (k : ClientPhase) (v w : View)
    → ClientAt k v
    → k ≡ ClientPhase.results
    → w ≡ push iperf_done (hear display_results v)
    → Next k w
close-Next k v w at phase e = record {
  phase = ClientPhase.closed;
  at = record {
    state = ap (λ t. t.state) e;
    sent = ap (λ t. t.sent) e ∙ ap (λ t. t ++ iperf_done ∷ []) (at.sent ∙ ap client_sent phase);
    heard =
        ap (λ t. t.heard) e
        ∙ ap (λ t. t ++ display_results ∷ []) (at.heard ∙ ap client_heard phase);
  };
  sent = (iperf_done ∷ [], ap (λ t. client_sent t ++ iperf_done ∷ []) phase);
}

close_unsent-Next :
    (k : ClientPhase) (v w : View)
    → ClientAt k v
    → k ≡ ClientPhase.results
    → w ≡ to iperf_done (hear display_results v)
    → Next k w
close_unsent-Next k v w at phase e = record {
  phase = ClientPhase.closed_silently;
  at = record {
    state = ap (λ t. t.state) e;
    sent = ap (λ t. t.sent) e ∙ at.sent ∙ ap client_sent phase;
    heard =
        ap (λ t. t.heard) e
        ∙ ap (λ t. t ++ display_results ∷ []) (at.heard ∙ ap client_heard phase);
  };
  sent = ([], ap (λ t. client_sent t ++ []) phase);
}

pub ClientMove-Next :
    (k : ClientPhase) (q : ServerPhase) (v w : View)
    → ClientAt k v
    → ClientMove v w
    → IsPrefix w.heard (server_sent q)
    → IsPrefix (server_heard q) (client_sent k)
    → Next k w
ClientMove-Next k q v w at (follow s followed e) h behind =
    let h1 = hears v w k q s at.heard (ap (λ t. t.heard) e) h in
    follow-Next k s v w at e (follow-Follows k q s followed h1 behind (in_script k q s h1))
ClientMove-Next k q v w at (finish running e) h behind =
    finish-Next k v w at (running-phase k (sym at.state ∙ running)) e
ClientMove-Next k q v w at (close e) h behind =
    let h1 = hears v w k q display_results at.heard (ap (λ t. t.heard) e) h in
    let phase = display_results-phase k q h1 behind (in_script k q display_results h1) in
    close-Next k v w at phase e
ClientMove-Next k q v w at (close_unsent e) h behind =
    let h1 = hears v w k q display_results at.heard (ap (λ t. t.heard) e) h in
    let phase = display_results-phase k q h1 behind (in_script k q display_results h1) in
    close_unsent-Next k v w at phase e
