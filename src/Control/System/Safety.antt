-- ===== src/Control/System/Safety.antt =====
-- iperf_client_api.c and iperf_server_api.c: what a client and a server can rely on in a test.
use sber_wifi.Prelude.{
  ◌≡◌, refl, sym, ap, ◌∙◌, ◌⊎◌, inl, inr, Bool, true, [], ◌∷◌, ◌++◌, take, drop,
}
use sber_wifi.Control.{
  State, test_start, test_running, test_end, create_streams, exchange_results, display_results,
  iperf_done,
}
use sber_wifi.Control.Frame.{Runs}
use sber_wifi.Control.System.{Both, IsPrefix, Step, init}
use sber_wifi.Control.Client.Moves.{is_followed}
use sber_wifi.Control.System.ClientMoves
use sber_wifi.Control.System.ServerMoves
use sber_wifi.Control.System.Phases.{
  ClientPhase, ServerPhase, server_script, client_script, client_heard, client_sent, client_state,
  server_sent, server_heard, IsPrefix-trans, server_sent-IsPrefix, next-eq, no-next,
}
use sber_wifi.Control.System.Agreement.{of_eq, to_eq, Runs-Inv}

-- The states that iperf_handle_message_client answers by no error.
abbrev pub is_expected : State → Bool
is_expected display_results = true
is_expected s = is_followed s

next_expected :
    (k : ClientPhase) (s : State)
    → IsPrefix (client_heard k ++ s ∷ []) server_script
    → is_expected s ≡ true
next_expected ClientPhase.idle s h = ap is_expected (next-eq [] s _ _ h)
next_expected ClientPhase.exchanging s h =
    ap is_expected (next-eq (take 1 server_script) s create_streams (drop 2 server_script) h)
next_expected ClientPhase.creating s h =
    ap is_expected (next-eq (take 2 server_script) s test_start (drop 3 server_script) h)
next_expected ClientPhase.starting s h =
    ap is_expected (next-eq (take 3 server_script) s test_running (drop 4 server_script) h)
next_expected ClientPhase.running s h =
    ap is_expected (next-eq (take 4 server_script) s exchange_results (drop 5 server_script) h)
next_expected ClientPhase.ending s h =
    ap is_expected (next-eq (take 4 server_script) s exchange_results (drop 5 server_script) h)
next_expected ClientPhase.results s h =
    ap is_expected (next-eq (take 5 server_script) s display_results [] h)
next_expected ClientPhase.closed s h = absurd (no-next server_script s h)
next_expected ClientPhase.closed_silently s h = absurd (no-next server_script s h)

-- Client and server, as long as each goes through the moves of its machine, and hears in order what the
-- other has sent: the next state that waits for the client is one that it answers by no error.
pub client_expects :
    (p : Both) (s : State)
    → Runs Step init p
    → IsPrefix (p.client.heard ++ s ∷ []) p.server.sent
    → is_expected s ≡ true
client_expects p s r h =
    let i = Runs-Inv p r in
    let h1 = of_eq _ _ _ (ap (λ t. t ++ s ∷ []) i.client.heard) (to_eq _ _ _ i.server.sent h) in
    next_expected i.client_phase s (
      IsPrefix-trans (client_heard i.client_phase ++ s ∷ []) (server_sent i.server_phase)
        server_script h1 (server_sent-IsPrefix i.server_phase))

-- The first state that a server hears.
first_sent :
    (k : ClientPhase) (q : ServerPhase) (s : State)
    → server_heard q ≡ []
    → IsPrefix (s ∷ []) (client_sent k)
    → IsPrefix (client_heard k) (server_sent q)
    → (s ≡ test_end) × (server_sent q ≡ take 4 server_script)
      ⊎ (s ≡ iperf_done) × (server_sent q ≡ server_script)
first_sent k q s unheard h behind =
    let e = next-eq [] s test_end (iperf_done ∷ []) (
      IsPrefix-trans (s ∷ []) (client_sent k) client_script h
        (ServerMoves.client_sent-IsPrefix k)) in
    let e1 = ap (λ t. t ∷ []) e ∙ ap (λ t. t ++ test_end ∷ []) (sym unheard) in
    let h1 = of_eq (s ∷ []) (server_heard q ++ test_end ∷ []) (client_sent k) e1 h in
    inl (e, ap server_sent (ServerMoves.test_end-running k q h1 behind))

server_next :
    (k : ClientPhase) (q : ServerPhase) (s : State)
    → IsPrefix (server_heard q ++ s ∷ []) (client_sent k)
    → IsPrefix (client_heard k) (server_sent q)
    → (s ≡ test_end) × (server_sent q ≡ take 4 server_script)
      ⊎ (s ≡ iperf_done) × (server_sent q ≡ server_script)
server_next k ServerPhase.finished s h behind = inr (
  next-eq (test_end ∷ []) s iperf_done [] (ServerMoves.in_script k ServerPhase.finished s h),
  refl,
)
server_next k ServerPhase.done s h behind =
    absurd (no-next client_script s (ServerMoves.in_script k ServerPhase.done s h))
server_next k ServerPhase.waiting s h behind = first_sent k ServerPhase.waiting s refl h behind
server_next k ServerPhase.creating s h behind = first_sent k ServerPhase.creating s refl h behind
server_next k ServerPhase.running s h behind = first_sent k ServerPhase.running s refl h behind

-- The same for the server: the next state that waits for it is TEST_END, which it hears before it
-- sends its results, or IPERF_DONE, which it hears when it has sent them.
pub server_expects :
    (p : Both) (s : State)
    → Runs Step init p
    → IsPrefix (p.server.heard ++ s ∷ []) p.client.sent
    → (s ≡ test_end) × (p.server.sent ≡ take 4 server_script)
      ⊎ (s ≡ iperf_done) × (p.server.sent ≡ server_script)
server_expects p s r h =
    let i = Runs-Inv p r in
    let h1 = of_eq _ _ _ (ap (λ t. t ++ s ∷ []) i.server.heard) (to_eq _ _ _ i.client.sent h) in
    elim (server_next i.client_phase i.server_phase s h1 i.ahead) [
      | inl a ↦ inl (a.0, i.server.sent ∙ a.1)
      | inr a ↦ inr (a.0, i.server.sent ∙ a.1)
    ]

running_phases :
    (k : ClientPhase) (q : ServerPhase)
    → client_state k ≡ test_running
    → IsPrefix (client_heard k) (server_sent q)
    → IsPrefix (server_heard q) (client_sent k)
    → q ≡ ServerPhase.running
running_phases ClientPhase.running ServerPhase.running e ahead behind = refl
running_phases ClientPhase.running ServerPhase.waiting e ahead behind =
    let e1 = ahead.1 in absurd cc
running_phases ClientPhase.running ServerPhase.creating e ahead behind =
    let e1 = ahead.1 in absurd cc
running_phases ClientPhase.running ServerPhase.finished e ahead behind =
    let e1 = behind.1 in absurd cc
running_phases ClientPhase.running ServerPhase.done e ahead behind = let e1 = behind.1 in absurd cc
running_phases _ q e ahead behind = absurd cc

-- As long as the client is in TEST_RUNNING, it has sent nothing, and the server has sent all up to
-- TEST_RUNNING and heard nothing: no end has begun to end the test.
pub test_running_agrees :
    (p : Both)
    → Runs Step init p
    → p.client.state ≡ test_running
    → (p.client.sent ≡ []) × (p.server.sent ≡ take 4 server_script) × (p.server.heard ≡ [])
test_running_agrees p r e =
    let i = Runs-Inv p r in
    let e1 = sym i.client.state ∙ e in
    let q = running_phases i.client_phase i.server_phase e1 i.ahead i.behind in
    let k = ClientMoves.running-phase i.client_phase e1 in
    (
      i.client.sent ∙ ap client_sent k,
      i.server.sent ∙ ap server_sent q,
      i.server.heard ∙ ap server_heard q,
    )

-- Where the whole script has been sent.
whole : (q : ServerPhase) → IsPrefix server_script (server_sent q) → server_sent q ≡ server_script
whole ServerPhase.finished ahead = refl
whole ServerPhase.done ahead = refl
whole ServerPhase.waiting ahead = let e = ahead.1 in absurd cc
whole ServerPhase.creating ahead = let e = ahead.1 in absurd cc
whole ServerPhase.running ahead = let e = ahead.1 in absurd cc

done_phases :
    (k : ClientPhase) (q : ServerPhase)
    → client_state k ≡ iperf_done
    → IsPrefix (client_heard k) (server_sent q)
    → (client_heard k ≡ server_script)
      × (server_sent q ≡ server_script)
      × IsPrefix (test_end ∷ []) (client_sent k)
done_phases ClientPhase.closed q e ahead = (refl, whole q ahead, (iperf_done ∷ [], refl))
done_phases ClientPhase.closed_silently q e ahead = (refl, whole q ahead, ([], refl))
done_phases _ q e ahead = absurd cc

-- A client that is in IPERF_DONE has gone through the whole test, and so has the server: the client has
-- heard all six states, the server has sent no other, and the client has sent TEST_END.
pub iperf_done_agrees :
    (p : Both)
    → Runs Step init p
    → p.client.state ≡ iperf_done
    → (p.client.heard ≡ server_script)
      × (p.server.sent ≡ server_script)
      × IsPrefix (test_end ∷ []) p.client.sent
iperf_done_agrees p r e =
    let i = Runs-Inv p r in
    let d = done_phases i.client_phase i.server_phase (sym i.client.state ∙ e) i.ahead in
    (
      i.client.heard ∙ d.0,
      i.server.sent ∙ d.1,
      to_eq (test_end ∷ []) (client_sent i.client_phase) p.client.sent (sym i.client.sent) d.2,
    )
