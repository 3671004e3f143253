-- ===== src/Control/System/Agreement.antt =====
-- iperf_client_api.c and iperf_server_api.c: what client and server agree on in every state that they
-- can come to together.
use mathlib.Core.Path.{subst}
use sber_wifi.Prelude.{◌≡◌, refl, sym, ap, ◌∙◌, List, [], ◌++◌}
use sber_wifi.Control.{State}
use sber_wifi.Control.Frame.{Runs, here, next}
use sber_wifi.Control.System.{Both, IsPrefix, Step, client_moves, server_moves, init}
use sber_wifi.Control.System.ClientMoves
use sber_wifi.Control.System.ServerMoves
use sber_wifi.Control.System.Phases.{
  ClientPhase, ServerPhase, client_heard, client_sent, server_sent, server_heard, ClientAt,
  ServerAt, IsPrefix-trans,
}

pub record Inv (p : Both) : Type 0 where
  pub client_phase : ClientPhase
  pub server_phase : ServerPhase
  pub client : ClientAt client_phase p.client
  pub server : ServerAt server_phase p.server
  pub ahead : IsPrefix (client_heard client_phase) (server_sent server_phase)
  pub behind : IsPrefix (server_heard server_phase) (client_sent client_phase)

pub of_eq : (xs ys zs : List State) → xs ≡ ys → IsPrefix xs zs → IsPrefix ys zs
of_eq xs ys zs e h = (h.0, ap (λ t. t ++ h.0) (sym e) ∙ h.1)

pub to_eq : (xs ys zs : List State) → ys ≡ zs → IsPrefix xs ys → IsPrefix xs zs
to_eq xs ys zs e h = (h.0, h.1 ∙ e)

Step-Inv : (p q : Both) → Inv p → Step p q → Inv q
Step-Inv p q i (client_moves m same h) =
    let h1 = to_eq q.client.heard p.server.sent (server_sent i.server_phase) i.server.sent h in
    let n =
      ClientMoves.ClientMove-Next i.client_phase i.server_phase p.client q.client i.client m h1
        i.behind in
    record {
      client_phase = n.phase;
      server_phase = i.server_phase;
      client = n.at;
      server = subst (ServerAt i.server_phase) (sym same) i.server;
      ahead =
          of_eq q.client.heard (client_heard n.phase) (server_sent i.server_phase) n.at.heard h1;
      behind =
          IsPrefix-trans (server_heard i.server_phase) (client_sent i.client_phase)
            (client_sent n.phase) i.behind n.sent;
    }
Step-Inv p q i (server_moves m same h) =
    let h1 = to_eq q.server.heard p.client.sent (client_sent i.client_phase) i.client.sent h in
    let n =
      ServerMoves.ServerMove-Next i.client_phase i.server_phase p.server q.server i.server m h1
        i.ahead in
    record {
      client_phase = i.client_phase;
      server_phase = n.phase;
      client = subst (ClientAt i.client_phase) (sym same) i.client;
      server = n.at;
      ahead =
          IsPrefix-trans (client_heard i.client_phase) (server_sent i.server_phase)
            (server_sent n.phase) i.ahead n.sent;
      behind =
          of_eq q.server.heard (server_heard n.phase) (client_sent i.client_phase) n.at.heard h1;
    }

init-Inv : Inv init
init-Inv = record {
  client_phase = ClientPhase.idle;
  server_phase = ServerPhase.waiting;
  client = record { state = refl; sent = refl; heard = refl };
  server = record { state = λ e. absurd cc; free = refl; sent = refl; heard = refl };
  ahead = ([], refl);
  behind = ([], refl);
}

pub Runs-Inv : (p : Both) → Runs Step init p → Inv p
Runs-Inv p here = init-Inv
Runs-Inv p (next {y} r s) = Step-Inv y p (Runs-Inv y r) s
