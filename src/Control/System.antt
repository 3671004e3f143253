-- ===== src/Control/System.antt =====
-- iperf_client_api.c and iperf_server_api.c together: a client and a server that are joined by the
-- control connection, which hands over in order what each of them sends.
pub mod Phases
pub mod ClientMoves
pub mod ServerMoves
pub mod Agreement
pub mod Safety
pub mod Session
use sber_wifi.Prelude.{◌≡◌, true, false, List, [], ◌++◌}
use sber_wifi.Prelude.Int.{pos}
use sber_wifi.Control.{State, iperf_start, other_state}
use sber_wifi.Control.Frame.{View}
use sber_wifi.Control.Client.Moves.{ClientMove}
use sber_wifi.Control.Server.Moves.{ServerMove}

pub record Both : Type 0 where
  pub client : View
  pub server : View

abbrev pub IsPrefix : List State → List State → Type 0
IsPrefix xs ys = (rest : List State) × (xs ++ rest ≡ ys)

-- One end moves; it hears no more than the other end has sent.
pub data Step (p q : Both) : Type 0 where
  client_moves :
      ClientMove p.client q.client
      → q.server ≡ p.server
      → IsPrefix q.client.heard p.server.sent
      → Step p q
  server_moves :
      ServerMove p.server q.server
      → q.client ≡ p.client
      → IsPrefix q.server.heard p.client.sent
      → Step p q

-- The control connection is there, and nothing has been sent; the server waits in IPERF_START.
abbrev pub init : Both
init = record {
  client = record { state = other_state (pos 0); role = b'c'; free = false; sent = []; heard = [] };
  server = record { state = iperf_start; role = b's'; free = true; sent = []; heard = [] };
}
