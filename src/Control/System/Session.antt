-- ===== src/Control/System/Session.antt =====
-- iperf_client_api.c and iperf_server_api.c: runs of the loops of a client and a server that take
-- turns, with the control connection between them.
use mathlib.Core.List.{append-nil}
use mathlib.Core.Path.{subst, ap₂}
use sber_wifi.Prelude.{◌≡◌, refl, sym, ap, ◌∙◌, ◌⊎◌, false, List, [], ◌∷◌, ◌++◌, take}
use sber_wifi.Control.{State, test_running, test_end, iperf_done, Local, go, Calls, got_state}
use sber_wifi.Control.Frame.{View, Runs, here, next, Runs-append, view, Frame}
use sber_wifi.Control.Client.{run_client, client_round}
use sber_wifi.Control.Client.Progress.{IsGo, Succeeds, client_round-IsGo}
use sber_wifi.Control.Client
use sber_wifi.Control.Server
use sber_wifi.Control.Client.Moves.{ClientMove, follow, finish, close, close_unsent}
use sber_wifi.Control.Client.Loop.{run_client-Runs}
use sber_wifi.Control.Server.{Counts, goes, serve}
use sber_wifi.Control.Server.Moves.{ServerMove, accept, start, note, finish, terminated, hung_up}
use sber_wifi.Control.Server.Loop.{serve-Runs}
use sber_wifi.Control.System.{Both, IsPrefix, Step, client_moves, server_moves, init}
use sber_wifi.Control.System.Phases.{IsPrefix-trans, server_script}
use sber_wifi.Control.System.Safety.{
  client_expects, server_expects, test_running_agrees, iperf_done_agrees,
}

grows : (xs : List State) (s : State) (ys : List State) → ys ≡ xs ++ s ∷ [] → IsPrefix xs ys
grows xs s ys e = (s ∷ [], sym e)

stays : (xs ys : List State) → ys ≡ xs → IsPrefix xs ys
stays xs ys e = ([], append-nil xs ∙ sym e)

client-heard : {v w : View} → ClientMove v w → IsPrefix v.heard w.heard
client-heard {v} {w} (ClientMove.follow s h e) = grows v.heard s w.heard (ap (λ t. t.heard) e)
client-heard {v} {w} (ClientMove.finish h e) = stays v.heard w.heard (ap (λ t. t.heard) e)
client-heard {v} {w} (ClientMove.close e) = grows v.heard _ w.heard (ap (λ t. t.heard) e)
client-heard {v} {w} (ClientMove.close_unsent e) = grows v.heard _ w.heard (ap (λ t. t.heard) e)

server-heard : {v w : View} → ServerMove v w → IsPrefix v.heard w.heard
server-heard {v} {w} (ServerMove.accept h e) = stays v.heard w.heard (ap (λ t. t.heard) e)
server-heard {v} {w} (ServerMove.start h e) = stays v.heard w.heard (ap (λ t. t.heard) e)
server-heard {v} {w} (ServerMove.note s h e) = grows v.heard s w.heard (ap (λ t. t.heard) e)
server-heard {v} {w} (ServerMove.finish e) = grows v.heard _ w.heard (ap (λ t. t.heard) e)
server-heard {v} {w} (ServerMove.terminated e) = grows v.heard _ w.heard (ap (λ t. t.heard) e)
server-heard {v} {w} (ServerMove.hung_up e) = stays v.heard w.heard (ap (λ t. t.heard) e)

-- Moves of one end, in the presence of the other.
client-Steps :
    (v w s : View)
    → Runs ClientMove v w
    → IsPrefix w.heard s.sent
    → Runs Step (record { client = v; server = s }) (record { client = w; server = s })
client-Steps v w s here h = here
client-Steps v w s (next {y} r m) h =
    next (client-Steps v y s r (IsPrefix-trans y.heard w.heard s.sent (client-heard m) h))
      (client_moves m refl h)

server-Steps :
    (v w c : View)
    → Runs ServerMove v w
    → IsPrefix w.heard c.sent
    → Runs Step (record { client = c; server = v }) (record { client = c; server = w })
server-Steps v w c here h = here
server-Steps v w c (next {y} r m) h =
    next (server-Steps v y c r (IsPrefix-trans y.heard w.heard c.sent (server-heard m) h))
      (server_moves m refl h)

module _ {C S : Type 0} (written_c read_c : C → List State) (calls_c : Calls C)
    (written_s read_s : S → List State) (calls_s : Calls S) where
  -- The two ends after some turns, each of which is a number of rounds of one loop that end with no
  -- error, and have heard no more than the other end has sent. A turn that ends with an error, and
  -- with it SERVER_ERROR and ACCESS_DENIED, is left out, and so is the signal handler.
  pub data Session (c0 : Local C) (s0 : Local S) : Local C → Local S → Type 0 where
    begin : Session c0 s0 c0 s0
    client_turn :
        {c c1 : Local C} {s : Local S} (events : List Client.Event)
        → Session c0 s0 c s
        → run_client calls_c events c ≡ go c1
        → IsPrefix (read_c c1.world) (written_s s.world)
        → Session c0 s0 c1 s
    server_turn :
        {c : Local C} {s s1 : Local S} (events : List Server.Event) (n n1 : Counts)
        → Session c0 s0 c s
        → serve calls_s events n s ≡ goes n1 s1
        → IsPrefix (read_s s1.world) (written_c c.world)
        → Session c0 s0 c s1

  abbrev pub both : Local C → Local S → Both
  both c s = record { client = view written_c read_c c; server = view written_s read_s s }

  Session-Runs :
      (c0 : Local C) (s0 : Local S) {c : Local C} {s : Local S}
      → Frame written_c read_c calls_c
      → Frame written_s read_s calls_s
      → c0.ctl.role ≡ b'c'
      → s0.ctl.role ≡ b's'
      → Session c0 s0 c s
      → Runs Step (both c0 s0) (both c s) × (c.ctl.role ≡ b'c') × (s.ctl.role ≡ b's')
  Session-Runs c0 s0 fc fs rc rs begin = (here, rc, rs)
  Session-Runs c0 s0 fc fs rc rs (client_turn {c} {c1} {s} events t e h) =
      let i = Session-Runs c0 s0 fc fs rc rs t in
      let r = run_client-Runs written_c read_c calls_c events c c1 fc i.1 e in
      (
        Runs-append i.0 (client-Steps _ _ (view written_s read_s s) r h),
        Client.Moves.Runs-role r ∙ i.1,
        i.2,
      )
  Session-Runs c0 s0 fc fs rc rs (server_turn {c} {s} {s1} events n n1 t e h) =
      let i = Session-Runs c0 s0 fc fs rc rs t in
      let r = serve-Runs written_s read_s calls_s events n n1 s s1 fs i.2 e in
      (
        Runs-append i.0 (server-Steps _ _ (view written_c read_c c) r h),
        i.1,
        Server.Moves.Runs-role r ∙ i.2,
      )

  -- Where two ends begin.
  pub record Begins (c : Local C) (s : Local S) : Type 0 where
    pub client : view written_c read_c c ≡ init.client
    pub server : view written_s read_s s ≡ init.server

  Session-Steps :
      (c0 : Local C) (s0 : Local S) (c : Local C) (s : Local S)
      → Frame written_c read_c calls_c
      → Frame written_s read_s calls_s
      → Begins c0 s0
      → Session c0 s0 c s
      → Runs Step init (both c s)
  Session-Steps c0 s0 c s fc fs b t =
      subst (λ p. Runs Step p (both c s))
        (ap₂ (λ x y. record { client = x; server = y }) b.client b.server)
        (Session-Runs c0 s0 fc fs (ap (λ t1. t1.role) b.client) (ap (λ t1. t1.role) b.server) t).0

  -- A client and a server that begin on a new control connection, run in turns and hear in order what
  -- the other has sent; the calls left to other parts neither change the state nor send one. As long as
  -- the client is in TEST_RUNNING it has sent nothing, and the server has sent all up to TEST_RUNNING
  -- and heard nothing.
  pub Session-test_running :
      (c0 : Local C) (s0 : Local S) (c : Local C) (s : Local S)
      → Frame written_c read_c calls_c
      → Frame written_s read_s calls_s
      → Begins c0 s0
      → Session c0 s0 c s
      → c.ctl.state ≡ test_running
      → (written_c c.world ≡ [])
        × (written_s s.world ≡ take 4 server_script)
        × (read_s s.world ≡ [])
  Session-test_running c0 s0 c s fc fs b t =
      test_running_agrees (both c s) (Session-Steps c0 s0 c s fc fs b t)

  -- Under the same conditions, a client that has come to IPERF_DONE has heard all six states that the
  -- server sends in a test, the server has sent these and no other, and the client has sent TEST_END
  -- first.
  pub Session-iperf_done :
      (c0 : Local C) (s0 : Local S) (c : Local C) (s : Local S)
      → Frame written_c read_c calls_c
      → Frame written_s read_s calls_s
      → Begins c0 s0
      → Session c0 s0 c s
      → c.ctl.state ≡ iperf_done
      → (read_c c.world ≡ server_script)
        × (written_s s.world ≡ server_script)
        × IsPrefix (test_end ∷ []) (written_c c.world)
  Session-iperf_done c0 s0 c s fc fs b t =
      iperf_done_agrees (both c s) (Session-Steps c0 s0 c s fc fs b t)

  -- Under the same conditions: where the state that the client can read is the next one that the
  -- server has sent, select has not failed and the calls of other parts succeed, the client's next
  -- round ends with no error. The turns so far have ended with no error, so that no SERVER_ERROR and
  -- no ACCESS_DENIED has been sent, and no signal has come.
  pub Session-client_expects :
      (c0 : Local C) (s0 : Local S) (c : Local C) (s : Local S) (next_state : State)
      (e : Client.Event)
      → Frame written_c read_c calls_c
      → Frame written_s read_s calls_s
      → Begins c0 s0
      → Session c0 s0 c s
      → IsPrefix (read_c c.world ++ next_state ∷ []) (written_s s.world)
      → (calls_c.read_state c).0 ≡ got_state next_state
      → e.select_failed ≡ false
      → Succeeds calls_c
      → IsGo (client_round calls_c e c)
  Session-client_expects c0 s0 c s next_state e fc fs b t h reads live ok =
      client_round-IsGo calls_c e c next_state ok live reads
        (client_expects (both c s) next_state (Session-Steps c0 s0 c s fc fs b t) h)

  -- Under the same conditions, the state that the server reads next is TEST_END, before it has sent its
  -- results, or IPERF_DONE, when it has sent them. All turns have ended with no error and no signal has
  -- come, so that no end has sent CLIENT_TERMINATE.
  pub Session-server_expects :
      (c0 : Local C) (s0 : Local S) (c : Local C) (s : Local S) (next_state : State)
      → Frame written_c read_c calls_c
      → Frame written_s read_s calls_s
      → Begins c0 s0
      → Session c0 s0 c s
      → IsPrefix (read_s s.world ++ next_state ∷ []) (written_c c.world)
      → (next_state ≡ test_end) × (written_s s.world ≡ take 4 server_script)
        ⊎ (next_state ≡ iperf_done) × (written_s s.world ≡ server_script)
  Session-server_expects c0 s0 c s next_state fc fs b t =
      server_expects (both c s) next_state (Session-Steps c0 s0 c s fc fs b t)
