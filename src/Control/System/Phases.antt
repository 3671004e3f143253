-- ===== src/Control/System/Phases.antt =====
-- iperf_client_api.c and iperf_server_api.c: how far a client and a server have come in a test, by
-- what they have sent and heard.
use sber_wifi.Prelude.{◌≡◌, refl, sym, ap, ◌∙◌, Bool, true, false, List, [], ◌∷◌, ◌++◌, take, drop}
use sber_wifi.Prelude.Int.{pos}
use mathlib.Core.List.{append_assoc}
use sber_wifi.Control.{
  State, test_start, test_running, test_end, param_exchange, create_streams, exchange_results,
  display_results, iperf_done, other_state,
}
use sber_wifi.Control.Frame.{View}
use sber_wifi.Control.System.{IsPrefix}

pub data ClientPhase : Type 0 where
  idle exchanging creating starting running ending results closed closed_silently : ClientPhase

pub data ServerPhase : Type 0 where
  waiting creating running finished done : ServerPhase

-- What the server sends in a test, and what the client sends.
abbrev pub server_script : List State
server_script =
    param_exchange ∷ create_streams ∷ test_start ∷ test_running ∷ exchange_results ∷ display_results
    ∷ []

abbrev pub client_script : List State
client_script = test_end ∷ iperf_done ∷ []

abbrev pub client_heard : ClientPhase → List State
client_heard ClientPhase.idle = []
client_heard ClientPhase.exchanging = take 1 server_script
client_heard ClientPhase.creating = take 2 server_script
client_heard ClientPhase.starting = take 3 server_script
client_heard ClientPhase.running = take 4 server_script
client_heard ClientPhase.ending = take 4 server_script
client_heard ClientPhase.results = take 5 server_script
client_heard ClientPhase.closed = server_script
client_heard ClientPhase.closed_silently = server_script

abbrev pub client_sent : ClientPhase → List State
client_sent ClientPhase.ending = test_end ∷ []
client_sent ClientPhase.results = test_end ∷ []
client_sent ClientPhase.closed = client_script
client_sent ClientPhase.closed_silently = test_end ∷ []
client_sent _ = []

abbrev pub client_state : ClientPhase → State
client_state ClientPhase.idle = other_state (pos 0)
client_state ClientPhase.exchanging = param_exchange
client_state ClientPhase.creating = create_streams
client_state ClientPhase.starting = test_start
client_state ClientPhase.running = test_running
client_state ClientPhase.ending = test_end
client_state ClientPhase.results = exchange_results
client_state ClientPhase.closed = iperf_done
client_state ClientPhase.closed_silently = iperf_done

abbrev pub server_sent : ServerPhase → List State
server_sent ServerPhase.waiting = []
server_sent ServerPhase.creating = take 2 server_script
server_sent ServerPhase.running = take 4 server_script
server_sent ServerPhase.finished = server_script
server_sent ServerPhase.done = server_script

abbrev pub server_heard : ServerPhase → List State
server_heard ServerPhase.finished = test_end ∷ []
server_heard ServerPhase.done = client_script
server_heard _ = []

abbrev pub server_free : ServerPhase → Bool
server_free ServerPhase.waiting = true
server_free _ = false

pub record ClientAt (k : ClientPhase) (v : View) : Type 0 where
  pub state : v.state ≡ client_state k
  pub sent : v.sent ≡ client_sent k
  pub heard : v.heard ≡ client_heard k

-- The server leaves a phase by a hang-up too; CREATE_STREAMS is its state only while it creates them.
pub record ServerAt (k : ServerPhase) (v : View) : Type 0 where
  pub state : v.state ≡ create_streams → k ≡ ServerPhase.creating
  pub free : v.free ≡ server_free k
  pub sent : v.sent ≡ server_sent k
  pub heard : v.heard ≡ server_heard k

pub IsPrefix-trans : (xs ys zs : List State) → IsPrefix xs ys → IsPrefix ys zs → IsPrefix xs zs
IsPrefix-trans xs ys zs a b =
    (a.0 ++ b.0, sym (append_assoc xs a.0 b.0) ∙ ap (λ t. t ++ b.0) a.1 ∙ b.1)

pub server_sent-IsPrefix : (q : ServerPhase) → IsPrefix (server_sent q) server_script
server_sent-IsPrefix ServerPhase.waiting = (server_script, refl)
server_sent-IsPrefix ServerPhase.creating = (drop 2 server_script, refl)
server_sent-IsPrefix ServerPhase.running = (drop 4 server_script, refl)
server_sent-IsPrefix ServerPhase.finished = ([], refl)
server_sent-IsPrefix ServerPhase.done = ([], refl)

-- What stands behind a common beginning of two lists.
pub next-eq :
    (past : List State) (s t : State) (later : List State)
    → IsPrefix (past ++ s ∷ []) (past ++ t ∷ later)
    → s ≡ t
next-eq [] s t later h = let e = h.1 in cc
next-eq (x ∷ past) s t later h = next-eq past s t later (h.0, tail-eq h.1)
  where
    tail-eq : {x y : State} {xs ys : List State} → x ∷ xs ≡ y ∷ ys → xs ≡ ys
    tail-eq e = cc

pub no-next : (past : List State) (s : State) → ¬ IsPrefix (past ++ s ∷ []) past
no-next [] s h = let e = h.1 in cc
no-next (x ∷ past) s h = no-next past s (h.0, tail-eq h.1)
  where
    tail-eq : {x y : State} {xs ys : List State} → x ∷ xs ≡ y ∷ ys → xs ≡ ys
    tail-eq e = cc

-- A client in TEST_RUNNING has heard all that the server has sent, as long as the server has not
-- heard TEST_END.
pub running-hears :
    (q : ServerPhase) (s : State)
    → IsPrefix (take 4 server_script ++ s ∷ []) (server_sent q)
    → ¬ IsPrefix (server_heard q) []
running-hears ServerPhase.waiting s h b = let e = h.1 in cc
running-hears ServerPhase.creating s h b = let e = h.1 in cc
running-hears ServerPhase.running s h b = no-next (take 4 server_script) s h
running-hears ServerPhase.finished s h b = let e = b.1 in cc
running-hears ServerPhase.done s h b = let e = b.1 in cc

-- A client that hears a state is in its next phase.
abbrev pub Follows : ClientPhase → State → ClientPhase → Type 0
Follows k s k1 =
    (client_state k1 ≡ s)
    × (client_sent k1 ≡ client_sent k)
    × (client_heard k1 ≡ client_heard k ++ s ∷ [])
