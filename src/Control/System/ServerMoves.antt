-- ===== src/Control/System/ServerMoves.antt =====
-- iperf_server_api.c: a move of the server takes it from one phase of a test to another.
use sber_wifi.Prelude.{◌≡◌, refl, sym, ap, ◌∙◌, true, List, [], ◌∷◌, ◌++◌, take, drop}
use mathlib.Core.List.{append-nil}
use sber_wifi.Control.{
  State, test_start, test_running, test_end, param_exchange, create_streams, exchange_results,
  display_results, iperf_done, client_terminate,
}
use sber_wifi.Control.Frame.{View, to, push, hear, take_free}
use sber_wifi.Control.Server.Moves.{
  ServerMove, is_noted, accept, start, note, finish, terminated, hung_up,
}
use sber_wifi.Control.System.{IsPrefix}
use sber_wifi.Control.System.Phases.{
  ClientPhase, ServerPhase, server_script, client_script, client_heard, client_sent, server_sent,
  server_heard, server_free, ServerAt, IsPrefix-trans, next-eq, no-next,
}

-- Where the server has come to.
pub record Next (q : ServerPhase) (w : View) : Type 0 where
  pub phase : ServerPhase
  pub at : ServerAt phase w
  pub sent : IsPrefix (server_sent q) (server_sent phase)

pub client_sent-IsPrefix : (k : ClientPhase) → IsPrefix (client_sent k) client_script
client_sent-IsPrefix ClientPhase.closed = ([], refl)
client_sent-IsPrefix ClientPhase.ending = (iperf_done ∷ [], refl)
client_sent-IsPrefix ClientPhase.results = (iperf_done ∷ [], refl)
client_sent-IsPrefix ClientPhase.closed_silently = (iperf_done ∷ [], refl)
client_sent-IsPrefix _ = (client_script, refl)

free-waiting : (q : ServerPhase) → server_free q ≡ true → q ≡ ServerPhase.waiting
free-waiting ServerPhase.waiting e = refl
free-waiting _ e = cc

not_first : (s : State) → is_noted s ≡ true → ¬ IsPrefix (s ∷ []) client_script
not_first s noted h =
    let e = next-eq [] s test_end (iperf_done ∷ []) h in let e1 = ap is_noted (sym e) ∙ noted in cc

-- Of the states that the server only notes, IPERF_DONE alone is heard, behind TEST_END.
noted-finished :
    (q : ServerPhase) (s : State)
    → is_noted s ≡ true
    → IsPrefix (server_heard q ++ s ∷ []) client_script
    → (q ≡ ServerPhase.finished) × (s ≡ iperf_done)
noted-finished ServerPhase.finished s noted h = (refl, next-eq (test_end ∷ []) s iperf_done [] h)
noted-finished ServerPhase.done s noted h = absurd (no-next client_script s h)
noted-finished ServerPhase.waiting s noted h = absurd (not_first s noted h)
noted-finished ServerPhase.creating s noted h = absurd (not_first s noted h)
noted-finished ServerPhase.running s noted h = absurd (not_first s noted h)

-- CLIENT_TERMINATE is not sent.
not-terminated :
    (q : ServerPhase) → ¬ IsPrefix (server_heard q ++ client_terminate ∷ []) client_script
not-terminated ServerPhase.waiting h = let e = h.1 in cc
not-terminated ServerPhase.creating h = let e = h.1 in cc
not-terminated ServerPhase.running h = let e = h.1 in cc
not-terminated ServerPhase.finished h = let e = h.1 in cc
not-terminated ServerPhase.done h = let e = h.1 in cc

-- A client that has sent TEST_END has heard TEST_RUNNING.
ended-heard :
    (k : ClientPhase)
    → IsPrefix (test_end ∷ []) (client_sent k)
    → IsPrefix (take 4 server_script) (client_heard k)
ended-heard ClientPhase.ending h = ([], refl)
ended-heard ClientPhase.results h = (exchange_results ∷ [], refl)
ended-heard ClientPhase.closed h = (drop 4 server_script, refl)
ended-heard ClientPhase.closed_silently h = (drop 4 server_script, refl)
ended-heard _ h = let e = h.1 in absurd cc

-- TEST_END is heard by a server that runs a test.
pub test_end-running :
    (k : ClientPhase) (q : ServerPhase)
    → IsPrefix (server_heard q ++ test_end ∷ []) (client_sent k)
    → IsPrefix (client_heard k) (server_sent q)
    → q ≡ ServerPhase.running
test_end-running k ServerPhase.running h behind = refl
test_end-running k ServerPhase.finished h behind =
    let e =
      (IsPrefix-trans (test_end ∷ test_end ∷ []) (client_sent k) client_script h
        (client_sent-IsPrefix k)).1 in
    cc
test_end-running k ServerPhase.done h behind = absurd (
    no-next client_script test_end (
      IsPrefix-trans (client_script ++ test_end ∷ []) (client_sent k) client_script h
        (client_sent-IsPrefix k)))
test_end-running k ServerPhase.waiting h behind =
    let e =
      (IsPrefix-trans (take 4 server_script) (client_heard k) [] (ended-heard k h) behind).1 in
    cc
test_end-running k ServerPhase.creating h behind =
    let e =
      (IsPrefix-trans (take 4 server_script) (client_heard k) (take 2 server_script)
        (ended-heard k h) behind).1 in
    cc

same-IsPrefix : {xs ys : List State} → ys ≡ xs → IsPrefix xs ys
same-IsPrefix {xs} {ys} e = ([], append-nil xs ∙ sym e)

hears :
    (v w : View) (k : ClientPhase) (q : ServerPhase) (s : State)
    → v.heard ≡ server_heard q
    → w.heard ≡ v.heard ++ s ∷ []
    → IsPrefix w.heard (client_sent k)
    → IsPrefix (server_heard q ++ s ∷ []) (client_sent k)
hears v w k q s at e h = (h.0, ap (λ t. t ++ h.0) (sym (e ∙ ap (λ t. t ++ s ∷ []) at)) ∙ h.1)

pub in_script :
    (k : ClientPhase) (q : ServerPhase) (s : State)
    → IsPrefix (server_heard q ++ s ∷ []) (client_sent k)
    → IsPrefix (server_heard q ++ s ∷ []) client_script
in_script k q s h =
    IsPrefix-trans (server_heard q ++ s ∷ []) (client_sent k) client_script h
      (client_sent-IsPrefix k)

accept-Next :
    (q : ServerPhase) (v w : View)
    → ServerAt q v
    → q ≡ ServerPhase.waiting
    → w ≡ push create_streams (push param_exchange (take_free v))
    → Next q w
accept-Next q v w at phase e = record {
  phase = ServerPhase.creating;
  at = record {
    state = λ creating. refl;
    free = ap (λ t. t.free) e;
    sent =
        ap (λ t. t.sent) e
        ∙ ap (λ t. (t ++ param_exchange ∷ []) ++ create_streams ∷ [])
            (at.sent ∙ ap server_sent phase);
    heard = ap (λ t. t.heard) e ∙ at.heard ∙ ap server_heard phase;
  };
  sent = (take 2 server_script, ap (λ t. server_sent t ++ take 2 server_script) phase);
}

start-Next :
    (q : ServerPhase) (v w : View)
    → ServerAt q v
    → q ≡ ServerPhase.creating
    → w ≡ push test_running (push test_start v)
    → Next q w
start-Next q v w at phase e = record {
  phase = ServerPhase.running;
  at = record {
    state = λ creating. let e1 = sym creating ∙ ap (λ t. t.state) e in cc;
    free = ap (λ t. t.free) e ∙ at.free ∙ ap server_free phase;
    sent =
        ap (λ t. t.sent) e
        ∙ ap (λ t. (t ++ test_start ∷ []) ++ test_running ∷ []) (at.sent ∙ ap server_sent phase);
    heard = ap (λ t. t.heard) e ∙ at.heard ∙ ap server_heard phase;
  };
  sent = (
    test_start ∷ test_running ∷ [],
    ap (λ t. server_sent t ++ test_start ∷ test_running ∷ []) phase,
  );
}

note-Next :
    (q : ServerPhase) (s : State) (v w : View)
    → ServerAt q v
    → (q ≡ ServerPhase.finished) × (s ≡ iperf_done)
    → w ≡ to s (hear s v)
    → Next q w
note-Next q s v w at phase e = record {
  phase = ServerPhase.done;
  at = record {
    state = λ creating. let e1 = sym creating ∙ ap (λ t. t.state) e ∙ phase.1 in cc;
    free = ap (λ t. t.free) e ∙ at.free ∙ ap server_free phase.0;
    sent = ap (λ t. t.sent) e ∙ at.sent ∙ ap server_sent phase.0;
    heard =
        ap (λ t. t.heard) e
        ∙ ap (λ t. v.heard ++ t ∷ []) phase.1
        ∙ ap (λ t. t ++ iperf_done ∷ []) (at.heard ∙ ap server_heard phase.0);
  };
  sent = ([], ap (λ t. server_sent t ++ []) phase.0);
}

finish-Next :
    (q : ServerPhase) (v w : View)
    → ServerAt q v
    → q ≡ ServerPhase.running
    → w ≡ push display_results (push exchange_results (hear test_end v))
    → Next q w
finish-Next q v w at phase e = record {
  phase = ServerPhase.finished;
  at = record {
    state = λ creating. let e1 = sym creating ∙ ap (λ t. t.state) e in cc;
    free = ap (λ t. t.free) e ∙ at.free ∙ ap server_free phase;
    sent =
        ap (λ t. t.sent) e
        ∙ ap (λ t. (t ++ exchange_results ∷ []) ++ display_results ∷ [])
            (at.sent ∙ ap server_sent phase);
    heard = ap (λ t. t.heard) e ∙ ap (λ t. t ++ test_end ∷ []) (at.heard ∙ ap server_heard phase);
  };
  sent = (drop 4 server_script, ap (λ t. server_sent t ++ drop 4 server_script) phase);
}

hung_up-Next : (q : ServerPhase) (v w : View) → ServerAt q v → w ≡ to iperf_done v → Next q w
hung_up-Next q v w at e = record {
  phase = q;
  at = record {
    state = λ creating. let e1 = sym creating ∙ ap (λ t. t.state) e in cc;
    free = ap (λ t. t.free) e ∙ at.free;
    sent = ap (λ t. t.sent) e ∙ at.sent;
    heard = ap (λ t. t.heard) e ∙ at.heard;
  };
  sent = same-IsPrefix refl;
}

pub ServerMove-Next :
    (k : ClientPhase) (q : ServerPhase) (v w : View)
    → ServerAt q v
    → ServerMove v w
    → IsPrefix w.heard (client_sent k)
    → IsPrefix (client_heard k) (server_sent q)
    → Next q w
ServerMove-Next k q v w at (accept free e) h behind =
    accept-Next q v w at (free-waiting q (sym at.free ∙ free)) e
ServerMove-Next k q v w at (start creating e) h behind = start-Next q v w at (at.state creating) e
ServerMove-Next k q v w at (note s noted e) h behind =
    let h1 = hears v w k q s at.heard (ap (λ t. t.heard) e) h in
    note-Next q s v w at (noted-finished q s noted (in_script k q s h1)) e
ServerMove-Next k q v w at (finish e) h behind =
    let h1 = hears v w k q test_end at.heard (ap (λ t. t.heard) e) h in
    finish-Next q v w at (test_end-running k q h1 behind) e
ServerMove-Next k q v w at (terminated e) h behind =
    let h1 = hears v w k q client_terminate at.heard (ap (λ t. t.heard) e) h in
    absurd (not-terminated q (in_script k q client_terminate h1))
ServerMove-Next k q v w at (hung_up e) h behind = hung_up-Next q v w at e
