-- ===== src/Control/Server/Round.antt =====
-- iperf_server_api.c: what holds behind a part of a round of iperf_run_server that does not stop.
use mathlib.Core.Path.{subst}
use sber_wifi.Prelude.{◌≡◌, Bool, true, false, if◌then◌else◌}
use sber_wifi.Control.{Local, Outcome, go, stop}
use sber_wifi.Control.Frame.{Gives}
use sber_wifi.Control.Server.{Counts, RoundOutcome, goes, stops, ◌>>>◌, with_counts}

-- A property of what a round that does not stop leaves.
abbrev pub GivesRound : {W : Type 0} → (Local W → Type 0) → RoundOutcome W → Type 0
GivesRound P (goes n l) = P l
GivesRound P (stops e l) = Unit

pub GivesRound-bind :
    {W : Type 0} (P Q : Local W → Type 0) (m : RoundOutcome W)
    (f : Counts → Local W → RoundOutcome W)
    → GivesRound Q m
    → ((n1 : Counts) → (l1 : Local W) → Q l1 → GivesRound P (f n1 l1))
    → GivesRound P (m >>> f)
GivesRound-bind P Q (goes n l) f g h = h n l g
GivesRound-bind P Q (stops e l) f g h = g

pub GivesRound-with_counts :
    {W : Type 0} (P : Local W → Type 0) (n : Counts) (m : Outcome W)
    → Gives P m
    → GivesRound P (with_counts n m)
GivesRound-with_counts P n (go l) g = g
GivesRound-with_counts P n (stop e l) g = g

pub GivesRound-if :
    {W : Type 0} (P : Local W → Type 0) (b : Bool) (m n : RoundOutcome W)
    → GivesRound P m
    → GivesRound P n
    → GivesRound P (if b then m else n)
GivesRound-if P true m n g h = g
GivesRound-if P false m n g h = h

pub GivesRound-elim :
    {W : Type 0} (P : Local W → Type 0) (b : Bool) (m n : RoundOutcome W)
    → GivesRound P m
    → GivesRound P n
    → GivesRound P (elim b [ true ↦ m | false ↦ n ])
GivesRound-elim P true m n g h = g
GivesRound-elim P false m n g h = h

pub GivesRound-map :
    {W : Type 0} (P Q : Local W → Type 0)
    → ((l : Local W) → P l → Q l)
    → (m : RoundOutcome W) → GivesRound P m
    → GivesRound Q m
GivesRound-map P Q f (goes n l) g = f l g
GivesRound-map P Q f (stops e l) g = g

goes-injective : {W : Type 0} (n n' : Counts) (l l' : Local W) → goes n l ≡ goes n' l' → l ≡ l'
goes-injective n n' l l' h = cc

pub GivesRound-goes :
    {W : Type 0} (P : Local W → Type 0) (m : RoundOutcome W) (n : Counts) (l : Local W)
    → GivesRound P m
    → m ≡ goes n l
    → P l
GivesRound-goes P (goes n1 l1) n l g h = subst P (goes-injective n1 n l1 l h) g
GivesRound-goes P (stops e l1) n l g h = cc
