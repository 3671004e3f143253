-- ===== src/Control/Frame.antt =====
-- What the control protocol relies on of the calls that it leaves to other parts. The view of an end
-- of the control connection is its state, its role, whether it is free, and the states that it has
-- sent and heard so far. Only Nwrite and Nread of a state change what was sent and heard.
use sber_wifi.Prelude.{ap, refl, if◌then◌else◌, ℕ, ◌≡◌, ◌∙◌, Bool, true, false, List, [], ◌∷◌, ◌++◌}
use mathlib.Core.Path.{subst}
use sber_wifi.Control.{
  State, Local, Outcome, go, stop, ◌>>=◌, StateRead, got_state, end_of_file, read_failed, Calls,
  set_state, iperf_set_send_state, sent_state,
}

pub record View : Type 0 where
  pub state : State
  pub role : ℕ
  pub free : Bool
  pub sent : List State
  pub heard : List State

-- The state is changed; it is changed and sent; a state is heard.
abbrev pub to : State → View → View
to s v = record v { state = s }

abbrev pub push : State → View → View
push s v = record v { state = s; sent = v.sent ++ s ∷ [] }

abbrev pub hear : State → View → View
hear s v = record v { heard = v.heard ++ s ∷ [] }

abbrev pub take_free : View → View
take_free v = record v { free = false }

-- Any number of steps of a relation.
pub data Runs {X : Type 0} (R : X → X → Type 0) (x : X) : X → Type 0 where
  here : Runs R x x
  next : {y z : X} → Runs R x y → R y z → Runs R x z

pub Runs-append :
    {X : Type 0} {R : X → X → Type 0} {x y z : X} → Runs R x y → Runs R y z → Runs R x z
Runs-append a here = a
Runs-append a (next b s) = next (Runs-append a b) s

pub Runs_refl : {X : Type 0} {R : X → X → Type 0} {x y : X} → x ≡ y → Runs R x y
Runs_refl {X} {R} {x} {y} e = subst (Runs R x) e here

pub Runs_one : {X : Type 0} {R : X → X → Type 0} {x y : X} → R x y → Runs R x y
Runs_one s = next here s

abbrev pub after_read : StateRead → View → View
after_read (got_state s) v = hear s v
after_read end_of_file v = v
after_read read_failed v = v

abbrev pub after_write : Bool → State → View → View
after_write true s v = record v { sent = v.sent ++ s ∷ [] }
after_write false s v = v

-- A property of what an outcome that is no error leaves.
abbrev pub Gives : {W : Type 0} → (Local W → Type 0) → Outcome W → Type 0
Gives P (go l) = P l
Gives P (stop e l) = Unit

pub Gives-bind :
    {W : Type 0} (P Q : Local W → Type 0) (m : Outcome W) (f : Local W → Outcome W)
    → Gives Q m
    → ((l1 : Local W) → Q l1 → Gives P (f l1))
    → Gives P (m >>= f)
Gives-bind P Q (go l) f g h = h l g
Gives-bind P Q (stop e l) f g h = g

pub Gives-map :
    {W : Type 0} (P Q : Local W → Type 0)
    → ((l : Local W) → P l → Q l)
    → (m : Outcome W) → Gives P m
    → Gives Q m
Gives-map P Q f (go l) g = f l g
Gives-map P Q f (stop e l) g = g

pub Gives-if :
    {W : Type 0} (P : Local W → Type 0) (b : Bool) (m n : Outcome W)
    → Gives P m
    → Gives P n
    → Gives P (if b then m else n)
Gives-if P true m n g h = g
Gives-if P false m n g h = h

pub Gives-true :
    {W : Type 0} (P : Local W → Type 0) (b : Bool) (m n : Outcome W)
    → b ≡ true
    → Gives P m
    → Gives P (if b then m else n)
Gives-true P true m n h g = g
Gives-true P false m n h g = cc

pub Gives-false :
    {W : Type 0} (P : Local W → Type 0) (b : Bool) (m n : Outcome W)
    → b ≡ false
    → Gives P n
    → Gives P (if b then m else n)
Gives-false P true m n h g = cc
Gives-false P false m n h g = g

pub Gives-elim :
    {W : Type 0} (P : Local W → Type 0) (b : Bool) (m n : Outcome W)
    → Gives P m
    → Gives P n
    → Gives P (elim b [ true ↦ m | false ↦ n ])
Gives-elim P true m n g h = g
Gives-elim P false m n g h = h

go-injective : {W : Type 0} (l l' : Local W) → go l ≡ go l' → l ≡ l'
go-injective l l' h = cc

pub Gives-go :
    {W : Type 0} (P : Local W → Type 0) (m : Outcome W) (l : Local W) → Gives P m → m ≡ go l → P l
Gives-go P (go l1) l g h = subst P (go-injective l1 l h) g
Gives-go P (stop e l1) l g h = cc

module _ {W : Type 0} (written read : W → List State) where
  abbrev pub view : Local W → View
  view l = record {
    state = l.ctl.state;
    role = l.ctl.role;
    free = l.ctl.ctrl_free;
    sent = written l.world;
    heard = read l.world;
  }

  -- Every outcome that is no error has this view.
  abbrev pub Shows : View → Outcome W → Type 0
  Shows v = Gives (λ t. view t ≡ v)

  abbrev pub Keeps : (Local W → Local W) → Type 0
  Keeps f = (l : Local W) → view (f l) ≡ view l

  abbrev pub KeepsGo : (Local W → Outcome W) → Type 0
  KeepsGo f = (l : Local W) → Shows (view l) (f l)

  pub record Frame (calls : Calls W) : Type 0 where
    pub read_state :
        (l : Local W) → view (calls.read_state l).1 ≡ after_read (calls.read_state l).0 (view l)
    pub write_state :
        (s : State) (l : Local W)
        → view (calls.write_state s l).1 ≡ after_write (calls.write_state s l).0 s (view l)
    pub send_parameters : KeepsGo calls.send_parameters
    pub get_parameters : KeepsGo calls.get_parameters
    pub listen : KeepsGo calls.listen
    pub send_results : KeepsGo calls.send_results
    pub get_results : KeepsGo calls.get_results
    pub connect : (b : Bool) → KeepsGo (calls.connect b)
    pub new_stream : (b : Bool) → KeepsGo (calls.new_stream b)
    pub init_test : KeepsGo calls.init_test
    pub create_timers : KeepsGo calls.create_timers
    pub create_omit_timer : KeepsGo calls.create_omit_timer
    pub create_send_timers : KeepsGo calls.create_send_timers
    pub send : KeepsGo calls.send
    pub recv : KeepsGo calls.recv
    pub accept_control : KeepsGo calls.accept_control
    pub read_cookie : KeepsGo calls.read_cookie
    pub refuse : KeepsGo calls.refuse
    pub set_affinity : KeepsGo calls.set_affinity
    pub accept_stream : KeepsGo calls.accept_stream
    pub reopen_listener : KeepsGo calls.reopen_listener
    pub on_connect : Keeps calls.on_connect
    pub on_test_finish : Keeps calls.on_test_finish
    pub cpu_util : Keeps calls.cpu_util
    pub stats : Keeps calls.stats
    pub report : Keeps calls.report
    pub close_streams : Keeps calls.close_streams
    pub close_control : Keeps calls.close_control
    pub setnonblocking : (b : Bool) → Keeps (calls.setnonblocking b)
    pub run_timers : Keeps calls.run_timers
    pub cleanup_server : Keeps calls.cleanup_server
    pub clear_prot_listener : Keeps calls.clear_prot_listener
    pub close_prot_listener : Keeps calls.close_prot_listener

  pub Shows-bind :
      (v w : View) (m : Outcome W) (f : Local W → Outcome W)
      → Shows v m
      → ((l1 : Local W) → view l1 ≡ v → Shows w (f l1))
      → Shows w (m >>= f)
  Shows-bind v w = Gives-bind (λ t. view t ≡ w) (λ t. view t ≡ v)

  pub Shows-transport : (v w : View) (m : Outcome W) → v ≡ w → Shows v m → Shows w m
  Shows-transport v w (go l) e s = s ∙ e
  Shows-transport v w (stop x l) e s = s

  -- A call that keeps the view, behind one that leaves `v`.
  pub Shows-kept :
      (v : View) (m : Outcome W) (f : Local W → Outcome W)
      → Shows v m
      → KeepsGo f
      → Shows v (m >>= f)
  Shows-kept v m f s k = Shows-bind v v m f s (λ l1 e. Shows-transport (view l1) v (f l1) e (k l1))

  sent_state-Shows :
      (calls : Calls W) (s : State) (v : View) (r : Bool × Local W)
      → view r.1 ≡ after_write r.0 s (to s v)
      → Shows (push s v) (sent_state calls r)
  sent_state-Shows calls s v (true, l) e = e
  sent_state-Shows calls s v (false, l) e = tt

  pub iperf_set_send_state-Shows :
      (calls : Calls W) (s : State) (l : Local W)
      → Frame calls
      → Shows (push s (view l)) (iperf_set_send_state calls s l)
  unfolding iperf_set_send_state
  iperf_set_send_state-Shows calls s l frame =
      sent_state-Shows calls s (view l) (calls.write_state s (set_state s l))
        (frame.write_state s (set_state s l))

  -- A state that is set and sent behind calls that leave `v`.
  pub Shows-bind_moves :
      (calls : Calls W) (s : State) (v : View) (m : Outcome W) (f : Local W → Local W)
      → Frame calls
      → Shows v m
      → Keeps f
      → Shows (push s v) (m >>= (λ l. iperf_set_send_state calls s (f l)))
  Shows-bind_moves calls s v m f frame g k =
      Shows-bind v (push s v) m (λ l. iperf_set_send_state calls s (f l)) g
        (λ l1 e.
          Shows-transport (push s (view (f l1))) (push s v) (iperf_set_send_state calls s (f l1))
            (ap (push s) (k l1 ∙ e)) (iperf_set_send_state-Shows calls s (f l1) frame))

  pub Shows-moves :
      (calls : Calls W) (s : State) (v : View) (m : Outcome W)
      → Frame calls
      → Shows v m
      → Shows (push s v) (m >>= iperf_set_send_state calls s)
  Shows-moves calls s v m frame g = Shows-bind_moves calls s v m (λ l. l) frame g (λ l. refl)
