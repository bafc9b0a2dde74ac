-- ===== src/Packages/Services.antt =====
-- Setting the services of an application (bbone/pf9app/pf9app/pf9_app.py): the commands that are run,
-- the states that they lead to, and how these are read back.
use pf9_du.Prelude.{
  String, ◌≡◌, refl, sym, ap, ◌∙◌, Bool, true, false, some, List, [], ◌∷◌, ◌++◌, map, all, All,
  length, nat_eq, ◌==◌, eq_iff, arith, Bool-cases, inl, inr, if◌then◌else◌,
}
use mathlib.Core.List.{append-nil, append_assoc}
use pf9_du.Prelude.Assoc.{Assoc, get, put, put-fresh}
use pf9_du.Result.{Result, ok, err, service_ctrl_error}
use pf9_du.Exec.{Exec, continue, try_except, ◌>>=◌, pure, raise}
use pf9_du.Session.{Completed}
use pf9_du.Packages.{
  Shell, same_states, is_state, run_command, service_status_command, service_start_command,
  service_stop_command, is_running, config_script, services_in, states_of, set_run_state,
  unless_ctrl, set_desired_service_states,
}

differs-sym : (a b : String) → (a == b) ≡ false → (b == a) ≡ false
differs-sym a b h = ground (arith, eq_iff a b, eq_iff b a)

abbrev pub succeeds : Completed → Bool
succeeds c = nat_eq c.code 0

module _ {W : Type 0} (shell : Shell W) where
  logged :
      (b : Bool) (w : W)
      → (try_except (if b then pure tt else raise service_ctrl_error) (unless_ctrl shell)) w
        ≡ (ok tt, w)
  logged true w = refl
  logged false w = refl

  abbrev then_rest : Exec W (Unit {0}) → Result (Unit {0}) × W → Result (Unit {0}) × W
  then_rest rest o = continue o.0 (λ _. rest) o.1

  -- What a service manager promises: a status command tells whether the service is up, and changes
  -- nothing; a start or stop that succeeds brings the service up or down.
  pub record ServiceManager (up : String → W → Bool) : Type 0 where
    pub status_code :
        (s : String) (w : W) → succeeds (shell.run (service_status_command shell s w) w).0 ≡ up s w
    pub status_keeps :
        (s t : String) (w : W) → up t (shell.run (service_status_command shell s w) w).1 ≡ up t w
    pub started :
        (s : String) (w : W)
        → succeeds (shell.run (service_start_command shell s w) w).0 ≡ true
        → up s (shell.run (service_start_command shell s w) w).1 ≡ true
    pub stopped :
        (s : String) (w : W)
        → succeeds (shell.run (service_stop_command shell s w) w).0 ≡ true
        → up s (shell.run (service_stop_command shell s w) w).1 ≡ false

  -- What the command that starts or stops a service answers, and the state after it.
  abbrev pub ran : String → Bool → W → Completed × W
  ran s true w = shell.run (service_start_command shell s w) w
  ran s false w = shell.run (service_stop_command shell s w) w

  -- The command for a service never fails.
  abbrev pub Succeeds : String → Bool → Type 0
  Succeeds s b = (w : W) → succeeds (ran s b w).0 ≡ true

  -- The script of the application lists these services, and changes none.
  pub record Lists (app_name : String) (up : String → W → Bool) (names : List String) : Type 0 where
    pub answers :
        (w : W)
        → services_in shell (shell.run (config_script shell app_name "--get-services") w).0
          ≡ (true, names)
    pub keeps :
        (t : String) (w : W)
        → up t (shell.run (config_script shell app_name "--get-services") w).1 ≡ up t w

  abbrev pub keys_of : Assoc Bool → List String
  keys_of d = map (λ e. e.0) d

  abbrev pub DistinctNames : Assoc Bool → Type 0
  DistinctNames [] = Unit
  DistinctNames (e ∷ d) = All (λ f. (e.0 == f.0) ≡ false) d × DistinctNames d

  -- The first dictionary has the entries of the second, in an order of its own.
  abbrev pub Arranges : Assoc Bool → Assoc Bool → Type 0
  Arranges listed services =
      DistinctNames listed
      × (length listed ≡ length services)
      × All (λ x. get x.0 services ≡ some x.1) listed

  -- Setting a service that cannot be set is only logged: its command is run, whatever it answers.
  tried :
      (s : String) (b : Bool) (w : W)
      → try_except (set_run_state shell s b) (unless_ctrl shell) w ≡ (ok tt, (ran s b w).1)
  unfolding set_run_state run_command
  tried s true w = logged (nat_eq (ran s true w).0.code 0) (ran s true w).1
  tried s false w = logged (nat_eq (ran s false w).0.code 0) (ran s false w).1

  -- The state after the commands for all services, each to its state.
  abbrev pub set_all : Assoc Bool → W → W
  set_all [] w = w
  set_all ((n, b) ∷ d) w = set_all d (ran n b w).1

  -- The state after all services have been told to stop.
  abbrev pub told_to_stop : List String → W → W
  told_to_stop [] w = w
  told_to_stop (n ∷ names) w = told_to_stop names (ran n false w).1

  pub set_desired-set_all :
      (services : Assoc Bool) (w : W)
      → set_desired_service_states shell services false w ≡ (ok tt, set_all services w)
  unfolding set_desired_service_states
  set_desired-set_all [] w = refl
  set_desired-set_all ((n, b) ∷ rest) w =
      ap (then_rest (set_desired_service_states shell rest false)) (tried n b w)
      ∙ set_desired-set_all rest (ran n b w).1

  pub set_desired-told_to_stop :
      (services : Assoc Bool) (w : W)
      → set_desired_service_states shell services true w
        ≡ (ok tt, told_to_stop (keys_of services) w)
  unfolding set_desired_service_states
  set_desired-told_to_stop [] w = refl
  set_desired-told_to_stop ((n, b) ∷ rest) w =
      ap (then_rest (set_desired_service_states shell rest true)) (tried n false w)
      ∙ set_desired-told_to_stop rest (ran n false w).1

  module _ (up : String → W → Bool) (m : ServiceManager up) where
    -- Every service of the dictionary is as it says.
    abbrev pub AsDesired : Assoc Bool → W → Type 0
    AsDesired d w = All (λ e. up e.0 w ≡ e.1) d

    -- The command for a service leaves those alone that are set before it.
    abbrev pub Apart : Assoc Bool → Type 0
    Apart [] = Unit
    Apart (e ∷ d) = All (λ f. (w : W) → up e.0 (ran f.0 f.1 w).1 ≡ up e.0 w) d × Apart d

    ran-up :
        (s : String) (b : Bool) (w : W) → succeeds (ran s b w).0 ≡ true → up s (ran s b w).1 ≡ b
    ran-up s true w done = m.started s w done
    ran-up s false w done = m.stopped s w done

    set_all-keeps :
        (x : String) (d : Assoc Bool) (w : W)
        → All (λ f. (w : W) → up x (ran f.0 f.1 w).1 ≡ up x w) d
        → up x (set_all d w) ≡ up x w
    set_all-keeps x [] w keeps = refl
    set_all-keeps x ((n, b) ∷ d) w (keeps, rest) = set_all-keeps x d (ran n b w).1 rest ∙ keeps w

    pub set_all-AsDesired :
        (d : Assoc Bool) (w : W)
        → All (λ e. Succeeds e.0 e.1) d
        → Apart d
        → AsDesired d (set_all d w)
    set_all-AsDesired [] w works apart = tt
    set_all-AsDesired ((n, b) ∷ d) w (works, others) (apart, more) = (
      set_all-keeps n d (ran n b w).1 apart ∙ ran-up n b w (works w),
      set_all-AsDesired d (ran n b w).1 others more,
    )

    get-AsDesired :
        (n : String) (b : Bool) (d : Assoc Bool) (w : W)
        → get n d ≡ some b
        → AsDesired d w
        → up n w ≡ b
    unfolding get
    get-AsDesired n b [] w found is = cc
    get-AsDesired n b (e ∷ d) w found (this, rest) = elim (Bool-cases (n == e.0)) [
      | inl same ↦
          let name : n ≡ e.0 = (eq_iff n e.0).0 same in
          let state : e.1 ≡ b = ground (arith, same, eq_iff e.0 n, eq_iff n e.0) in
          rw name (this ∙ state)
      | inr other ↦ get-AsDesired n b d w (ground (arith, other, eq_iff e.0 n, eq_iff n e.0)) rest
    ]

    pub Arranges-AsDesired :
        (listed services : Assoc Bool) (w : W)
        → All (λ x. get x.0 services ≡ some x.1) listed
        → AsDesired services w
        → AsDesired listed w
    Arranges-AsDesired [] services w found is = tt
    Arranges-AsDesired ((n, b) ∷ listed) services w (found, rest) is =
        (get-AsDesired n b services w found is, Arranges-AsDesired listed services w rest is)

    is_running-up :
        (s : String) (w : W)
        → ((is_running shell s w).0 ≡ ok (up s w))
          × ((t : String) → up t (is_running shell s w).1 ≡ up t w)
    unfolding is_running run_command
    is_running-up s w = (ap ok (m.status_code s w), λ t. m.status_keeps s t w)

    pub AsDesired-keep :
        (d : Assoc Bool) (w t : W)
        → ((x : String) → up x t ≡ up x w)
        → AsDesired d w
        → AsDesired d t
    AsDesired-keep [] w t same h = tt
    AsDesired-keep (e ∷ d) w t same h = (same e.0 ∙ h.0, AsDesired-keep d w t same h.1)

    -- Reading the services one by one gives the dictionary that they are as.
    pub states_of-AsDesired :
        (todo done : Assoc Bool) (w : W)
        → AsDesired todo w
        → DistinctNames todo
        → All (λ e. All (λ f. (e.0 == f.0) ≡ false) todo) done
        → (states_of shell (keys_of todo) done w).0 ≡ ok (done ++ todo)
    states_of-AsDesired [] done w is distinct apart = ap ok (sym (append-nil done))
    states_of-AsDesired ((n, b) ∷ rest) done w is distinct apart =
        let (reads, kept) = is_running-up n w in
        let t = (is_running shell n w).1 in
        let next = λ (c : Bool). states_of shell (keys_of rest) (put n c done) in
        read_one (is_running shell n w) next w (up n w) reads
        ∙ ap (λ c. (next c t).0) is.0
        ∙ ap (λ d. (states_of shell (keys_of rest) d t).0) (put-fresh n b done (heads done apart))
        ∙ states_of-AsDesired rest (done ++ (n, b) ∷ []) t (AsDesired-keep rest w t kept is.1)
            distinct.1 (tails done apart)
        ∙ ap ok (append_assoc done ((n, b) ∷ []) rest)
      where
        read_one :
            (o : Result Bool × W) (next : Bool → Exec W (Assoc Bool)) (w : W) (c : Bool)
            → o.0 ≡ ok c
            → (((λ _. o) >>= next) w).0 ≡ (next c o.1).0
        read_one (ok x, t) next w c h = let same : x ≡ c = cc in ap (λ y. (next y t).0) same
        read_one (err e, t) next w c h = cc

        heads :
            (d : Assoc Bool)
            → All (λ e. All (λ f. (e.0 == f.0) ≡ false) ((n, b) ∷ rest)) d
            → All (λ e. (e.0 == n) ≡ false) d
        heads [] h = tt
        heads (e ∷ d) h = (h.0.0, heads d h.1)

        tails :
            (d : Assoc Bool)
            → All (λ e. All (λ f. (e.0 == f.0) ≡ false) ((n, b) ∷ rest)) d
            → All (λ e. All (λ f. (e.0 == f.0) ≡ false) rest) (d ++ (n, b) ∷ [])
        tails [] h = (distinct.0, tt)
        tails (e ∷ d) h = (h.0.1, tails d h.1)

  -- The test of two dictionaries does not depend on the order.
  gets_own :
      (d e : Assoc Bool)
      → All (λ x. get x.0 e ≡ some x.1) d
      → all (λ x. is_state x.1 (get x.0 e)) d ≡ true
  gets_own [] e h = refl
  gets_own ((n, true) ∷ d) e h = rw (h.0) (gets_own d e h.1)
  gets_own ((n, false) ∷ d) e h = rw (h.0) (gets_own d e h.1)

  pub same_states-Arranges :
      (listed services : Assoc Bool) → Arranges listed services → same_states listed services ≡ true
  unfolding same_states
  same_states-Arranges listed services (distinct, sizes, found) =
      let n : nat_eq (length listed) (length services) ≡ true = ground (arith, sizes) in
      rw n (gets_own listed services found)
