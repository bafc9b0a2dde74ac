-- ===== src/RoleStates/Graph.antt =====
-- The transition graph of resmgr/resmgr/role_states.py: names, classes of states, reachability.
use pf9_du.Prelude.{
  String, ◌≡◌, refl, ap, ◌↔◌, ◌⊎◌, inl, inr, true, false, some, List, [], ◌∷◌, arith, eq_iff,
}
use pf9_du.RoleStates.{
  RoleState, not_applied, start_apply, pre_auth, auth_converging, auth_converged, auth_error,
  applied, start_edit, start_deauth, pre_deauth, deauth_converging, deauth_converged, deauth_error,
  name, roles, find, from_name, state_eq, legal_transition, role_is_authed, role_is_failed,
  role_is_converging,
}

pub from_name-name : (s : RoleState) → from_name (name s) ≡ some s
unfolding from_name
from_name-name not_applied = refl
from_name-name _ = refl

find-name : (key : String) (l : List RoleState) (s : RoleState) → find key l ≡ some s → name s ≡ key
unfolding find
find-name key [] s h = cc
find-name key (t ∷ l) s h = ground (arith, find-name key l s, eq_iff (name t) key)

-- A name is known exactly when it is the name of a state, and then it is the name of the state
-- that is found.
from_name-eq-some_iff : (key : String) (s : RoleState) → (from_name key ≡ some s) ↔ (name s ≡ key)
unfolding from_name
from_name-eq-some_iff key s = (λ h. find-name key roles s h, λ e. rw (← e) (from_name-name s))

pub name-injective : (s t : RoleState) → name s ≡ name t → s ≡ t
name-injective s t e = cc (from_name-name s, from_name-name t)

pub state_eq_iff : (s t : RoleState) → (state_eq s t ≡ true) ↔ (s ≡ t)
unfolding state_eq
state_eq_iff s t = (
  λ h. name-injective s t ((eq_iff (name s) (name t)).0 h),
  λ e. (eq_iff (name s) (name t)).1 (ap name e),
)

-- No state is both failed and converging, and the states that are neither are the two settled
-- ones, applied and not-applied.
state_classes :
    (s : RoleState)
    → ((role_is_failed (name s) ≡ some true) × (role_is_converging (name s) ≡ some false))
      ⊎ ((role_is_failed (name s) ≡ some false) × (role_is_converging (name s) ≡ some true))
      ⊎ ((role_is_failed (name s) ≡ some false)
          × (role_is_converging (name s) ≡ some false)
          × ((s ≡ applied) ⊎ (s ≡ not_applied)))
unfolding role_is_failed role_is_converging name
state_classes auth_error = inl (refl, refl)
state_classes deauth_error = inl (refl, refl)
state_classes applied = inr (inr (refl, refl, inl refl))
state_classes not_applied = inr (inr (refl, refl, inr refl))
state_classes _ = inr (inl (refl, refl))

-- The transitions as a relation, one constructor to an arrow of the diagram.
pub data Edge : RoleState → RoleState → Type 0 where
  request_apply : Edge not_applied start_apply
  call_off_apply : Edge start_apply not_applied
  authorize : Edge start_apply pre_auth
  push_apply : Edge pre_auth auth_converging
  converge_apply : Edge auth_converging auth_converged
  fail_apply : Edge auth_converging auth_error
  settle_apply : Edge auth_converged applied
  fail_settle_apply : Edge auth_converged auth_error
  retry_apply : Edge auth_error start_apply
  remove_failed : Edge auth_error start_deauth
  request_edit : Edge applied start_edit
  request_removal : Edge applied start_deauth
  authorize_edit : Edge start_edit pre_auth
  call_off_edit : Edge start_edit applied
  deauthorize : Edge start_deauth pre_deauth
  call_off_removal : Edge start_deauth applied
  push_removal : Edge pre_deauth deauth_converging
  converge_removal : Edge deauth_converging deauth_converged
  fail_removal : Edge deauth_converging deauth_error
  fail_settle_removal : Edge deauth_converged deauth_error
  settle_removal : Edge deauth_converged not_applied
  retry_removal : Edge deauth_error start_deauth

legal_transition-Edge : (s t : RoleState) → legal_transition s t ≡ true → Edge s t
unfolding legal_transition
legal_transition-Edge not_applied start_apply h = request_apply
legal_transition-Edge start_apply not_applied h = call_off_apply
legal_transition-Edge start_apply pre_auth h = authorize
legal_transition-Edge pre_auth auth_converging h = push_apply
legal_transition-Edge auth_converging auth_converged h = converge_apply
legal_transition-Edge auth_converging auth_error h = fail_apply
legal_transition-Edge auth_converged applied h = settle_apply
legal_transition-Edge auth_converged auth_error h = fail_settle_apply
legal_transition-Edge auth_error start_apply h = retry_apply
legal_transition-Edge auth_error start_deauth h = remove_failed
legal_transition-Edge applied start_edit h = request_edit
legal_transition-Edge applied start_deauth h = request_removal
legal_transition-Edge start_edit pre_auth h = authorize_edit
legal_transition-Edge start_edit applied h = call_off_edit
legal_transition-Edge start_deauth pre_deauth h = deauthorize
legal_transition-Edge start_deauth applied h = call_off_removal
legal_transition-Edge pre_deauth deauth_converging h = push_removal
legal_transition-Edge deauth_converging deauth_converged h = converge_removal
legal_transition-Edge deauth_converging deauth_error h = fail_removal
legal_transition-Edge deauth_converged deauth_error h = fail_settle_removal
legal_transition-Edge deauth_converged not_applied h = settle_removal
legal_transition-Edge deauth_error start_deauth h = retry_removal
legal_transition-Edge _ _ h = cc

Edge-legal_transition : {s t : RoleState} → Edge s t → legal_transition s t ≡ true
unfolding legal_transition
Edge-legal_transition request_apply = refl
Edge-legal_transition _ = refl

-- The test on names holds of exactly the arrows of the diagram.
pub legal_transition_iff : (s t : RoleState) → (legal_transition s t ≡ true) ↔ Edge s t
legal_transition_iff s t = (legal_transition-Edge s t, Edge-legal_transition)

authed_changes-Edge :
    {s t : RoleState}
    → Edge s t
    → (role_is_authed (name s) ≡ role_is_authed (name t))
      ⊎ ((s ≡ not_applied) × (t ≡ start_apply))
      ⊎ ((s ≡ start_deauth) × (t ≡ applied))
      ⊎ ((s ≡ start_apply) × (t ≡ not_applied))
      ⊎ (((s ≡ applied) ⊎ (s ≡ auth_error)) × (t ≡ start_deauth))
unfolding role_is_authed name
authed_changes-Edge request_apply = inr (inl (refl, refl))
authed_changes-Edge call_off_removal = inr (inr (inl (refl, refl)))
authed_changes-Edge call_off_apply = inr (inr (inr (inl (refl, refl))))
authed_changes-Edge request_removal = inr (inr (inr (inr (inl refl, refl))))
authed_changes-Edge remove_failed = inr (inr (inr (inr (inr refl, refl))))
authed_changes-Edge _ = inl refl

-- A role starts to count as assigned to the host only when it starts to be applied, or when its
-- removal is called off; it stops to count only when the application is called off or when its
-- removal starts.
authed_changes :
    (s t : RoleState)
    → legal_transition s t ≡ true
    → (role_is_authed (name s) ≡ role_is_authed (name t))
      ⊎ ((s ≡ not_applied) × (t ≡ start_apply))
      ⊎ ((s ≡ start_deauth) × (t ≡ applied))
      ⊎ ((s ≡ start_apply) × (t ≡ not_applied))
      ⊎ (((s ≡ applied) ⊎ (s ≡ auth_error)) × (t ≡ start_deauth))
authed_changes s t h = authed_changes-Edge (legal_transition-Edge s t h)

-- Legal transitions, one after another.
pub data Reaches : RoleState → RoleState → Type 0 where
  here : {s : RoleState} → Reaches s s
  then : {s t u : RoleState} → legal_transition s t ≡ true → Reaches t u → Reaches s u

-- One arrow of the diagram, and the way from its end.
via : {s t u : RoleState} → Edge s t → Reaches t u → Reaches s u
via e r = then (Edge-legal_transition e) r

Reaches-applied : (s : RoleState) → Reaches s applied
Reaches-applied not_applied =
    via request_apply (via authorize (via push_apply (via converge_apply (via settle_apply here))))
Reaches-applied start_apply =
    via authorize (via push_apply (via converge_apply (via settle_apply here)))
Reaches-applied pre_auth = via push_apply (via converge_apply (via settle_apply here))
Reaches-applied auth_converging = via converge_apply (via settle_apply here)
Reaches-applied auth_converged = via settle_apply here
Reaches-applied auth_error =
    via retry_apply (via authorize (via push_apply (via converge_apply (via settle_apply here))))
Reaches-applied applied = here
Reaches-applied start_edit =
    via authorize_edit (via push_apply (via converge_apply (via settle_apply here)))
Reaches-applied start_deauth = via call_off_removal here
Reaches-applied pre_deauth =
    via push_removal (via fail_removal (via retry_removal (via call_off_removal here)))
Reaches-applied deauth_converging = via fail_removal (via retry_removal (via call_off_removal here))
Reaches-applied deauth_converged = via settle_removal (
    via request_apply (via authorize (via push_apply (via converge_apply (via settle_apply here)))))
Reaches-applied deauth_error = via retry_removal (via call_off_removal here)

Reaches-not_applied : (s : RoleState) → Reaches s not_applied
Reaches-not_applied not_applied = here
Reaches-not_applied start_apply = via call_off_apply here
Reaches-not_applied pre_auth = via push_apply (
    via fail_apply (
      via remove_failed
        (via deauthorize (via push_removal (via converge_removal (via settle_removal here))))))
Reaches-not_applied auth_converging = via fail_apply (
    via remove_failed
      (via deauthorize (via push_removal (via converge_removal (via settle_removal here)))))
Reaches-not_applied auth_converged = via settle_apply (
    via request_removal
      (via deauthorize (via push_removal (via converge_removal (via settle_removal here)))))
Reaches-not_applied auth_error =
    via remove_failed
      (via deauthorize (via push_removal (via converge_removal (via settle_removal here))))
Reaches-not_applied applied =
    via request_removal
      (via deauthorize (via push_removal (via converge_removal (via settle_removal here))))
Reaches-not_applied start_edit = via call_off_edit (
    via request_removal
      (via deauthorize (via push_removal (via converge_removal (via settle_removal here)))))
Reaches-not_applied start_deauth =
    via deauthorize (via push_removal (via converge_removal (via settle_removal here)))
Reaches-not_applied pre_deauth = via push_removal (via converge_removal (via settle_removal here))
Reaches-not_applied deauth_converging = via converge_removal (via settle_removal here)
Reaches-not_applied deauth_converged = via settle_removal here
Reaches-not_applied deauth_error =
    via retry_removal
      (via deauthorize (via push_removal (via converge_removal (via settle_removal here))))

-- From every state a role can still become applied, and can still become not-applied, by transitions
-- that are legal: no state is a dead end.
pub no_dead_end : (s : RoleState) → Reaches s applied × Reaches s not_applied
no_dead_end s = (Reaches-applied s, Reaches-not_applied s)
