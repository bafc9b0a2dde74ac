-- ===== src/Apps/Calls.antt =====
-- What `process_apps` of bbone/pf9app/pf9app/algorithms.py calls, and the order in which it takes the
-- applications (`get_app_ordering`).
use pf9_du.Prelude.{ℕ, String, Bool, Option, none, some, List, [], ◌∷◌, map, if◌then◌else◌}
use pf9_du.Json.{Json, Fields, dict, lookup}
use pf9_du.Result.{Error, Result, ok, err, ◌>>=◌, attribute_error, key_error, some_or}

-- The calls of the application objects, in order; `create` makes an object for a package to come.
pub data Action : Type 0 where
  install_dep : Action
  create : String → Json → Json → Bool → Action
  download install uninstall : String → Action
  set_config set_desired_service_states : String → Json → Action

pub record Run : Type 0 where
  pub calls : ℕ
  pub trace : List Action

-- What the algorithm does not decide: what a call raises, given how many went before; the name of
-- the operating system; Python's regular expressions, its `%` on an address, and its `float` with the
-- order of its values.
pub record Machine : Type 1 where
  pub raises : Action → ℕ → Option Error
  pub os_name : Result String
  pub search : String → String → Bool
  pub interpolate : Json → Result Json
  pub Rank : Type 0
  pub float : Json → Result Rank
  pub no_rank : Rank
  pub le : Rank → Rank → Bool

abbrev pub outcome : Option Error → Result (Unit {0})
outcome none = ok tt
outcome (some e) = err e

module _ (m : Machine) where
  -- `get_app_ordering`: a stable sort by rank.
  unfoldable pub rank_of : Json → Result m.Rank
  rank_of (dict spec) = elim (lookup "rank" spec) [ none ↦ ok m.no_rank | some r ↦ m.float r ]
  rank_of _ = err attribute_error

  insert : m.Rank → String → List (m.Rank × String) → List (m.Rank × String)
  insert r name [] = (r, name) ∷ []
  insert r name ((q, other) ∷ l) =
      let rest = insert r name l in
      if m.le r q then (r, name) ∷ (q, other) ∷ l else (q, other) ∷ rest

  ranked : List String → Fields → Result (List (m.Rank × String))
  ranked [] config = ok []
  ranked (name ∷ names) config = do
    spec ← some_or key_error (lookup name config)
    r ← rank_of spec
    rest ← ranked names config
    ok (insert r name rest)

  unfoldable pub get_app_ordering : List String → Fields → Result (List String)
  unfolding ranked insert
  get_app_ordering names config = do l ← ranked names config; ok (map (λ e. e.1) l)
