-- ===== src/Poller/Hosts/Partition.antt =====
-- The three sets of hosts in `process_hosts` of resmgr/resmgr/resmgr_provider_pf9.py.
use pf9_du.Prelude.{
  ℕ, String, ◌≡◌, refl, not, ◌&&◌, Bool, List, [], ◌∷◌, ◌++◌, count, ◌==◌, if◌then◌else◌, arith,
  eq_iff,
}
use pf9_du.Prelude.Assoc.{Assoc}
use pf9_du.Result.{ok}
use pf9_du.Exec.{Exec, ◌>>◌}
use pf9_du.RolesMgr.{World}
use pf9_du.RolesMgr.Details.{Render}
use pf9_du.Poller.Hosts.{Backbone, Poll}
use pf9_du.Poller.Hosts.Authorized.{Authorized, authorized_hosts}
use pf9_du.Poller.Hosts.New.{process_new_hosts, cleanup_unauthorized_hosts}
use pf9_du.Poller.Hosts.Absent.{process_absent_hosts}
use pf9_du.Poller.Hosts.Existing.{process_existing_hosts}
use pf9_du.Poller.Hosts.Round.{is_in, add_ids, set_of, minus, both, keys_of, process_known}

module _ (id : String) where
  -- How often the id is in a list.
  abbrev pub times : List String → ℕ
  times l = count (λ j. j == id) l

  pub is_in-add_ids :
      (l seen : List String) → is_in id (add_ids l seen) ≡ (is_in id l && not (is_in id seen))
  unfolding add_ids
  is_in-add_ids [] seen = refl
  is_in-add_ids (x ∷ l) seen =
      ground (arith, is_in-add_ids l (x ∷ seen), is_in-add_ids l seen, eq_iff x id)

  times-add_ids :
      (l seen : List String)
      → times (add_ids l seen) ≡ (if is_in id l && not (is_in id seen) then 1 else 0)
  unfolding add_ids
  times-add_ids [] seen = refl
  times-add_ids (x ∷ l) seen =
      ground (arith, times-add_ids l (x ∷ seen), times-add_ids l seen, eq_iff x id)

  times-minus : (a b : List String) → times (minus a b) ≡ (if is_in id b then 0 else times a)
  times-minus [] b = ground arith
  times-minus (x ∷ a) b = ground (arith, times-minus a b, eq_iff x id)

  times-both : (a b : List String) → times (both a b) ≡ (if is_in id b then times a else 0)
  times-both [] b = ground arith
  times-both (x ∷ a) b = ground (arith, times-both a b, eq_iff x id)

  -- Each id for which a test holds is in the list once, and no other.
  abbrev pub Once : List String → Bool → Type 0
  Once l test = times l ≡ (if test then 1 else 0)

  new-Once :
      (listed known : List String)
      → Once (minus (set_of listed) (set_of known)) (is_in id listed && not (is_in id known))
  unfolding set_of
  new-Once listed known = ground (
    arith,
    times-minus (add_ids listed []) (add_ids known []),
    times-add_ids listed [],
    is_in-add_ids known [],
  )

  existing-Once :
      (listed known : List String)
      → Once (both (set_of known) (set_of listed)) (is_in id listed && is_in id known)
  unfolding set_of
  existing-Once listed known = ground (
    arith,
    times-both (add_ids known []) (add_ids listed []),
    times-add_ids known [],
    is_in-add_ids listed [],
  )

module _ (w : World) (b : Backbone) (render : Render) where
  -- The body of a round on three lists of hosts.
  abbrev pub in_turn :
      List String → List String → List String → Assoc Authorized → Exec Poll (Unit {0})
  in_turn new absent existing authorized = do
    process_new_hosts w b new
    process_absent_hosts w absent authorized
    process_existing_hosts w b existing authorized
    cleanup_unauthorized_hosts w b

  -- Where the tables can be read, a round handles the hosts in three lists, the new ones first, then
  -- the absent and the existing ones, and cleans up. A host is in the list of the new ones once if the
  -- backbone lists it and it is not known, in that of the absent ones once if it is known and not
  -- listed, in that of the existing ones once if it is both, and else in none. Known are the hosts that
  -- are authorized and those that are kept as unauthorized.
  pub process_known-Sorted :
      (listed : List String) (authorized : Assoc Authorized) (s : Poll)
      → authorized_hosts render s.sys.db ≡ ok authorized
      → let known = keys_of authorized ++ keys_of s.unauthorized in
        (new : List String) × (absent : List String) × (existing : List String) × ((id : String)
          → Once id new (is_in id listed && not (is_in id known)))
        × ((id : String) → Once id absent (is_in id known && not (is_in id listed)))
        × ((id : String) → Once id existing (is_in id listed && is_in id known))
        × (process_known w b render listed s ≡ in_turn new absent existing authorized s)
  unfolding process_known
  process_known-Sorted listed authorized s read =
      let known = keys_of authorized ++ keys_of s.unauthorized in
      (
        minus (set_of listed) (set_of known),
        minus (set_of known) (set_of listed),
        both (set_of known) (set_of listed),
        (λ id. new-Once id listed known),
        (λ id. new-Once id known listed),
        (λ id. existing-Once id listed known),
        rw read refl,
      )
