-- ===== src/Poller/Hosts/Stuck.antt =====
-- A round of `process_hosts` (resmgr/resmgr/resmgr_provider_pf9.py) in which an unauthorized host is
-- absent from the backbone.
use pf9_du.Prelude.{
  ℕ, String, ◌≡◌, refl, ◌∙◌, inl, inr, Bool, true, false, not, ◌&&◌, ◌||◌, Option, none, some, List,
  [], ◌∷◌, ◌++◌, ◌==◌, if◌then◌else◌, nat_eq, arith, eq_iff, Bool-cases,
}
use pf9_du.Prelude.Assoc.{Assoc, get, put, get-put}
use pf9_du.Json.{Json, Fields, str, dict, lookup, has_key, json_eq}
use pf9_du.Result.{Error, Result, ok, err, key_error}
use pf9_du.Exec.{Exec, pure, lift, gets, modify, continue, for_each, ◌>>=◌}
use pf9_du.Exec.Invariants.{
  Preserves, Preserves-bind, Preserves-lift, Preserves-gets, Preserves-if, Preserves-modify,
  Preserves-for_each,
}
use pf9_du.RoleSettings.{index}
use pf9_du.Db.Hosts.{mark_host_state}
use pf9_du.RolesMgr.{World, Sys, on_db}
use pf9_du.RolesMgr.Details.{Render}
use pf9_du.Poller.Hosts.{
  Backbone, Poll, ask, on_sys, publish, add_timedrift_message, responding_within_threshold, time_at,
  keep_data, get_backbone_host, cpu_info, with_reported, with_cpu_and_cert, within,
}
use pf9_du.Poller.Hosts.Authorized.{Authorized, authorized_hosts}
use pf9_du.Poller.Hosts.New.{
  process_new_hosts, process_new_host, new_host_found, new_host_seen, keep_responding, keep_host,
  with_host,
}
use pf9_du.Poller.Hosts.Absent.{
  process_absent_hosts, process_absent_host, absent_host, advance_host, mark_absent,
  mark_responding,
}
use pf9_du.Poller.Hosts.Round.{is_in, add_ids, set_of, minus, keys_of, process_known, process_hosts}
use pf9_du.Poller.Hosts.Partition.{is_in-add_ids}

module _ (host : String) where
  -- The host is among the unauthorized ones.
  abbrev IsUnauthorized : Poll → Type 0
  IsUnauthorized s = (info : Json) × (get host s.unauthorized ≡ some info)

  -- The calls that leave the unauthorized hosts alone, or add one.
  Keeps : {A : Type 0} → Exec Poll A → Type 0
  Keeps m = Preserves IsUnauthorized m

  Keeps-on_sys : {A : Type 0} (m : Exec Sys A) → Keeps (on_sys m)
  unfolding on_sys Keeps
  Keeps-on_sys m = record { at = λ s p. p }

  Keeps-ask : {A : Type 0} (answer : ℕ → Result A) → Keeps (ask answer)
  unfolding ask Keeps
  Keeps-ask answer = record { at = λ s p. p }

  Keeps-publish : (kind id : String) → Keeps (publish kind id)
  unfolding publish Keeps
  Keeps-publish kind id = Keeps-on_sys _

  put-IsUnauthorized :
      (k : String) (v : Json) (d : Assoc Json)
      → (info : Json) × (get host d ≡ some info)
      → (info : Json) × (get host (put k v d) ≡ some info)
  put-IsUnauthorized k v d (info, e) = elim (Bool-cases (k == host)) [
    | inl same ↦ (v, get-put k host v d ∙ rw same refl)
    | inr other ↦ (info, get-put k host v d ∙ rw other e)
  ]

  keep_data-Keeps : (k : String) (cert : Json) (f : Fields) → Keeps (keep_data k cert f)
  unfolding keep_data Keeps
  keep_data-Keeps k cert f =
      Preserves-bind (modify (with_reported k f)) _ (Preserves-modify _ λ s p. p) λ _.
        Preserves-bind (lift (cpu_info (lookup "info" f))) _ (Preserves-lift _)
          λ cpu. Preserves-modify (with_cpu_and_cert k cpu cert f) λ s p. p

  module _ (w : World) (b : Backbone) where
    responding-Keeps : (time threshold : ℕ) → Keeps (responding_within_threshold w b time threshold)
    unfolding responding_within_threshold Keeps
    responding-Keeps time threshold =
        Preserves-bind (ask (λ n. ok (w.now n))) _ (Keeps-ask _) λ now. Preserves-lift (
          ok (
            within now time
              (if nat_eq threshold 0 then b.default_non_responsive_host_timeout else threshold)))

    keep_host-Keeps :
        (k : String) (info : Json) (time time_on_du : ℕ) (f : Fields)
        → Keeps (keep_host w b k info time time_on_du f)
    unfolding Keeps
    keep_host-Keeps k info time time_on_du f =
        Preserves-bind (modify (with_host k info time time_on_du)) _
          (Preserves-modify _ λ s p. put-IsUnauthorized k info s.unauthorized p)
          λ _.
            Preserves-bind (keep_data k (str "") f) _ (keep_data-Keeps k (str "") f)
              λ _. Keeps-publish "add" k

    keep_responding-Keeps :
        (k : String) (responding on_du : Bool) (body : Exec Poll (Unit {0}))
        → Keeps body
        → Keeps (keep_responding w b k responding on_du body)
    unfolding Keeps add_timedrift_message
    keep_responding-Keeps k true on_du body kept = kept
    keep_responding-Keeps k false false body kept = Preserves-lift (ok tt)
    keep_responding-Keeps k false true body kept =
        Preserves-bind (add_timedrift_message k) _ (record { at = λ s p. p }) λ _. kept

    new_host_found-Keeps : (k : String) (o : Option Fields) → Keeps (new_host_found w b k o)
    unfolding Keeps
    new_host_found-Keeps k none = Preserves-lift (ok tt)
    new_host_found-Keeps k (some f) =
        Preserves-bind (lift (index (dict f) "status")) _ (Preserves-lift _) λ status.
          Preserves-if (json_eq status (str "missing") || not (has_key "info" f)) (pure tt)
            (new_host_seen w b k f) (Preserves-lift (ok tt))
            (Preserves-bind (lift (index (dict f) "info")) _ (Preserves-lift _) λ info.
              Preserves-bind (lift (time_at w b "timestamp" f)) _ (Preserves-lift _) λ time.
                Preserves-bind (responding_within_threshold w b time 0) _ (responding-Keeps time 0)
                  λ responding.
                    Preserves-bind (lift (time_at w b "timestamp_on_du" f)) _ (Preserves-lift _)
                      λ time_on_du.
                        Preserves-bind (responding_within_threshold w b time_on_du 0) _
                          (responding-Keeps time_on_du 0)
                          λ on_du.
                            keep_responding-Keeps k responding on_du
                              (keep_host w b k info time time_on_du f)
                              (keep_host-Keeps k info time time_on_du f))

    process_new_hosts-Keeps : (ids : List String) → Keeps (process_new_hosts w b ids)
    unfolding process_new_hosts process_new_host get_backbone_host Keeps
    process_new_hosts-Keeps ids =
        Preserves-for_each ids (process_new_host w b)
          λ k. Preserves-bind (get_backbone_host b k) _ (Keeps-ask _) λ o. new_host_found-Keeps k o

  -- A call that raises, and the host is still unauthorized.
  abbrev Raises : {A : Type 0} → Result A × Poll → Type 0
  Raises r = ((e : Error) × (r.0 ≡ err e)) × IsUnauthorized r.1

  Raises-bind :
      {A B : Type 0} (m : Exec Poll A) (f : A → Exec Poll B) (s : Poll)
      → Keeps m
      → IsUnauthorized s
      → ((a : A) (s' : Poll) → IsUnauthorized s' → Raises (f a s'))
      → Raises ((m >>= f) s)
  unfolding Keeps
  Raises-bind {A} {B} m f s k p next = after _ _ (k.at s p)
    where
      after : (r : Result A) (s' : Poll) → IsUnauthorized s' → Raises (continue r f s')
      after (ok a) s' q = next a s' q
      after (err e) s' q = ((e, refl), q)

  Raises-first :
      {A B : Type 0} (m : Exec Poll A) (f : A → Exec Poll B) (s : Poll)
      → Raises (m s)
      → Raises ((m >>= f) s)
  Raises-first {A} {B} m f s ((e, raised), p) = rw raised ((e, refl), p)

  module _ (w : World) (authorized : Assoc Authorized) where
    mark_responding-Keeps :
        (k : String) (responding : Bool) → Keeps (mark_responding w k responding)
    unfolding mark_responding Keeps
    mark_responding-Keeps k responding =
        Preserves-bind (ask (λ n. ok (w.now n))) _ (Keeps-ask _) λ now.
          Preserves-bind (on_sys (on_db (mark_host_state now k responding))) _ (Keeps-on_sys _)
            λ _. Keeps-publish "change" k

    absent_host-Keeps :
        (k : String) (a : Option Authorized) (o : Option Json) → Keeps (absent_host w k a o)
    unfolding Keeps advance_host
    absent_host-Keeps k a (some info) = Preserves-lift (err key_error)
    absent_host-Keeps k a none = Preserves-bind (advance_host w k a) _ (advanced a) λ _. marked a
      where
        advanced : (a : Option Authorized) → Keeps (advance_host w k a)
        advanced none = Preserves-lift (ok tt)
        advanced (some a) = Keeps-on_sys _

        marked : (a : Option Authorized) → Keeps (mark_absent w k a)
        marked none = Preserves-lift (ok tt)
        marked (some a) =
            Preserves-if a.row.responding (mark_responding w k false) (pure tt)
              (mark_responding-Keeps k false) (Preserves-lift (ok tt))

    process_absent_hosts-Raises :
        (ids : List String) (s : Poll)
        → is_in host ids ≡ true
        → IsUnauthorized s
        → Raises (process_absent_hosts w ids authorized s)
    unfolding process_absent_hosts process_absent_host for_each Keeps
    process_absent_hosts-Raises [] s found p = cc
    process_absent_hosts-Raises (id ∷ ids) s found p = elim (Bool-cases (id == host)) [
      | inl same ↦ rw (same_entry same p.1) ((key_error, refl), p)
      | inr other ↦
          Raises-bind (process_absent_host w authorized id) _ s (kept id) p
            λ _ s' q. process_absent_hosts-Raises ids s' (is_later other) q
    ]
      where
        same_entry :
            (id == host) ≡ true
            → get host s.unauthorized ≡ some p.0
            → get id s.unauthorized ≡ some p.0
        same_entry same e = ground (arith, eq_iff id host)

        is_later : (id == host) ≡ false → is_in host ids ≡ true
        is_later other = ground arith

        kept : (k : String) → Keeps (process_absent_host w authorized k)
        kept k =
            Preserves-bind (gets (λ s. get k s.unauthorized)) _ (Preserves-gets _)
              λ o. absent_host-Keeps k (get k authorized) o

  is_in-minus : (a b : List String) → is_in host (minus a b) ≡ (is_in host a && not (is_in host b))
  is_in-minus [] b = refl
  is_in-minus (x ∷ a) b = ground (arith, is_in-minus a b, eq_iff x host)

  is_in-append : (a b : List String) → is_in host (a ++ b) ≡ (is_in host a || is_in host b)
  is_in-append [] b = refl
  is_in-append (x ∷ a) b = ground (arith, is_in-append a b)

  is_in-keys_of :
      (d : Assoc Json) (info : Json) → get host d ≡ some info → is_in host (keys_of d) ≡ true
  unfolding get
  is_in-keys_of [] info e = cc
  is_in-keys_of ((k, v) ∷ d) info e = ground (arith, is_in-keys_of d info)

  -- The host is in the set of absent hosts.
  is_absent :
      (a d listed : List String)
      → is_in host d ≡ true
      → is_in host listed ≡ false
      → is_in host (minus (set_of (a ++ d)) (set_of listed)) ≡ true
  unfolding set_of
  is_absent a d listed known unlisted = ground (
    arith,
    is_in-minus (add_ids (a ++ d) []) (add_ids listed []),
    is_in-add_ids host (a ++ d) [],
    is_in-add_ids host listed [],
    is_in-append a d,
  )

  module _ (w : World) (b : Backbone) (render : Render) (ids : List String) where
    process_known-Raises :
        (s : Poll)
        → is_in host ids ≡ false
        → IsUnauthorized s
        → Raises (process_known w b render ids s)
    unfolding process_known Keeps
    process_known-Raises s unlisted p =
        Raises-bind (lift (authorized_hosts render s.sys.db)) _ s (Preserves-lift _) p
          λ authorized s1 q.
            let known = set_of (keys_of authorized ++ keys_of s1.unauthorized) in
            Raises-bind (process_new_hosts w b (minus (set_of ids) known)) _ s1
              (process_new_hosts-Keeps w b _) q
              λ _ s2 q2.
                Raises-first (process_absent_hosts w (minus known (set_of ids)) authorized) _ s2 (
                  process_absent_hosts-Raises w authorized (minus known (set_of ids)) s2
                    (is_absent (keys_of authorized) (keys_of s1.unauthorized) ids
                      (is_in-keys_of s1.unauthorized q.0 q.1) unlisted)
                    q2)

    -- If the backbone answers and does not list an unauthorized host, then the round raises, and the host
    -- is unauthorized still, so that the next such round raises too.
    pub process_hosts-Raises :
        (s : Poll)
        → b.host_ids s.sys.calls ≡ ok ids
        → is_in host ids ≡ false
        → (info : Json) × (get host s.unauthorized ≡ some info)
        → ((e : Error) × ((process_hosts w b render s).0 ≡ err e))
          × ((info : Json) × (get host (process_hosts w b render s).1.unauthorized ≡ some info))
    unfolding process_hosts ask
    process_hosts-Raises s answered unlisted p = rw answered (process_known-Raises _ unlisted p)
