-- ===== src/Db/Roles/Active.antt =====
-- One version of a role is active.
use pf9_du.Prelude.{
  String, ◌≡◌, refl, Bool, true, ◌&&◌, ◌||◌, not, some, List, [], ◌∷◌, ◌++◌, arith, ◌==◌, any, all,
  select, first?, update_where, eq_iff, eq_refl, Bool-cases, inl, inr, ◌∙◌, ◌⊎◌, false,
}
use pf9_du.Result.{Result, ok}
use pf9_du.Json.{Fields}
use pf9_du.Db.{Db, Role, query_role, query_role_with_version}
use pf9_du.Db.Roles.{
  RoleDetails, is_version, deactivate_others, mark_role_active, mark_found, new_role, merge_role,
  save_role_in_db,
}

-- In the table, the role has an active row, and each of its active rows is of the version.
abbrev pub IsActive : String → String → Db → Type 0
IsActive name version db =
    (any (λ r. is_version name version r && r.active) db.roles ≡ true)
    × (all (λ r. not (r.rolename == name && r.active) || r.version == version) db.roles ≡ true)

module _ (name version : String) where
  abbrev active_row : Role → Bool
  active_row r = is_version name version r && r.active

  abbrev fits : Role → Bool
  fits r = not (r.rolename == name && r.active) || r.version == version

  deactivate-fits : (l : List Role) → all fits (deactivate_others name version l) ≡ true
  deactivate-fits [] = refl
  deactivate-fits (r ∷ l) = ground (arith, deactivate-fits l)

  deactivate-any :
      (l : List Role) → any active_row (deactivate_others name version l) ≡ any active_row l
  deactivate-any [] = refl
  deactivate-any (r ∷ l) = ground (arith, deactivate-any l)

  activate-any :
      (l : List Role)
      → any active_row (update_where (is_version name version) (λ r. record r { active = true }) l)
        ≡ any (is_version name version) l
  activate-any [] = refl
  activate-any (r ∷ l) = ground (arith, activate-any l)

  select-any :
      (l : List Role) (r : Role)
      → first? (select (is_version name version) l) ≡ some r
      → any (is_version name version) l ≡ true
  select-any [] r e = cc
  select-any (q ∷ l) r e = ground (arith, select-any l r)

  merge-fits :
      (r : Role) (l : List Role)
      → fits r ≡ true
      → all fits l ≡ true
      → all fits (update_where (λ q. q.id == r.id) (λ _. r) l) ≡ true
  merge-fits r [] h t = refl
  merge-fits r (q ∷ l) h t = ground (arith, merge-fits r l h)

  append-fits :
      (r : Role) (l : List Role) → fits r ≡ true → all fits l ≡ true → all fits (l ++ r ∷ []) ≡ true
  append-fits r [] h t = ground arith
  append-fits r (q ∷ l) h t = ground (arith, append-fits r l h)

  merge-any :
      (r : Role) (l : List Role)
      → active_row r ≡ true
      → any (λ q. q.id == r.id) l ≡ true
      → any active_row (update_where (λ q. q.id == r.id) (λ _. r) l) ≡ true
  merge-any r [] h t = cc
  merge-any r (q ∷ l) h t = ground (arith, merge-any r l h)

  append-any :
      (r : Role) (l : List Role) → active_row r ≡ true → any active_row (l ++ r ∷ []) ≡ true
  append-any r [] h = ground arith
  append-any r (q ∷ l) h = ground (arith, append-any r l h)

IsActive-query_role :
    (name version : String) (db : Db)
    → IsActive name version db
    → (r : Role) × (query_role name db ≡ some r) × (r.version ≡ version)
unfolding query_role
IsActive-query_role name version db (some_row, fitting) = first_fits db.roles some_row fitting
  where
    first_fits :
        (l : List Role)
        → any (active_row name version) l ≡ true
        → all (fits name version) l ≡ true
        → (r : Role) × (first? (select (λ r. r.rolename == name && r.active) l) ≡ some r)
          × (r.version ≡ version)
    first_fits [] h t = cc
    first_fits (q ∷ l) h t = elim (Bool-cases (q.rolename == name && q.active)) [
      | inl this ↦ (q, ground (arith), ground (arith, eq_iff q.version version))
      | inr other ↦
          let (r, e, v) = first_fits l (ground arith) (ground arith) in (r, ground arith, v)
    ]

-- Every active row of the role is of the version, and the role that `query_role` finds is one.
abbrev pub IsCurrent : String → String → Db → Type 0
IsCurrent name version db =
    (all (fits name version) db.roles ≡ true)
    × ((r : Role) × (query_role name db ≡ some r) × (r.version ≡ version))

IsActive-IsCurrent :
    (name version : String) (db : Db) → IsActive name version db → IsCurrent name version db
IsActive-IsCurrent name version db h = (h.1, IsActive-query_role name version db h)

module _ (name version : String) where
  new_row :
      (details : RoleDetails)
      → (active_row name version (new_role name version details) ≡ true)
        × (fits name version (new_role name version details) ≡ true)
  new_row details = (simp eq_refl, simp eq_refl)

  merge_role-IsActive :
      (details : RoleDetails) (db : Db) (l : List Role)
      → all (fits name version) l ≡ true
      → IsActive name version (record db { roles = merge_role (new_role name version details) l })
  unfolding merge_role
  merge_role-IsActive details db l t =
      let (a, f) = new_row details in
      let r = new_role name version details in
      elim (Bool-cases (any (λ q. q.id == r.id) l)) [
        | inl found ↦ rw found (merge-any name version r l a found, merge-fits name version r l f t)
        | inr new ↦ rw new (append-any name version r l a, append-fits name version r l f t)
      ]

  -- Marking a version as active, where there is a row of it, raises nothing. If the role has another
  -- version too, then the version becomes the only active one, and the one that the role stands for;
  -- if it has no other, then nothing is committed: the tables are as before.
  pub mark_role_active-IsCurrent :
      (db : Db) (r : Role)
      → query_role_with_version name version db ≡ some r
      → ((mark_role_active name version db).0 ≡ ok tt)
        × (((any (λ q. q.rolename == name && not (q.version == version)) db.roles ≡ true)
              × IsCurrent name version (mark_role_active name version db).1)
            ⊎ ((any (λ q. q.rolename == name && not (q.version == version)) db.roles ≡ false)
                × ((mark_role_active name version db).1 ≡ db)))
  unfolding mark_role_active mark_found
  mark_role_active-IsCurrent db r found = rw found (
    refl,
    elim (Bool-cases (any (λ q. q.rolename == name && not (q.version == version)) db.roles)) [
      | inl others ↦ inl (
        others,
        rw others (
            IsActive-IsCurrent name version _ (
              deactivate-any name version _
                  ∙ activate-any name version db.roles
                  ∙ unfold query_role_with_version in select-any name version db.roles r found,
              deactivate-fits name version _,
            )),
      )
      | inr alone ↦ inr (alone, rw alone refl)
    ],
  )

  -- Saving a version whose two configurations can be rendered makes it the only active one, whether
  -- or not it was there before.
  pub save_role_in_db-IsCurrent :
      (validate : Fields → Result (Unit {0})) (details : RoleDetails) (db : Db)
      → validate details.config ≡ ok tt
      → validate details.customizable_settings ≡ ok tt
      → ((save_role_in_db validate name version details db).0 ≡ ok tt)
        × IsCurrent name version (save_role_in_db validate name version details db).1
  unfolding save_role_in_db
  save_role_in_db-IsCurrent validate details db first second =
      rw (first, second)
        (
          refl,
          IsActive-IsCurrent name version _
              (merge_role-IsActive details db _ (deactivate-fits name version db.roles)),
        )
