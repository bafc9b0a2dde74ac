-- ===== src/Poller/Messages/Laws.antt =====
-- The messages kept are a table of lists by host and level, of which one list changes at a time.
use pf9_du.Prelude.{
  ℕ, String, ◌≡◌, refl, ◌&&◌, Option, none, some, List, [], ◌∷◌, ◌++◌, ◌==◌, select, if◌then◌else◌,
  eq_iff, Bool-cases, inl, inr,
}
use pf9_du.Prelude.Assoc.{Assoc, get, get-put, get-without}
use pf9_du.Poller.Messages.{
  Message, other_code, or_empty, set_level, after_pop, remove_at, remove_from, add_host_message,
  remove_host_message, messages_at,
}

abbrev levels_of : String → Assoc (Assoc (List Message)) → Assoc (List Message)
levels_of host_id table = or_empty (get host_id table)

module _ (host_id level : String) (code : ℕ) where
  -- Adding a message puts it last at its host and level, in place of those with its code; the messages
  -- of other hosts and levels stay.
  pub add_host_message-messages_at :
      (msg host lvl : String) (table : Assoc (Assoc (List Message)))
      → messages_at host lvl (add_host_message host_id level msg code table) ≡ (
          if host_id == host && level == lvl
          then select (other_code code) (messages_at host lvl table)
            ++ record { code = code; msg = msg } ∷ []
          else messages_at host lvl table)
  unfolding messages_at add_host_message
  add_host_message-messages_at msg host lvl table = elim (Bool-cases (host_id == host)) [
    | inl same ↦ elim (Bool-cases (level == lvl)) [
      | inl here ↦
          let e : host_id ≡ host = (eq_iff host_id host).0 same in
          let f : level ≡ lvl = (eq_iff level lvl).0 here in
          rw (get-put, same, get-put, here, ← e, ← f) refl
      | inr there ↦
          let e : host_id ≡ host = (eq_iff host_id host).0 same in
          rw (get-put, same, get-put, there, ← e) refl
    ]
    | inr other ↦ rw (get-put, other) refl
  ]

level-set_level :
    (level lvl : String) (ms : List Message) (message : Assoc (List Message))
    → or_empty (get lvl (set_level level ms message))
      ≡ (if level == lvl then ms else or_empty (get lvl message))
level-set_level level lvl [] message = elim (Bool-cases (level == lvl)) [
  | inl here ↦ rw (get-without, here) refl
  | inr there ↦ rw (get-without, there) refl
]
level-set_level level lvl (m ∷ ms) message = elim (Bool-cases (level == lvl)) [
  | inl here ↦ rw (get-put, here) refl
  | inr there ↦ rw (get-put, there) refl
]

host-after_pop :
    (host_id host : String) (message : Assoc (List Message)) (table : Assoc (Assoc (List Message)))
    → levels_of host (after_pop host_id message table)
      ≡ (if host_id == host then message else levels_of host table)
host-after_pop host_id host [] table = elim (Bool-cases (host_id == host)) [
  | inl here ↦ rw (get-without, here) refl
  | inr there ↦ rw (get-without, there) refl
]
host-after_pop host_id host (e ∷ message) table = elim (Bool-cases (host_id == host)) [
  | inl here ↦ rw (get-put, here) refl
  | inr there ↦ rw (get-put, there) refl
]

module _ (host_id level : String) (code : ℕ) where
  abbrev removed : String → String → Assoc (Assoc (List Message)) → List Message
  removed host lvl table =
      if host_id == host && level == lvl
      then select (other_code code) (messages_at host lvl table)
      else messages_at host lvl table

  -- Removing a code takes the messages with it from its host and level; the messages of other hosts
  -- and levels stay.
  remove_host_message-messages_at :
      (host lvl : String) (table : Assoc (Assoc (List Message)))
      → messages_at host lvl (remove_host_message host_id level code table) ≡ (
          if host_id == host && level == lvl
          then select (other_code code) (messages_at host lvl table)
          else messages_at host lvl table)
  unfolding messages_at remove_host_message
  remove_host_message-messages_at host lvl table = go (get host_id table) refl
    where
      popped :
          (message : Assoc (List Message)) (ms : List Message)
          → get host_id table ≡ some message
          → get level message ≡ some ms
          → or_empty (
              get lvl (
                levels_of host (
                  after_pop host_id (set_level level (select (other_code code) ms) message) table)))
            ≡ removed host lvl table
      popped message ms found at = elim (Bool-cases (host_id == host)) [
        | inl same ↦ elim (Bool-cases (level == lvl)) [
          | inl here ↦
              let e : host_id ≡ host = (eq_iff host_id host).0 same in
              let f : level ≡ lvl = (eq_iff level lvl).0 here in
              rw (host-after_pop, same, level-set_level, here, ← e, ← f, found, at) refl
          | inr there ↦
              let e : host_id ≡ host = (eq_iff host_id host).0 same in
              rw (host-after_pop, same, level-set_level, there, ← e, found) refl
        ]
        | inr other ↦ rw (host-after_pop, other) refl
      ]

      unchanged :
          or_empty (get level (levels_of host_id table)) ≡ []
          → or_empty (get lvl (levels_of host table)) ≡ removed host lvl table
      unchanged none_there = elim (Bool-cases (host_id == host)) [
        | inl same ↦ elim (Bool-cases (level == lvl)) [
          | inl here ↦
              let e : host_id ≡ host = (eq_iff host_id host).0 same in
              let f : level ≡ lvl = (eq_iff level lvl).0 here in
              rw (same, here, ← e, ← f, none_there) refl
          | inr there ↦ rw (same, there) refl
        ]
        | inr other ↦ rw other refl
      ]

      at_level :
          (message : Assoc (List Message))
          → get host_id table ≡ some message
          → (ms : Option (List Message)) → get level message ≡ ms
          → or_empty (get lvl (levels_of host (remove_from host_id level code message ms table)))
            ≡ removed host lvl table
      at_level message e none absent = unchanged (rw (e, absent) refl)
      at_level message e (some ms) at = popped message ms e at

      go :
          (found : Option (Assoc (List Message)))
          → get host_id table ≡ found
          → or_empty (get lvl (levels_of host (remove_at host_id level code found table)))
            ≡ removed host lvl table
      go none e = unchanged (rw e (unfold get in refl))
      go (some message) e = at_level message e (get level message) refl
