-- ===== src/Poller/Messages.antt =====
-- The messages about hosts that `BbonePoller` keeps (`_add_host_message` and `_remove_host_message`
-- of resmgr/resmgr/resmgr_provider_pf9.py), by host and level.
pub mod Laws
use pf9_du.Prelude.{
  ℕ, String, ◌≡◌, refl, Bool, true, false, ◌&&◌, not, Option, none, some, List, [], ◌∷◌, ◌++◌,
  arith, ◌==◌, select, nat_eq, if◌then◌else◌, eq_iff, Option-cases, inl, inr,
}
use pf9_du.Prelude.Assoc.{Assoc, get, put, without, get-put, get-without}

pub record Message : Type 0 where
  pub code : ℕ
  pub msg : String

abbrev other_code : ℕ → Message → Bool
other_code code m = not (nat_eq m.code code)

abbrev pub or_empty {ℓ} : {A : Type ℓ} → Option (List A) → List A
or_empty none = []
or_empty (some l) = l

unfoldable pub add_host_message :
    String → String → String → ℕ → Assoc (Assoc (List Message)) → Assoc (Assoc (List Message))
add_host_message host_id level msg code table =
    let message = or_empty (get host_id table) in
    put host_id
      (put level
        (select (other_code code) (or_empty (get level message))
          ++ record { code = code; msg = msg } ∷ [])
        message)
      table

-- `message[level] = [...]`, dropped if it is empty.
abbrev set_level : String → List Message → Assoc (List Message) → Assoc (List Message)
set_level level [] message = without level message
set_level level (m ∷ ms) message = put level (m ∷ ms) message

-- The host's entry after its level was popped.
abbrev after_pop :
    String → Assoc (List Message) → Assoc (Assoc (List Message)) → Assoc (Assoc (List Message))
after_pop host_id [] table = without host_id table
after_pop host_id (e ∷ message) table = put host_id (e ∷ message) table

-- The level's messages, if the host and the level are there.
abbrev remove_from :
    String
    → String
    → ℕ
    → Assoc (List Message)
    → Option (List Message)
    → Assoc (Assoc (List Message))
    → Assoc (Assoc (List Message))
remove_from host_id level code message none table = table
remove_from host_id level code message (some ms) table =
    after_pop host_id (set_level level (select (other_code code) ms) message) table

remove_at :
    String
    → String
    → ℕ
    → Option (Assoc (List Message))
    → Assoc (Assoc (List Message))
    → Assoc (Assoc (List Message))
remove_at host_id level code none table = table
remove_at host_id level code (some message) table =
    remove_from host_id level code message (get level message) table

unfoldable pub remove_host_message :
    String → String → ℕ → Assoc (Assoc (List Message)) → Assoc (Assoc (List Message))
unfolding remove_at
remove_host_message host_id level code table =
    remove_at host_id level code (get host_id table) table

-- The messages of a host at a level.
unfoldable pub messages_at : String → String → Assoc (Assoc (List Message)) → List Message
messages_at host_id level table = or_empty (get level (or_empty (get host_id table)))
