-- ===== src/Master/Sending.antt =====
-- How `bbone_provider_pf9` of bbone/bbmaster/bbmaster/bbone_provider_pf9_pika.py sends messages: the
-- queue of a host is declared and bound, then its message is pending, and pending messages are
-- published at intervals.
use pf9_du.Prelude.{
  ℕ, ◌+◌, String, Bool, true, false, List, [], ◌∷◌, ◌++◌, Option, none, some, ◌==◌, join,
  if◌then◌else◌,
}
use pf9_du.Json.{Json, str, dict, end, field}
use pf9_du.Result.{Error, Result, key_error, other_error}
use pf9_du.Exec.{Exec, pure, raise, gets, modify, ◌>>=◌, ◌>>◌}
use pf9_du.Apps.Calls.{outcome}
use pf9_du.Master.{Setting, Master, Declaring}

abbrev pub broadcast_topic : String
broadcast_topic = "slaves"

abbrev pub queue_of : String → String
queue_of host_id = join "bbslave-q-" host_id

unfoldable pub ask : {A : Type 0} → (ℕ → Result A) → Exec Master A
ask answer s = (answer s.asked, record s { asked = s.asked + 1 })

unfoldable pub tell : (ℕ → Option Error) → Exec Master (Unit {0})
unfolding ask
tell answer = ask (λ n. outcome (answer n))

-- The binding that has been made when the broker answers.
abbrev pub made : Declaring → List (String × String)
made d = elim d.binding [ none ↦ [] | some key ↦ (queue_of d.routing_key, key) ∷ [] ]

module _ (w : Setting) where
  abbrev pub append_pending_msg : String → Json → Exec Master (Unit {0})
  append_pending_msg routing_key body =
      modify λ s. record s { pending_msgs = s.pending_msgs ++ (routing_key, body) ∷ [] }

  abbrev pub declare_if : Bool → String → Json → Exec Master (Unit {0})
  declare_if false host_id body = raise other_error
  declare_if true host_id body = do
    tell w.declare
    modify (λ s. record s {
      declaring =
          s.declaring
          ++ record {
            routing_key = host_id;
            body = body;
            routing_keys_to_bind = broadcast_topic ∷ host_id ∷ [];
            binding = none;
          }
            ∷ [];
    })

  -- `declare_bbslave_q`
  unfoldable pub declare_bbslave_q : String → Json → Exec Master (Unit {0})
  unfolding tell
  declare_bbslave_q host_id body = do
    channel ← gets (λ s. s.channel)
    declare_if channel host_id body

  -- `_send_msg`
  unfoldable pub send_msg : String → Json → Exec Master (Unit {0})
  unfolding declare_bbslave_q
  send_msg routing_key body =
      if routing_key == broadcast_topic
      then append_pending_msg routing_key body
      else declare_bbslave_q routing_key body

  abbrev pub bind_key : Bool → Declaring → String → List String → Exec Master (Unit {0})
  bind_key false d key keys = raise key_error
  bind_key true d key keys = do
    tell w.bind
    modify (λ s. record s {
      declaring = s.declaring ++ record d { routing_keys_to_bind = keys; binding = some key } ∷ [];
    })

  -- `on_bbslave_queue_bind` after the last key, else `on_bbslave_queue_declare`.
  abbrev pub next_key : List String → Declaring → Exec Master (Unit {0})
  next_key [] d = append_pending_msg d.routing_key d.body
  next_key (key ∷ keys) d = do channel ← gets (λ s. s.channel); bind_key channel d key keys

  -- The broker has answered a call; it answers in the order of the calls. If the next call fails, no
  -- answer to it comes.
  abbrev pub callback : List Declaring → Exec Master (Unit {0})
  callback [] = pure tt
  callback (d ∷ later) = do
    modify (λ s. record s { declaring = later; bound = s.bound ++ made d })
    next_key d.routing_keys_to_bind d

  unfoldable pub on_answer : Exec Master (Unit {0})
  unfolding tell
  on_answer = do declaring ← gets (λ s. s.declaring); callback declaring

  -- The loop over the messages that were pending.
  unfoldable pub publish_all : List (String × Json) → Exec Master (Unit {0})
  unfolding tell
  publish_all [] = pure tt
  publish_all (msg ∷ msgs) = do
    tell w.publish
    modify (λ s. record s { published = s.published ++ msg ∷ [] })
    publish_all msgs

  abbrev pub send_if : Bool → Bool → Exec Master (Unit {0})
  send_if true true = do
    pending_msgs ← gets (λ s. s.pending_msgs)
    modify (λ s. record s { pending_msgs = [] })
    publish_all pending_msgs
    modify (λ s. record s { timers = s.timers + 1 })
  send_if connection channel = pure tt

  -- `send_pending_msgs`: the timer is set again only after all has been published.
  unfoldable pub send_pending_msgs : Exec Master (Unit {0})
  unfolding publish_all
  send_pending_msgs = do
    connection ← gets (λ s. s.connection)
    channel ← gets (λ s. s.channel)
    send_if connection channel

  -- `ping_slaves`, when the connection is up and messages are about to be consumed.
  unfoldable pub ping_slaves : Exec Master (Unit {0})
  unfolding send_msg send_pending_msgs
  ping_slaves = do
    send_msg broadcast_topic (dict (field "opcode" (str "ping") end))
    send_pending_msgs

  -- A new round of `_io_thread`, with `self.state = {}`; no answer comes for the old connection.
  unfoldable pub new_connection : Exec Master (Unit {0})
  new_connection = modify λ s. record s { connection = false; channel = false; declaring = [] }
