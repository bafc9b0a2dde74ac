-- ===== src/Master/Queues.antt =====
-- No message of the master (bbone/bbmaster/bbmaster/bbone_provider_pf9_pika.py) is lost or doubled on
-- its way from `_send_msg` to the broker, and none is published before its queue is bound.
pub mod Bindings
use pf9_du.Prelude.{
  ℕ, suc, ◌+◌, ◌≡◌, refl, ◌∙◌, ap, String, Bool, true, false, List, [], ◌∷◌, ◌++◌, Option, none,
  some, count, ◌==◌, if◌then◌else◌, arith, map, Bool-cases, Option-cases, inl, inr,
}
use pf9_du.Json.{Json}
use pf9_du.Result.{Error, Result, ok, err}
use pf9_du.Exec.{Exec, continue, ◌>>=◌, ◌>>◌, modify, gets}
use pf9_du.Master.{Setting, Master, Declaring}
use pf9_du.Master.Sending.{
  ask, tell, send_msg, declare_bbslave_q, on_answer, publish_all, send_pending_msgs,
  broadcast_topic, callback, next_key, bind_key, send_if, declare_if, made,
}

-- What can happen to the messages: one is sent, the broker answers, the timer of the pending messages
-- goes off.
pub data Call : Type 0 where
  send : String → Json → Call
  answer timer : Call

abbrev pub message_of : Declaring → String × Json
message_of d = (d.routing_key, d.body)

-- The messages that the master has accepted and not lost, for which a test holds.
abbrev pub in_hand : (String × Json → Bool) → Master → ℕ
in_hand p s = count p (map message_of s.declaring) + (count p s.pending_msgs + count p s.published)

module _ {A : Type 0} where
  count-append : (p : A → Bool) (xs ys : List A) → count p (xs ++ ys) ≡ count p xs + count p ys
  count-append p [] ys = omega arith
  count-append p (x ∷ xs) ys = ground (arith, count-append p xs ys)

  append_nil : (xs : List A) → xs ≡ xs ++ []
  append_nil [] = refl
  append_nil (x ∷ xs) = cc (append_nil xs)

  snoc-append : (xs : List A) (y : A) (ys : List A) → (xs ++ y ∷ []) ++ ys ≡ xs ++ y ∷ ys
  snoc-append [] y ys = refl
  snoc-append (x ∷ xs) y ys = cc (snoc-append xs y ys)

-- How many messages wait for their queue.
abbrev waiting : (String × Json → Bool) → List Declaring → ℕ
waiting p l = count p (map message_of l)

waiting-append :
    (p : String × Json → Bool) (l : List Declaring) (d : Declaring)
    → waiting p (l ++ d ∷ []) ≡ waiting p l + waiting p (d ∷ [])
waiting-append p [] d = omega arith
waiting-append p (x ∷ l) d = ground (arith, waiting-append p l d)

abbrev is_ok : {A : Type 0} → Result A → Bool
is_ok (ok a) = true
is_ok (err e) = false

module _ (w : Setting) where
  abbrev pub step : Call → Exec Master (Unit {0})
  step (send routing_key body) = send_msg w routing_key body
  step answer = on_answer w
  step timer = send_pending_msgs w

  -- The state after some calls, whether or not they raise.
  abbrev pub run : List Call → Master → Master
  run [] s = s
  run (c ∷ cs) s = run cs (step c s).1

-- None of the calls opens or closes the channel.
module _ (w : Setting) where
  publish_all-channel :
      (msgs : List (String × Json)) (s : Master) → (publish_all w msgs s).1.channel ≡ s.channel
  unfolding publish_all tell ask
  publish_all-channel [] s = refl
  publish_all-channel (msg ∷ msgs) s = ground (
    arith,
    publish_all-channel msgs
        (record s { asked = s.asked + 1; published = s.published ++ msg ∷ [] }),
  )

  send_if-channel :
      (connection channel : Bool) (s : Master)
      → (send_if w connection channel s).1.channel ≡ s.channel
  send_if-channel true true s =
      ground (arith, publish_all-channel s.pending_msgs (record s { pending_msgs = [] }))
  send_if-channel true false s = refl
  send_if-channel false channel s = refl

  declare_if-channel :
      (channel : Bool) (host_id : String) (body : Json) (s : Master)
      → (declare_if w channel host_id body s).1.channel ≡ s.channel
  unfolding tell ask
  declare_if-channel false host_id body s = refl
  declare_if-channel true host_id body s = ground arith

  bind_key-channel :
      (channel : Bool) (d : Declaring) (key : String) (keys : List String) (s : Master)
      → (bind_key w channel d key keys s).1.channel ≡ s.channel
  unfolding tell ask
  bind_key-channel false d key keys s = refl
  bind_key-channel true d key keys s = ground arith

  next_key-channel :
      (keys : List String) (d : Declaring) (s : Master)
      → (next_key w keys d s).1.channel ≡ s.channel
  next_key-channel [] d s = refl
  next_key-channel (key ∷ keys) d s = bind_key-channel s.channel d key keys s

  callback-channel : (l : List Declaring) (s : Master) → (callback w l s).1.channel ≡ s.channel
  callback-channel [] s = refl
  callback-channel (d ∷ later) s =
      next_key-channel d.routing_keys_to_bind d
        (record s { declaring = later; bound = s.bound ++ made d })

  step-channel : (c : Call) (s : Master) → (step w c s).1.channel ≡ s.channel
  unfolding send_msg declare_bbslave_q on_answer send_pending_msgs
  step-channel (send routing_key body) s =
      ground (arith, declare_if-channel s.channel routing_key body s)
  step-channel answer s = callback-channel s.declaring s
  step-channel timer s = send_if-channel s.connection s.channel s

module _ (w : Setting) (p : String × Json → Bool) where
  -- Whether a call hands a message to the master that the test is for.
  abbrev accepted : Call → Master → ℕ
  accepted (send routing_key body) s =
      if is_ok (send_msg w routing_key body s).0 then count p ((routing_key, body) ∷ []) else 0
  accepted _ s = 0

  -- Where the broker takes every message, all are published in their order.
  publish_all-published :
      (msgs : List (String × Json)) (s : Master)
      → ((n : ℕ) → w.publish n ≡ none)
      → ((publish_all w msgs s).0 ≡ ok tt)
        × ((publish_all w msgs s).1.published ≡ s.published ++ msgs)
        × ((publish_all w msgs s).1.pending_msgs ≡ s.pending_msgs)
        × ((publish_all w msgs s).1.declaring ≡ s.declaring)
  unfolding publish_all tell ask
  publish_all-published [] s free = (refl, append_nil s.published, refl, refl)
  publish_all-published (msg ∷ msgs) s free =
      let s' : Master = record s { published = s.published ++ msg ∷ []; asked = s.asked + 1 } in
      let (done, all, pending, declaring) = publish_all-published msgs s' free in
      rw (free s.asked) (done, all ∙ snoc-append s.published msg msgs, pending, declaring)

  send_if-in_hand :
      (connection channel : Bool) (s : Master)
      → ((n : ℕ) → w.publish n ≡ none)
      → in_hand p (send_if w connection channel s).1 ≡ in_hand p s
  send_if-in_hand true true s free =
      let (done, all, pending, declaring) =
        publish_all-published s.pending_msgs (record s { pending_msgs = [] }) free in
      rw done (
        ground (
          arith,
          ap (count p) all,
          ap (count p) pending,
          ap (waiting p) declaring,
          count-append p s.published s.pending_msgs,
        ))
  send_if-in_hand true false s free = refl
  send_if-in_hand false channel s free = refl

  bind_key-in_hand :
      (channel : Bool) (d : Declaring) (key : String) (keys : List String) (s : Master)
      → ((n : ℕ) → w.bind n ≡ none)
      → channel ≡ true
      → in_hand p (bind_key w channel d key keys s).1 ≡ in_hand p s + waiting p (d ∷ [])
  unfolding tell ask
  bind_key-in_hand false d key keys s binds up = cc
  bind_key-in_hand true d key keys s binds up = rw (binds s.asked) (
      omega (
        arith,
        waiting-append p s.declaring (record d { routing_keys_to_bind = keys; binding = some key }),
      ))

  next_key-in_hand :
      (keys : List String) (d : Declaring) (s : Master)
      → ((n : ℕ) → w.bind n ≡ none)
      → s.channel ≡ true
      → in_hand p (next_key w keys d s).1 ≡ in_hand p s + waiting p (d ∷ [])
  next_key-in_hand [] d s binds up =
      ground (arith, count-append p s.pending_msgs (message_of d ∷ []))
  next_key-in_hand (key ∷ keys) d s binds up = bind_key-in_hand s.channel d key keys s binds up

  callback-in_hand :
      (l : List Declaring) (s : Master)
      → ((n : ℕ) → w.bind n ≡ none)
      → s.channel ≡ true
      → s.declaring ≡ l
      → in_hand p (callback w l s).1 ≡ in_hand p s
  callback-in_hand [] s binds up e = refl
  callback-in_hand (d ∷ later) s binds up e = ground (
    arith,
    ap (waiting p) e,
    next_key-in_hand d.routing_keys_to_bind d
        (record s { declaring = later; bound = s.bound ++ made d }) binds up,
  )

  declare_if-in_hand :
      (channel : Bool) (host_id : String) (body : Json) (s : Master)
      → in_hand p (declare_if w channel host_id body s).1
        ≡ in_hand p s
          + (if is_ok (declare_if w channel host_id body s).0
              then count p ((host_id, body) ∷ [])
              else 0)
  unfolding tell ask
  declare_if-in_hand false host_id body s = omega arith
  declare_if-in_hand true host_id body s = ground (
    arith,
    waiting-append p s.declaring (record {
      routing_key = host_id;
      body = body;
      routing_keys_to_bind = broadcast_topic ∷ host_id ∷ [];
      binding = none;
    }),
  )

  send_msg-in_hand :
      (routing_key : String) (body : Json) (s : Master)
      → in_hand p (send_msg w routing_key body s).1
        ≡ in_hand p s + accepted (send routing_key body) s
  unfolding send_msg declare_bbslave_q
  send_msg-in_hand routing_key body s = elim (Bool-cases (routing_key == broadcast_topic)) [
    | inl is_topic ↦
        rw is_topic (ground (arith, count-append p s.pending_msgs ((routing_key, body) ∷ [])))
    | inr no_topic ↦ rw no_topic (declare_if-in_hand s.channel routing_key body s)
  ]

  step-in_hand :
      (c : Call) (s : Master)
      → ((n : ℕ) → w.publish n ≡ none)
      → ((n : ℕ) → w.bind n ≡ none)
      → s.channel ≡ true
      → in_hand p (step w c s).1 ≡ in_hand p s + accepted c s
  unfolding send_pending_msgs on_answer
  step-in_hand (send routing_key body) s free binds up = send_msg-in_hand routing_key body s
  step-in_hand answer s free binds up = omega (arith, callback-in_hand s.declaring s binds up refl)
  step-in_hand timer s free binds up = omega (arith, send_if-in_hand s.connection s.channel s free)

  -- How many messages the calls handed on.
  abbrev pub handed_on : List Call → Master → ℕ
  handed_on [] s = 0
  handed_on (c ∷ cs) s = accepted c s + handed_on cs (step w c s).1

  -- If the channel is open and the broker takes every message and every binding, then each message
  -- that was sent without an exception is afterwards waiting for its queue, pending or published, and
  -- that only once: the messages that any test holds for are as many as before and those sent.
  pub run-in_hand :
      (cs : List Call) (s : Master)
      → ((n : ℕ) → w.publish n ≡ none)
      → ((n : ℕ) → w.bind n ≡ none)
      → s.channel ≡ true
      → in_hand p (run w cs s) ≡ in_hand p s + handed_on cs s
  run-in_hand [] s free binds up = omega arith
  run-in_hand (c ∷ cs) s free binds up = omega (
    arith,
    run-in_hand cs (step w c s).1 free binds (step-channel w c s ∙ up),
    step-in_hand c s free binds up,
  )
