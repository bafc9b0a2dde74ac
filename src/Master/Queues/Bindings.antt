-- ===== src/Master/Queues/Bindings.antt =====
-- The queues of bbone/bbmaster/bbmaster/bbone_provider_pf9_pika.py are bound before messages for them
-- are pending.
use pf9_du.Prelude.{
  ℕ, ◌+◌, ◌≡◌, refl, ◌⊎◌, inl, inr, String, Bool, true, false, List, [], ◌∷◌, ◌++◌, Option, some,
  All, ◌==◌, eq_iff, Bool-cases,
}
use pf9_du.Json.{Json}
use pf9_du.Result.{Error, Result, ok, err, other_error}
use pf9_du.Exec.{Exec, ◌>>◌, modify, continue}
use pf9_du.Exec.Invariants.{Preserves, Preserves-bind, Preserves-lift}
use pf9_du.Apps.Calls.{outcome}
use pf9_du.Master.{Setting, Master, Declaring}
use pf9_du.Master.Sending.{
  ask, tell, send_msg, declare_bbslave_q, on_answer, publish_all, send_pending_msgs,
  broadcast_topic, queue_of, callback, next_key, bind_key, send_if, declare_if, append_pending_msg,
  made, new_connection, ping_slaves,
}
use pf9_du.Master.Queues.{Call, send, answer, timer, step}

module _ {A : Type 0} where
  abbrev pub Member : A → List A → Type 0
  Member x [] = ⊥
  Member x (y ∷ ys) = (y ≡ x) ⊎ Member x ys

  -- Each member of one list is a member of the other.
  abbrev Within : List A → List A → Type 0
  Within xs ys = (x : A) → Member x xs → Member x ys

  Member-cases : (x : A) (xs ys : List A) → Member x (xs ++ ys) → Member x xs ⊎ Member x ys
  Member-cases x [] ys m = inr m
  Member-cases x (y ∷ xs) ys (inl e) = inl (inl e)
  Member-cases x (y ∷ xs) ys (inr m) = elim (Member-cases x xs ys m) [
    | inl a ↦ inl (inr a)
    | inr b ↦ inr b
  ]

  Member-behind : (x : A) (xs ys : List A) → Member x ys → Member x (xs ++ ys)
  Member-behind x [] ys m = m
  Member-behind x (y ∷ xs) ys m = inr (Member-behind x xs ys m)

  Member-append : (x : A) (xs ys : List A) → Member x xs → Member x (xs ++ ys)
  Member-append x [] ys m = elim m [ ]
  Member-append x (y ∷ xs) ys (inl e) = inl e
  Member-append x (y ∷ xs) ys (inr m) = inr (Member-append x xs ys m)

  Member-Within : (xs ys zs : List A) → Within xs ys → Within (xs ++ zs) (ys ++ zs)
  Member-Within xs ys zs sub x m = elim (Member-cases x xs zs m) [
    | inl a ↦ Member-append x ys zs (sub x a)
    | inr b ↦ Member-behind x ys zs b
  ]

  Member-last : (x : A) (xs : List A) → Member x (xs ++ x ∷ [])
  Member-last x [] = inl refl
  Member-last x (y ∷ xs) = inr (Member-last x xs)

  All-append : (P : A → Type 0) (xs ys : List A) → All P xs → All P ys → All P (xs ++ ys)
  All-append P [] ys a b = b
  All-append P (x ∷ xs) ys (p, a) b = (p, All-append P xs ys a b)

  All-weaken : (P Q : A → Type 0) (xs : List A) → ((x : A) → P x → Q x) → All P xs → All Q xs
  All-weaken P Q [] f a = tt
  All-weaken P Q (x ∷ xs) f (p, a) = (f x p, All-weaken P Q xs f a)

-- The queue of a host is bound to a key.
abbrev pub Bound : List (String × String) → String → String → Type 0
Bound bound host_id key = Member (queue_of host_id, key) bound

-- What can happen to the messages, or to the connection.
pub data Event : Type 0 where
  call : Call → Event
  reconnect : Event
  io_loop : Bool → Bool → Event
  consuming : Event

-- A message may be pending: it is for all hosts, or the queue of its host has both bindings.
abbrev pub Ready : List (String × String) → String × Json → Type 0
Ready bound msg =
    (msg.0 ≡ broadcast_topic) ⊎ (Bound bound msg.0 broadcast_topic × Bound bound msg.0 msg.0)

-- How far a declaration is, by the keys that are left to bind.
abbrev Stage : List (String × String) → String → List String → Type 0
Stage bound host_id keys =
    (keys ≡ broadcast_topic ∷ host_id ∷ [])
    ⊎ (((keys ≡ host_id ∷ []) × Bound bound host_id broadcast_topic)
        ⊎ ((keys ≡ []) × Bound bound host_id broadcast_topic × Bound bound host_id host_id))

-- The binding that the broker has been asked for is made when it answers.
abbrev Progress : List (String × String) → Declaring → Type 0
Progress bound d = Stage (bound ++ made d) d.routing_key d.routing_keys_to_bind

record IsBound (s : Master) : Type 0 where
  declaring : All (Progress s.bound) s.declaring
  pending : All (Ready s.bound) s.pending_msgs
  published : All (Ready s.bound) s.published

module _ (bound bound' : List (String × String)) (sub : Within bound bound') where
  Ready-more : (msg : String × Json) → Ready bound msg → Ready bound' msg
  Ready-more msg (inl e) = inl e
  Ready-more msg (inr (a, b)) = inr (sub _ a, sub _ b)

  Stage-more :
      (host_id : String) (keys : List String) → Stage bound host_id keys → Stage bound' host_id keys
  Stage-more host_id keys (inl e) = inl e
  Stage-more host_id keys (inr (inl (e, a))) = inr (inl (e, sub _ a))
  Stage-more host_id keys (inr (inr (e, a, b))) = inr (inr (e, sub _ a, sub _ b))

module _ (bound more : List (String × String)) where
  Within-append : Within bound (bound ++ more)
  Within-append x m = Member-append x bound more m

  Progress-more : (d : Declaring) → Progress bound d → Progress (bound ++ more) d
  Progress-more d p =
      Stage-more (bound ++ made d) ((bound ++ more) ++ made d)
        (Member-Within bound (bound ++ more) (made d) Within-append) d.routing_key
        d.routing_keys_to_bind p

-- The next key has been bound.
Stage-next :
    (bound : List (String × String)) (host_id key : String) (keys : List String)
    → Stage bound host_id (key ∷ keys)
    → Stage (bound ++ (queue_of host_id, key) ∷ []) host_id keys
Stage-next bound host_id key keys (inl e) =
    let first : key ≡ broadcast_topic = cc in
    inr (inl (cc, rw first (Member-last (queue_of host_id, broadcast_topic) bound)))
Stage-next bound host_id key keys (inr (inl (e, a))) =
    let second : key ≡ host_id = cc in
    inr (
      inr (
        cc,
        Member-append (queue_of host_id, broadcast_topic) bound ((queue_of host_id, key) ∷ []) a,
        rw second (Member-last (queue_of host_id, host_id) bound),
      ))
Stage-next bound host_id key keys (inr (inr (e, a, b))) = cc

Ready-bound :
    (bound : List (String × String)) (d : Declaring)
    → Stage bound d.routing_key []
    → Ready bound (d.routing_key, d.body)
Ready-bound bound d (inl e) = cc
Ready-bound bound d (inr (inl (e, a))) = cc
Ready-bound bound d (inr (inr (e, a, b))) = inr (a, b)

module _ (w : Setting) where
  Keeps : {A : Type 0} → Exec Master A → Type 0
  Keeps m = Preserves IsBound m

  Keeps-tell : (reply : ℕ → Option Error) → Keeps (tell reply)
  unfolding tell ask Keeps
  Keeps-tell reply = record {
    at = λ s p. record { declaring = p.declaring; pending = p.pending; published = p.published };
  }

  append-IsBound :
      (routing_key : String) (body : Json) (s : Master)
      → Ready s.bound (routing_key, body)
      → IsBound s
      → IsBound (append_pending_msg w routing_key body s).1
  append-IsBound routing_key body s ready p = record {
    declaring = p.declaring;
    pending =
        All-append (Ready s.bound) s.pending_msgs ((routing_key, body) ∷ []) p.pending (ready, tt);
    published = p.published;
  }

  declare_if-Keeps :
      (channel : Bool) (host_id : String) (body : Json) → Keeps (declare_if w channel host_id body)
  unfolding Keeps
  declare_if-Keeps false host_id body = Preserves-lift (err other_error)
  declare_if-Keeps true host_id body = Preserves-bind (tell w.declare) _ (Keeps-tell w.declare) λ _.
      record {
        at = λ s p. record {
          declaring = All-append (Progress s.bound) s.declaring _ p.declaring (inl refl, tt);
          pending = p.pending;
          published = p.published;
        };
      }

  send_msg-Keeps : (routing_key : String) (body : Json) → Keeps (send_msg w routing_key body)
  unfolding send_msg declare_bbslave_q Keeps
  send_msg-Keeps routing_key body = record {
    at = λ s p. elim (Bool-cases (routing_key == broadcast_topic)) [
      | inl e ↦
          rw e
            (append-IsBound routing_key body s (inl ((eq_iff routing_key broadcast_topic).0 e)) p)
      | inr e ↦ rw e ((declare_if-Keeps s.channel routing_key body).at s p)
    ];
  }

  -- The broker is asked for a binding, or the call fails.
  bind_key-IsBound :
      (channel : Bool) (d : Declaring) (key : String) (keys : List String) (s : Master)
      → Stage s.bound d.routing_key (key ∷ keys)
      → IsBound s
      → IsBound (bind_key w channel d key keys s).1
  unfolding tell ask
  bind_key-IsBound false d key keys s stage p = p
  bind_key-IsBound true d key keys s stage p = after (outcome (w.bind s.asked))
    where
      after :
          (r : Result (Unit {0}))
          → IsBound
              (continue {S = Master} r
                (λ _. modify (λ s. record s {
                  declaring =
                      s.declaring
                      ++ record d { routing_keys_to_bind = keys; binding = some key } ∷ [];
                }))
                (record s { asked = s.asked + 1 })).1
      after (err e) = record {
        declaring = p.declaring;
        pending = p.pending;
        published = p.published;
      }
      after (ok _) = record {
        declaring =
            All-append (Progress s.bound) s.declaring _ p.declaring
              (Stage-next s.bound d.routing_key key keys stage, tt);
        pending = p.pending;
        published = p.published;
      }

  next_key-IsBound :
      (keys : List String) (d : Declaring) (s : Master)
      → Stage s.bound d.routing_key keys
      → IsBound s
      → IsBound (next_key w keys d s).1
  next_key-IsBound [] d s stage p =
      append-IsBound d.routing_key d.body s (Ready-bound s.bound d stage) p
  next_key-IsBound (key ∷ keys) d s stage p = bind_key-IsBound s.channel d key keys s stage p

  callback-IsBound :
      (l : List Declaring) (s : Master)
      → All (Progress s.bound) l
      → IsBound s
      → IsBound (callback w l s).1
  callback-IsBound [] s all p = p
  callback-IsBound (d ∷ later) s (stage, rest) p =
      let bound' = s.bound ++ made d in
      next_key-IsBound d.routing_keys_to_bind d (record s { declaring = later; bound = bound' })
        stage
        (record {
          declaring =
              All-weaken (Progress s.bound) (Progress bound') later (Progress-more s.bound (made d))
                rest;
          pending =
              All-weaken (Ready s.bound) (Ready bound') s.pending_msgs
                (Ready-more s.bound bound' (Within-append s.bound (made d))) p.pending;
          published =
              All-weaken (Ready s.bound) (Ready bound') s.published
                (Ready-more s.bound bound' (Within-append s.bound (made d))) p.published;
        })

  publish_all-IsBound :
      (msgs : List (String × Json)) (s : Master)
      → All (Ready s.bound) msgs
      → IsBound s
      → IsBound (publish_all w msgs s).1
  unfolding publish_all tell ask
  publish_all-IsBound [] s all p = p
  publish_all-IsBound (msg ∷ msgs) s (ready, all) p =
      after (publish_all-IsBound msgs sent all) (outcome (w.publish s.asked))
    where
      sent : Master
      sent = record s { asked = s.asked + 1; published = s.published ++ msg ∷ [] }

      rest : Exec Master (Unit {0})
      rest = do modify (λ s. record s { published = s.published ++ msg ∷ [] }); publish_all w msgs

      after :
          (IsBound sent → IsBound (publish_all w msgs sent).1)
          → (r : Result (Unit {0}))
          → IsBound (continue {S = Master} r (λ _. rest) (record s { asked = s.asked + 1 })).1
      after later (err e) = record {
        declaring = p.declaring;
        pending = p.pending;
        published = p.published;
      }
      after later (ok _) = later (record {
        declaring = p.declaring;
        pending = p.pending;
        published = All-append (Ready s.bound) s.published (msg ∷ []) p.published (ready, tt);
      })

  send_if-Keeps : (connection channel : Bool) → Keeps (send_if w connection channel)
  unfolding Keeps
  send_if-Keeps true true = record { at = λ s p. timed s p }
    where
      timer_set : Exec Master (Unit {0})
      timer_set = modify (λ s. record s { timers = s.timers + 1 })

      after :
          (r : Result (Unit {0})) (s : Master)
          → IsBound s
          → IsBound (continue r (λ _. timer_set) s).1
      after (err e) s p = p
      after (ok _) s p = record {
        declaring = p.declaring;
        pending = p.pending;
        published = p.published;
      }

      timed : (s : Master) → IsBound s → IsBound (send_if w true true s).1
      timed s p = after _ _ (
          publish_all-IsBound s.pending_msgs (record s { pending_msgs = [] }) p.pending
            (record { declaring = p.declaring; pending = tt; published = p.published }))
  send_if-Keeps true false = Preserves-lift (ok tt)
  send_if-Keeps false channel = Preserves-lift (ok tt)

  step-Keeps : (c : Call) → Keeps (step w c)
  unfolding on_answer send_pending_msgs Keeps
  step-Keeps (send routing_key body) = send_msg-Keeps routing_key body
  step-Keeps answer = record { at = λ s q. callback-IsBound s.declaring s q.declaring q }
  step-Keeps timer = record { at = λ s q. (send_if-Keeps s.connection s.channel).at s q }

  -- A call; a new round of the thread, in which the state of the connection is lost and what is pending
  -- stays; the connection and the channel that the loop of the round puts into the state; the ping when
  -- messages are about to be consumed.
  abbrev pub event : Event → Exec Master (Unit {0})
  event (call c) = step w c
  event reconnect = new_connection w
  event (io_loop connection channel) =
      modify λ s. record s { connection = connection; channel = channel }
  event consuming = ping_slaves w

  abbrev pub run_events : List Event → Master → Master
  run_events [] s = s
  run_events (c ∷ cs) s = run_events cs (event c s).1

  event-Keeps : (c : Event) → Keeps (event c)
  unfolding Keeps new_connection ping_slaves
  event-Keeps (call c) = step-Keeps c
  event-Keeps reconnect = record {
    at = λ s p. record { declaring = tt; pending = p.pending; published = p.published };
  }
  event-Keeps (io_loop connection channel) = record {
    at = λ s p. record { declaring = p.declaring; pending = p.pending; published = p.published };
  }
  event-Keeps consuming =
      Preserves-bind (send_msg w broadcast_topic _) _ (send_msg-Keeps broadcast_topic _)
        λ _. step-Keeps timer

  run-IsBound : (cs : List Event) (s : Master) → IsBound s → IsBound (run_events cs s)
  unfolding Keeps
  run-IsBound [] s q = q
  run-IsBound (c ∷ cs) s q = run-IsBound cs (event c s).1 ((event-Keeps c).at s q)

  -- From a state without messages, whatever is sent, whatever fails, and however often the connection is
  -- made anew: a message that is pending or published is for all hosts, or it is for one host, and the
  -- broker has answered that this host's queue was bound to the key of all hosts and to the host's own.
  pub run-Ready :
      (cs : List Event) (s : Master)
      → s.declaring ≡ []
      → s.pending_msgs ≡ []
      → s.published ≡ []
      → All (Ready (run_events cs s).bound) (run_events cs s).pending_msgs
        × All (Ready (run_events cs s).bound) (run_events cs s).published
  run-Ready cs s no_declaring no_pending no_published =
      let after = run-IsBound cs s (record {
        declaring = rw no_declaring tt;
        pending = rw no_pending tt;
        published = rw no_published tt;
      }) in
      (after.pending, after.published)
