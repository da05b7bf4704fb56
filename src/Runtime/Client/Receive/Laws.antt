-- ===== src/Runtime/Client/Receive/Laws.antt =====
-- What the receive loop of psyexp_net/runtime/client.py does with duplicates.
use psyexp_net.Prelude.{
  String, ℕ, ◌+◌, ◌<◌, true, ◌&&◌, Option, none, some, List, [], ◌∷◌, ◌++◌, contains, length, ltb,
  ◌≡◌, refl, arith, inl, inr, Bool-cases, Option-cases, beq_self, string_eq, if◌then◌else◌,
}
use psyexp_net.Errors.{ok, err}
use psyexp_net.Exec.Keeps.{Keeps, keeps_rules}
use psyexp_net.Floats.{Floats}
use psyexp_net.Protocol.Ack.{MessageDeduplicator, seen, without, drop_first}
use psyexp_net.Protocol.Ack.Window.{contains-append}
use psyexp_net.Protocol.Message.{Message, make_ack, create}
use psyexp_net.Runtime.Client.Receive.{
  run_handler, run_handlers, apply, is_duplicate, take_response, sleep_until, start_trial_at,
  start_session, dispatch, answer_or_dispatch, receive,
}
use psyexp_net.Value.{str, null, item}
use psyexp_net.Runtime.Client.State.{
  Client, Action, sent, monotonic, new_uuid, act, sleep, set_status, send_ack,
}

contains-last : (x : String) (xs : List String) → contains x (xs ++ x ∷ []) ≡ true
contains-last x xs = ground (arith, contains-append x xs (x ∷ []), beq_self x)

contains-bounded :
    (x : String) (n : ℕ) (xs : List String)
    → 0 < n
    → contains x (if ltb n (length (xs ++ x ∷ [])) then drop_first (xs ++ x ∷ []) else xs ++ x ∷ [])
      ≡ true
contains-bounded x n [] h = ground (arith, beq_self x)
contains-bounded x n (y ∷ ys) h = ground (arith, contains-last x ys, contains-last x (y ∷ ys))

-- A window of at least one id holds the id that was seen last.
contains-seen :
    (x : String) (d : MessageDeduplicator) → 0 < d.max_size → contains x (seen x d).1.items ≡ true
unfolding seen
contains-seen x d h = elim (Bool-cases (contains x d.items)) [
  | inl hit ↦ rw hit (contains-last x (without x d.items))
  | inr miss ↦ rw miss (contains-bounded x d.max_size d.items h)
]

-- The window of the client is this one.
abbrev Window : {F : Type 0} → MessageDeduplicator → Client F → Type 0
Window d c = c.dedupe ≡ d

module _ {F : Type 0} {d : MessageDeduplicator} where
  Keeps-monotonic : Keeps (Window d) (monotonic {F = F})
  unfolding monotonic
  Keeps-monotonic = record { at = λ c h. h }

  Keeps-new_uuid : Keeps (Window d) (new_uuid {F = F})
  unfolding new_uuid
  Keeps-new_uuid = record { at = λ c h. h }

  Keeps-act : (a : Action F) → Keeps (Window d) (act a)
  unfolding act
  Keeps-act a = record {
    at = λ c h. elim (Option-cases (c.env.refuses a)) [
      | inl taken ↦ rw (taken, act) h
      | inr (e, refused) ↦ rw (refused, act) h
    ];
  }

  Keeps-sleep : (x : F) → Keeps (Window d) (sleep x)
  unfolding sleep
  Keeps-sleep x = record { at = λ c h. h }

  Keeps-set_status : (t : String) → Keeps (Window {F = F} d) (set_status t)
  unfolding set_status
  Keeps-set_status t = record { at = λ c h. h }

  Keeps-run_handler : (m : Message F) (n : ℕ) → Keeps (Window d) (run_handler m n)
  unfolding run_handler
  Keeps-run_handler m n = record { at = λ c h. h }

  Keeps-take_response : (m : Message F) → Keeps (Window d) (take_response m)
  unfolding take_response
  Keeps-take_response m = record { at = λ c h. ground arith }

  Keeps-send_ack : (m : Message F) (t : Option F) → Keeps (Window d) (send_ack m t)
  unfolding send_ack
  Keeps-send_ack m t = search (keeps_rules, Keeps-monotonic, Keeps-new_uuid, Keeps-act) depth 20

  Keeps-run_handlers : (m : Message F) → Keeps (Window d) (run_handlers m)
  unfolding run_handlers
  Keeps-run_handlers m = search (keeps_rules, Keeps-run_handler) depth 20

  Keeps-apply : (m : Message F) → Keeps (Window d) (apply m)
  unfolding apply
  Keeps-apply m = search (keeps_rules, Keeps-run_handlers, Keeps-monotonic, Keeps-send_ack) depth 20

module _ {F : Type 0} ⦃fl : Floats F⦄ {d : MessageDeduplicator} where
  Keeps-sleep_until : (t : F) → Keeps (Window d) (sleep_until t)
  unfolding sleep_until
  Keeps-sleep_until t = search (keeps_rules, Keeps-monotonic, Keeps-sleep) depth 20

  Keeps-start_trial_at : (m : Message F) → Keeps (Window d) (start_trial_at m)
  unfolding start_trial_at
  Keeps-start_trial_at m = search (keeps_rules, Keeps-sleep_until, Keeps-apply) depth 20

  Keeps-start_session : (m : Message F) → Keeps (Window d) (start_session m)
  unfolding start_session
  Keeps-start_session m = search (keeps_rules, Keeps-set_status, Keeps-apply) depth 20

  Keeps-dispatch : (t : String) (m : Message F) → Keeps (Window d) (dispatch t m)
  unfolding dispatch
  Keeps-dispatch t m =
      search
        (keeps_rules, Keeps-start_session, Keeps-apply, Keeps-start_trial_at, Keeps-run_handlers)
        depth 20

  Keeps-answer_or_dispatch : (m : Message F) → Keeps (Window d) (answer_or_dispatch m)
  unfolding answer_or_dispatch
  Keeps-answer_or_dispatch m = search (keeps_rules, Keeps-take_response, Keeps-dispatch) depth 20

module _ {F : Type 0} ⦃fl : Floats F⦄ where
  dedupe-receive :
      (m : Message F) (c : Client F) → (receive m c).1.dedupe ≡ (seen m.msg_id c.dedupe).1
  unfolding receive is_duplicate
  dedupe-receive m c = elim (Bool-cases ((seen m.msg_id c.dedupe).0 && m.requires_ack)) [
    | inl t ↦
        rw t ((Keeps-send_ack m none).at (record c { dedupe = (seen m.msg_id c.dedupe).1 }) refl)
    | inr f ↦
        rw f
          ((Keeps-answer_or_dispatch m).at (record c { dedupe = (seen m.msg_id c.dedupe).1 }) refl)
  ]

  known :
      (m : Message F) (c : Client F)
      → contains m.msg_id c.dedupe.items ≡ true
      → (seen m.msg_id c.dedupe).0 ≡ true
  unfolding seen
  known m c h = rw h

  -- What a duplicate of a message that requires an ACK comes to: the ACK alone.
  receive-duplicate :
      (m : Message F) (c : Client F)
      → m.requires_ack ≡ true
      → contains m.msg_id c.dedupe.items ≡ true
      → receive m c ≡ send_ack m none (record c { dedupe = (seen m.msg_id c.dedupe).1 })
  unfolding receive is_duplicate make_ack
  receive-duplicate m c a h = rw (known m c h, a)

  -- A message that needs an ACK is not handled again when it arrives again right after it has been
  -- received, if the window holds at least one id: no handler runs, and the session, the status and
  -- the requests that wait stay as they are. One message is made for the transport: an ACK to the
  -- server, from the client, that names the message as what it replies to, in its header and in its
  -- payload, and gives no time of execution. If the transport takes it, it is what is sent; if not,
  -- nothing is sent, and the transport's exception is raised.
  pub receive-receive :
      (m : Message F) (c : Client F)
      → m.requires_ack ≡ true
      → 0 < c.dedupe.max_size
      → let c1 = (receive m c).1 in
        let again = receive m c1 in
        (again.1.env.handled ≡ c1.env.handled)
        × (again.1.session ≡ c1.session)
        × (again.1.status ≡ c1.status)
        × (again.1.responses ≡ c1.responses)
        × ((ack : Message F) × (ack.msg_type ≡ "ACK")
            × (ack.sender_id ≡ c1.client_id)
            × (ack.reply_to ≡ some m.msg_id)
            × (item "reply_to" ack.payload ≡ some (str m.msg_id))
            × (item "receiver_id" ack.payload ≡ some (str c1.client_id))
            × (item "apply_ts" ack.payload ≡ some null)
            × (again.0 ≡ elim (c1.env.refuses (sent ack)) [ none ↦ ok tt | some e ↦ err e ])
            × (again.1.env.actions ≡ elim (c1.env.refuses (sent ack)) [
              | none ↦ c1.env.actions ++ sent ack ∷ []
              | some e ↦ c1.env.actions
            ]))
  unfolding send_ack monotonic new_uuid make_ack create
  receive-receive m c a h =
      let c1 = (receive m c).1 in
      let again =
        receive-duplicate m c1 a (rw (dedupe-receive m c) (contains-seen m.msg_id c.dedupe h)) in
      let ack =
        make_ack (c1.env.clock c1.env.ticks) (c1.env.clock (c1.env.ticks + 1))
          (c1.env.uuids c1.env.issued) m c1.client_id none in
      elim (Option-cases (c1.env.refuses (sent ack))) [
        | inl taken ↦
            rw (again, taken, act)
              (
                refl,
                refl,
                refl,
                refl,
                (ack, refl, refl, refl, refl, refl, refl, rw taken refl, rw taken refl),
              )
        | inr (e, refused) ↦
            rw (again, refused, act)
              (
                refl,
                refl,
                refl,
                refl,
                (ack, refl, refl, refl, refl, refl, refl, rw refused refl, rw refused refl),
              )
      ]
