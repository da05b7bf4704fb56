-- ===== src/Runtime/Client/Receive/Reconnect.antt =====
-- What a failed `recv` leads to in psyexp_net/runtime/client.py: `reconnect`, awaited by the receive loop
-- itself.
use psyexp_net.Prelude.{
  ◌+◌, true, false, Option, none, some, List, [], ◌∷◌, ◌++◌, ◌≡◌, refl, inl, inr, Option-cases,
  subst, sym, string_eq,
}
use psyexp_net.Prelude.Dict
use psyexp_net.Enums.{Priority, priority_value}
use psyexp_net.Errors.{Error, Result, ok, err}
use psyexp_net.Floats.{Floats}
use psyexp_net.Protocol.Message.{Message, create}
use psyexp_net.Runtime.Client.Receive.{
  Event, failed, Wait, response, stop_quietly, restart, begin_reconnect, round, recv_loop,
}
use psyexp_net.Runtime.Client.Requests.{registration, begin_register, begin_exchange}
use psyexp_net.Runtime.Client.State.{
  Client, Action, started, stopped, sent, awaited, monotonic, new_uuid, create_future, act,
  set_status, make_message,
}
use psyexp_net.Value.{obj}

module _ {F : Type 0} ⦃fl : Floats F⦄ where
  -- What `reconnect` comes to, by what the transport does.
  abbrev pub Reconnects : Client F → Result (Option Wait) × Client F → Type 0
  Reconnects c o =
      (m : Message F) × (m.msg_type ≡ "REGISTER")
      × (m.payload ≡ obj (registration c))
      × elim (c.env.refuses started) [
        | some e ↦ (o.0 ≡ err e) × (o.1.status ≡ "RECONNECTING")
        | none ↦ elim (c.env.refuses (sent m)) [
          | some e ↦ (o.0 ≡ err e) × (o.1.status ≡ "CONNECTED")
          | none ↦
              (o.0 ≡ ok (some (response c.env.next_future)))
              × (o.1.env.futures c.env.next_future ≡ awaited)
              × (Dict.get m.msg_id o.1.responses ≡ some c.env.next_future)
              × (o.1.reconnect_locked ≡ true)
        ]
      ]

  -- the REGISTER that `reconnect` makes
  abbrev asking : Client F → Message F
  asking c = record {
    header =
        record (create (c.env.clock c.env.ticks) (c.env.uuids c.env.issued) "REGISTER" c.client_id
          c.role none none false none (priority_value Priority.normal) none) {
            client_ts = some (c.env.clock (c.env.ticks + 1));
          };
    payload = obj (registration c);
    attachments = [];
  }

  abbrev acted : Action F → Client F → Client F
  acted a c = record c { env = record c.env { actions = c.env.actions ++ a ∷ [] } }

  act-ok : (a : Action F) (c : Client F) → c.env.refuses a ≡ none → act a c ≡ (ok tt, acted a c)
  unfolding act
  act-ok a c h = rw (h, act)

  act-err :
      (a : Action F) (c : Client F) {e : Error} → c.env.refuses a ≡ some e → act a c ≡ (err e, c)
  unfolding act
  act-err a c h = rw (h, act)

  -- Whatever the quiet stop comes to, the client goes on.
  stop_quietly-eq :
      (c : Client F)
      → (acts : List (Action F)) × (stop_quietly c
          ≡ (ok tt, record c { env = record c.env { actions = acts } }))
  unfolding stop_quietly
  stop_quietly-eq c = elim (Option-cases (c.env.refuses stopped)) [
    | inl h ↦ (c.env.actions ++ stopped ∷ [], rw (act-ok stopped c h) refl)
    | inr (e, h) ↦ (c.env.actions, rw (act-err stopped c h) refl)
  ]

  -- The client whose transport has been started again, and the one that has filed its REGISTER.
  abbrev restarted : List (Action F) → Client F → Client F
  restarted acts c = record (acted started (record c { env = record c.env { actions = acts } })) {
    status = "CONNECTED";
  }

  abbrev filed : List (Action F) → Client F → Client F
  filed acts c =
      let r = restarted acts c in
      record r {
        responses = Dict.put (asking c).msg_id c.env.next_future c.responses;
        env = record r.env {
          ticks = c.env.ticks + 1 + 1;
          issued = c.env.issued + 1;
          next_future = c.env.next_future + 1;
        };
      }

  -- and the one that waits for its answer, or failed to send it or to start
  abbrev waiting : List (Action F) → Client F → Client F
  waiting acts c = record (acted (sent (asking c)) (filed acts c)) { reconnect_locked = true }

  abbrev halted : List (Action F) → Client F → Client F
  halted acts c = record c { status = "RECONNECTING"; env = record c.env { actions = acts } }

  module _ (c : Client F) where
    abbrev acts_of : List (Action F)
    acts_of = (stop_quietly-eq (record c { status = "RECONNECTING" })).0

    restart-unstarted :
        {e : Error} → c.env.refuses started ≡ some e → restart c ≡ (err e, halted acts_of c)
    unfolding restart set_status
    restart-unstarted r =
        rw
          (
            (stop_quietly-eq (record c { status = "RECONNECTING" })).1,
            act-err started (halted acts_of c) r,
          )
          refl

    restart-unsent :
        {e : Error}
        → c.env.refuses started ≡ none
        → c.env.refuses (sent (asking c)) ≡ some e
        → restart c ≡ (err e, filed acts_of c)
    unfolding restart begin_register begin_exchange make_message monotonic new_uuid create_future
        set_status create
    restart-unsent r q =
        rw
          (
            (stop_quietly-eq (record c { status = "RECONNECTING" })).1,
            act-ok started (halted acts_of c) r,
            act-err (sent (asking c)) (filed acts_of c) q,
          )
          refl

    restart-waiting :
        c.env.refuses started ≡ none
        → c.env.refuses (sent (asking c)) ≡ none
        → restart c ≡ (ok (some (response c.env.next_future)), waiting acts_of c)
    unfolding restart begin_register begin_exchange make_message monotonic new_uuid create_future
        set_status create
    restart-waiting r q =
        rw
          (
            (stop_quietly-eq (record c { status = "RECONNECTING" })).1,
            act-ok started (halted acts_of c) r,
            act-ok (sent (asking c)) (filed acts_of c) q,
          )
          refl

  -- The loop of such a client stops where `reconnect` does.
  loop-err :
      (es : List (Event F)) (c c' : Client F) {e : Error}
      → c.running ≡ true
      → c.closing ≡ false
      → c.reconnect_locked ≡ false
      → restart c ≡ (err e, c')
      → recv_loop (failed ∷ es) c ≡ (err e, c')
  unfolding recv_loop round begin_reconnect stop_quietly
  loop-err es c c' runs still free h = simp (runs, still, free, h)

  loop-wait :
      (es : List (Event F)) (c c' : Client F) (w : Wait)
      → c.running ≡ true
      → c.closing ≡ false
      → c.reconnect_locked ≡ false
      → restart c ≡ (ok (some w), c')
      → recv_loop (failed ∷ es) c ≡ (ok (some w), c')
  unfolding recv_loop round begin_reconnect stop_quietly
  loop-wait es c c' w runs still free h = simp (runs, still, free, h)

  -- A client that runs, is not closing and does not reconnect yet, and whose next future is new,
  -- after a failed `recv`, whatever would arrive then. If the transport cannot be started again,
  -- the receive loop ends with the transport's exception, and the client stays RECONNECTING. If it
  -- does not take the new REGISTER, the loop ends with that exception, and the client stays
  -- CONNECTED. Else the loop waits, holding the lock of `reconnect`, for the response to that
  -- REGISTER, which is filed and has not come.
  pub recv_loop-failed :
      (es : List (Event F)) (c : Client F)
      → c.running ≡ true
      → c.closing ≡ false
      → c.reconnect_locked ≡ false
      → c.env.futures c.env.next_future ≡ awaited
      → Reconnects c (recv_loop (failed ∷ es) c)
  unfolding create
  recv_loop-failed es c runs still free h =
      let acts = acts_of c in
      elim (Option-cases (c.env.refuses started)) [
        | inr (e, r) ↦
            subst (λ o. Reconnects c o)
              (sym (loop-err es c (halted acts c) runs still free (restart-unstarted c r)))
              (asking c, refl, refl, rw r (refl, refl))
        | inl r ↦ elim (Option-cases (c.env.refuses (sent (asking c)))) [
          | inr (e, q) ↦
              subst (λ o. Reconnects c o)
                (sym (loop-err es c (filed acts c) runs still free (restart-unsent c r q)))
                (asking c, refl, refl, rw (r, q) (refl, refl))
          | inl q ↦
              subst (λ o. Reconnects c o)
                (sym (
                  loop-wait es c (waiting acts c) (response c.env.next_future) runs still free
                    (restart-waiting c r q)))
                (asking c, refl, refl, rw (r, q) (refl, h, Dict.get-put_self _ _ _, refl))
        ]
      ]
