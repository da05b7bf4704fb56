-- ===== src/Runtime/Server/Invariant/Serving.antt =====
-- The invariant of psyexp_net/runtime/server.py's loop, handler by handler.
use psyexp_net.Prelude.{String, Option, none, some, List, [], ◌∷◌, refl, inl, inr, string_eq}
use psyexp_net.Errors.{Result-cases}
use psyexp_net.Enums.{ClientStatus, MessageType}
use psyexp_net.Exec.Keeps.{Keeps, keeps_rules, Keeps-modify, Keeps-seq, Keeps-bind, Keeps-lift}
use psyexp_net.Floats.{Floats}
use psyexp_net.Protocol.Ack.{PendingAck}
use psyexp_net.Protocol.Ack.Pending
use psyexp_net.Protocol.Message.{Message}
use psyexp_net.Protocol.Versioning.{IntText}
use psyexp_net.Runtime.Registry
use psyexp_net.Runtime.Registry.{ClientInfo}
use psyexp_net.Runtime.Registry.Laws
use psyexp_net.Runtime.Server.Acks.{
  observe_delay, store_group, forget_tracking, drop_expired, observe_skew, note_apply, note_command,
  observe_tracked, observe_ack_timing, resolve_pending, observe_resolved, handle_ack,
  report_timeout, expire_acks,
}
use psyexp_net.Runtime.Server.Handlers.{
  handle_ping, note_sync, queue_result, handle_status, handle_result, handle_heartbeat, dispatch,
  handle_message, serve_one, serve_loop, Yield,
}
use psyexp_net.Runtime.Server.Health.{set_health, refresh_client, refresh_client_health}
use psyexp_net.Runtime.Server.Invariant.{
  IsConsistent, primitive_rules, Keeps-make_message, Keeps-aside,
}
use psyexp_net.Runtime.Server.Register.{enter, try_register, respond, handle_register}
use psyexp_net.Runtime.Server.State.{Server, Tracking, CommandGroup}
use psyexp_net.Transport.{ReceivedMessage}
use psyexp_net.Value.{Fields, Value}

module _ {F : Type 0} ⦃fl : Floats F⦄ where
  Keeps-observe_delay :
      (n : String) (o : F) (t x : Option F) → Keeps IsConsistent (observe_delay n o t x)
  unfolding observe_delay
  Keeps-observe_delay n o (some t) (some x) = search (keeps_rules, primitive_rules)
  Keeps-observe_delay n o _ _ = search keeps_rules

  Keeps-observe_skew : (xs : List F) → Keeps IsConsistent (observe_skew xs)
  unfolding observe_skew
  Keeps-observe_skew (a ∷ b ∷ xs) = search (keeps_rules, primitive_rules)
  Keeps-observe_skew _ = search keeps_rules

  Keeps-store_group : (c : String) (g : CommandGroup F) → Keeps IsConsistent (store_group c g)
  unfolding store_group
  Keeps-store_group c g = Keeps-aside _ (λ s. refl) (λ s. refl)

  Keeps-forget_tracking : (m : String) → Keeps IsConsistent (forget_tracking {F = F} m)
  unfolding forget_tracking
  Keeps-forget_tracking m = Keeps-aside _ (λ s. refl) (λ s. refl)

  Keeps-note_apply :
      (c r : String) (x : F) (g : Option (CommandGroup F)) → Keeps IsConsistent (note_apply c r x g)
  unfolding note_apply
  Keeps-note_apply c r x none = search keeps_rules
  Keeps-note_apply c r x (some g) = search (keeps_rules, Keeps-observe_skew, Keeps-store_group)

  Keeps-note_command :
      (r : String) (t : Tracking F) (o : F) (a b : Option F)
      → Keeps IsConsistent (note_command r t o a b)
  unfolding note_command
  Keeps-note_command r t o (some a) (some b) = search (keeps_rules, Keeps-note_apply)
  Keeps-note_command r t o _ _ = search keeps_rules

  Keeps-observe_tracked :
      (r : String) (p : Fields F) (t : Option (Tracking F))
      → Keeps IsConsistent (observe_tracked r p t)
  unfolding observe_tracked
  Keeps-observe_tracked r p none = search keeps_rules
  Keeps-observe_tracked r p (some t) = search (keeps_rules, Keeps-observe_delay, Keeps-note_command)

  Keeps-observe_ack_timing :
      (m r : String) (p : Fields F) → Keeps IsConsistent (observe_ack_timing m r p)
  unfolding observe_ack_timing
  Keeps-observe_ack_timing m r p =
      search (keeps_rules, Keeps-forget_tracking, Keeps-observe_tracked)

  Keeps-resolve_pending : (m r : String) (v : Value F) → Keeps IsConsistent (resolve_pending m r v)
  unfolding resolve_pending
  Keeps-resolve_pending m r v = record {
    at = λ s h. record {
      registry = h.registry;
      pending = Pending.resolve_entry-IsKeyed m r v s.pending_acks s.env.futures h.pending;
    };
  }

  Keeps-observe_resolved :
      (r : String) (p : Fields F) (e : Option (PendingAck F))
      → Keeps IsConsistent (observe_resolved r p e)
  unfolding observe_resolved
  Keeps-observe_resolved r p none = search keeps_rules
  Keeps-observe_resolved r p (some e) =
      search (keeps_rules, primitive_rules, Keeps-observe_ack_timing)

  Keeps-handle_ack : (peer : String) (m : Message F) → Keeps IsConsistent (handle_ack peer m)
  unfolding handle_ack
  Keeps-handle_ack peer m =
      search (keeps_rules, Keeps-resolve_pending, Keeps-observe_resolved) depth 12

  Keeps-report_timeout : (e : PendingAck F) → Keeps IsConsistent (report_timeout e)
  unfolding report_timeout
  Keeps-report_timeout e = search (keeps_rules, primitive_rules)

  Keeps-drop_expired : (now : F) → Keeps IsConsistent (drop_expired now)
  unfolding drop_expired
  Keeps-drop_expired now = Keeps-modify _ λ s h. record {
    registry = h.registry;
    pending = Pending.expire-IsKeyed now s.pending_acks h.pending;
  }

  Keeps-expire_acks : Keeps IsConsistent (expire_acks {F = F})
  unfolding expire_acks
  Keeps-expire_acks =
      search (keeps_rules, primitive_rules, Keeps-drop_expired, Keeps-report_timeout) depth 12

  Keeps-set_health :
      (k : String) (t : ClientStatus) (a : F) (c : ClientInfo F)
      → Keeps IsConsistent (set_health k t a c)
  unfolding set_health
  Keeps-set_health k t a c = search (keeps_rules, primitive_rules)

  Keeps-refresh_client :
      (t d n : F) (c : ClientInfo F) → Keeps IsConsistent (refresh_client t d n c)
  unfolding refresh_client
  Keeps-refresh_client t d n c = search (keeps_rules, Keeps-set_health)

  Keeps-refresh_client_health : Keeps IsConsistent (refresh_client_health {F = F})
  unfolding refresh_client_health
  Keeps-refresh_client_health = search (keeps_rules, primitive_rules, Keeps-refresh_client) depth 8

module _ {F : Type 0} ⦃fl : Floats F⦄ (text : IntText) where
  Keeps-enter : (now : F) (info : ClientInfo F) → Keeps IsConsistent (enter text now info)
  unfolding enter
  Keeps-enter now info = record {
    at = λ s h. elim (Result-cases (Registry.register_or_refresh now info s.registry)) [
      | inl ((c, flag, reg), e) ↦
          rw (e, enter)
            (record {
              registry =
                  ((Laws.register_or_refresh_lem now info s.registry h.registry).3 c flag reg e).0;
              pending = h.pending;
            })
      | inr (x, e) ↦ rw (e, enter) h
    ];
  }

  Keeps-try_register :
      (peer : String) (p : Fields F) → Keeps IsConsistent (try_register text peer p)
  unfolding try_register
  Keeps-try_register peer p = search (keeps_rules, primitive_rules, Keeps-enter) depth 20

  Keeps-respond :
      (t : MessageType) (p : Fields F) (peer id : String)
      → Keeps IsConsistent (respond text t p peer id)
  unfolding respond
  Keeps-respond t p peer id = search (keeps_rules, primitive_rules, Keeps-make_message) depth 20

  Keeps-handle_register :
      (peer : String) (m : Message F) → Keeps IsConsistent (handle_register text peer m)
  unfolding handle_register
  Keeps-handle_register peer m = search (keeps_rules, Keeps-respond, Keeps-try_register) depth 20

  Keeps-handle_ping : (peer : String) (m : Message F) → Keeps IsConsistent (handle_ping text peer m)
  unfolding handle_ping
  Keeps-handle_ping peer m = search (keeps_rules, primitive_rules, Keeps-make_message) depth 20

  Keeps-note_sync :
      (peer : String) (o r : Option (Value F)) → Keeps IsConsistent (note_sync text peer o r)
  unfolding note_sync
  Keeps-note_sync peer none none = search keeps_rules
  Keeps-note_sync peer _ _ = search (keeps_rules, primitive_rules) depth 20

  Keeps-handle_status :
      (peer : String) (m : Message F) → Keeps IsConsistent (handle_status text peer m)
  unfolding handle_status
  Keeps-handle_status peer m = search (keeps_rules, primitive_rules, Keeps-note_sync) depth 20

  Keeps-queue_result : (r : String) (v : Value F) → Keeps IsConsistent (queue_result text r v)
  unfolding queue_result
  Keeps-queue_result r v = Keeps-aside _ (λ s. refl) (λ s. refl)

  Keeps-handle_result : (m : Message F) → Keeps IsConsistent (handle_result text m)
  unfolding handle_result
  Keeps-handle_result m = search (keeps_rules, primitive_rules, Keeps-queue_result)

  Keeps-handle_heartbeat :
      (peer : String) → Keeps (IsConsistent {F = F}) (handle_heartbeat text peer)
  unfolding handle_heartbeat
  Keeps-handle_heartbeat peer = search (keeps_rules, primitive_rules) depth 20

  Keeps-dispatch : (t peer : String) (m : Message F) → Keeps IsConsistent (dispatch text t peer m)
  unfolding dispatch
  Keeps-dispatch t peer m =
      search
        (
          keeps_rules, primitive_rules, Keeps-handle_register, Keeps-handle_ping,
          Keeps-handle_status, Keeps-handle_result, Keeps-handle_ack, Keeps-handle_heartbeat,
        )
        depth 20

  Keeps-handle_message :
      (peer : String) (m : Message F) → Keeps IsConsistent (handle_message text peer m)
  unfolding handle_message
  Keeps-handle_message peer m = search (keeps_rules, primitive_rules, Keeps-dispatch) depth 20

  Keeps-serve_one : (e : Option (ReceivedMessage F)) → Keeps IsConsistent (serve_one text e)
  unfolding serve_one
  Keeps-serve_one none = search (keeps_rules, Keeps-expire_acks, Keeps-refresh_client_health)
  Keeps-serve_one (some e) =
      search
        (
          keeps_rules, primitive_rules, Keeps-handle_message, Keeps-expire_acks,
          Keeps-refresh_client_health,
        )
        depth 20

  -- Whatever the transport yields, and also where an exception, its own too, ends the loop: if the registry holds
  -- each client once and under its id, and the pending table each entry once and under its message
  -- and peer, they still do after the loop.
  pub serve_loop-IsConsistent :
      (events : List (Yield F)) (s : Server F)
      → IsConsistent s
      → IsConsistent (serve_loop text events s).1
  unfolding serve_loop
  serve_loop-IsConsistent events = (loop events).at
    where
      loop : (es : List (Yield F)) → Keeps IsConsistent (serve_loop text es)
      loop [] = search keeps_rules
      loop (y ∷ es) =
          Keeps-bind _ _ (Keeps-lift y) (λ e. Keeps-seq _ _ (Keeps-serve_one e) (loop es))
