-- ===== src/Runtime/Server/Invariant.antt =====
-- What every method of psyexp_net/runtime/server.py keeps: the registry and the table of pending ACKs
-- are keyed.
pub mod Serving
use psyexp_net.Prelude.{
  String, ℕ, Bool, true, false, Option, none, some, List, [], ◌∷◌, ◌≡◌, refl, inl, inr,
  Option-cases, string_eq,
}
use psyexp_net.Errors.{Result, ok, err}
use psyexp_net.Logging.Recorder.{EventRecorder}
use psyexp_net.Exec.{Exec, ◌>>=◌, ◌>>◌, for_each, pure, lift, gets, modify}
use psyexp_net.Exec.Keeps.{Keeps, keeps_rules, Keeps-modify}
use psyexp_net.Floats.{Floats}
use psyexp_net.Protocol.Ack.Pending
use psyexp_net.Protocol.Ack
use psyexp_net.Protocol.Message.{Message}
use psyexp_net.Runtime.Registry
use psyexp_net.Runtime.Registry.{ClientInfo, ClientRegistry}
use psyexp_net.Runtime.Registry.Laws
use psyexp_net.Runtime.Server.State.{
  Server, monotonic, new_uuid, create_future, transport_send, transport_broadcast, on_registry,
  increment, observe, make_message, record_row, hand_over, keep_recorder, Outgoing, unicast,
  broadcast,
}
use psyexp_net.Value.{Fields, Value}

pub record IsConsistent {F : Type 0} (s : Server F) : Type 0 where
  pub registry : Laws.IsKeyed s.registry
  pub pending : Pending.IsKeyed s.pending_acks

module _ {F : Type 0} where
  pub Keeps-monotonic : Keeps IsConsistent (monotonic {F = F})
  unfolding monotonic
  Keeps-monotonic = record { at = λ s h. record { registry = h.registry; pending = h.pending } }

  pub Keeps-new_uuid : Keeps IsConsistent (new_uuid {F = F})
  unfolding new_uuid
  Keeps-new_uuid = record { at = λ s h. record { registry = h.registry; pending = h.pending } }

  pub Keeps-create_future : Keeps IsConsistent (create_future {F = F})
  unfolding create_future
  Keeps-create_future = record { at = λ s h. record { registry = h.registry; pending = h.pending } }

  Keeps-hand_over : (o : Outgoing F) → Keeps IsConsistent (hand_over o)
  unfolding hand_over
  Keeps-hand_over o = record {
    at = λ s h. elim (Option-cases (s.env.refuses o)) [
      | inl taken ↦ rw (taken, hand_over) (record { registry = h.registry; pending = h.pending })
      | inr (e, refused) ↦ rw (refused, hand_over) h
    ];
  }

  pub Keeps-transport_send : (p : String) (m : Message F) → Keeps IsConsistent (transport_send p m)
  unfolding transport_send
  Keeps-transport_send p m = Keeps-hand_over (unicast p m)

  pub Keeps-transport_broadcast : (m : Message F) → Keeps IsConsistent (transport_broadcast m)
  unfolding transport_broadcast
  Keeps-transport_broadcast m = Keeps-hand_over (broadcast m)

  pub Keeps-increment : (n : String) → Keeps IsConsistent (increment {F = F} n)
  unfolding increment
  Keeps-increment n = record { at = λ s h. record { registry = h.registry; pending = h.pending } }

  pub Keeps-observe : (n : String) (v : F) → Keeps IsConsistent (observe n v)
  unfolding observe
  Keeps-observe n v = record { at = λ s h. record { registry = h.registry; pending = h.pending } }

  Keeps-keep_recorder : (r : Result (EventRecorder F)) → Keeps IsConsistent (keep_recorder r)
  Keeps-keep_recorder (ok recorder) = record {
    at = λ s h. record { registry = h.registry; pending = h.pending };
  }
  Keeps-keep_recorder (err e) = record { at = λ s h. h }

  pub Keeps-record_row :
      (k p : String) (m : Option (Message F)) (e : Fields F)
      → Keeps IsConsistent (record_row k p m e)
  unfolding record_row
  Keeps-record_row k p m e = record { at = λ s h. (Keeps-keep_recorder _).at s h }

  pub Keeps-on_registry :
      (f : ClientRegistry F → ClientRegistry F)
      → ((reg : ClientRegistry F) → Laws.IsKeyed reg → Laws.IsKeyed (f reg))
      → Keeps IsConsistent (on_registry f)
  unfolding on_registry
  Keeps-on_registry f k = record {
    at = λ s h. record { registry = k s.registry h.registry; pending = h.pending };
  }

  pub update_status-IsKeyed :
      (now : F) (id status : String) (reg : ClientRegistry F)
      → Laws.IsKeyed reg
      → Laws.IsKeyed (Registry.update_status now id status reg)
  unfolding Registry.update_status
  update_status-IsKeyed now id status reg = Laws.change-IsKeyed id _ reg (λ c. refl)

  pub update_sync-IsKeyed :
      (now : F) (id : String) (offset rtt : F) (reg : ClientRegistry F)
      → Laws.IsKeyed reg
      → Laws.IsKeyed (Registry.update_sync now id offset rtt reg)
  unfolding Registry.update_sync
  update_sync-IsKeyed now id offset rtt reg = Laws.change-IsKeyed id _ reg (λ c. refl)

  pub touch-IsKeyed :
      (now : F) (id : String) (reg : ClientRegistry F)
      → Laws.IsKeyed reg
      → Laws.IsKeyed (Registry.touch now id reg)
  unfolding Registry.touch
  touch-IsKeyed now id reg = Laws.change-IsKeyed id _ reg (λ c. refl)

pub ruleset primitive_rules = (
  Keeps-monotonic, Keeps-new_uuid, Keeps-create_future, Keeps-transport_send,
  Keeps-transport_broadcast, Keeps-increment, Keeps-observe, Keeps-record_row, Keeps-on_registry,
  update_status-IsKeyed, update_sync-IsKeyed, touch-IsKeyed,
)

module _ {F : Type 0} where
  pub Keeps-make_message :
      (t : String) (p : Fields F) (a : Bool) (r i : Option String)
      → Keeps IsConsistent (make_message t p a r i)
  unfolding make_message
  Keeps-make_message t p a r i = search (keeps_rules, primitive_rules)

  -- A change of other fields.
  pub Keeps-aside :
      (f : Server F → Server F)
      → ((s : Server F) → (f s).registry ≡ s.registry)
      → ((s : Server F) → (f s).pending_acks ≡ s.pending_acks)
      → Keeps IsConsistent (modify f)
  Keeps-aside f r p =
      Keeps-modify f
        (λ s h. record { registry = rw (r s) h.registry; pending = rw (p s) h.pending })
