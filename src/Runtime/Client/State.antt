-- ===== src/Runtime/Client/State.antt =====
-- The state of psyexp_net/runtime/client.py's ExperimentClient, and what its methods read and write
-- outside it. The handlers that an application adds are known by numbers: `behaviour` says whether a
-- handler returns, and `handled` which were run. What a handler does to the client is not modelled.
-- `refuses` is what the transport raises: at a stop, at a start, or for a message, which is new in each
-- call, as its id is.
use psyexp_net.Prelude.{
  String, ℕ, ◌+◌, Bool, false, Option, none, some, List, [], ◌∷◌, ◌++◌, string_eq,
}
use psyexp_net.Prelude.Dict.{Dict}
use psyexp_net.Config.{AppConfig}
use psyexp_net.Enums.{MessageType, message_type_value, Priority, priority_value}
use psyexp_net.Errors.{Error, Result, ok, err}
use psyexp_net.Exec.{Exec, pure, modify, gets, ◌>>=◌}
use psyexp_net.Protocol.Ack.{MessageDeduplicator}
use psyexp_net.Protocol.Message.{Message, create, make_ack}
use psyexp_net.Runtime.Session.{SessionManager}
use psyexp_net.Security.{ClientIdentity}
use psyexp_net.Value.{Value, Fields, obj}

-- What the client does to its transport.
pub data Action (F : Type 0) : Type 0 where
  started stopped : Action F
  sent : Message F → Action F

-- A future of `_responses`.
pub data Reply (F : Type 0) : Type 0 where
  awaited : Reply F
  arrived : Message F → Reply F
  dropped : Reply F

pub record Env (F : Type 0) : Type 0 where
  pub clock : ℕ → F
  pub ticks : ℕ
  pub uuids : ℕ → String
  pub issued : ℕ
  pub futures : ℕ → Reply F
  pub next_future : ℕ
  pub actions : List (Action F)
  pub slept : List F
  pub behaviour : ℕ → Message F → Result (Unit {0})
  pub handled : List (ℕ × Message F)
  -- str(v) of a value that is no text
  pub show : Value F → String
  -- what the transport raises for what the client does to it
  pub refuses : Action F → Option Error

pub record Client (F : Type 0) : Type 0 where
  pub config : AppConfig F
  pub role : String
  pub client_id : String
  pub identity : ClientIdentity
  pub status : String
  pub offset_ms : F
  pub rtt_ms : F
  pub session : SessionManager
  pub registry_snapshot : List (Value F)
  pub negotiated_protocol_version : String
  pub negotiated_capabilities : List String
  pub handlers : Dict String (List ℕ)
  pub dedupe : MessageDeduplicator
  pub responses : Dict String ℕ
  pub running : Bool
  pub closing : Bool
  pub reconnect_locked : Bool
  pub env : Env F

module _ {F : Type 0} where
  -- time.monotonic()
  unfoldable pub monotonic : Exec (Client F) F
  monotonic c =
      (ok (c.env.clock c.env.ticks), record c { env = record c.env { ticks = c.env.ticks + 1 } })

  -- uuid.uuid4().hex
  unfoldable pub new_uuid : Exec (Client F) String
  new_uuid c =
      (ok (c.env.uuids c.env.issued), record c { env = record c.env { issued = c.env.issued + 1 } })

  unfoldable pub create_future : Exec (Client F) ℕ
  create_future c = (
    ok c.env.next_future,
    record c { env = record c.env { next_future = c.env.next_future + 1 } },
  )

  -- The transport does what it is asked to, or raises.
  unfoldable pub act : Action F → Exec (Client F) Unit
  act a c = elim (c.env.refuses a) [
    | none ↦ (ok tt, record c { env = record c.env { actions = c.env.actions ++ a ∷ [] } })
    | some e ↦ (err e, c)
  ]

  -- await asyncio.sleep(delay)
  unfoldable pub sleep : F → Exec (Client F) Unit
  sleep delay = modify (λ c. record c { env = record c.env { slept = c.env.slept ++ delay ∷ [] } })

  unfoldable pub set_status : String → Exec (Client F) Unit
  set_status status = modify (λ c. record c { status = status })

  -- `_message`
  unfoldable pub make_message : MessageType → Fields F → Exec (Client F) (Message F)
  unfolding monotonic new_uuid
  make_message msg_type payload = do
    now ← monotonic
    msg_id ← new_uuid
    client_id ← gets (λ c. c.client_id)
    role ← gets (λ c. c.role)
    client_ts ← monotonic
    pure (record {
      header =
          record (create now msg_id (message_type_value msg_type) client_id role none none false
            none (priority_value Priority.normal) none) { client_ts = some client_ts };
      payload = obj payload;
      attachments = [];
    })

  -- `_send`
  unfoldable pub send : MessageType → Fields F → Exec (Client F) Unit
  unfolding make_message act
  send msg_type payload = do message ← make_message msg_type payload; act (sent message)

  -- make_ack(original=message, receiver_id=self.client_id, apply_ts=...), sent to the server
  unfoldable pub send_ack : Message F → Option F → Exec (Client F) Unit
  unfolding monotonic new_uuid act
  send_ack message apply_ts = do
    now ← monotonic
    msg_id ← new_uuid
    receive_ts ← monotonic
    client_id ← gets (λ c. c.client_id)
    act (sent (make_ack now receive_ts msg_id message client_id apply_ts))
