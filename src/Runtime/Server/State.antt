-- ===== src/Runtime/Server/State.antt =====
-- The state of psyexp_net/runtime/server.py's ExperimentServer, and what its methods read and write
-- outside it. `refuses` is what the transport raises for a message, as pyzmq does for a peer that is not
-- there; ids of messages are new, so that it may differ from call to call. `clock` gives the readings of time.monotonic() and `uuids` those of uuid4().hex, in
-- order; `outbox` is what was handed to the transport; `futures` are those of the event loop.
pub mod Recording
use psyexp_net.Prelude.{String, ℕ, ◌+◌, Bool, Option, none, some, List, [], ◌∷◌, ◌++◌, string_eq}
use psyexp_net.Prelude.Dict.{Dict}
use psyexp_net.Config.{AppConfig}
use psyexp_net.Enums.{Priority, priority_value}
use psyexp_net.Errors.{Error, Result, ok, err, attribute_error}
use psyexp_net.Exec.{Exec, pure, modify, gets, ◌>>=◌}
use psyexp_net.Logging.Metrics
use psyexp_net.Logging.Metrics.{MetricsCollector}
use psyexp_net.Logging.Recorder.{EventRecorder, record_event}
use psyexp_net.Protocol.Ack.{Futures, PendingAckManager}
use psyexp_net.Protocol.Message.{Message, create, to_dict}
use psyexp_net.Runtime.Registry.{ClientRegistry}
use psyexp_net.Runtime.Session
use psyexp_net.Runtime.Session.{SessionManager}
use psyexp_net.Value.{Value, null, str, obj, Fields, field}

-- A row of `_message_tracking`.
pub record Tracking (F : Type 0) : Type 0 where
  pub command_id : String
  pub server_ts : Option F
  pub peer_id : String
  pub trial_id : Option String
  pub msg_type : String

-- A row of `_command_groups`.
pub record CommandGroup (F : Type 0) : Type 0 where
  pub msg_type : String
  pub trial_id : Option String
  pub expected_peers : List String
  pub apply_times : Dict String F

pub data Outgoing (F : Type 0) : Type 0 where
  unicast : String → Message F → Outgoing F
  broadcast : Message F → Outgoing F

pub record Env (F : Type 0) : Type 0 where
  pub clock : ℕ → F
  pub ticks : ℕ
  pub uuids : ℕ → String
  pub issued : ℕ
  pub futures : Futures F
  pub next_future : ℕ
  pub outbox : List (Outgoing F)
  -- what the transport raises for a message that it does not take
  pub refuses : Outgoing F → Option Error

pub record Server (F : Type 0) : Type 0 where
  pub config : AppConfig F
  pub registry : ClientRegistry F
  pub session : SessionManager
  pub metrics : MetricsCollector F
  pub recorder : EventRecorder F
  pub pending_acks : PendingAckManager F
  pub results : Dict String (List (Value F))
  pub message_tracking : Dict String (Tracking F)
  pub command_groups : Dict String (CommandGroup F)
  pub env : Env F

module _ {F : Type 0} where
  -- time.monotonic()
  unfoldable pub monotonic : Exec (Server F) F
  monotonic s =
      (ok (s.env.clock s.env.ticks), record s { env = record s.env { ticks = s.env.ticks + 1 } })

  -- uuid.uuid4().hex
  unfoldable pub new_uuid : Exec (Server F) String
  new_uuid s =
      (ok (s.env.uuids s.env.issued), record s { env = record s.env { issued = s.env.issued + 1 } })

  -- asyncio.get_running_loop().create_future()
  unfoldable pub create_future : Exec (Server F) ℕ
  create_future s = (
    ok s.env.next_future,
    record s { env = record s.env { next_future = s.env.next_future + 1 } },
  )

  -- The transport takes a message, or raises.
  unfoldable pub hand_over : Outgoing F → Exec (Server F) Unit
  hand_over o s = elim (s.env.refuses o) [
    | none ↦ (ok tt, record s { env = record s.env { outbox = s.env.outbox ++ o ∷ [] } })
    | some e ↦ (err e, s)
  ]

  -- self.transport.send(peer_id, message)
  unfoldable pub transport_send : String → Message F → Exec (Server F) Unit
  unfolding hand_over
  transport_send peer_id message = hand_over (unicast peer_id message)

  -- self.transport.broadcast(message)
  unfoldable pub transport_broadcast : Message F → Exec (Server F) Unit
  unfolding hand_over
  transport_broadcast message = hand_over (broadcast message)

  unfoldable pub on_registry : (ClientRegistry F → ClientRegistry F) → Exec (Server F) Unit
  on_registry f = modify (λ s. record s { registry = f s.registry })

  unfoldable pub increment : String → Exec (Server F) Unit
  increment name = modify (λ s. record s { metrics = Metrics.increment name s.metrics })

  unfoldable pub observe : String → F → Exec (Server F) Unit
  observe name value = modify (λ s. record s { metrics = Metrics.observe name value s.metrics })

  -- `_message`
  unfoldable pub make_message :
      String
      → Fields F
      → (requires_ack : Bool) → (reply_to trial_id : Option String) → Exec (Server F) (Message F)
  unfolding monotonic new_uuid
  make_message msg_type payload requires_ack reply_to trial_id = do
    now ← monotonic
    msg_id ← new_uuid
    session_id ← gets (λ s. s.session.session_id)
    server_ts ← monotonic
    pure (record {
      header =
          record (create now msg_id msg_type "server" "server" session_id trial_id requires_ack
            reply_to (priority_value Priority.normal) none) { server_ts = some server_ts };
      payload = obj payload;
      attachments = [];
    })

  abbrev pub message_row : Option (Message F) → Value F
  message_row none = null
  message_row (some m) = obj (to_dict m)

  -- what `_record` gives to the recorder
  abbrev pub row_of : String → Option (Message F) → Fields F → Server F → Fields F
  row_of peer_id message extra s = field "peer_id" (str peer_id) (
      field "message" (message_row message)
        (field "session" (obj (Session.as_dict (Session.snapshot s.session))) extra))

  abbrev pub keep_recorder : Result (EventRecorder F) → Exec (Server F) Unit
  keep_recorder (ok recorder) s = (ok tt, record s { recorder = recorder })
  keep_recorder (err e) s = (err e, s)

  -- `_record`
  unfoldable pub record_row : String → String → Option (Message F) → Fields F → Exec (Server F) Unit
  unfolding record_event
  record_row kind peer_id message extra s =
      keep_recorder (record_event kind (row_of peer_id message extra s) s.recorder) s

  -- payload.get and payload[...] of a payload that is no dictionary raise an AttributeError here
  abbrev pub fields_of : Value F → Result (Fields F)
  fields_of (obj fs) = ok fs
  fields_of _ = err attribute_error
