-- ===== src/Driver/Handlers.antt =====
-- What the handlers of the driving programs report at the start of a trial, and which messages they
-- note: psyexp_net/cli/main.py, health/benchmark.py and examples/demo_inmemory.py.
use psyexp_net.Prelude.{String, Bool, ◌||◌, ◌==◌, string_eq}
use psyexp_net.Enums.{MessageType, message_type_value}
use psyexp_net.Errors.{Result, ok, key_error, need, ◌>>=◌}
use psyexp_net.Protocol.Message.{Message}
use psyexp_net.Runtime.Server.State.{fields_of}
use psyexp_net.Value.{Value, str, Fields, field, end, lookup}

-- The types of the messages that the command only notes: `on_session_start`, `on_trial_arm` and
-- `on_state_update` of `run_client_command`.
abbrev pub is_noted : String → Bool
is_noted t =
    t == message_type_value MessageType.session_start
    || t == message_type_value MessageType.trial_arm
    || t == message_type_value MessageType.state_update

module _ {F : Type 0} where
  -- message.payload[k]
  abbrev pub payload_at : String → Message F → Result (Value F)
  payload_at k m = do fs ← fields_of m.payload; need key_error (lookup k fs)

  -- the report of `run_client_command`'s handler
  unfoldable pub client_result : (client_id : String) → Message F → Result (Fields F)
  client_result client_id m = do
    trial_id ← payload_at "trial_id" m
    ok (
        field "trial_id" trial_id
          (field "response" (str "space") (field "client_id" (str client_id) end)))

  -- that of `run_demo`'s
  unfoldable pub demo_result : Message F → Result (Fields F)
  demo_result m = do
    trial_id ← payload_at "trial_id" m
    ok (field "trial_id" trial_id (field "response" (str "space") end))

  -- that of the example's
  unfoldable pub example_result : Message F → Result (Fields F)
  example_result m = do
    trial_id ← payload_at "trial_id" m
    execute_at ← payload_at "execute_at" m
    ok (
        field "trial_id" trial_id
          (field "response" (str "space") (field "apply_ts" execute_at end)))

  -- that of the benchmark's
  unfoldable pub benchmark_result : (client_id : String) → Message F → Result (Fields F)
  benchmark_result client_id m = do
    trial_id ← payload_at "trial_id" m
    ok (field "trial_id" trial_id (field "client_id" (str client_id) end))
