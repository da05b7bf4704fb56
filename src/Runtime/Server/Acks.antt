-- ===== src/Runtime/Server/Acks.antt =====
-- The ACKs of psyexp_net/runtime/server.py: what an ACK resolves and measures, and what expires.
pub mod Completion
pub mod Answering
use psyexp_net.Prelude.{
  String, true, false, Option, none, some, List, ◌∷◌, length, leb, string_eq, pair_eq,
  if◌then◌else◌,
}
use psyexp_net.Prelude.Dict
use psyexp_net.Prelude.Dict.{Dict}
use psyexp_net.Errors.{ok, key_error, need}
use psyexp_net.Exec.{Exec, pure, lift, modify, gets, for_each, ◌>>=◌, ◌>>◌}
use psyexp_net.Floats.{pos, Floats, max2, max_from, min_from}
use psyexp_net.Protocol.Ack
use psyexp_net.Protocol.Ack.{PendingAck}
use psyexp_net.Protocol.Message.{Message}
use psyexp_net.Runtime.Registry.{ClientInfo}
use psyexp_net.Runtime.Server.State.{
  Server, Tracking, CommandGroup, monotonic, increment, observe, record_row, fields_of,
}
use psyexp_net.Value.{Value, bool, int, float, str, obj, Fields, field, end, lookup}
use psyexp_net.Value.Typed.{as_str, keyword}

module _ {F : Type 0} ⦃fl : Floats F⦄ where
  open fl use {plus, minus, times, over, lit, of_ℤ}

  -- float(x) of an x for which isinstance(x, (int, float)) holds
  abbrev pub number : Option (Value F) → Option F
  number (some (float x)) = some x
  number (some (int n)) = some (of_ℤ n)
  number (some (bool true)) = some (lit 1 1)
  number (some (bool false)) = some (lit 0 1)
  number _ = none

  -- max(0.0, ((x + offset_s) - server_ts) * 1000)
  abbrev pub delay_ms : F → F → F → F
  delay_ms x offset_s server_ts =
      max2 (lit 0 1) (times (minus (plus x offset_s) server_ts) (of_ℤ (pos 1000)))

  abbrev pub offset_of : Option (ClientInfo F) → F
  offset_of none = lit 0 1
  offset_of (some c) = over c.offset_estimate_ms (of_ℤ (pos 1000))

  unfoldable pub observe_delay : String → F → Option F → Option F → Exec (Server F) Unit
  unfolding observe
  observe_delay name offset_s (some server_ts) (some x) =
      observe name (delay_ms x offset_s server_ts)
  observe_delay name offset_s _ _ = pure tt

  -- skew_ms, if two clients have applied the command
  unfoldable pub observe_skew : List F → Exec (Server F) Unit
  unfolding observe max_from min_from
  observe_skew (a ∷ b ∷ xs) =
      observe "apply_skew_ms"
        (times (minus (max_from a (b ∷ xs)) (min_from a (b ∷ xs))) (of_ℤ (pos 1000)))
  observe_skew _ = pure tt

  abbrev pub applied : String → F → CommandGroup F → CommandGroup F
  applied receiver_id x g = record g { apply_times = Dict.put receiver_id x g.apply_times }

  -- The group, once the client's time is in it: it is dropped when as many have applied the command
  -- as were expected to.
  unfoldable pub close_group :
      String → CommandGroup F → Dict String (CommandGroup F) → Dict String (CommandGroup F)
  close_group command_id g groups =
      if leb (length g.expected_peers) (length g.apply_times)
      then Dict.remove command_id groups
      else Dict.put command_id g groups

  unfoldable pub store_group : String → CommandGroup F → Exec (Server F) Unit
  unfolding close_group
  store_group command_id g =
      modify (λ s. record s { command_groups = close_group command_id g s.command_groups })

  -- group["apply_times"][receiver_id] = ..., where the group is still there
  unfoldable pub note_apply :
      (command_id receiver_id : String) → F → Option (CommandGroup F) → Exec (Server F) Unit
  unfolding observe_skew store_group
  note_apply command_id receiver_id x none = pure tt
  note_apply command_id receiver_id x (some g) = do
    observe_skew (Dict.values (applied receiver_id x g).apply_times)
    store_group command_id (applied receiver_id x g)

  unfoldable pub note_command : String → Tracking F → F → Option F → Option F → Exec (Server F) Unit
  unfolding note_apply
  note_command receiver_id tracking offset_s (some server_ts) (some x) = do
    group ← gets (λ s. Dict.get tracking.command_id s.command_groups)
    note_apply tracking.command_id receiver_id (plus x offset_s) group
  note_command receiver_id tracking offset_s _ _ = pure tt

  unfoldable pub observe_tracked : String → Fields F → Option (Tracking F) → Exec (Server F) Unit
  unfolding observe_delay note_command
  observe_tracked receiver_id payload none = pure tt
  observe_tracked receiver_id payload (some tracking) = do
    client ← gets (λ s. Dict.get receiver_id s.registry)
    let offset_s = offset_of client
    observe_delay "command_receive_delay_ms" offset_s tracking.server_ts
        (number (lookup "receive_ts" payload))
    observe_delay "command_apply_delay_ms" offset_s tracking.server_ts
        (number (lookup "apply_ts" payload))
    note_command receiver_id tracking offset_s tracking.server_ts
        (number (lookup "apply_ts" payload))

  unfoldable pub forget_tracking : String → Exec (Server F) Unit
  forget_tracking msg_id =
      modify (λ s. record s { message_tracking = Dict.remove msg_id s.message_tracking })

  -- `_observe_ack_timing`
  unfoldable pub observe_ack_timing :
      (msg_id receiver_id : String) → Fields F → Exec (Server F) Unit
  unfolding observe_tracked forget_tracking
  observe_ack_timing msg_id receiver_id payload = do
    tracking ← gets (λ s. Dict.get msg_id s.message_tracking)
    forget_tracking msg_id
    observe_tracked receiver_id payload tracking

  unfoldable pub resolve_pending :
      (reply_to receiver_id : String) → Value F → Exec (Server F) (Option (PendingAck F))
  resolve_pending reply_to receiver_id value s =
      let (entry, pending, futures) =
        Ack.resolve_entry reply_to receiver_id value s.pending_acks s.env.futures in
      (ok entry, record s { pending_acks = pending; env = record s.env { futures = futures } })

  unfoldable pub observe_resolved :
      (receiver_id : String) → Fields F → Option (PendingAck F) → Exec (Server F) Unit
  unfolding monotonic observe observe_ack_timing
  observe_resolved receiver_id payload none = pure tt
  observe_resolved receiver_id payload (some entry) = do
    now ← monotonic
    observe "ack_latency_ms" (times (minus now entry.created_at) (of_ℤ (pos 1000)))
    observe_ack_timing entry.msg_id receiver_id payload

  -- The branch of `_handle_message` for an ACK.
  unfoldable pub handle_ack : String → Message F → Exec (Server F) Unit
  unfolding resolve_pending observe_resolved
  handle_ack peer_id message = do
    payload ← lift (fields_of message.payload)
    receiver_id ← lift (keyword as_str peer_id (lookup "receiver_id" payload))
    reply_to ← lift (need key_error (lookup "reply_to" payload))
    reply_to ← lift (as_str reply_to)
    entry ← resolve_pending reply_to receiver_id message.payload
    observe_resolved receiver_id payload entry

  unfoldable pub report_timeout : PendingAck F → Exec (Server F) Unit
  unfolding increment record_row
  report_timeout entry = do
    increment "ack_timeout"
    record_row "ack_timeout" entry.peer_id none (
        field "payload"
          (obj (
            field "msg_id" (str entry.msg_id) (
              field "peer_id" (str entry.peer_id) (field "retries" (int (pos entry.retries)) end))))
          end)

  unfoldable pub drop_expired : F → Exec (Server F) Unit
  drop_expired now = modify (λ s. record s { pending_acks = (Ack.expire now s.pending_acks).1 })

  -- `_expire_acks`
  unfoldable pub expire_acks : Exec (Server F) Unit
  unfolding monotonic drop_expired report_timeout for_each
  expire_acks = do
    now ← monotonic
    expired ← gets (λ s. (Ack.expire now s.pending_acks).0)
    drop_expired now
    for_each report_timeout expired
