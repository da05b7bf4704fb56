-- ===== src/Runtime/Client/Receive.antt =====
-- `_recv_loop` and `_dispatch` of psyexp_net/runtime/client.py, and `reconnect`, which the loop calls.
pub mod Laws
pub mod Reconnect
use psyexp_net.Prelude.{
  String, ℕ, Bool, true, false, not, ◌&&◌, ◌||◌, Option, none, some, List, [], ◌∷◌, ◌++◌, ◌==◌,
  string_eq, nat_eq, if◌then◌else◌,
}
use psyexp_net.Prelude.Dict
use psyexp_net.Enums.{MessageType, message_type_value, ClientStatus, client_status_value}
use psyexp_net.Errors.{need, key_error, Result, ok, err}
use psyexp_net.Exec.{Exec, pure, lift, modify, gets, attempt, for_each, ◌>>=◌, ◌>>◌}
use psyexp_net.Floats.{Floats, of_ℕ, max2}
use psyexp_net.Logging.Metrics.{list_of}
use psyexp_net.Protocol.Ack.{seen}
use psyexp_net.Protocol.Message.{Message}
use psyexp_net.Runtime.Client.Requests.{begin_register}
use psyexp_net.Runtime.Client.State.{
  Client, Reply, awaited, arrived, started, stopped, monotonic, act, sleep, set_status, send_ack,
}
use psyexp_net.Runtime.Server.Handlers.{is_type}
use psyexp_net.Runtime.Server.State.{fields_of}
use psyexp_net.Transport.{ReceivedMessage}
use psyexp_net.Value.{lookup}
use psyexp_net.Value.Typed.{to_float}

-- What a call of the transport's `recv` comes to: an exception, a timeout or an event.
pub data Event (F : Type 0) : Type 0 where
  failed nothing : Event F
  event : ReceivedMessage F → Event F

-- What a task waits for: the response to a request, or the lock of `reconnect`.
pub data Wait : Type 0 where
  response : ℕ → Wait
  lock : Wait

module _ {F : Type 0} where
  -- await handler(message)
  unfoldable pub run_handler : Message F → ℕ → Exec (Client F) Unit
  run_handler message n c = (
    c.env.behaviour n message,
    record c { env = record c.env { handled = c.env.handled ++ (n, message) ∷ [] } },
  )

  -- `_run_handlers`
  unfoldable pub run_handlers : Message F → Exec (Client F) Unit
  unfolding run_handler for_each
  run_handlers message = do
    handlers ← gets (λ c. list_of (Dict.get message.msg_type c.handlers))
    for_each (run_handler message) handlers

  -- The handlers, and then the ACK with the time of their end.
  unfoldable pub apply : Message F → Exec (Client F) Unit
  unfolding run_handlers monotonic send_ack
  apply message = do run_handlers message; apply_ts ← monotonic; send_ack message (some apply_ts)

  -- `seen`, which also moves the window
  unfoldable pub is_duplicate : String → Exec (Client F) Bool
  is_duplicate msg_id c =
      (ok (seen msg_id c.dedupe).0, record c { dedupe = (seen msg_id c.dedupe).1 })

  -- if not future.done(): future.set_result(message)
  abbrev pub settle : Message F → Reply F → Reply F
  settle message awaited = arrived message
  settle message done = done

  -- The future that waits for a response, popped and resolved: whether there was one.
  unfoldable pub take_response : Message F → Exec (Client F) Bool
  take_response message c = elim message.reply_to [
    | none ↦ (ok false, c)
    | some reply_to ↦
        if reply_to == "" then (ok false, c) else elim (Dict.get reply_to c.responses) [
          | none ↦ (ok false, c)
          | some n ↦ (
            ok true,
            record c {
              responses = Dict.remove reply_to c.responses;
              env = record c.env {
                futures = λ m. if m == n then settle message (c.env.futures m) else c.env.futures m;
              };
            },
          )
        ]
  ]

  -- try: await self.transport.stop(), except Exception: pass
  unfoldable pub stop_quietly : Exec (Client F) Unit
  unfolding act
  stop_quietly = do outcome ← attempt (act stopped); pure tt

  -- What `reconnect` does under its lock, up to its wait in `register`; the lock is held over the wait.
  unfoldable pub restart : Exec (Client F) (Option Wait)
  unfolding set_status begin_register
  restart = do
    set_status (client_status_value ClientStatus.reconnecting)
    stop_quietly
    act started
    set_status (client_status_value ClientStatus.connected)
    future ← begin_register
    modify (λ c. record c { reconnect_locked = true })
    pure (some (response future))

  -- `reconnect` up to its first wait, or `none` where it returns at once
  unfoldable pub begin_reconnect : Exec (Client F) (Option Wait)
  unfolding restart
  begin_reconnect = do
    locked ← gets (λ c. c.reconnect_locked)
    closing ← gets (λ c. c.closing)
    if locked then pure (some lock) else if closing then pure none else restart

module _ {F : Type 0} ⦃fl : Floats F⦄ where
  open fl use {minus, over, lit, lt}

  -- if delay: await asyncio.sleep(delay)
  unfoldable pub sleep_until : (target_local : F) → Exec (Client F) Unit
  unfolding monotonic sleep
  sleep_until target_local = do
    now ← monotonic
    let delay = max2 (lit 0 1) (minus target_local now)
    if lt (lit 0 1) delay then sleep delay else pure tt

  -- The branch of `_dispatch` for a TRIAL_START_AT.
  unfoldable pub start_trial_at : Message F → Exec (Client F) Unit
  unfolding sleep_until apply
  start_trial_at message = do
    payload ← lift (fields_of message.payload)
    execute_at ← lift (need key_error (lookup "execute_at" payload))
    execute_at ← lift (to_float execute_at)
    offset_ms ← gets (λ c. c.offset_ms)
    sleep_until (minus execute_at (over offset_ms (of_ℕ 1000)))
    apply message

  -- The branch of `_dispatch` for a SESSION_START.
  unfoldable pub start_session : Message F → Exec (Client F) Unit
  unfolding set_status apply
  start_session message = do set_status (client_status_value ClientStatus.running); apply message

  -- `_dispatch`, by the type of its message
  unfoldable pub dispatch : (msg_type : String) → Message F → Exec (Client F) Unit
  unfolding start_session apply start_trial_at run_handlers
  dispatch msg_type message =
      if is_type MessageType.session_start msg_type
      then start_session message
      else if is_type MessageType.session_stop msg_type
      then apply message
      else if is_type MessageType.trial_arm msg_type
      then apply message
      else if is_type MessageType.trial_start_at msg_type
      then start_trial_at message
      else run_handlers message

  -- The resolution of a request, or the dispatch.
  unfoldable pub answer_or_dispatch : Message F → Exec (Client F) Unit
  unfolding take_response dispatch
  answer_or_dispatch message = do
    taken ← take_response message
    if taken then pure tt else dispatch message.msg_type message

  -- What `_recv_loop` does with a message.
  unfoldable pub receive : Message F → Exec (Client F) Unit
  unfolding is_duplicate send_ack answer_or_dispatch
  receive message = do
    duplicate ← is_duplicate message.msg_id
    if duplicate && message.requires_ack then send_ack message none else answer_or_dispatch message

  -- One round of `_recv_loop`, and what its task waits for where it does not come to the next.
  unfoldable pub round : Event F → Exec (Client F) (Option Wait)
  unfolding begin_reconnect receive
  round failed = do
    running ← gets (λ c. c.running)
    closing ← gets (λ c. c.closing)
    if running && not closing then begin_reconnect else pure none
  round nothing = pure none
  round (event e) = do receive e.message; pure none

  -- `_recv_loop` over what `recv` comes to. A task that waits receives nothing more: the loop's own
  -- `reconnect` stands between it and the next `recv`. What `reconnect` raises ends the loop.
  unfoldable pub recv_loop : List (Event F) → Exec (Client F) (Option Wait)
  recv_loop [] = pure none
  recv_loop (e ∷ es) = do
    running ← gets (λ c. c.running)
    wait ← if running then round e else pure none
    elim wait [ none ↦ if running then recv_loop es else pure none | some w ↦ pure (some w) ]
