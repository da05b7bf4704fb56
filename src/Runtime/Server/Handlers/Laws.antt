-- ===== src/Runtime/Server/Handlers/Laws.antt =====
-- What the handlers of psyexp_net/runtime/server.py do with a client's message: results, and messages
-- that lack what the handler reads.
use psyexp_net.Prelude.{
  eq_iff, ◌+◌, String, Bool, Bool-cases, inl, inr, if◌then◌else◌, none, some, List, [], ◌∷◌, ◌++◌,
  ◌≡◌, refl, arith, string_eq, ap,
}
use psyexp_net.Prelude.Dict
use psyexp_net.Enums.{MessageType, message_type_value}
use psyexp_net.Errors.{ok, err, key_error, type_error}
use psyexp_net.Floats.{Floats}
use psyexp_net.Logging.Metrics.{list_of}
use psyexp_net.Protocol.Message.{Message}
use psyexp_net.Protocol.Versioning.{IntText}
use psyexp_net.Runtime.Registry
use psyexp_net.Runtime.Server.Acks.{handle_ack}
use psyexp_net.Runtime.Server.Commands.{collect}
use psyexp_net.Runtime.Server.Handlers.{
  queue_result, handle_result, dispatch, handle_message, serve_one, serve_loop, Yield,
}
use psyexp_net.Runtime.Server.State.{
  Server, monotonic, on_registry, increment, fields_of, message_row,
}
use psyexp_net.Runtime.Server.State.Recording.{record_row-eq, with_row}
use psyexp_net.Value.Json.{is_json}
use psyexp_net.Transport.{ReceivedMessage}
use psyexp_net.Value.{Value, obj, Fields, lookup, str, field, end}
use psyexp_net.Value.Typed.{keyword}

module _ {F : Type 0} ⦃fl : Floats F⦄ (text : IntText) where
  -- The queue of a role's results.
  abbrev pub queue_of : String → Server F → List (Value F)
  queue_of role s = list_of (Dict.get role s.results)

  -- The state in which the dispatch begins: the peer is touched.
  abbrev pub touched : String → Server F → Server F
  touched peer s = record s {
    registry = Registry.touch (s.env.clock s.env.ticks) peer s.registry;
    env = record s.env { ticks = s.env.ticks + 1 };
  }

  -- The state in which an event is handled: it is recorded.
  abbrev pub received : ReceivedMessage F → Server F → Server F
  received ev =
      with_row "receive" ev.peer_id (some ev.message) (field "channel" (str ev.channel) end)

  pub handle_message-eq :
      (kind peer : String) (m : Message F) (s : Server F)
      → m.msg_type ≡ kind
      → handle_message text peer m s ≡ dispatch text kind peer m (touched peer s)
  unfolding handle_message
  handle_message-eq kind peer m s t = ap (λ k. dispatch text k peer m (touched peer s)) t

  -- `collect` takes the one result that there is.
  taken :
      (role : String) (v : Value F) (s : Server F)
      → Dict.get role s.results ≡ some (v ∷ [])
      → (s' : Server F) × (collect role s ≡ some (v, s')) × (queue_of role s' ≡ [])
  unfolding collect
  taken role v s e =
      (record s { results = Dict.put role [] s.results }, rw (e, collect), rw Dict.get-put_self)

  -- A RESULT_REPORT goes to the end of the queue of its sender's role, and every other queue
  -- stays. If that queue was empty, the next `collect` of the role returns the payload that was
  -- reported, and leaves the queue empty.
  pub collect-result :
      (peer : String) (m : Message F) (s : Server F)
      → m.msg_type ≡ message_type_value MessageType.result_report
      → ((handle_message text peer m s).0 ≡ ok tt)
        × (queue_of m.sender_role (handle_message text peer m s).1
            ≡ queue_of m.sender_role s ++ m.payload ∷ [])
        × ((role : String)
            → (m.sender_role ≡ role → ⊥)
            → queue_of role (handle_message text peer m s).1 ≡ queue_of role s)
        × (queue_of m.sender_role s ≡ []
            → (s' : Server F) × (collect m.sender_role (handle_message text peer m s).1
                ≡ some (m.payload, s'))
              × (queue_of m.sender_role s' ≡ []))
  unfolding dispatch handle_result collect monotonic on_registry increment queue_result
  collect-result peer m s t =
      rw (handle_message-eq (message_type_value MessageType.result_report) peer m s t) (
        refl,
        rw Dict.get-put_self,
        λ role other. rw Dict.get-put (ground (arith, eq_iff m.sender_role role)),
        λ empty.
            taken m.sender_role m.payload
              (dispatch text (message_type_value MessageType.result_report) peer m
                (touched peer s)).1
              (rw (Dict.get-put_self, empty)),
      )

  handle_ack-err :
      (peer : String) (m : Message F) (fs : Fields F) (s : Server F)
      → m.payload ≡ obj fs
      → lookup "receiver_id" fs ≡ none
      → lookup "reply_to" fs ≡ none
      → handle_ack peer m s ≡ (err key_error, s)
  unfolding handle_ack
  handle_ack-err peer m fs s p r q = rw (p, fields_of, r, keyword, q)

  -- The state where an ACK without `reply_to` cannot be recorded, or not be handled.
  abbrev left : Bool → ReceivedMessage F → Server F → Server F
  left json ev s = if json then touched ev.peer_id (received ev s) else s

  ends :
      (ev : ReceivedMessage F) (fs : Fields F) (s : Server F)
      → ev.message.msg_type ≡ message_type_value MessageType.ack
      → ev.message.payload ≡ obj fs
      → lookup "receiver_id" fs ≡ none
      → lookup "reply_to" fs ≡ none
      → let json = is_json (message_row (some ev.message)) in
        serve_one text (some ev) s ≡ (err (if json then key_error else type_error), left json ev s)
  unfolding serve_one dispatch is_json
  ends ev fs s t p r q =
      let recorded =
        record_row-eq "receive" ev.peer_id (some ev.message) (field "channel" (str ev.channel) end)
          s in
      elim (Bool-cases (is_json (message_row (some ev.message)))) [
        | inr f ↦ rw (recorded, f) refl
        | inl j ↦
            rw
              (
                recorded,
                j,
                handle_message-eq (message_type_value MessageType.ack) ev.peer_id ev.message
                    (received ev s) t,
                handle_ack-err ev.peer_id ev.message fs (touched ev.peer_id (received ev s)) p r q,
              )
              refl
      ]

  ends_at :
      (ev : ReceivedMessage F) (fs : Fields F) (s : Server F) (events : List (Yield F))
      → ev.message.msg_type ≡ message_type_value MessageType.ack
      → ev.message.payload ≡ obj fs
      → lookup "receiver_id" fs ≡ none
      → lookup "reply_to" fs ≡ none
      → let json = is_json (message_row (some ev.message)) in
        serve_loop text (ok (some ev) ∷ events) s
        ≡ (err (if json then key_error else type_error), left json ev s)
  unfolding serve_loop
  ends_at ev fs s events t p r q = rw (ends ev fs s t p r q)

  -- An ACK whose payload is a dictionary without `reply_to` and `receiver_id` is not answered by
  -- an error: its KeyError ends the serve loop, or, if the message holds bytes, in its payload or as
  -- attachments, the TypeError of recording it. No later event is served, whatever it is. The pending
  -- ACKs and what was sent stay as they were.
  pub serve_loop_ends :
      (ev : ReceivedMessage F) (fs : Fields F) (s : Server F) (events : List (Yield F))
      → ev.message.msg_type ≡ message_type_value MessageType.ack
      → ev.message.payload ≡ obj fs
      → lookup "receiver_id" fs ≡ none
      → lookup "reply_to" fs ≡ none
      → ((serve_loop text (ok (some ev) ∷ events) s).0
          ≡ err (if is_json (message_row (some ev.message)) then key_error else type_error))
        × ((serve_loop text (ok (some ev) ∷ events) s).1
            ≡ (serve_loop text (ok (some ev) ∷ []) s).1)
        × ((serve_loop text (ok (some ev) ∷ events) s).1.pending_acks ≡ s.pending_acks)
        × ((serve_loop text (ok (some ev) ∷ events) s).1.env.outbox ≡ s.env.outbox)
  serve_loop_ends ev fs s events t p r q =
      rw (ends_at ev fs s events t p r q, ends_at ev fs s [] t p r q)
        (elim (Bool-cases (is_json (message_row (some ev.message)))) [
          | inl j ↦ rw j (refl, refl, refl, refl)
          | inr f ↦ rw f (refl, refl, refl, refl)
        ])
