-- ===== src/Tests/Registering.antt =====
-- A registration at concrete inputs: psyexp_net/runtime/server.py's `_handle_register`.
use psyexp_net.Prelude.{ℕ, some, [], ◌∷◌, ◌++◌, ◌≡◌, refl, string_eq}
use psyexp_net.Prelude.Dict
use psyexp_net.Enums.{MessageType, message_type_value, ErrorCode}
use psyexp_net.Errors.{Error, ok, err}
use psyexp_net.Protocol.Message.{Message}
use psyexp_net.Protocol.Versioning.{
  negotiate_protocol, parse_protocol_version, split_dot, sorted_set, insert,
}
use psyexp_net.Runtime.Registry.{register_or_refresh}
use psyexp_net.Runtime.Server.Register.{
  enter, try_register, rejected, handle_register, server_capabilities,
}
use psyexp_net.Runtime.Server.Register.Laws.{handle_register-answer}
use psyexp_net.Runtime.Server.State.{Server, unicast, monotonic}
use psyexp_net.Security.{validate}
use psyexp_net.Tests.World.{nat_floats, tallies, server, message, read, count, tally}
use psyexp_net.Value.{str, obj, Fields, field, end}

abbrev unary : Server ℕ
unary = record server {
  config = record server.config { protocol = record server.config.protocol { version = "I.I" } };
}

abbrev claim : Fields ℕ
claim = field "role" (str "response") end

abbrev request : Message ℕ
request = message MessageType.register claim

handle_register-answer_example :
    ((handle_register tallies "a" request unary).0 ≡ ok tt)
    × ((msg : Message ℕ) × ((handle_register tallies "a" request unary).1.env.outbox
          ≡ [] ++ unicast "a" msg ∷ [])
        × (msg.msg_type ≡ message_type_value MessageType.register_reject)
        × (msg.payload ≡ obj (rejected tallies ErrorCode.duplicate_client_id end))
        × (msg.reply_to ≡ some request.msg_id))
    × ((e : Error)
        → (try_register tallies "a" claim unary).0 ≡ err e
        → (handle_register tallies "a" request unary).1.registry ≡ unary.registry)
unfolding try_register negotiate_protocol parse_protocol_version split_dot read count tally validate
    enter register_or_refresh Dict.get server_capabilities sorted_set insert monotonic
handle_register-answer_example =
    handle_register-answer tallies "a" request claim unary MessageType.register_reject
      (rejected tallies ErrorCode.duplicate_client_id end) refl (λ o. refl) refl
