-- ===== src/Tests/Meeting.antt =====
-- A client that registers at a server, at concrete inputs: psyexp_net/runtime.
use psyexp_net.Prelude.{ℕ, false, none, some, [], ◌∷◌, ◌++◌, ◌≡◌, refl, string_eq}
use psyexp_net.Prelude.Dict
use psyexp_net.Config.{AppConfig, default_config}
use psyexp_net.Enums.{MessageType}
use psyexp_net.Errors.{ok}
use psyexp_net.Protocol.Message.{Message}
use psyexp_net.Protocol.Versioning.{
  NegotiatedProtocol, negotiate_protocol, parse_protocol_version, split_dot, sorted_set, insert,
}
use psyexp_net.Runtime.Client.Lifecycle
use psyexp_net.Runtime.Client.Requests.{registration, capabilities_of, finish_register}
use psyexp_net.Runtime.Client.State.{Client, awaited}
use psyexp_net.Runtime.Registration.{entry, joined, finish_register-handle_register}
use psyexp_net.Runtime.Registry.{register_or_refresh}
use psyexp_net.Runtime.Server.Register.{handle_register, server_capabilities}
use psyexp_net.Runtime.Server.State.{Server, unicast}
use psyexp_net.Security.{validate}
use psyexp_net.Tests.World.{nat_floats, tallies, server, message, read, count, tally, print}

-- Both have this configuration.
abbrev config : AppConfig ℕ
config = record (default_config {F = ℕ}) {
  protocol = record (default_config {F = ℕ}).protocol { version = "I.I" };
}

abbrev host : Server ℕ
host = record server { config = config }

abbrev guest : Client ℕ
guest = Lifecycle.new config "response" "b" "i" none (record {
  clock = λ n. n;
  ticks = 0;
  uuids = λ n. tally n "";
  issued = 0;
  futures = λ _. awaited;
  next_future = 0;
  actions = [];
  slept = [];
  behaviour = λ _ _. ok tt;
  handled = [];
  show = λ _. "";
  refuses = λ _. none;
})

abbrev request : Message ℕ
request = message MessageType.register (registration guest)

abbrev agreed : NegotiatedProtocol
agreed = record {
  version = "I.I";
  degraded = false;
  capabilities = "snapshot.sync" ∷ "structured-logs" ∷ "timing.sync" ∷ [];
}

finish_register-handle_register_example :
    (response : Message ℕ) × ((handle_register tallies "b" request host).1.env.outbox
      ≡ [] ++ unicast "b" response ∷ [])
    × (response.reply_to ≡ some request.msg_id)
    × ((handle_register tallies "b" request host).1.registry
        ≡ Dict.put "b" (entry tallies guest host agreed) host.registry)
    × ((handle_register tallies "b" request host).1.session ≡ host.session)
    × (finish_register response guest
        ≡ (ok tt, joined tallies guest (handle_register tallies "b" request host).1 agreed))
unfolding negotiate_protocol parse_protocol_version split_dot read count tally print validate
    register_or_refresh Dict.get server_capabilities capabilities_of sorted_set insert
finish_register-handle_register_example =
    finish_register-handle_register tallies guest host agreed (entry tallies guest host agreed)
      false (Dict.put "b" (entry tallies guest host agreed) host.registry) request refl (λ o. refl)
      refl refl refl
