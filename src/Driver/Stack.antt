-- ===== src/Driver/Stack.antt =====
-- Which servers, clients and transports the driving programs make: `_build_stack` of
-- psyexp_net/health/benchmark.py, `_build_demo_stack`, `_build_server`, `_build_client` and
-- `_resolve_local_demo_config` of psyexp_net/cli/main.py.
use Prim.Native.String.{◌++◌}
use psyexp_net.Prelude.{String, ℕ, zero, suc, not, List, [], ◌∷◌, ◌==◌, string_eq, if◌then◌else◌}
use psyexp_net.Config.{AppConfig}
use psyexp_net.Config.Overrides.{is_wildcard, normalize_loopback_network, with_network_overrides}
use psyexp_net.Discovery.{Found, server_endpoint}
use psyexp_net.Driver.{Answers, World, call, discovery_open, discovery_register, discovery_close}
use psyexp_net.Errors.{Result, ok, err, value_error}
use psyexp_net.Exec.{Exec, pure, lift, try_finally, ◌>>=◌, ◌>>◌}
use psyexp_net.Floats.{Floats, pos}
use psyexp_net.Protocol.Versioning.{IntText}
use psyexp_net.Value.{str, field, end}

-- The transport of one end. The ends in memory that are made together share a hub.
pub data End : Type 0 where
  memory_server zmq_server : End
  memory_client zmq_client : String → End

-- A client that is made.
pub record Peer : Type 0 where
  pub role : String
  pub client_id : String
  pub transport : End

pub record Stack : Type 0 where
  pub server : End
  pub peers : List Peer

-- [... for index in range(clients)], from `index`
unfoldable pub numbered : IntText → (String → End) → (index clients : ℕ) → List Peer
numbered int_text transport index zero = []
numbered int_text transport index (suc n) =
    record {
      role = "role-" ++ int_text.print_int (pos index);
      client_id = "client-" ++ int_text.print_int (pos index);
      transport = transport ("client-" ++ int_text.print_int (pos index));
    }
    ∷ numbered int_text transport (suc index) n

-- the two clients of the demo, over the transports that the backend gives them
abbrev pub demo_peers : (String → End) → List Peer
demo_peers transport =
    record { role = "stimulus"; client_id = "stim-01"; transport = transport "stim-01" }
    ∷ record { role = "response"; client_id = "resp-01"; transport = transport "resp-01" }
    ∷ []

module _ {F : Type 0} where
  -- `_build_stack`
  unfoldable pub build_stack : IntText → AppConfig F → (clients : ℕ) → Result Stack
  unfolding numbered
  build_stack int_text config clients =
      if config.network.backend == "inmemory"
      then ok (record { server = memory_server; peers = numbered int_text memory_client 0 clients })
      else if config.network.backend == "zmq"
      then ok (record { server = zmq_server; peers = numbered int_text zmq_client 0 clients })
      else err value_error

  -- `_build_demo_stack`
  unfoldable pub build_demo_stack : AppConfig F → Result Stack
  build_demo_stack config =
      if config.network.backend == "inmemory"
      then ok (record { server = memory_server; peers = demo_peers memory_client })
      else if config.network.backend == "zmq"
      then ok (record { server = zmq_server; peers = demo_peers zmq_client })
      else err value_error

  -- `_build_server`
  unfoldable pub build_server : AppConfig F → Result End
  build_server config = if config.network.backend == "zmq" then ok zmq_server else err value_error

  -- `_build_client`
  unfoldable pub build_client : AppConfig F → (role client_id : String) → Result Peer
  build_client config role client_id =
      if config.network.backend == "zmq"
      then ok (record { role = role; client_id = client_id; transport = zmq_client client_id })
      else err value_error

module _ {F : Type 0} ⦃fl : Floats F⦄ (a : Answers F) where
  -- the host of the first record, if there is one and it is not empty
  abbrev pub on_found : AppConfig F → List Found → Result (AppConfig F)
  on_found config [] = ok config
  on_found config (r ∷ rs) =
      if r.host == ""
      then ok config
      else with_network_overrides config (field "host" (str r.host) end)

  -- discovery is registered, read and closed; `records` are what `discover` gives
  abbrev pub through_discovery : Result (List Found) → AppConfig F → Exec (World F) (AppConfig F)
  through_discovery records config = do
    call a discovery_open
    (found, closed) ←
        try_finally (call a discovery_register >> lift records) (call a discovery_close)
    lift (on_found config found)

  -- the endpoint of the manual service, on the loopback address if it is a wildcard
  abbrev pub through_manual : AppConfig F → Result (AppConfig F)
  through_manual config =
      if is_wildcard (server_endpoint config).0
      then with_network_overrides config (field "host" (str "127.0.0.1") end)
      else ok config

  -- `_resolve_local_demo_config`
  unfoldable pub resolve_local_demo_config :
      Result (List Found) → AppConfig F → Exec (World F) (AppConfig F)
  unfolding call normalize_loopback_network with_network_overrides
  resolve_local_demo_config records config =
      if not (config.network.backend == "zmq") then pure config else do
        config' ← lift (normalize_loopback_network config)
        if config'.network.discovery == "zeroconf"
            then through_discovery records config'
            else lift (through_manual config')
