-- ===== src/Discovery.antt =====
-- psyexp_net/discovery: manual.py and zeroconf_service.py. The zeroconf and socket modules are
-- parameters, and what a browser reports is input; the requests to zeroconf are a list, newest first.
pub mod Browse
pub mod Laws
pub mod Lifecycle
use Prim.Native.String.{◌++◌ as ◌+++◌}
use psyexp_net.Prelude.{
  String, ℕ, Bool, true, false, ◌||◌, Option, none, some, List, [], ◌∷◌, map, ◌==◌, string_eq,
  if◌then◌else◌,
}
use psyexp_net.Prelude.Dict
use psyexp_net.Prelude.Dict.{Dict}
use psyexp_net.Config.{AppConfig}
use psyexp_net.Config.Overrides.{is_wildcard}
use psyexp_net.Errors.{Result, ok, err, os_error, service_error, value_error, need, ◌>>=◌}
use psyexp_net.Errors.Loops.{traverse}
use psyexp_net.Exec.{Exec}
use psyexp_net.Floats.{ℤ, pos}
use psyexp_net.Protocol.Versioning.{IntText}

-- `ManualDiscoveryService.server_endpoint`
abbrev pub server_endpoint : {F : Type 0} → AppConfig F → String × ℕ
server_endpoint config = (config.network.host, config.network.control_port)

-- zeroconf.ServiceInfo, as it is registered
pub record ServiceInfo : Type 0 where
  pub type_ : String
  pub name : String
  pub addresses : List (List ℕ)
  pub port : ℕ
  pub properties : Dict String String
  pub server : String

-- A key or a value of the properties that zeroconf reports: bytes, or what str() makes of it.
pub data Raw : Type 0 where
  octets : List ℕ → Raw
  text : String → Raw

-- A service that zeroconf reports; `parsed_addresses` is what the method gives, if there is one.
pub record Info : Type 0 where
  pub properties : List (Raw × Raw)
  pub port : ℤ
  pub parsed_addresses : Option (List String)
  pub addresses : List (List ℕ)

-- What the code asks of zeroconf.
pub data Request : Type 0 where
  add drop : ServiceInfo → Request

-- socket.inet_aton and inet_ntoa, with `none` for an OSError; the address that the probe's socket
-- gets, if it gets one; the host's name; whether zeroconf refuses a registration or
-- a withdrawal; bytes.decode, with
-- `none` for a UnicodeDecodeError
pub record Net : Type 0 where
  pub aton : String → Option (List ℕ)
  pub ntoa : List ℕ → Option String
  pub own_address : Option String
  pub gethostname : String
  pub refuses : ServiceInfo → Bool
  pub keeps : ServiceInfo → Bool
  pub of_utf8 : List ℕ → Option String

pub record ZeroconfDiscoveryService (F : Type 0) : Type 0 where
  pub config : AppConfig F
  pub service_type : String
  pub service_name : String
  pub server_id : String
  pub build_info : String
  pub registered_info : Option ServiceInfo
  pub requests : List Request

-- A record of `discover`.
pub record Found : Type 0 where
  pub service_name : String
  pub service_type : String
  pub server_id : String
  pub protocol_version : String
  pub control_port : ℤ
  pub pub_port : ℤ
  pub session_name : String
  pub build_info : String
  pub experiment_profile : String
  pub host : String

module _ {F : Type 0} where
  -- `__init__`: a missing or empty name is made of the server's id and the session's name
  unfoldable pub new :
      AppConfig F
      → (service_type : String) (service_name : Option String) (server_id build_info : String)
      → ZeroconfDiscoveryService F
  new config service_type service_name server_id build_info =
      let default = server_id +++ "-" +++ config.experiment.session_name in
      record {
        config = config;
        service_type = service_type;
        service_name = elim service_name [
          | none ↦ default
          | some n ↦ if n == "" then default else n
        ];
        server_id = server_id;
        build_info = build_info;
        registered_info = none;
        requests = [];
      }

  -- `_full_service_name`
  abbrev pub full_service_name : ZeroconfDiscoveryService F → String
  full_service_name s = s.service_name +++ "." +++ s.service_type

  -- `_properties`
  unfoldable pub properties : IntText → ZeroconfDiscoveryService F → Dict String String
  properties int_text s =
      ("service_name", s.service_name)
      ∷ ("service_type", s.service_type)
      ∷ ("server_id", s.server_id)
      ∷ ("protocol_version", s.config.protocol.version)
      ∷ ("control_port", int_text.print_int (pos s.config.network.control_port))
      ∷ ("pub_port", int_text.print_int (pos s.config.network.pub_port))
      ∷ ("session_name", s.config.experiment.session_name)
      ∷ ("build_info", s.build_info)
      ∷ ("experiment_profile", s.config.experiment.experiment_profile)
      ∷ []

abbrev pub readable : List (Option String) → List String
readable [] = []
readable (none ∷ rest) = readable rest
readable (some a ∷ rest) = a ∷ readable rest

abbrev pub first_or_empty : List String → String
first_or_empty [] = ""
first_or_empty (a ∷ rest) = a

-- properties.get(k, default)
abbrev pub get_or : String → String → Dict String String → String
get_or k default d = elim (Dict.get k d) [ none ↦ default | some v ↦ v ]

-- int(properties.get(k, default)) of an int as the default
abbrev pub port_of : IntText → String → ℤ → Dict String String → Result ℤ
port_of int_text k default d = elim (Dict.get k d) [
  | none ↦ ok default
  | some v ↦ need value_error (int_text.parse_int v)
]

module _ (net : Net) where
  open net use {ntoa, own_address, of_utf8}

  -- the one candidate of `_addresses`
  abbrev pub candidate : (bind_host : String) → String
  candidate bind_host =
      if is_wildcard bind_host
      then elim own_address [ none ↦ "127.0.0.1" | some a ↦ a ]
      else bind_host

  -- str(key), str(value), of bytes decoded
  abbrev pub read_raw : Raw → Result String
  read_raw (octets b) = need value_error (of_utf8 b)
  read_raw (text t) = ok t

  -- `_decode_properties`
  unfoldable pub decode_from : Dict String String → List (Raw × Raw) → Result (Dict String String)
  decode_from decoded [] = ok decoded
  decode_from decoded ((k, v) ∷ rest) = do
    key ← read_raw k
    value ← read_raw v
    decode_from (Dict.put key value decoded) rest

  -- `_decode_addresses`
  abbrev pub decode_addresses : Info → List String
  decode_addresses info = elim info.parsed_addresses [
    | some shown ↦ shown
    | none ↦ readable (map ntoa info.addresses)
  ]

module _ {F : Type 0} (net : Net) where
  open net use {aton, gethostname, refuses, keeps}

  -- `_addresses`
  unfoldable pub addresses : AppConfig F → Result (List (List ℕ))
  addresses config = elim (aton (candidate net config.network.bind_host)) [
    | some a ↦ ok (a ∷ [])
    | none ↦ (do a ← need os_error (aton "127.0.0.1"); ok (a ∷ []))
  ]

  -- the ServiceInfo of `register`, at the given addresses
  abbrev pub info_of : IntText → ZeroconfDiscoveryService F → List (List ℕ) → ServiceInfo
  info_of int_text s found = record {
    type_ = s.service_type;
    name = full_service_name s;
    addresses = found;
    port = s.config.network.control_port;
    properties = properties int_text s;
    server = gethostname +++ ".local.";
  }

  unfoldable pub service_info : IntText → ZeroconfDiscoveryService F → Result ServiceInfo
  unfolding addresses properties
  service_info int_text s = do found ← addresses s.config; ok (info_of int_text s found)

  -- the registration of it
  abbrev pub submit :
      Result ServiceInfo
      → (s : ZeroconfDiscoveryService F) → Result (Unit {0}) × ZeroconfDiscoveryService F
  submit (err e) s = (err e, s)
  submit (ok info) s =
      if refuses info
      then (err service_error, s)
      else (ok tt, record s { registered_info = some info; requests = add info ∷ s.requests })

  abbrev pub register_unless :
      Option ServiceInfo
      → IntText
      → (s : ZeroconfDiscoveryService F) → Result (Unit {0}) × ZeroconfDiscoveryService F
  register_unless (some info) int_text s = (ok tt, s)
  register_unless none int_text s = submit (service_info int_text s) s

  unfoldable pub register : IntText → Exec (ZeroconfDiscoveryService F) Unit
  unfolding service_info
  register int_text s = register_unless s.registered_info int_text s

  abbrev pub withdraw :
      Option ServiceInfo
      → (s : ZeroconfDiscoveryService F) → Result (Unit {0}) × ZeroconfDiscoveryService F
  withdraw none s = (ok tt, s)
  withdraw (some info) s =
      if keeps info
      then (err service_error, s)
      else (ok tt, record s { registered_info = none; requests = drop info ∷ s.requests })

  -- `unregister`, and `close` before it closes zeroconf
  unfoldable pub unregister : Exec (ZeroconfDiscoveryService F) Unit
  unregister s = withdraw s.registered_info s

  -- `_to_record`
  unfoldable pub to_record : IntText → ZeroconfDiscoveryService F → Info → Result Found
  unfolding decode_from
  to_record int_text s info = do
    d ← decode_from net [] info.properties
    control_port ← port_of int_text "control_port" info.port d
    pub_port ← port_of int_text "pub_port" (pos s.config.network.pub_port) d
    ok (record {
      service_name = get_or "service_name" s.service_name d;
      service_type = s.service_type;
      server_id = get_or "server_id" "" d;
      protocol_version = get_or "protocol_version" "" d;
      control_port = control_port;
      pub_port = pub_port;
      session_name = get_or "session_name" "" d;
      build_info = get_or "build_info" "" d;
      experiment_profile = get_or "experiment_profile" "" d;
      host = first_or_empty (decode_addresses net info);
    })
