-- ===== src/Transport/Zmq.antt =====
-- psyexp_net/transport/zmq_lan.py: the transport over ZeroMQ. A socket is what the code asks of
-- pyzmq: its type, the options that are set on it, in order, and the endpoint that it is bound or
-- connected to. What pyzmq does with it is a parameter, or input: which options it has, which
-- endpoints it refuses, and what a poll yields.
pub mod Backend
pub mod Exchange
pub mod Invariant
pub mod Laws
pub mod Wire
use Prim.Native.String.{◌++◌ as ◌+++◌}
use psyexp_net.Prelude.{
  String, ℕ, ◌+◌, Bool, true, false, Option, none, some, List, [], ◌∷◌, ◌++◌, not, ◌&&◌, ◌==◌,
  string_eq, if◌then◌else◌,
}
use psyexp_net.Config.{AppConfig}
use psyexp_net.Errors.{Result, ok, err, attribute_error, value_error, index_error, zmq_error, need}
use psyexp_net.Exec.{Exec, pure, raise, lift, gets, modify, ◌>>=◌, ◌>>◌}
use psyexp_net.Floats.{pos}
use psyexp_net.Protocol.Versioning.{IntText}
use psyexp_net.Transport.Memory.{EndpointMetrics}

pub data SocketType : Type 0 where
  router dealer pub_socket sub : SocketType

pub data Setting : Type 0 where
  number : ℕ → Setting
  octets : List ℕ → Setting

pub data Endpoint : Type 0 where
  bound connected : String → Endpoint

pub record Socket : Type 0 where
  pub kind : SocketType
  pub options : List (String × Setting)
  pub endpoint : Option Endpoint

-- The multipart messages that were sent, on the control and on the broadcast socket.
pub data Sent : Type 0 where
  on_control on_broadcast : List (List ℕ) → Sent

-- The object: `context` says whether there is one, `poller` how many sockets are registered.
pub record ZmqLanTransport (F : Type 0) : Type 0 where
  pub config : AppConfig F
  pub is_server : Bool
  pub client_id : String
  pub metrics : EndpointMetrics
  pub context : Bool
  pub control_socket : Option Socket
  pub broadcast_socket : Option Socket
  pub poller : Option ℕ
  pub started : Bool
  pub sent_frames : List Sent

-- pyzmq: hasattr(zmq, name) for the options that not every version has, and whether bind or connect
-- of an endpoint raises; str.encode and bytes.decode, with `none` for a UnicodeDecodeError
pub record Zmq : Type 0 where
  pub has : String → Bool
  pub refuses : Endpoint → Bool
  -- whether sending raises, as on a ROUTER for a peer that is not there
  pub undelivered : Sent → Bool
  pub to_utf8 : String → List ℕ
  pub of_utf8 : List ℕ → Option String

-- `__init__`; a server has no client id, which is the empty text here
unfoldable pub new :
    {F : Type 0} → AppConfig F → (is_server : Bool) → (client_id : String) → ZmqLanTransport F
new config is_server client_id = record {
  config = config;
  is_server = is_server;
  client_id = client_id;
  metrics = record { sent = 0; received = 0; broadcast_sent = 0 };
  context = false;
  control_socket = none;
  broadcast_socket = none;
  poller = none;
  started = false;
  sent_frames = [];
}

-- the check of `__init__`
unfoldable pub make :
    {F : Type 0} → AppConfig F → (is_server : Bool) → Option String → Result (ZmqLanTransport F)
unfolding new
make config is_server none = if is_server then ok (new config is_server "") else err value_error
make config is_server (some client_id) =
    if not is_server && client_id == ""
    then err value_error
    else ok (new config is_server client_id)

abbrev pub bare : SocketType → Socket
bare k = record { kind = k; options = []; endpoint = none }

abbrev pub bit : Bool → ℕ
bit true = 1
bit false = 0

abbrev pub setsockopt : String → Setting → Socket → Socket
setsockopt name value s = record s { options = s.options ++ (name, value) ∷ [] }

module _ (int_text : IntText) where
  -- f"tcp://{host}:{port}"
  unfoldable pub tcp : (host : String) (port : ℕ) → String
  tcp host port = "tcp://" +++ host +++ ":" +++ int_text.print_int (pos port)

module _ (z : Zmq) where
  open z use {has, refuses, to_utf8, of_utf8}

  -- `_setsockopt_if_supported`
  abbrev pub setsockopt_if_supported : String → ℕ → Socket → Socket
  setsockopt_if_supported name value s = if has name then setsockopt name (number value) s else s

  -- socket.bind or socket.connect
  abbrev pub attach : Endpoint → Socket → Result Socket
  attach e s = if refuses e then err zmq_error else ok (record s { endpoint = some e })

  module _ {F : Type 0} where
    -- `_configure_common_socket`
    unfoldable pub configure_common_socket : AppConfig F → Socket → Socket
    configure_common_socket c s =
        setsockopt_if_supported "HEARTBEAT_TTL" c.network.heartbeat_timeout_ms (
          setsockopt_if_supported "HEARTBEAT_TIMEOUT" c.network.heartbeat_timeout_ms (
            setsockopt_if_supported "HEARTBEAT_IVL" c.network.heartbeat_interval_ms (
              setsockopt_if_supported "CONNECT_TIMEOUT" c.network.connect_timeout_ms (
                setsockopt_if_supported "IMMEDIATE" (bit c.network.immediate) (
                  setsockopt_if_supported "TCP_KEEPALIVE" (bit c.network.tcp_keepalive) (
                    setsockopt "LINGER" (number c.network.linger_ms) (
                      setsockopt "RCVHWM" (number c.network.recv_hwm)
                        (setsockopt "SNDHWM" (number c.network.send_hwm) s))))))))

    -- `_configure_server_sockets`: the control socket and the broadcast socket
    unfoldable pub configure_server_sockets : AppConfig F → Socket × Socket
    unfolding configure_common_socket
    configure_server_sockets c = (
      setsockopt_if_supported "ROUTER_HANDOVER" (bit c.network.router_handover) (
          setsockopt_if_supported "ROUTER_MANDATORY" (bit c.network.router_mandatory)
            (configure_common_socket c (bare router))),
      configure_common_socket c (bare pub_socket),
    )

    -- `_configure_client_sockets`
    unfoldable pub configure_client_sockets : AppConfig F → (client_id : String) → Socket × Socket
    unfolding configure_common_socket
    configure_client_sockets c client_id = (
      setsockopt "IDENTITY" (octets (to_utf8 client_id)) (configure_common_socket c (bare dealer)),
      (if has "SUBSCRIBE"
          then setsockopt "SUBSCRIBE" (octets []) (configure_common_socket c (bare sub))
          else configure_common_socket c (bare sub)),
    )

    abbrev pub put_control : Socket → Exec (ZmqLanTransport F) Unit
    put_control s = modify (λ t. record t { control_socket = some s })

    abbrev pub put_broadcast : Socket → Exec (ZmqLanTransport F) Unit
    put_broadcast s = modify (λ t. record t { broadcast_socket = some s })

    -- the sockets, configured, and then attached, one after the other
    unfoldable pub open_sockets :
        Socket × Socket → (control broadcast : Endpoint) → Exec (ZmqLanTransport F) Unit
    open_sockets sockets control broadcast = do
      put_control sockets.0
      put_broadcast sockets.1
      c ← lift (attach control sockets.0)
      put_control c
      b ← lift (attach broadcast sockets.1)
      put_broadcast b

    -- the sockets of a server or of a client
    unfoldable pub sockets : ZmqLanTransport F → Socket × Socket
    unfolding configure_server_sockets configure_client_sockets
    sockets t =
        if t.is_server
        then configure_server_sockets t.config
        else configure_client_sockets t.config t.client_id

  module _ {F : Type 0} (int_text : IntText) where
    -- `_control_bind_endpoint` of a server, `_control_connect_endpoint` of a client
    unfoldable pub control_endpoint : ZmqLanTransport F → Endpoint
    unfolding tcp
    control_endpoint t =
        if t.is_server
        then bound (tcp int_text t.config.network.bind_host t.config.network.control_port)
        else connected (tcp int_text t.config.network.host t.config.network.control_port)

    -- `_broadcast_bind_endpoint` of a server, `_broadcast_connect_endpoint` of a client
    unfoldable pub broadcast_endpoint : ZmqLanTransport F → Endpoint
    unfolding tcp
    broadcast_endpoint t =
        if t.is_server
        then bound (tcp int_text t.config.network.bind_host t.config.network.pub_port)
        else connected (tcp int_text t.config.network.host t.config.network.pub_port)

    -- `start` of one that has not started; a client registers both sockets with its poller, a server
    -- the control socket
    unfoldable pub start_fresh : ZmqLanTransport F → Exec (ZmqLanTransport F) Unit
    unfolding open_sockets
    start_fresh t = do
      modify (λ t. record t { context = true })
      open_sockets (sockets t) (control_endpoint t) (broadcast_endpoint t)
      modify (λ t. record t { poller = some (if t.is_server then 1 else 2); started = true })

    unfoldable pub start : Exec (ZmqLanTransport F) Unit
    unfolding start_fresh
    start t = if t.started then (ok tt, t) else start_fresh t t

    -- `stop`; the sockets are closed and the context is terminated
    unfoldable pub stop : Exec (ZmqLanTransport F) Unit
    stop t =
        if t.started
        then (
          ok tt,
          record t {
            context = false;
            control_socket = none;
            broadcast_socket = none;
            poller = none;
            started = false;
          },
        )
        else (ok tt, t)
