-- ===== src/Transport/Zmq/Backend.antt =====
-- psyexp_net/transport/zmq_lan.py as a transport: its methods at one reading of a new id and of a poll.
use psyexp_net.Prelude.{String}
use psyexp_net.Protocol.Codec.{Base64, Json}
use psyexp_net.Protocol.Versioning.{IntText}
use psyexp_net.Transport.{TransportBackend}
use psyexp_net.Transport.Memory.Backends.{counters}
use psyexp_net.Transport.Zmq
use psyexp_net.Transport.Zmq.{ZmqLanTransport}
use psyexp_net.Transport.Zmq.Wire
use psyexp_net.Transport.Zmq.Wire.{Polled}
use psyexp_net.Value.{Fields}

module _ {F : Type 0} where
  unfoldable pub get_metrics : ZmqLanTransport F → Fields F
  get_metrics t = counters t.metrics

module _ {F : Type 0} (z : Zmq.Zmq) (int_text : IntText) (b64 : Base64) (json : Json F) where
  -- `ZmqLanTransport`
  unfoldable pub zmq_backend : (fresh : String) → Polled → TransportBackend (ZmqLanTransport F) F
  unfolding get_metrics
  zmq_backend fresh polled = record {
    start = Zmq.start z int_text;
    stop = Zmq.stop z int_text;
    send = Wire.send z b64 json;
    broadcast = Wire.broadcast z b64 json;
    recv = Wire.recv z b64 json fresh polled;
    get_metrics = get_metrics;
  }
