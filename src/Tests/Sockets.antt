-- ===== src/Tests/Sockets.antt =====
-- The transport of psyexp_net/transport/zmq_lan.py at concrete inputs.
use psyexp_net.Prelude.{ℕ, Bool, true, false, some, List, [], ◌∷◌, ◌≡◌, refl, if◌then◌else◌}
use psyexp_net.Config.{default_config}
use psyexp_net.Errors.{ok, err, zmq_error}
use psyexp_net.Protocol.Codec.{encode}
use psyexp_net.Tests.Wire.{marker, one_json, marker-read}
use psyexp_net.Tests.World.{nat_floats, tallies, tally64}
use psyexp_net.Transport.Zmq.{
  Zmq, ZmqLanTransport, Endpoint, on_control, octets, sockets, control_endpoint, new, start, stop,
  start_fresh, open_sockets,
}
use psyexp_net.Transport.Zmq.Exchange.{option_of, recv-send}
use psyexp_net.Transport.Zmq.Invariant.{Call, start_call, send_call, calls, sent_result, send-calls}
use psyexp_net.Transport.Zmq.Laws.{live, start-refused}
use psyexp_net.Transport.Zmq.Wire.{ready, send, recv, received, transmit}

-- A pyzmq with every option, which knows one id.
abbrev zmq_with : (Endpoint → Bool) → Zmq
zmq_with refuses = record {
  has = λ _. true;
  refuses = refuses;
  undelivered = λ _. false;
  to_utf8 = λ _. 97 ∷ [];
  of_utf8 = λ _. some "a";
}

abbrev zmq : Zmq
zmq = zmq_with (λ _. false)

-- A pyzmq that refuses every endpoint, and a server's transport.
abbrev refusing : Zmq
refusing = zmq_with (λ _. true)

abbrev fresh : ZmqLanTransport ℕ
fresh = new default_config true ""

start-refused_example :
    let failed = start refusing tallies fresh in
    (failed.0 ≡ err zmq_error)
    × (failed.1.context ≡ true)
    × (failed.1.started ≡ false)
    × (failed.1.control_socket
        ≡ some (
            if refusing.refuses (control_endpoint refusing tallies fresh)
            then (sockets refusing fresh).0
            else record (sockets refusing fresh).0 {
              endpoint = some (control_endpoint refusing tallies fresh);
            }))
    × (failed.1.broadcast_socket ≡ some (sockets refusing fresh).1)
    × (stop refusing tallies failed.1 ≡ (ok tt, failed.1))
start-refused_example = start-refused refusing tallies default_config true "" refl

abbrev history : List (Call ℕ)
history = start_call ∷ send_call "server" marker ∷ []

send-calls_example :
    (send zmq tally64 one_json "server" marker
      (calls zmq tallies tally64 one_json history (new default_config false "a"))).0
    ≡ sent_result zmq tallies tally64 one_json
        (λ e. on_control (
          if (calls zmq tallies tally64 one_json history (new default_config false "a")).is_server
          then (97 ∷ []) ∷ e ∷ []
          else e ∷ []))
        (encode tally64 one_json marker)
unfolding calls start start_fresh open_sockets new send transmit encode
send-calls_example =
    send-calls zmq tallies tally64 one_json default_config false "a" history "server" marker refl

recv-send_example :
    (option_of "IDENTITY" (sockets zmq (new (default_config {F = ℕ}) false "a")).0.options
      ≡ some (octets (97 ∷ [])))
    × ((send zmq tally64 one_json "server" marker (live zmq tallies default_config false "a")).0
        ≡ ok tt)
    × ((send zmq tally64 one_json "server" marker
          (live zmq tallies default_config false "a")).1.sent_frames
        ≡ on_control ((1 ∷ []) ∷ []) ∷ [])
    × ((recv zmq tally64 one_json "fresh"
          (ready true (97 ∷ []) ((1 ∷ []) ∷ []))
          (live zmq tallies default_config true "")).0
        ≡ ok (received "a" marker "control"))
recv-send_example =
    recv-send zmq tallies tally64 one_json default_config default_config "a" "fresh" marker (1 ∷ [])
      marker-read.0 marker-read.1 refl refl
