-- ===== src/Transport/Zmq/Wire.antt =====
-- Messages through psyexp_net/transport/zmq_lan.py: `send`, `broadcast` and `recv`. The frames of a
-- ZeroMQ message are lists of bytes; what a poll finds is input.
use psyexp_net.Prelude.{
  String, ℕ, ◌+◌, Bool, true, false, ◌&&◌, Option, none, some, List, [], ◌∷◌, ◌++◌, if◌then◌else◌,
}
use psyexp_net.Errors.{ok, err, attribute_error, value_error, zmq_error, need}
use psyexp_net.Exec.{Exec, pure, lift, modify, ◌>>=◌, ◌>>◌}
use psyexp_net.Protocol.Codec.{Base64, Json, encode, decode}
use psyexp_net.Protocol.Message.{Message}
use psyexp_net.Transport.{ReceivedMessage}
use psyexp_net.Transport.Zmq.{Zmq, ZmqLanTransport, Sent, on_control, on_broadcast, Socket}

-- What a poll finds: nothing in time, or a message on the control or another socket, with its first
-- frame and the others.
pub data Polled : Type 0 where
  nothing : Polled
  ready : (control_ready : Bool) → List ℕ → List (List ℕ) → Polled

abbrev pub is_there {ℓ} : {A : Type ℓ} → Option A → Bool
is_there none = false
is_there (some a) = true

-- parts[-1]
abbrev pub last_frame : List ℕ → List (List ℕ) → List ℕ
last_frame p [] = p
last_frame p (q ∷ ps) = last_frame q ps

module _ {F : Type 0} where
  abbrev pub count_sent : Exec (ZmqLanTransport F) Unit
  count_sent = modify (λ t. record t { metrics = record t.metrics { sent = t.metrics.sent + 1 } })

  abbrev pub count_broadcast : Exec (ZmqLanTransport F) Unit
  count_broadcast = modify (λ t. record t {
    metrics = record t.metrics { broadcast_sent = t.metrics.broadcast_sent + 1 };
  })

  abbrev pub count_received : Exec (ZmqLanTransport F) Unit
  count_received =
      modify (λ t. record t { metrics = record t.metrics { received = t.metrics.received + 1 } })

  abbrev pub received :
      (peer_id : String) → Message F → (channel : String) → Option (ReceivedMessage F)
  received peer_id message channel =
      some (record { peer_id = peer_id; message = message; channel = channel })

module _ {F : Type 0} (z : Zmq) (b64 : Base64) (json : Json F) where
  open z use {undelivered, to_utf8, of_utf8}

  -- send or send_multipart of a socket, which must be there
  unfoldable pub transmit : Option Socket → Sent → Exec (ZmqLanTransport F) Unit
  transmit none frames t = (err attribute_error, t)
  transmit (some s) frames t =
      if undelivered frames
      then (err zmq_error, t)
      else (ok tt, record t { sent_frames = t.sent_frames ++ frames ∷ [] })

  unfoldable pub send : (peer_id : String) → Message F → Exec (ZmqLanTransport F) Unit
  unfolding transmit
  send peer_id message t =
      (do
        encoded ← lift (encode b64 json message)
        transmit t.control_socket
            (on_control (if t.is_server then to_utf8 peer_id ∷ encoded ∷ [] else encoded ∷ []))
        count_sent)
        t

  unfoldable pub broadcast : Message F → Exec (ZmqLanTransport F) Unit
  unfolding send transmit
  broadcast message t =
      (if t.is_server
          then (do
            encoded ← lift (encode b64 json message)
            transmit t.broadcast_socket (on_broadcast (encoded ∷ []))
            count_broadcast)
          else send "server" message)
        t

  -- `recv` when a message is there; the id in the first frame must be UTF-8
  unfoldable pub take_message :
      (fresh : String) (control_ready : Bool)
      → List ℕ
      → List (List ℕ)
      → Exec (ZmqLanTransport F) (Option (ReceivedMessage F))
  take_message fresh control_ready first rest t =
      (if t.is_server
          then (do
            peer_id ← lift (need value_error (of_utf8 first))
            message ← lift (decode b64 json fresh (last_frame first rest))
            count_received
            pure (received peer_id message "control"))
          else (do
            count_received
            message ← lift (decode b64 json fresh first)
            pure (received "server" message (if control_ready then "control" else "broadcast"))))
        t

  abbrev pub take_polled :
      (fresh : String) → Polled → Exec (ZmqLanTransport F) (Option (ReceivedMessage F))
  take_polled fresh nothing = pure none
  take_polled fresh (ready control_ready first rest) = take_message fresh control_ready first rest

  unfoldable pub recv :
      (fresh : String) → Polled → Exec (ZmqLanTransport F) (Option (ReceivedMessage F))
  unfolding take_message
  recv fresh polled t =
      (if t.started && is_there t.poller then take_polled fresh polled else pure none) t
