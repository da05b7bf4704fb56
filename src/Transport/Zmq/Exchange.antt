-- ===== src/Transport/Zmq/Exchange.antt =====
-- Messages between two transports of psyexp_net/transport/zmq_lan.py.
use psyexp_net.Prelude.{
  String, ℕ, true, false, Option, none, some, List, [], ◌∷◌, ◌++◌, ◌≡◌, refl, ◌==◌, string_eq,
  if◌then◌else◌, beq_self,
}
use psyexp_net.Config.{AppConfig}
use psyexp_net.Errors.{ok}
use psyexp_net.Protocol.Codec.{Base64, Json, encode, decode}
use psyexp_net.Protocol.Message.{Message}
use psyexp_net.Protocol.Versioning.{IntText}
use psyexp_net.Transport.Zmq.{
  Zmq, on_control, Setting, octets, sockets, new, configure_client_sockets,
}
use psyexp_net.Transport.Zmq.Laws.{live}
use psyexp_net.Transport.Zmq.Wire.{ready, send, recv, received, transmit, take_message}

-- The setting of an option, the last one that was made.
unfoldable pub option_of : String → List (String × Setting) → Option Setting
option_of k [] = none
option_of k ((j, v) ∷ os) = elim (option_of k os) [
  | some w ↦ some w
  | none ↦ if j == k then some v else none
]

option_of-append :
    (k : String) (v : Setting) (os : List (String × Setting))
    → option_of k (os ++ (k, v) ∷ []) ≡ some v
unfolding option_of
option_of-append k v [] = rw (beq_self k) refl
option_of-append k v ((j, w) ∷ os) = rw (option_of-append k v os) refl

module _ {F : Type 0} (z : Zmq) (int_text : IntText) (b64 : Base64) (json : Json F) where
  open z use {undelivered, to_utf8, of_utf8}

  -- A started client sends the bytes of the message as one frame, on a socket whose identity is its
  -- id. A started server that receives them behind that identity, as a ROUTER socket yields them,
  -- takes them for the same message of that client. The delivery must not fail, the id must read
  -- back from UTF-8 and the codec must read back the message.
  pub recv-send :
      (c c' : AppConfig F) (id fresh : String) (m : Message F) (b : List ℕ)
      → encode b64 json m ≡ ok b
      → decode b64 json fresh b ≡ ok m
      → of_utf8 (to_utf8 id) ≡ some id
      → undelivered (on_control (b ∷ [])) ≡ false
      → (option_of "IDENTITY" (sockets z (new c false id)).0.options ≡ some (octets (to_utf8 id)))
        × ((send z b64 json "server" m (live z int_text c false id)).0 ≡ ok tt)
        × ((send z b64 json "server" m (live z int_text c false id)).1.sent_frames
            ≡ on_control (b ∷ []) ∷ [])
        × ((recv z b64 json fresh (ready true (to_utf8 id) (b ∷ [])) (live z int_text c' true "")).0
            ≡ ok (received id m "control"))
  unfolding send recv transmit take_message sockets new configure_client_sockets
  recv-send c c' id fresh m b enc dec utf8 sent = (
    option_of-append "IDENTITY" (octets (to_utf8 id)) _,
    rw (enc, sent) refl,
    rw (enc, sent) refl,
    rw (utf8, dec) refl,
  )

  -- A started server sends the bytes of a message behind the id of the client. The client, which
  -- gets the frame behind it, as a ROUTER socket strips the first, takes it for the same message of
  -- the server. The delivery must not fail and the codec must read back the message.
  pub recv-send_server :
      (c c' : AppConfig F) (id fresh : String) (m : Message F) (b : List ℕ)
      → encode b64 json m ≡ ok b
      → decode b64 json fresh b ≡ ok m
      → undelivered (on_control (to_utf8 id ∷ b ∷ [])) ≡ false
      → ((send z b64 json id m (live z int_text c' true "")).1.sent_frames
          ≡ on_control (to_utf8 id ∷ b ∷ []) ∷ [])
        × ((recv z b64 json fresh (ready true b []) (live z int_text c false id)).0
            ≡ ok (received "server" m "control"))
  unfolding send recv transmit take_message new
  recv-send_server c c' id fresh m b enc dec sent = (rw (enc, sent) refl, rw dec refl)
