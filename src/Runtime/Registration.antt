-- ===== src/Runtime/Registration.antt =====
-- A registration from end to end: `register` of psyexp_net/runtime/client.py, `_handle_register` of
-- psyexp_net/runtime/server.py, and what the client makes of the answer.
use psyexp_net.Prelude.{
  String, Bool, Option, none, some, List, [], ◌∷◌, ◌++◌, map, ◌+◌, ◌≡◌, refl, string_eq,
}
use psyexp_net.Enums.{MessageType, message_type_value, ClientStatus, client_status_value}
use psyexp_net.Errors.{ok}
use psyexp_net.Floats.{Floats}
use psyexp_net.Protocol.Message.{Message, create}
use psyexp_net.Protocol.Versioning.{IntText, NegotiatedProtocol, negotiate_protocol}
use psyexp_net.Runtime.Client.Requests.{
  registration, capabilities_of, finish_register, finish_exchange, accept, apply_register_snapshot,
  apply_session, to_text,
}
use psyexp_net.Runtime.Client.State.{Client, set_status}
use psyexp_net.Runtime.Registry
use psyexp_net.Runtime.Registry.{ClientInfo, ClientRegistry, register_or_refresh}
use psyexp_net.Runtime.Server.Register.{
  accepted, client_info, secret_of, server_capabilities, enter, try_register, handle_register,
}
use psyexp_net.Runtime.Server.Register.Laws.{handle_register-eq}
use psyexp_net.Runtime.Server.State.{Server, unicast, monotonic}
use psyexp_net.Runtime.Session.Laws.{apply_snapshot-of_dict}
use psyexp_net.Security.{validate}
use psyexp_net.Value.{Value, str, obj, opt_str, items, list_of}
use psyexp_net.Value.Typed.{str_items}

list_of-items : {F : Type 0} (vs : List (Value F)) → list_of (items vs) ≡ vs
list_of-items [] = refl
list_of-items (v ∷ vs) = rw (list_of-items vs)

-- Texts come back from JSON as they were.
texts_back :
    {F : Type 0} (show : Value F → String) (ts : List String)
    → map (to_text show) (list_of (items (map str ts))) ≡ ts
texts_back show [] = refl
texts_back show (t ∷ ts) = rw (texts_back show ts)

str_items-str : (F : Type 0) (ts : List String) → str_items {F = F} (items (map str ts)) ≡ ok ts
str_items-str F [] = refl
str_items-str F (t ∷ ts) = rw (str_items-str F ts)

secret_of-opt_str :
    (F : Type 0) ⦃fl : Floats F⦄ (text : IntText) (o : Option String)
    → secret_of text (some (opt_str {F = F} o)) ≡ o
secret_of-opt_str F text none = refl
secret_of-opt_str F text (some s) = refl

module _ {F : Type 0} ⦃fl : Floats F⦄ (text : IntText) where
  -- What the server compares a registration of the client with, and the entry that it makes.
  abbrev pub IsAgreed : Client F → Server F → NegotiatedProtocol → Type 0
  IsAgreed c s protocol =
      negotiate_protocol text s.config.protocol.version c.config.protocol.version
        (server_capabilities s.config.security.require_secret)
        (capabilities_of c.identity.client_secret)
      ≡ ok protocol

  abbrev pub entry : Client F → Server F → NegotiatedProtocol → ClientInfo F
  entry c s protocol =
      client_info text c.client_id c.role protocol (s.env.clock s.env.ticks)
        (s.env.clock (s.env.ticks + 1))

  -- the server behind the attempt, which has read the clock three times
  abbrev entered_in : ClientRegistry F → Server F → Server F
  entered_in reg s = record s {
    registry = reg;
    env = record s.env { ticks = s.env.ticks + 1 + 1 + 1 };
  }

  try_register-registration :
      (c : Client F) (s : Server F) (protocol : NegotiatedProtocol) (info : ClientInfo F)
      (refreshed : Bool) (reg : ClientRegistry F)
      → IsAgreed c s protocol
      → validate s.config.security c.client_id c.identity.client_secret ≡ ok tt
      → register_or_refresh (s.env.clock (s.env.ticks + 1 + 1)) (entry c s protocol) s.registry
        ≡ ok (info, refreshed, reg)
      → try_register text c.client_id (registration c) s
        ≡ (ok (accepted text (entered_in reg s) protocol info refreshed), entered_in reg s)
  unfolding try_register monotonic enter
  try_register-registration c s protocol info refreshed reg agreed known entered =
      rw
        (
          str_items-str F (capabilities_of c.identity.client_secret),
          agreed,
          secret_of-opt_str F text c.identity.client_secret,
          known,
          enter,
          entered,
        )
        refl

  -- the client that has been accepted by the server
  abbrev pub joined : Client F → Server F → NegotiatedProtocol → Client F
  joined c s protocol = record c {
    status = client_status_value ClientStatus.registered;
    session = s.session;
    registry_snapshot = Registry.snapshot s.registry;
    negotiated_protocol_version = protocol.version;
    negotiated_capabilities = protocol.capabilities;
  }

  finish_register-accepted :
      (c : Client F) (s : Server F) (protocol : NegotiatedProtocol) (info : ClientInfo F)
      (refreshed : Bool) (m : Message F)
      → m.msg_type ≡ message_type_value MessageType.register_ok
      → m.payload ≡ obj (accepted text s protocol info refreshed)
      → finish_register m c ≡ (ok tt, joined c s protocol)
  unfolding finish_register finish_exchange set_status accept apply_register_snapshot apply_session
  finish_register-accepted c s protocol info refreshed m ok_type offer =
      let (p, read, applied) = apply_snapshot-of_dict F s.session c.session in
      rw
        (
          ok_type,
          offer,
          read,
          applied,
          list_of-items (Registry.snapshot {F = F} s.registry),
          texts_back c.env.show protocol.capabilities,
        )
        refl

  -- A client whose version the server's agrees with, who presents the secret that its id needs, if
  -- any, whom the registry takes and to whom the transport takes messages: the server answers its registration with one message, to it and
  -- in reply to its REGISTER. With that message `register` returns, and the client then is
  -- REGISTERED, has the server's session and the server's registry, which is the one that has taken
  -- it, and the protocol version and the capabilities that the server has negotiated. Its id, role,
  -- configuration and clock estimate are as before.
  pub finish_register-handle_register :
      (c : Client F) (s : Server F) (protocol : NegotiatedProtocol) (info : ClientInfo F)
      (refreshed : Bool) (reg : ClientRegistry F) (m : Message F)
      → m.payload ≡ obj (registration c)
      → ((o : Message F) → s.env.refuses (unicast c.client_id o) ≡ none)
      → IsAgreed c s protocol
      → validate s.config.security c.client_id c.identity.client_secret ≡ ok tt
      → register_or_refresh (s.env.clock (s.env.ticks + 1 + 1)) (entry c s protocol) s.registry
        ≡ ok (info, refreshed, reg)
      → (response : Message F) × ((handle_register text c.client_id m s).1.env.outbox
          ≡ s.env.outbox ++ unicast c.client_id response ∷ [])
        × (response.reply_to ≡ some m.msg_id)
        × ((handle_register text c.client_id m s).1.registry ≡ reg)
        × ((handle_register text c.client_id m s).1.session ≡ s.session)
        × (finish_register response c
            ≡ (ok tt, joined c (handle_register text c.client_id m s).1 protocol))
  unfolding create
  finish_register-handle_register c s protocol info refreshed reg m sent takes agreed known
        entered =
      let tried = try_register-registration c s protocol info refreshed reg agreed known entered in
      let offer = accepted text (entered_in reg s) protocol info refreshed in
      let handled =
        handle_register-eq text c.client_id m (registration c) s MessageType.register_ok offer sent
          takes (rw tried refl) in
      rw (handled, tried)
        (
          _,
          refl,
          refl,
          refl,
          refl,
          finish_register-accepted c (entered_in reg s) protocol info refreshed _ refl refl,
        )
