-- ===== src/Transport/Zmq/Laws.antt =====
-- The lifecycle of the transport of psyexp_net/transport/zmq_lan.py.
use psyexp_net.Prelude.{
  String, Bool, true, false, ◌||◌, some, ◌≡◌, refl, inl, inr, Bool-cases, if◌then◌else◌,
}
use psyexp_net.Config.{AppConfig}
use psyexp_net.Errors.{Result, ok, err, zmq_error}
use psyexp_net.Protocol.Versioning.{IntText}
use psyexp_net.Transport.Zmq.{
  Zmq, ZmqLanTransport, open_sockets, start, start_fresh, stop, sockets, control_endpoint,
  broadcast_endpoint, new,
}

module _ {F : Type 0} (z : Zmq) (int_text : IntText) where
  open z use {refuses}

  -- What `start` comes to: the transport as it is if it has started, and otherwise open, or left
  -- half open by an endpoint that is refused.
  unfoldable pub opened : ZmqLanTransport F → Result (Unit {0}) × ZmqLanTransport F
  opened t =
      let (c, b) = sockets z t in
      let control = control_endpoint z int_text t in
      let broadcasts = broadcast_endpoint z int_text t in
      if refuses control
      then (
        err zmq_error,
        record t { context = true; control_socket = some c; broadcast_socket = some b },
      )
      else if refuses broadcasts
      then (
        err zmq_error,
        record t {
          context = true;
          control_socket = some (record c { endpoint = some control });
          broadcast_socket = some b;
        },
      )
      else (
        ok tt,
        record t {
          context = true;
          control_socket = some (record c { endpoint = some control });
          broadcast_socket = some (record b { endpoint = some broadcasts });
          poller = some (if t.is_server then 1 else 2);
          started = true;
        },
      )

  start_fresh-opened : (t : ZmqLanTransport F) → start_fresh z int_text t t ≡ opened t
  unfolding start_fresh open_sockets opened
  start_fresh-opened t = elim (Bool-cases (refuses (control_endpoint z int_text t))) [
    | inl r ↦ rw r refl
    | inr r ↦ elim (Bool-cases (refuses (broadcast_endpoint z int_text t))) [
      | inl q ↦ rw (r, q) refl
      | inr q ↦ rw (r, q) refl
    ]
  ]

  pub start-opened :
      (t : ZmqLanTransport F) → start z int_text t ≡ (if t.started then (ok tt, t) else opened t)
  unfolding start
  start-opened t = rw (start_fresh-opened t) refl

  -- A transport that has started.
  abbrev pub live : AppConfig F → (is_server : Bool) → (client_id : String) → ZmqLanTransport F
  live c is_server id =
      let t = new c is_server id in
      record t {
        context = true;
        control_socket =
            some (record (sockets z t).0 { endpoint = some (control_endpoint z int_text t) });
        broadcast_socket =
            some (record (sockets z t).1 { endpoint = some (broadcast_endpoint z int_text t) });
        poller = some (if is_server then 1 else 2);
        started = true;
      }

  pub start-new :
      (c : AppConfig F) (is_server : Bool) (id : String)
      → refuses (control_endpoint z int_text (new c is_server id)) ≡ false
      → refuses (broadcast_endpoint z int_text (new c is_server id)) ≡ false
      → start z int_text (new c is_server id) ≡ (ok tt, live c is_server id)
  unfolding start start_fresh open_sockets new
  start-new c is_server id r q = rw (r, q) refl

  -- A new transport whose endpoints pyzmq accepts starts; a second start changes nothing; and a stop
  -- makes it what it was before.
  pub stop-start :
      (c : AppConfig F) (is_server : Bool) (id : String)
      → refuses (control_endpoint z int_text (new c is_server id)) ≡ false
      → refuses (broadcast_endpoint z int_text (new c is_server id)) ≡ false
      → ((start z int_text (new c is_server id)).0 ≡ ok tt)
        × (start z int_text (start z int_text (new c is_server id)).1
            ≡ (ok tt, (start z int_text (new c is_server id)).1))
        × (stop z int_text (start z int_text (new c is_server id)).1 ≡ (ok tt, new c is_server id))
  unfolding stop start new
  stop-start c is_server id r q = rw (start-new c is_server id r q) (refl, refl, refl)

  -- If pyzmq refuses an endpoint of a new transport, `start` raises its error and leaves the context
  -- and two sockets: the control socket, of the type and with the options that it has for its role,
  -- attached if it was the other endpoint that was refused, and the broadcast socket, not attached. A
  -- later `stop` does not close them: it returns and changes nothing.
  pub start-refused :
      (c : AppConfig F) (is_server : Bool) (id : String)
      → (refuses (control_endpoint z int_text (new c is_server id))
          || refuses (broadcast_endpoint z int_text (new c is_server id)))
        ≡ true
      → let t = new c is_server id in
        let failed = start z int_text t in
        (failed.0 ≡ err zmq_error)
        × (failed.1.context ≡ true)
        × (failed.1.started ≡ false)
        × (failed.1.control_socket
            ≡ some (
                if refuses (control_endpoint z int_text t)
                then (sockets z t).0
                else record (sockets z t).0 { endpoint = some (control_endpoint z int_text t) }))
        × (failed.1.broadcast_socket ≡ some (sockets z t).1)
        × (stop z int_text failed.1 ≡ (ok tt, failed.1))
  unfolding stop start start_fresh open_sockets new
  start-refused c is_server id h =
      elim (Bool-cases (refuses (control_endpoint z int_text (new c is_server id)))) [
        | inl r ↦ rw r (refl, refl, refl, refl, refl, refl)
        | inr r ↦ rw (r, rw r at h) (refl, refl, refl, refl, refl, refl)
      ]
