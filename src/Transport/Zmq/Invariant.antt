-- ===== src/Transport/Zmq/Invariant.antt =====
-- What holds of a transport of psyexp_net/transport/zmq_lan.py after any calls.
use psyexp_net.Prelude.{
  String, ℕ, Bool, true, false, ◌&&◌, Option, none, some, List, [], ◌∷◌, ◌≡◌, refl, inl, inr,
  Bool-cases, if◌then◌else◌,
}
use psyexp_net.Config.{AppConfig}
use psyexp_net.Errors.{Result, ok, err, need, value_error, zmq_error, Result-cases}
use psyexp_net.Exec.{Exec, pure, lift, modify, ◌>>=◌, ◌>>◌}
use psyexp_net.Exec.Keeps.{Keeps, Keeps-modify, Keeps-if, Keeps-pure, keeps_rules}
use psyexp_net.Protocol.Codec.{Base64, Json, encode, decode}
use psyexp_net.Protocol.Message.{Message}
use psyexp_net.Protocol.Versioning.{IntText}
use psyexp_net.Transport.Zmq.{
  Zmq, ZmqLanTransport, new, Socket, Sent, on_control, on_broadcast, start, stop, control_endpoint,
  broadcast_endpoint,
}
use psyexp_net.Transport.Zmq.Laws.{opened, start-opened}
use psyexp_net.Transport.Zmq.Wire.{
  Polled, nothing, ready, transmit, count_sent, count_broadcast, count_received, received,
  last_frame, is_there, take_polled, send, broadcast, recv, take_message,
}

abbrev pub IsThere : {A : Type 0} → Option A → Type 0
IsThere none = ⊥
IsThere (some a) = Unit

abbrev WholeIf : Bool → Bool → Option Socket → Option Socket → Option ℕ → Type 0
WholeIf false context control broadcasts poller = Unit
WholeIf true context control broadcasts poller =
    (context ≡ true) × IsThere control × IsThere broadcasts × IsThere poller

WholeIf-filled :
    (started context : Bool) (control broadcasts : Option Socket) (poller : Option ℕ) (c b : Socket)
    → WholeIf started context control broadcasts poller
    → WholeIf started true (some c) (some b) poller
WholeIf-filled false context control broadcasts poller c b w = tt
WholeIf-filled true context control broadcasts poller c b w = (refl, tt, tt, w.3)

module _ {F : Type 0} where
  -- A transport that has started has its context, both sockets and its poller.
  abbrev pub IsWhole : ZmqLanTransport F → Type 0
  IsWhole t = WholeIf t.started t.context t.control_socket t.broadcast_socket t.poller

-- The calls of a transport.
pub data Call (F : Type 0) : Type 0 where
  start_call stop_call : Call F
  send_call : String → Message F → Call F
  broadcast_call : Message F → Call F
  recv_call : String → Polled → Call F

module _ {S : Type 0} {P : S → Type 0} where
  -- A method that reads the object that it starts from.
  Keeps-from : {A : Type 0} (m : S → Exec S A) → ((s : S) → Keeps P (m s)) → Keeps P (λ s. m s s)
  Keeps-from m k = record { at = λ s h. (k s).at s h }

module _ {F : Type 0} (z : Zmq) (int_text : IntText) (b64 : Base64) (json : Json F) where
  open z use {refuses, undelivered, to_utf8}

  -- The transport after a call, also after one that raised.
  abbrev pub call : Call F → ZmqLanTransport F → ZmqLanTransport F
  call start_call t = (start z int_text t).1
  call stop_call t = (stop z int_text t).1
  call (send_call p m) t = (send z b64 json p m t).1
  call (broadcast_call m) t = (broadcast z b64 json m t).1
  call (recv_call fresh p) t = (recv z b64 json fresh p t).1

  unfoldable pub calls : List (Call F) → ZmqLanTransport F → ZmqLanTransport F
  calls [] t = t
  calls (c ∷ cs) t = calls cs (call c t)

  stop-IsWhole : (t : ZmqLanTransport F) → IsWhole t → IsWhole (stop z int_text t).1
  unfolding stop
  stop-IsWhole t w = elim (Bool-cases t.started) [ inl s ↦ rw s tt | inr s ↦ rw s tt ]

  filled :
      (t : ZmqLanTransport F)
      → IsWhole t
      → (c b : Socket) → WholeIf t.started true (some c) (some b) t.poller
  filled t w c b =
      WholeIf-filled t.started t.context t.control_socket t.broadcast_socket t.poller c b w

  opened-IsWhole : (t : ZmqLanTransport F) → IsWhole t → IsWhole (opened z int_text t).1
  unfolding opened
  opened-IsWhole t w = elim (Bool-cases (refuses (control_endpoint z int_text t))) [
    | inl r ↦ rw r (filled t w _ _)
    | inr r ↦ elim (Bool-cases (refuses (broadcast_endpoint z int_text t))) [
      | inl q ↦ rw (r, q) (filled t w _ _)
      | inr q ↦ rw (r, q) (refl, tt, tt, tt)
    ]
  ]

  start-IsWhole : (t : ZmqLanTransport F) → IsWhole t → IsWhole (start z int_text t).1
  start-IsWhole t w = rw (start-opened z int_text t) (either t.started)
    where
      either : (b : Bool) → IsWhole (if b then (ok tt, t) else opened z int_text t).1
      either true = w
      either false = opened-IsWhole t w

  transmit-Keeps : (o : Option Socket) (f : Sent) → Keeps IsWhole (transmit z b64 json o f)
  unfolding transmit
  transmit-Keeps none f = record { at = λ s h. h }
  transmit-Keeps (some o) f = record {
    at = λ s h. elim (Bool-cases (undelivered f)) [ inl u ↦ rw u h | inr u ↦ rw u h ];
  }

  sending :
      (f : List ℕ → Sent) (m : Message F) (o : Option Socket)
      (count : ZmqLanTransport F → ZmqLanTransport F)
      → ((t : ZmqLanTransport F) → IsWhole t → IsWhole (count t))
      → Keeps IsWhole (do e ← lift (encode b64 json m); transmit z b64 json o (f e); modify count)
  sending f m o count k = search (keeps_rules, Keeps-modify, transmit-Keeps, k)

  send-Keeps : (p : String) (m : Message F) → Keeps IsWhole (send z b64 json p m)
  unfolding send
  send-Keeps p m =
      Keeps-from
        (λ t. do
          e ← lift (encode b64 json m)
          transmit z b64 json t.control_socket
              (on_control (if t.is_server then to_utf8 p ∷ e ∷ [] else e ∷ []))
          count_sent)
        (λ t.
          sending (λ e. on_control (if t.is_server then to_utf8 p ∷ e ∷ [] else e ∷ [])) m
            t.control_socket _ (λ t w. w))

  broadcast-Keeps : (m : Message F) → Keeps IsWhole (broadcast z b64 json m)
  unfolding broadcast
  broadcast-Keeps m =
      Keeps-from
        (λ t.
          if t.is_server
          then (do
            e ← lift (encode b64 json m)
            transmit z b64 json t.broadcast_socket (on_broadcast (e ∷ []))
            count_broadcast)
          else send z b64 json "server" m)
        (λ t.
          Keeps-if t.is_server _ _
            (sending (λ e. on_broadcast (e ∷ [])) m t.broadcast_socket _ (λ t w. w))
            (send-Keeps "server" m))

  take_message-Keeps :
      (fresh : String) (c : Bool) (first : List ℕ) (rest : List (List ℕ))
      → Keeps IsWhole (take_message z b64 json fresh c first rest)
  unfolding take_message
  take_message-Keeps fresh c first rest =
      Keeps-from
        (λ t.
          if t.is_server
          then (do
            peer_id ← lift (need value_error (z.of_utf8 first))
            message ← lift (decode b64 json fresh (last_frame first rest))
            count_received
            pure (received peer_id message "control"))
          else (do
            count_received
            message ← lift (decode b64 json fresh first)
            pure (received "server" message (if c then "control" else "broadcast"))))
        (λ t. search (keeps_rules, Keeps-modify))

  take_polled-Keeps : (fresh : String) (p : Polled) → Keeps IsWhole (take_polled z b64 json fresh p)
  take_polled-Keeps fresh nothing = Keeps-pure none
  take_polled-Keeps fresh (ready c first rest) = take_message-Keeps fresh c first rest

  recv-IsWhole :
      (fresh : String) (p : Polled) (t : ZmqLanTransport F)
      → IsWhole t
      → IsWhole (recv z b64 json fresh p t).1
  unfolding recv
  recv-IsWhole fresh p t w =
      (Keeps-if (t.started && is_there t.poller) (take_polled z b64 json fresh p) (pure none)
          (take_polled-Keeps fresh p) (Keeps-pure none)).at
        t w

  calls-IsWhole : (cs : List (Call F)) (t : ZmqLanTransport F) → IsWhole t → IsWhole (calls cs t)
  unfolding calls
  calls-IsWhole [] t w = w
  calls-IsWhole (c ∷ cs) t w = calls-IsWhole cs (call c t) (step c)
    where
      step : (c : Call F) → IsWhole (call c t)
      step start_call = start-IsWhole t w
      step stop_call = stop-IsWhole t w
      step (send_call p m) = (send-Keeps p m).at t w
      step (broadcast_call m) = (broadcast-Keeps m).at t w
      step (recv_call fresh p) = recv-IsWhole fresh p t w

  -- What a send raises when the socket is there.
  abbrev pub sent_result : (List ℕ → Sent) → Result (List ℕ) → Result (Unit {0})
  sent_result f (err x) = err x
  sent_result f (ok e) = if undelivered (f e) then err zmq_error else ok tt

  sending-IsThere :
      (f : List ℕ → Sent) (m : Message F) (o : Option Socket)
      (count : ZmqLanTransport F → ZmqLanTransport F) (t : ZmqLanTransport F)
      → IsThere o
      → ((do e ← lift (encode b64 json m); transmit z b64 json o (f e); modify count) t).0
        ≡ sent_result f (encode b64 json m)
  unfolding transmit
  sending-IsThere f m none count t h = elim h [ ]
  sending-IsThere f m (some k) count t h = elim (Result-cases (encode b64 json m)) [
    | inr (x, bad) ↦ rw bad refl
    | inl (e, good) ↦ elim (Bool-cases (undelivered (f e))) [
      | inl u ↦ rw (good, u) refl
      | inr u ↦ rw (good, u) refl
    ]
  ]

  control-IsThere :
      (started context : Bool) (control broadcasts : Option Socket) (poller : Option ℕ)
      → started ≡ true
      → WholeIf started context control broadcasts poller
      → IsThere control
  control-IsThere true context control broadcasts poller s w = w.1
  control-IsThere false context control broadcasts poller s w = cc

  new-IsWhole : (c : AppConfig F) (is_server : Bool) (id : String) → IsWhole (new c is_server id)
  unfolding new
  new-IsWhole c is_server id = tt

  -- After any calls on a new transport, whatever they raised and whatever the polls found: if it
  -- counts as started, a send raises only what the encoding of the message or the delivery raises,
  -- never an AttributeError for a socket that is not there.
  pub send-calls :
      (c : AppConfig F) (is_server : Bool) (id : String) (cs : List (Call F)) (p : String)
      (m : Message F)
      → (calls cs (new c is_server id)).started ≡ true
      → (send z b64 json p m (calls cs (new c is_server id))).0
        ≡ sent_result
            (λ e.
              on_control
                (if (calls cs (new c is_server id)).is_server then to_utf8 p ∷ e ∷ [] else e ∷ []))
            (encode b64 json m)
  unfolding send
  send-calls c is_server id cs p m s =
      let t = calls cs (new c is_server id) in
      let whole = calls-IsWhole cs (new c is_server id) (new-IsWhole c is_server id) in
      let there =
        control-IsThere t.started t.context t.control_socket t.broadcast_socket t.poller s whole in
      sending-IsThere (λ e. on_control (if t.is_server then to_utf8 p ∷ e ∷ [] else e ∷ [])) m
        t.control_socket _ t there
