-- ===== src/Runtime/Server/Register/Laws.antt =====
-- What `_handle_register` of psyexp_net/runtime/server.py answers, and what a refusal leaves.
use psyexp_net.Prelude.{
  String, ◌+◌, Bool, true, false, Option, none, some, List, [], ◌∷◌, ◌++◌, ◌≡◌, refl, ap, subst,
  inl, inr, ◌∙◌,
}
use psyexp_net.Config.{AppConfig}
use psyexp_net.Enums.{MessageType, message_type_value, ErrorCode, Priority, priority_value}
use psyexp_net.Errors.{
  Error, Result, ok, err, version_mismatch, authentication, duplicate_client, Result-cases,
}
use psyexp_net.Exec.{Exec, ◌>>=◌, ◌>>◌, lift, gets, after}
use psyexp_net.Exec.Keeps.{Keeps, keeps_rules}
use psyexp_net.Floats.{Floats}
use psyexp_net.Protocol.Message.{Message, create}
use psyexp_net.Protocol.Versioning.{IntText, NegotiatedProtocol}
use psyexp_net.Runtime.Registry
use psyexp_net.Runtime.Registry.{ClientInfo}
use psyexp_net.Runtime.Server.Register.{
  enter, try_register, accepted, rejected, answer, respond, handle_register,
}
use psyexp_net.Runtime.Server.State.{Server, Outgoing, unicast, monotonic, new_uuid, make_message}
use psyexp_net.Runtime.Server.State.Recording.{fields_json-as_dict, with_row, sent_to, send-record}
use psyexp_net.Runtime.Session
use psyexp_net.Value.{obj, str, Fields, field, end}
use psyexp_net.Value.Json.{is_json, fields_json, items_json-texts, items_json-map}

-- The registry is this one.
abbrev Registered : {F : Type 0} → Registry.ClientRegistry F → Server F → Type 0
Registered r s = s.registry ≡ r

-- A method that leaves the registry as it was where it raises.
record IsAtomic {F A : Type 0} (m : Exec (Server F) A) : Type 0 where
  pub at : (s : Server F) (e : Error) → (m s).0 ≡ err e → (m s).1.registry ≡ s.registry

module _ {F : Type 0} where
  IsAtomic-lift : {A : Type 0} (r : Result A) → IsAtomic {F = F} (lift r)
  IsAtomic-lift r = record { at = λ s e h. refl }

  IsAtomic-after :
      {A B : Type 0} (r : Result A) (s s' : Server F) (f : A → Exec (Server F) B)
      → s'.registry ≡ s.registry
      → ((a : A) → IsAtomic (f a))
      → (e : Error) → (after r s' f).0 ≡ err e
      → (after r s' f).1.registry ≡ s.registry
  IsAtomic-after (ok a) s s' f same k e h = (k a).at s' e h ∙ same
  IsAtomic-after (err x) s s' f same k e h = same

  -- A method that never changes the registry, and an atomic one behind it.
  IsAtomic-bind :
      {A B : Type 0} (m : Exec (Server F) A) (f : A → Exec (Server F) B)
      → ((r : Registry.ClientRegistry F) → Keeps (Registered r) m)
      → ((a : A) → IsAtomic (f a))
      → IsAtomic (m >>= f)
  IsAtomic-bind m f km kf = record {
    at = λ s e h. let (r, s') = m s in IsAtomic-after r s s' f ((km s.registry).at s refl) kf e h;
  }

  IsAtomic-seq :
      {B : Type 0} (m : Exec (Server F) Unit) (k : Exec (Server F) B)
      → ((r : Registry.ClientRegistry F) → Keeps (Registered r) m)
      → IsAtomic k
      → IsAtomic (m >> k)
  IsAtomic-seq m k km kk = record {
    at = λ s e h.
        let (r, s') = m s in
        IsAtomic-after r s s' (λ _. k) ((km s.registry).at s refl) (λ _. kk) e h;
  }

  Keeps-monotonic : (r : Registry.ClientRegistry F) → Keeps (Registered r) (monotonic {F = F})
  unfolding monotonic
  Keeps-monotonic r = record { at = λ s h. h }

  Keeps-lift :
      {A : Type 0} (x : Result A) (r : Registry.ClientRegistry F) → Keeps (Registered r) (lift x)
  Keeps-lift x r = record { at = λ s h. h }

  Keeps-gets :
      {A : Type 0} (f : Server F → A) (r : Registry.ClientRegistry F)
      → Keeps (Registered r) (gets f)
  Keeps-gets f r = record { at = λ s h. h }

module _ {F : Type 0} ⦃fl : Floats F⦄ (text : IntText) where
  IsAtomic-enter :
      {A : Type 0} (now : F) (info : ClientInfo F) (f : ClientInfo F × Bool → Server F → A)
      → IsAtomic (enter text now info >>= (λ x. gets (f x)))
  unfolding enter
  IsAtomic-enter now info f = record {
    at = λ s e h. elim (Result-cases (Registry.register_or_refresh now info s.registry)) [
      | inl (x, stored) ↦ cc (rw (stored, enter) at h)
      | inr (x, refused) ↦ rw (enter, refused)
    ];
  }

  IsAtomic-try_register : (peer : String) (fs : Fields F) → IsAtomic (try_register text peer fs)
  unfolding try_register
  IsAtomic-try_register peer fs =
      search (IsAtomic-bind, IsAtomic-seq, IsAtomic-enter, Keeps-monotonic, Keeps-lift, Keeps-gets)
        depth 30

append-eq : {A : Type 0} {xs ys : List A} (x : A) → xs ≡ ys → xs ++ x ∷ [] ≡ ys ++ x ∷ []
append-eq x e = ap (λ zs. zs ++ x ∷ []) e

-- The configuration, what was sent and what the transport refuses are these.
abbrev Quiet :
    {F : Type 0} → AppConfig F → List (Outgoing F) → (Outgoing F → Option Error) → Server F → Type 0
Quiet c o r s = (s.config ≡ c) × (s.env.outbox ≡ o) × (s.env.refuses ≡ r)

module _ {F : Type 0} {c : AppConfig F} {o : List (Outgoing F)}
    {r : Outgoing F → Option Error} where
  Quiet-monotonic : Keeps (Quiet c o r) monotonic
  unfolding monotonic
  Quiet-monotonic = record { at = λ s h. h }

module _ {F : Type 0} ⦃fl : Floats F⦄ (text : IntText) {c : AppConfig F} {o : List (Outgoing F)}
    {r : Outgoing F → Option Error} where
  Quiet-enter : (now : F) (info : ClientInfo F) → Keeps (Quiet c o r) (enter text now info)
  unfolding enter
  Quiet-enter now info = record {
    at = λ s h. elim (Result-cases (Registry.register_or_refresh now info s.registry)) [
      | inl (x, stored) ↦ rw (enter, stored) h
      | inr (x, refused) ↦ rw (enter, refused) h
    ];
  }

  Quiet-try_register :
      (peer : String) (fs : Fields F) → Keeps (Quiet c o r) (try_register text peer fs)
  unfolding try_register
  Quiet-try_register peer fs = search (keeps_rules, Quiet-monotonic, Quiet-enter) depth 30

-- What a method returns, if it returns, is such.
record Gives {F A : Type 0} (P : A → Type 0) (m : Exec (Server F) A) : Type 0 where
  pub at : (s : Server F) (a : A) → (m s).0 ≡ ok a → P a

module _ {F A : Type 0} {P : A → Type 0} where
  Gives-gets : (f : Server F → A) → ((s : Server F) → P (f s)) → Gives P (gets f)
  Gives-gets f h = record { at = λ s a e. let same : f s ≡ a = cc in subst P same (h s) }

  Gives-after :
      {B : Type 0} (r : Result B) (s : Server F) (f : B → Exec (Server F) A)
      → ((b : B) → Gives P (f b))
      → (a : A) → (after r s f).0 ≡ ok a
      → P a
  Gives-after (ok b) s f h a e = (h b).at s a e
  Gives-after (err x) s f h a e = cc

  Gives-bind :
      {B : Type 0} (m : Exec (Server F) B) (f : B → Exec (Server F) A)
      → ((b : B) → Gives P (f b))
      → Gives P (m >>= f)
  Gives-bind m f h = record { at = λ s a e. let (r, s') = m s in Gives-after r s' f h a e }

  Gives-seq : (m : Exec (Server F) Unit) (k : Exec (Server F) A) → Gives P k → Gives P (m >> k)
  Gives-seq m k h = record {
    at = λ s a e. let (r, s') = m s in Gives-after r s' (λ _. k) (λ _. h) a e;
  }

-- It holds no bytes.
abbrev IsPlain : {F : Type 0} → Fields F → Type 0
IsPlain fs = fields_json fs ≡ true

is_json-client_row : (F : Type 0) (c : ClientInfo F) → is_json (Registry.client_row c) ≡ true
unfolding is_json
is_json-client_row F c = refl

module _ {F : Type 0} ⦃fl : Floats F⦄ (text : IntText) where
  IsPlain-accepted :
      (protocol : NegotiatedProtocol) (info : ClientInfo F) (refreshed : Bool) (s : Server F)
      → IsPlain (accepted text s protocol info refreshed)
  unfolding is_json Registry.snapshot
  IsPlain-accepted protocol info refreshed s =
      rw
        (
          fields_json-as_dict F (Session.snapshot s.session),
          items_json-map Registry.client_row (is_json-client_row F) (Registry.all s.registry),
          items_json-texts F protocol.capabilities,
        )
        refl

  Gives-try_register : (peer : String) (fs : Fields F) → Gives IsPlain (try_register text peer fs)
  unfolding try_register
  Gives-try_register peer fs = search (Gives-bind, Gives-seq, Gives-gets, IsPlain-accepted) depth 30

  IsPlain-answer :
      (version : String) (r : Result (Fields F)) (t : MessageType) (reply : Fields F)
      → ((p : Fields F) → r ≡ ok p → IsPlain p)
      → answer text version r ≡ ok (t, reply)
      → IsPlain reply
  unfolding is_json
  IsPlain-answer version (ok p) t reply h e = let same : p ≡ reply = cc in rw (← same) (h p refl)
  IsPlain-answer version (err (version_mismatch reason)) t reply h e =
      let same : rejected text ErrorCode.version_mismatch
            (field "server_protocol_version" (str version) (field "reason" (str reason) end))
          ≡ reply =
        cc in
      rw (← same) refl
  IsPlain-answer version (err authentication) t reply h e =
      let same : rejected text ErrorCode.auth_failed end ≡ reply = cc in rw (← same) refl
  IsPlain-answer version (err duplicate_client) t reply h e =
      let same : rejected text ErrorCode.duplicate_client_id end ≡ reply = cc in rw (← same) refl
  IsPlain-answer version (err _) t reply h e = cc

  -- the message that answers, made in this state
  abbrev pub response_of : MessageType → Fields F → (reply_to : String) → Server F → Message F
  response_of t reply reply_to s = record {
    header =
        record (create (s.env.clock s.env.ticks) (s.env.uuids s.env.issued) (message_type_value t)
          "server" "server" s.session.session_id none false (some reply_to)
          (priority_value Priority.normal) none) {
            server_ts = some (s.env.clock (s.env.ticks + 1));
          };
    payload = obj reply;
    attachments = [];
  }

  -- and the state behind it
  abbrev pub responded : MessageType → Fields F → (peer reply_to : String) → Server F → Server F
  responded t reply peer reply_to s =
      let m = response_of t reply reply_to s in
      with_row "register_response" peer (some m) (field "payload" (obj reply) end) (
        sent_to peer m (record s {
          env = record s.env { ticks = s.env.ticks + 1 + 1; issued = s.env.issued + 1 };
        }))

  respond-eq :
      (t : MessageType) (reply : Fields F) (peer reply_to : String) (s : Server F)
      → ((o : Message F) → s.env.refuses (unicast peer o) ≡ none)
      → IsPlain reply
      → respond text t reply peer reply_to s ≡ (ok tt, responded t reply peer reply_to s)
  unfolding respond make_message monotonic new_uuid is_json
  respond-eq t reply peer reply_to s takes plain =
      send-record "register_response" peer (response_of t reply reply_to s)
        (field "payload" (obj reply) end)
        (record s { env = record s.env { ticks = s.env.ticks + 1 + 1; issued = s.env.issued + 1 } })
        (takes _) refl plain (rw plain refl)

  pub handle_register-eq :
      (peer : String) (m : Message F) (fs : Fields F) (s : Server F) (t : MessageType)
      (reply : Fields F)
      → m.payload ≡ obj fs
      → ((o : Message F) → s.env.refuses (unicast peer o) ≡ none)
      → answer text s.config.protocol.version (try_register text peer fs s).0 ≡ ok (t, reply)
      → handle_register text peer m s
        ≡ (ok tt, responded t reply peer m.msg_id (try_register text peer fs s).1)
  unfolding handle_register
  handle_register-eq peer m fs s t reply p takes a =
      let (config, _, refuses) =
        (Quiet-try_register text {c = s.config} {o = s.env.outbox} {r = s.env.refuses} peer fs).at s
          (refl, refl, refl) in
      let plain =
        IsPlain-answer s.config.protocol.version (try_register text peer fs s).0 t reply
          (λ x e. (Gives-try_register peer fs).at s x e) a in
      let answered : answer text (try_register text peer fs s).1.config.protocol.version
            (try_register text peer fs s).0
          ≡ ok (t, reply) =
        rw config a in
      let handled : handle_register text peer m s
          ≡ respond text t reply peer m.msg_id (try_register text peer fs s).1 =
        rw (p, answered) refl in
      handled
      ∙ respond-eq t reply peer m.msg_id (try_register text peer fs s).1 (λ o. rw refuses (takes o))
          plain

  -- If the transport takes what is sent to the peer: each registration that the handler answers is
  -- answered once, to its sender and in reply to its message: by the type and the payload that
  -- `answer` gives for what the attempt came to. A refusal leaves every client of the registry as it
  -- was.
  pub handle_register-answer :
      (peer : String) (m : Message F) (fs : Fields F) (s : Server F) (t : MessageType)
      (reply : Fields F)
      → m.payload ≡ obj fs
      → ((o : Message F) → s.env.refuses (unicast peer o) ≡ none)
      → answer text s.config.protocol.version (try_register text peer fs s).0 ≡ ok (t, reply)
      → ((handle_register text peer m s).0 ≡ ok tt)
        × ((msg : Message F) × ((handle_register text peer m s).1.env.outbox
              ≡ s.env.outbox ++ unicast peer msg ∷ [])
            × (msg.msg_type ≡ message_type_value t)
            × (msg.payload ≡ obj reply)
            × (msg.reply_to ≡ some m.msg_id))
        × ((e : Error)
            → (try_register text peer fs s).0 ≡ err e
            → (handle_register text peer m s).1.registry ≡ s.registry)
  unfolding create
  handle_register-answer peer m fs s t reply p takes a =
      let (_, outbox, _) =
        (Quiet-try_register text {c = s.config} {o = s.env.outbox} {r = s.env.refuses} peer fs).at s
          (refl, refl, refl) in
      rw (handle_register-eq peer m fs s t reply p takes a) (
        refl,
        (_, append-eq (unicast peer _) outbox, refl, refl, refl),
        λ e h. (IsAtomic-try_register text peer fs).at s e h,
      )
