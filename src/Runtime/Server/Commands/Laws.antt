-- ===== src/Runtime/Server/Commands/Laws.antt =====
-- The fan-out of a command, `_send_to_all` of psyexp_net/runtime/server.py.
use psyexp_net.Prelude.{
  String, ℕ, Bool, true, false, Option, none, List, [], ◌∷◌, ◌++◌, map, All, ◌≡◌, refl, ap, arith,
  append-nil, append_assoc, sym, ◌∙◌, some, if◌then◌else◌,
}
use psyexp_net.Enums.{MessageType, message_type_value}
use psyexp_net.Errors.{Result, ok}
use psyexp_net.Floats.{Floats}
use psyexp_net.Runtime.Registry.{ClientInfo, all}
use psyexp_net.Runtime.Server.Commands.{
  opt_cons, gathered, send_control, send_each, open_group, send_to_all,
}
use psyexp_net.Runtime.Server.Commands.Posting.{
  Sent, IsCommand, to_client, awaited, command, entered, send_control-Posts,
}
use psyexp_net.Runtime.Server.State.{Server, Outgoing, new_uuid}
use psyexp_net.Value.{Fields, field, end, str, put_field}
use psyexp_net.Value.Json.{is_json, fields_json}

gathered-cons :
    (o : Option ℕ) (outcomes : List (Result (Option ℕ))) (futures : List ℕ)
    → gathered outcomes ≡ ok futures
    → gathered (ok o ∷ outcomes) ≡ ok (opt_cons o futures)
gathered-cons o outcomes futures h = rw h refl

module _ {F : Type 0} where
  awaited-cons :
      (acked : Bool) (r : Sent F) (rows : List (Sent F))
      → opt_cons (if acked then some r.future else none) (awaited acked rows)
        ≡ awaited acked (r ∷ rows)
  awaited-cons true r rows = refl
  awaited-cons false r rows = refl

module _ {F : Type 0} ⦃fl : Floats F⦄ where
  -- What the tasks for these clients leave.
  abbrev Fans :
      (t : String)
      → Fields F
      → Bool
      → Option String
      → List (ClientInfo F)
      → Server F
      → List (Sent F)
      → List (Result (Option ℕ))
      → Type 0
  Fans t payload acked trial cs s rows outcomes =
      let o = send_each t payload acked trial cs s in
      (o.0 ≡ ok outcomes)
      × (gathered outcomes ≡ ok (awaited acked rows))
      × (map (λ r. r.client) rows ≡ cs)
      × All (λ r. IsCommand t payload acked trial r.message) rows
      × (o.1.env.outbox ≡ s.env.outbox ++ map to_client rows)
      × (o.1.registry ≡ s.registry)
      × (o.1.pending_acks ≡ entered acked rows s.pending_acks)

  send_each-Fans :
      (t : String) (payload : Fields F) (acked : Bool) (trial : Option String)
      (cs : List (ClientInfo F)) (s : Server F)
      → ((o : Outgoing F) → s.env.refuses o ≡ none)
      → fields_json payload ≡ true
      → (rows : List (Sent F)) × (outcomes : List (Result (Option ℕ))) × Fans t payload acked trial
          cs s rows outcomes
  unfolding send_each
  send_each-Fans t payload false trial [] s takes plain =
      ([], [], (refl, refl, refl, tt, sym (append-nil s.env.outbox), refl, refl))
  send_each-Fans t payload true trial [] s takes plain =
      ([], [], (refl, refl, refl, tt, sym (append-nil s.env.outbox), refl, refl))
  send_each-Fans t payload acked trial (c ∷ cs) s takes plain =
      let (m, at, result, is_command, outbox, registry, refuses, pending) =
        send_control-Posts c.client_id t payload acked trial s takes plain in
      let s' = (send_control c.client_id t payload acked trial s).1 in
      let (rows, outcomes, (result', starts, clients, commands, outbox', registry', pending')) =
        send_each-Fans t payload acked trial cs s' (λ o. rw refuses (takes o)) plain in
      let r : Sent F = record { client = c; message = m; future = s.env.next_future; at = at } in
      let future : Option ℕ = if acked then some s.env.next_future else none in
      (
        r ∷ rows,
        ok future ∷ outcomes,
        (
          rw (result, result') refl,
          gathered-cons future outcomes (awaited acked rows) starts
              ∙ ap (λ ns. ok ns) (awaited-cons acked r rows),
          ap (λ xs. c ∷ xs) clients,
          (is_command, commands),
          rw result' (
              outbox'
              ∙ (rw outbox (append_assoc s.env.outbox (to_client r ∷ []) (map to_client rows)))),
          rw result' (registry' ∙ registry),
          rw result' (pending' ∙ ap (entered acked rows) pending),
        ),
      )

  fields_json-put :
      (k v : String) (fs : Fields F)
      → fields_json fs ≡ true
      → fields_json (put_field k (str v) fs) ≡ true
  unfolding put_field is_json
  fields_json-put k v end h = refl
  fields_json-put k v (field j w fs) h = ground (arith, fields_json-put k v fs)

  -- If the transport takes what is sent, and the command's payload holds no bytes: each client of the
  -- registry, in its order, is sent one message, and no one else is. It is the command, made by the
  -- server: of its type and its trial, with its payload, to which the id of its group is added if it
  -- needs ACKs. If it needs them, there is one pending entry for each message, under the message and
  -- the client that it went to, whose future is awaited; if not, the pending table stays and nothing
  -- is awaited. The registry stays as it was.
  pub send_to_all_lem :
      (t : MessageType) (payload : Fields F) (acked : Bool) (trial : Option String) (s : Server F)
      → ((o : Outgoing F) → s.env.refuses o ≡ none)
      → fields_json payload ≡ true
      → let o = send_to_all t payload acked trial s in
        (rows : List (Sent F)) × (map (λ r. r.client) rows ≡ all s.registry)
        × All
            (λ r. IsCommand (message_type_value t) (command acked payload s) acked trial r.message)
            rows
        × (o.1.env.outbox ≡ s.env.outbox ++ map to_client rows)
        × (o.0 ≡ ok (awaited acked rows))
        × (o.1.pending_acks ≡ entered acked rows s.pending_acks)
        × (o.1.registry ≡ s.registry)
  unfolding send_to_all open_group new_uuid
  send_to_all_lem t payload false trial s takes plain =
      let (rows, outcomes, (result, starts, clients, commands, outbox, registry, pending)) =
        send_each-Fans (message_type_value t) payload false trial (all s.registry) s takes plain in
      (
        rows,
        clients,
        commands,
        rw result outbox,
        rw (result, starts) refl,
        rw result pending,
        rw result registry,
      )
  send_to_all_lem t payload true trial s takes plain =
      let payload' = command true payload s in
      let (rows, outcomes, (result, starts, clients, commands, outbox, registry, pending)) =
        send_each-Fans (message_type_value t) payload' true trial (all s.registry)
          (open_group true (message_type_value t) payload trial s).1 takes
          (fields_json-put "command_id" (s.env.uuids s.env.issued) payload plain) in
      (
        rows,
        clients,
        commands,
        rw result outbox,
        rw (result, starts) refl,
        rw result pending,
        rw result registry,
      )
