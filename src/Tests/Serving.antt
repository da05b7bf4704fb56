-- ===== src/Tests/Serving.antt =====
-- The server of psyexp_net/runtime at concrete inputs.
use psyexp_net.Prelude.{
  String, ℕ, Bool, true, false, none, some, List, [], ◌∷◌, All, contains, take, length, ◌≡◌, ◌≢◌,
  ◌↔◌, ◌≤◌, refl, string_eq, if◌then◌else◌,
}
use mathlib.Core.List.{foldl}
use psyexp_net.Prelude.Dict
use psyexp_net.Enums.{MessageType, ClientStatus}
use psyexp_net.Errors.{Error, ok, err, key_error, type_error, zmq_error, duplicate_client}
use psyexp_net.Protocol.Ack.{
  waiting, resolved, resolve_entry, add, new_entry, set_result, PendingAckManager, seen,
}
use psyexp_net.Protocol.Ack.Pending
use psyexp_net.Protocol.Ack.Pending.{resolve_entry-add}
use psyexp_net.Protocol.Ack.Window.{newest_first, note, run, fresh, seen_window}
use psyexp_net.Protocol.Message
use psyexp_net.Protocol.Message.{Message}
use psyexp_net.Runtime.Registry.{ClientInfo, register_or_refresh, refreshed, is, missing_roles}
use psyexp_net.Runtime.Registry.Laws
use psyexp_net.Runtime.Registry.Laws.{register_or_refresh_lem}
use psyexp_net.Runtime.Registry.Roles.{IsCovered, missing_roles-nil}
use psyexp_net.Runtime.Server.Handlers.{serve_loop, Yield}
use psyexp_net.Runtime.Server.Handlers.Laws.{serve_loop_ends}
use psyexp_net.Runtime.Server.Invariant.{IsConsistent}
use psyexp_net.Runtime.Server.Invariant.Serving.{serve_loop-IsConsistent}
use psyexp_net.Runtime.Server.State.{message_row}
use psyexp_net.Value.Json.{is_json}
use psyexp_net.Runtime.Session
use psyexp_net.Runtime.Session.Laws as Calls
use psyexp_net.Runtime.Session.Laws.{
  run-IsWellFormed, IsWellFormed, apply_snapshot-of_dict, end_trial_cases,
}
use psyexp_net.Tests.World.{nat_floats, tallies, stimulus, server, message}
use psyexp_net.Transport.{ReceivedMessage}
use psyexp_net.Value.{str, null, end}

registry-IsKeyed : Laws.IsKeyed server.registry
unfolding Dict.get
registry-IsKeyed = record { distinct = (refl, tt); keyed = (refl, tt) }

server-IsConsistent : IsConsistent server
server-IsConsistent = record {
  registry = registry-IsKeyed;
  pending = record { distinct = tt; keyed = tt };
}

abbrev event : MessageType → ReceivedMessage ℕ
event t = record { peer_id = "a"; message = message t end; channel = "control" }

abbrev events : List (Yield ℕ)
events =
    ok (some (event MessageType.heartbeat))
    ∷ ok none
    ∷ ok (some (event MessageType.register))
    ∷ err zmq_error
    ∷ []

serve_loop-IsConsistent_example : IsConsistent (serve_loop tallies events server).1
serve_loop-IsConsistent_example = serve_loop-IsConsistent tallies events server server-IsConsistent

ack_ends_example :
    let ack = event MessageType.ack in
    let o = serve_loop tallies (ok (some ack) ∷ events) server in
    (o.0 ≡ err (if is_json (message_row (some ack.message)) then key_error else type_error))
    × (o.1 ≡ (serve_loop tallies (ok (some ack) ∷ []) server).1)
    × (o.1.pending_acks ≡ server.pending_acks)
    × (o.1.env.outbox ≡ [])
unfolding Message.create
ack_ends_example =
    serve_loop_ends tallies (event MessageType.ack) end server events refl refl refl refl

seen_window_example :
    (newest_first (run ("x" ∷ "y" ∷ "x" ∷ "z" ∷ []) (fresh 2)).items
      ≡ take 2 (foldl note [] ("x" ∷ "y" ∷ "x" ∷ "z" ∷ [])))
    × ((seen "y" (run ("x" ∷ "y" ∷ "x" ∷ "z" ∷ []) (fresh 2))).0
        ≡ contains "y" (take 2 (foldl note [] ("x" ∷ "y" ∷ "x" ∷ "z" ∷ []))))
    × (length (run ("x" ∷ "y" ∷ "x" ∷ "z" ∷ []) (fresh 2)).items ≤ 2)
seen_window_example = seen_window 2 ("x" ∷ "y" ∷ "x" ∷ "z" ∷ []) "y"

-- A client of another role that asks for the id "a".
abbrev rival : ClientInfo ℕ
rival = record stimulus { role = "response" }

register_or_refresh_example :
    ((existing : ClientInfo ℕ)
      → Dict.get rival.client_id server.registry ≡ some existing
      → is ClientStatus.disconnected existing.current_status ≡ false
      → existing.role ≢ rival.role
      → register_or_refresh 5 rival server.registry ≡ err duplicate_client)
    × ((e : Error)
        → register_or_refresh 5 rival server.registry ≡ err e
        → (existing : ClientInfo ℕ) × (Dict.get rival.client_id server.registry ≡ some existing)
          × (is ClientStatus.disconnected existing.current_status ≡ false)
          × (existing.role ≢ rival.role))
    × ((existing : ClientInfo ℕ)
        → Dict.get rival.client_id server.registry ≡ some existing
        → is ClientStatus.disconnected existing.current_status ≡ false
        → existing.role ≡ rival.role
        → register_or_refresh 5 rival server.registry
          ≡ ok (
            refreshed 5 rival existing,
            true,
            Dict.put rival.client_id (refreshed 5 rival existing) server.registry,
          ))
    × ((c : ClientInfo ℕ) (flag : Bool) (reg' : Dict.Dict String (ClientInfo ℕ))
        → register_or_refresh 5 rival server.registry ≡ ok (c, flag, reg')
        → Laws.IsKeyed reg'
          × (Dict.get rival.client_id reg' ≡ some c)
          × (c.client_id ≡ rival.client_id)
          × (c.role ≡ rival.role)
          × ((j : String) → rival.client_id ≢ j → Dict.get j reg' ≡ Dict.get j server.registry))
register_or_refresh_example = register_or_refresh_lem 5 rival server.registry registry-IsKeyed

resolve_entry-add_example :
    let first =
      resolve_entry "m1" "a" null (add 3 "m1" "a" (some 0) server.pending_acks) (λ _. waiting) in
    (first ≡ (
      some (new_entry 3 "m1" "a" (some 0) server.pending_acks),
      server.pending_acks,
      set_result (some 0) null (λ _. waiting),
    ))
    × (first.2 0 ≡ resolved null)
    × (resolve_entry "m1" "a" (str "again") first.1 first.2 ≡ (none, first.1, first.2))
unfolding Dict.get
resolve_entry-add_example =
    resolve_entry-add 3 "m1" "a" 0 null (str "again") server.pending_acks (λ _. waiting) refl refl

abbrev waits : PendingAckManager ℕ
waits = record {
  timeout_ms = 2000;
  pending =
      (
        ("m1", "a"),
        record {
          msg_id = "m1";
          peer_id = "a";
          created_at = 3;
          timeout_at = 5;
          retries = 0;
          future = none;
        },
      )
      ∷ [];
}

missing_roles-nil_example :
    (missing_roles ("stimulus" ∷ []) server.registry ≡ [])
    ↔ All (IsCovered server.registry) ("stimulus" ∷ [])
missing_roles-nil_example =
    missing_roles-nil ("stimulus" ∷ []) server.registry registry-IsKeyed.distinct

run-IsWellFormed_example : IsWellFormed (
    Calls.run
      (Calls.create "s" ∷ Calls.arm_trial "t" ∷ Calls.pause ∷ Calls.end_trial "t" ∷ [])
      Session.init)
run-IsWellFormed_example =
    run-IsWellFormed
      (Calls.create "s" ∷ Calls.arm_trial "t" ∷ Calls.pause ∷ Calls.end_trial "t" ∷ [])
