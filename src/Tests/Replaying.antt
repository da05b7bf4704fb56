-- ===== src/Tests/Replaying.antt =====
-- The replay of psyexp_net/logging/replay.py at concrete logs.
use mathlib.Core.List.{Perm}
use psyexp_net.Prelude.{
  String, ℕ, true, none, some, List, [], ◌∷◌, ◌++◌, map, keep, ◌≡◌, refl, arith, ltb, length, inl,
  inr,
}
use psyexp_net.Prelude.Sorting.{IsStrict, IsSorted}
use psyexp_net.Enums.{MessageType}
use psyexp_net.Errors.{ok}
use psyexp_net.Logging.Recorder.{record_event, recorded, log_row}
use psyexp_net.Logging.Replay.{Lines, read_lines, events}
use psyexp_net.Logging.Replay.Laws.{Entry, row, related, is_at, related_events_lem}
use psyexp_net.Logging.Replay.Messages.{related_events, message_timeline}
use psyexp_net.Logging.Replay.Timeline.{is_ack, message_timeline_lem}
use psyexp_net.Logging.Replay.Reading.{events-record_event}
use psyexp_net.Protocol.Message.{Message}
use psyexp_net.Runtime.Session
use psyexp_net.Tests.World.{nat_floats, server, message}
use psyexp_net.Value.Json.{is_json}
use psyexp_net.Value.{Value, float, arr, items, lookup, str, obj, Fields, field, end}

-- a command as the server stamps it
abbrev pub sent : Message ℕ
sent =
    let m = message MessageType.ping end in
    record m { header = record m.header { server_ts = some 2 } }

-- A command that was recorded later than its answer, and a client that was lost.
abbrev pub log : List (Entry ℕ)
log =
    record {
      ts = 7;
      kind = "send";
      peer_id = "a";
      message = some sent;
      session = Session.snapshot Session.init;
      extra = end;
    }
    ∷ record {
      ts = 3;
      kind = "receive";
      peer_id = "a";
      message =
          some (
            message MessageType.ack (field "reply_to" (str "m1") (field "apply_ts" (float 9) end)));
      session = record (Session.snapshot Session.init) { trial_id = some "t1" };
      extra = end;
    }
    ∷ record {
      ts = 8;
      kind = "disconnect";
      peer_id = "b";
      message = none;
      session = Session.snapshot Session.init;
      extra = end;
    }
    ∷ []

ltb-IsStrict : IsStrict ltb
ltb-IsStrict = record { asym = λ x y h. ground arith; through = λ x y z h k. ground arith }

related_events_example :
    (os : List (Entry ℕ)) × (related_events (map row log) "m1" ≡ ok (map row os))
    × Perm os (related "m1" log)
    × IsSorted (λ a b. ltb a.ts b.ts) os
    × ((x : ℕ) → keep (is_at x) os ≡ keep (is_at x) (related "m1" log))
related_events_example = related_events_lem ltb-IsStrict "m1" log

message_timeline_example :
    (d : Fields ℕ) × (acks : List (Fields ℕ)) × (message_timeline (map row log) (some "m1")
      ≡ ok (d, acks))
    × (lookup "acks" d ≡ some (arr (items (map obj acks))))
    × (length acks ≡ length (keep is_ack (related "m1" log)))
message_timeline_example =
    message_timeline_lem "m1" log refl
      ((inr (2, refl), inl refl), ((inl refl, inr (9, refl)), ((inl refl, inl refl), tt)))

abbrev noted : Fields ℕ
noted = log_row "note" (field "text" (str "hello") end) server.recorder

-- A reader that knows the one line.
abbrev one_line : Lines ℕ
one_line = record { strip = λ s. s; loads = λ _. some (obj noted) }

abbrev written : Value ℕ → String
written _ = "line"

abbrev hello : Fields ℕ
hello = field "text" (str "hello") end

events-record_event_example :
    (events one_line (some (map written (recorded "note" hello server.recorder).rows))
      ≡ ok ([] ++ noted ∷ []))
    × (is_json (obj hello) ≡ true)
unfolding events read_lines record_event
events-record_event_example =
    events-record_event one_line written "note" hello server.recorder
      (recorded "note" hello server.recorder) [] refl refl refl refl
