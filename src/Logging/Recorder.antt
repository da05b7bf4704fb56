-- ===== src/Logging/Recorder.antt =====
-- psyexp_net/logging/recorder.py: the event log. The file is the list of its rows; `wall` gives the
-- readings of time.time(), one for each row that is written. Writing to the open file is taken to succeed.
use psyexp_net.Prelude.{
  String, ℕ, ◌+◌, not, ◌&&◌, Option, none, some, List, [], ◌∷◌, ◌++◌, contains, ◌==◌, string_eq,
  if◌then◌else◌,
}
use psyexp_net.Prelude.Dict
use psyexp_net.Prelude.Dict.{Dict}
use psyexp_net.Logging.Metrics.{count_of}
use psyexp_net.Errors.{Result, ok, err, type_error}
use psyexp_net.Value.Json.{is_json}
use psyexp_net.Value.{Value, str, float, obj, Fields, field, lookup, item}

pub record EventRecorder (F : Type 0) : Type 0 where
  pub wall : ℕ → F
  pub rows : List (Value F)
  pub event_count : ℕ
  pub kinds : Dict String ℕ
  pub trial_ids : List String
  pub peer_ids : List String
  pub last_session : Option (Fields F)

module _ {F : Type 0} where
  -- isinstance(v, str) and v, then s.add(v)
  abbrev pub add_text : Option (Value F) → List String → List String
  add_text (some (str s)) ids = if not (s == "") && not (contains s ids) then ids ++ s ∷ [] else ids
  add_text _ ids = ids

  -- message.get("header", {}).get("trial_id") of a message that is a dictionary
  abbrev pub message_trial : Option (Value F) → Option (Value F)
  message_trial (some (obj m)) = elim (lookup "header" m) [
    | none ↦ none
    | some h ↦ item "trial_id" h
  ]
  message_trial _ = none

  abbrev pub session_trial : Option (Value F) → Option (Value F)
  session_trial (some (obj s)) = lookup "trial_id" s
  session_trial _ = none

  abbrev pub session_of : Option (Value F) → Option (Fields F) → Option (Fields F)
  session_of (some (obj s)) last = some s
  session_of _ last = last

  -- the row of the log that `record` writes
  abbrev pub log_row : String → Fields F → EventRecorder F → Fields F
  log_row kind payload r =
      field "ts" (float (r.wall r.event_count)) (field "kind" (str kind) payload)

  -- what `record` leaves once the row is written
  abbrev pub recorded : String → Fields F → EventRecorder F → EventRecorder F
  recorded kind payload r = record r {
    rows = r.rows ++ obj (log_row kind payload r) ∷ [];
    event_count = r.event_count + 1;
    kinds = Dict.put kind (count_of (Dict.get kind r.kinds) + 1) r.kinds;
    peer_ids = add_text (lookup "peer_id" payload) r.peer_ids;
    trial_ids =
        add_text (session_trial (lookup "session" payload))
          (add_text (message_trial (lookup "message" payload)) r.trial_ids);
    last_session = session_of (lookup "session" payload) r.last_session;
  }

  -- record(kind, **payload): json.dumps of a row that holds bytes raises before anything is changed
  unfoldable pub record_event : String → Fields F → EventRecorder F → Result (EventRecorder F)
  unfolding is_json
  record_event kind payload r =
      if is_json (obj (log_row kind payload r))
      then ok (recorded kind payload r)
      else err type_error
