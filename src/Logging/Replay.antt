-- ===== src/Logging/Replay.antt =====
-- psyexp_net/logging/replay.py: what the tools read from an event log. The lines of the file and
-- summary.json are given, the latter read; str.strip and the json module are parameters. An id or a
-- message type that is neither a text nor None is a TypeError here, where Python would keep it.
pub mod Laws
pub mod Messages
pub mod Reading
pub mod Timeline
use psyexp_net.Prelude.{
  String, ℕ, Bool, true, false, not, ◌&&◌, ◌||◌, Option, none, some, List, [], ◌∷◌, ◌==◌, string_eq,
  nat_beq, is_empty, if◌then◌else◌,
}
use psyexp_net.Prelude.Sorting.{sort_by}
use psyexp_net.Errors.{
  Result, ok, err, type_error, value_error, key_error, attribute_error, need, ◌>>=◌,
}
use psyexp_net.Errors.Loops.{traverse, select, first, gather}
use psyexp_net.Floats.{ℤ, pos, negsuc, Floats, of_ℕ}
use psyexp_net.Value.{
  Value, null, bool, int, float, str, bytes, arr, obj, Items, nil, cons, Fields, field, end, lookup,
  opt_str, opt_float,
}
use psyexp_net.Value.Typed.{as_opt_str, as_fields, keyword, falsy, or_empty}

abbrev pub is_id : String → Option String → Bool
is_id t none = false
is_id t (some s) = s == t

-- str.strip and the json module on the lines of a log, with `none` for a JSONDecodeError
pub record Lines (F : Type 0) : Type 0 where
  pub strip : String → String
  pub loads : String → Option (Value F)

module _ {F : Type 0} (io : Lines F) where
  open io use {strip, loads}

  -- json.loads(line), which is a dictionary
  unfoldable pub read_line : String → Result (Fields F)
  read_line line = do v ← need value_error (loads line); as_fields v

  unfoldable pub read_lines : List String → Result (List (Fields F))
  read_lines [] = ok []
  read_lines (line ∷ rest) =
      let others = read_lines rest in
      if strip line == "" then others else do d ← read_line line; ds ← others; ok (d ∷ ds)

  -- `events`, of the lines of the file, if it exists
  unfoldable pub events : Option (List String) → Result (List (Fields F))
  events none = ok []
  events (some lines) = read_lines lines

module _ {F : Type 0} where
  -- d.get(k) as the value that Python gives
  abbrev pub get_or_null : String → Fields F → Value F
  get_or_null k d = elim (lookup k d) [ none ↦ null | some v ↦ v ]

  -- d.get(k) of a text or None
  abbrev pub get_text : String → Fields F → Result (Option String)
  get_text k d = keyword as_opt_str none (lookup k d)

  abbrev pub fields_or_empty : Option (Value F) → Fields F
  fields_or_empty (some (obj d)) = d
  fields_or_empty _ = end

  -- what stands in the header, unless it is empty, or what `other` finds
  abbrev pub text_or : Option String → Result (Value F) → Result (Value F)
  text_or none other = other
  text_or (some t) other = if t == "" then other else ok (str t)

  -- v == t
  abbrev pub is_text : String → Value F → Bool
  is_text t (str s) = s == t
  is_text t _ = false

module _ {F : Type 0} ⦃fl : Floats F⦄ where
  abbrev pub part_of : Option (Value F) → Result (Fields F)
  part_of none = ok end
  part_of (some v) = or_empty v

  -- `_message`; no event, None, is the empty dictionary
  unfoldable pub message : Fields F → Result (Fields F)
  message event = part_of (lookup "message" event)

  -- `_message_header`
  unfoldable pub message_header : Fields F → Result (Fields F)
  unfolding message
  message_header event = do m ← message event; part_of (lookup "header" m)

  -- `_message_payload`
  unfoldable pub message_payload : Fields F → Result (Fields F)
  unfolding message
  message_payload event = do m ← message event; ok (fields_or_empty (lookup "payload" m))

  -- `_message_id`
  unfoldable pub message_id : Fields F → Result (Option String)
  unfolding message_header
  message_id event = do h ← message_header event; get_text "msg_id" h

  -- `_message_type`
  unfoldable pub message_type : Fields F → Result (Option String)
  unfolding message_header
  message_type event = do h ← message_header event; get_text "msg_type" h

  -- `_reply_to`; what a payload has need not be a text
  unfoldable pub reply_to : Fields F → Result (Value F)
  unfolding message_header message_payload
  reply_to event = do
    h ← message_header event
    r ← get_text "reply_to" h
    text_or r (do p ← message_payload event; ok (get_or_null "reply_to" p))

  -- `_trial_id_for_event`
  unfoldable pub trial_id_for_event : Fields F → Result (Value F)
  unfolding message_header
  trial_id_for_event event = do
    h ← message_header event
    t ← get_text "trial_id" h
    text_or t (ok (get_or_null "trial_id" (fields_or_empty (lookup "session" event))))

  -- event.get("session", {}), of which items are then read
  abbrev pub session : Fields F → Result (Fields F)
  session event = elim (lookup "session" event) [
    | none ↦ ok end
    | some v ↦ elim v [ obj d ↦ ok d | _ ↦ err attribute_error ]
  ]

  -- a row of `trial_timeline`
  unfoldable pub trial_row : Fields F → Result (Fields F)
  unfolding message_type message_id reply_to
  trial_row event = do
    t ← message_type event
    i ← message_id event
    r ← reply_to event
    s ← session event
    ok (
        field "ts" (get_or_null "ts" event) (
          field "kind" (get_or_null "kind" event) (
            field "peer_id" (get_or_null "peer_id" event) (
              field "msg_type" (opt_str t) (
                field "msg_id" (opt_str i) (
                  field "reply_to" r (
                    field "session_state" (get_or_null "state" s)
                      (field "phase" (get_or_null "phase" s) end))))))))

  -- `trial_timeline`
  unfoldable pub trial_timeline : List (Fields F) → (trial_id : String) → Result (List (Fields F))
  unfolding trial_id_for_event trial_row
  trial_timeline events trial_id =
      gather
        (λ event. do
          t ← trial_id_for_event event
          if is_text trial_id t then (do row ← trial_row event; ok (some row)) else ok none)
        events
