-- ===== src/Logging/Replay/Messages.antt =====
-- psyexp_net/logging/replay.py: what became of a message, and the summary of a run.
use psyexp_net.Prelude.{
  String, Bool, true, false, Option, none, some, List, [], ◌∷◌, map, length, is_empty, ◌==◌,
  string_eq, if◌then◌else◌,
}
use psyexp_net.Prelude.Sorting.{sort_by}
use psyexp_net.Errors.{Result, ok, key_error, need, ◌>>=◌}
use psyexp_net.Errors.Loops.{traverse, select, first, gather}
use psyexp_net.Floats.{pos, Floats, of_ℕ}
use psyexp_net.Logging.Replay.{
  get_or_null, message_header, message_payload, message_id, message_type, reply_to,
  trial_id_for_event, is_text, is_id,
}
use psyexp_net.Protocol.Versioning.{sorted_set}
use psyexp_net.Value.{
  Value, null, int, float, str, arr, obj, items, Fields, field, end, lookup, opt_str,
}
use psyexp_net.Value.Typed.{as_str, as_opt_str, falsy, to_float}

module _ {F : Type 0} ⦃fl : Floats F⦄ where
  open fl use {lit, lt, minus, times}

  -- float(d.get(k, 0.0))
  abbrev pub float_of : String → Fields F → Result F
  float_of k d = elim (lookup k d) [ none ↦ ok (lit 0 1) | some v ↦ to_float v ]

  -- whether an event is the sending of a message
  abbrev pub is_sent : (msg_id : String) → Fields F → Result Bool
  is_sent msg_id event =
      if is_text "send" (get_or_null "kind" event)
      then (do i ← message_id event; ok (is_id msg_id i))
      else ok false

  -- whether it is the message's own, or that of an answer
  abbrev pub is_related : (msg_id : String) → Fields F → Result Bool
  is_related msg_id event = do
    i ← message_id event
    if is_id msg_id i then ok true else (do r ← reply_to event; ok (is_text msg_id r))

  -- related.sort(key=lambda event: float(event.get("ts", 0.0)))
  abbrev pub by_ts : List (Fields F) → Result (List (Fields F))
  by_ts events = do
    keyed ←
        traverse {B = F × Fields F} (λ event. do ts ← float_of "ts" event; ok (ts, event)) events
    ok (map (λ e. e.1) (sort_by (λ a b. lt a.0 b.0) keyed))

  -- the events of `message_timeline`
  unfoldable pub related_events : List (Fields F) → (msg_id : String) → Result (List (Fields F))
  unfolding sort_by message_id reply_to
  related_events events msg_id = do related ← select (is_related msg_id) events; by_ts related

  -- (float(v) - start) * 1000, if both are there
  abbrev pub latency_ms : Value F → Option F → Result (Value F)
  latency_ms null start = ok null
  latency_ms v none = ok null
  latency_ms v (some start) = do at ← to_float v; ok (float (times (minus at start) (of_ℕ 1000)))

  -- the same from the server's stamp in the header of the message
  abbrev pub apply_latency_ms : Value F → Option (Fields F) → Result (Value F)
  apply_latency_ms null sent = ok null
  apply_latency_ms v none = ok null
  apply_latency_ms v (some sent) = do
    at ← to_float v
    h ← message_header sent
    start ← float_of "server_ts" h
    ok (float (times (minus at start) (of_ℕ 1000)))

  -- an item of "acks", of an event with its payload and its two latencies
  abbrev pub ack_of : (event payload : Fields F) (ack_latency apply_latency : Value F) → Fields F
  ack_of event p ack_latency apply_latency = field "peer_id" (get_or_null "peer_id" event) (
      field "receiver_id" (get_or_null "receiver_id" p) (
        field "status" (get_or_null "status" p) (
          field "receive_ts" (get_or_null "receive_ts" p) (
            field "apply_ts" (get_or_null "apply_ts" p) (
              field "ack_event_ts" (get_or_null "ts" event) (
                field "ack_latency_ms" ack_latency
                  (field "apply_latency_ms" apply_latency end)))))))

  -- the item, for an ACK
  unfoldable pub ack_row :
      (sent : Option (Fields F)) (send_ts : Option F) → Fields F → Result (Option (Fields F))
  unfolding message_type message_payload message_header
  ack_row sent send_ts event = do
    t ← message_type event
    if is_id "ACK" t
        then (do
          p ← message_payload event
          ack_latency ← latency_ms (get_or_null "ts" event) send_ts
          apply_latency ← apply_latency_ms (get_or_null "apply_ts" p) sent
          ok (some (ack_of event p ack_latency apply_latency)))
        else ok none

  -- an item of "events", of an event with what it is and answers
  abbrev pub event_of :
      (event : Fields F) (msg_type msg_id : Option String) (answered : Value F) → Fields F
  event_of event msg_type msg_id answered = field "ts" (get_or_null "ts" event) (
      field "kind" (get_or_null "kind" event) (
        field "peer_id" (get_or_null "peer_id" event) (
          field "msg_type" (opt_str msg_type)
            (field "msg_id" (opt_str msg_id) (field "reply_to" answered end)))))

  unfoldable pub event_row : Fields F → Result (Fields F)
  unfolding message_type message_id reply_to
  event_row event = do
    t ← message_type event
    i ← message_id event
    r ← reply_to event
    ok (event_of event t i r)

  abbrev pub start_of : Option (Fields F) → Result (Option F)
  start_of none = ok none
  start_of (some sent) = do ts ← float_of "ts" sent; ok (some ts)

  -- what `read` finds in an event, or None of None
  abbrev pub of_event : (Fields F → Result (Value F)) → Option (Fields F) → Result (Value F)
  of_event read none = ok null
  of_event read (some event) = read event

  abbrev pub no_timeline : Option String → Fields F
  no_timeline msg_id =
      field "msg_id" (opt_str msg_id)
        (field "events" (arr (items [])) (field "acks" (arr (items [])) end))

  -- the result of `message_timeline`, beside the items of its "acks"
  abbrev pub timeline_of :
      (msg_id : String)
      → Option (Fields F)
      → (msg_type trial : Value F) (rows acks : List (Fields F)) → Fields F × List (Fields F)
  timeline_of msg_id sent msg_type trial rows acks = (
    field "msg_id" (str msg_id) (
        field "msg_type" msg_type (
          field "peer_id" (elim sent [ none ↦ null | some e ↦ get_or_null "peer_id" e ])
            (field "trial_id" trial (
              field "send_ts" (elim sent [ none ↦ null | some e ↦ get_or_null "ts" e ])
                (field "events" (arr (items (map obj rows)))
                  (field "acks" (arr (items (map obj acks))) end)))))),
    acks,
  )

  unfoldable pub message_timeline :
      List (Fields F) → (msg_id : Option String) → Result (Fields F × List (Fields F))
  unfolding related_events ack_row event_row message_type trial_id_for_event message_id
  message_timeline events none = ok (no_timeline none, [])
  message_timeline events (some msg_id) =
      if msg_id == "" then ok (no_timeline (some msg_id), []) else (do
        sent ← first (is_sent msg_id) events
        related ← related_events events msg_id
        send_ts ← start_of sent
        acks ← gather (ack_row sent send_ts) related
        t ← of_event (λ e. do t ← message_type e; ok (opt_str t)) sent
        trial ← of_event trial_id_for_event sent
        rows ← traverse event_row related
        ok (timeline_of msg_id sent t trial rows acks))

  -- the trial ids that are not None, each a text
  abbrev pub trial_ids_of : List (Fields F) → Result (List String)
  trial_ids_of events = gather (λ e. do v ← trial_id_for_event e; as_opt_str v) events

  -- a sending with an ACK
  abbrev pub is_acked : List (Fields F) → Fields F → Result Bool
  is_acked events event =
      if is_text "send" (get_or_null "kind" event)
      then (do
        i ← message_id event
        timeline ← message_timeline events i
        ok (if is_empty timeline.1 then false else true))
      else ok false

  abbrev pub keys : Fields F → List String
  keys end = []
  keys (field k v d) = k ∷ keys d

  -- "kinds" and "kind_counts"
  abbrev pub kinds_of : List (Fields F) → Value F → Result (Value F × Fields F)
  kinds_of events (obj d) = ok (arr (items (map str (sorted_set (keys d)))), d)
  kinds_of events v =
      if falsy v
      then (do
        kinds ← traverse (λ e. do k ← need key_error (lookup "kind" e); as_str k) events
        ok (arr (items (map str (sorted_set kinds))), end))
      else ok (v, end)

  -- d.get(k, default)
  abbrev pub get_or : String → Value F → Fields F → Value F
  get_or k v d = elim (lookup k d) [ none ↦ v | some w ↦ w ]

  -- `summary`, of the log and of what summary.json has, or of {} without it
  unfoldable pub summary :
      (session_dir : String) (persisted : Fields F) → List (Fields F) → Result (Fields F)
  unfolding message_timeline trial_id_for_event message_id
  summary session_dir persisted events = do
    trial_ids ← trial_ids_of events
    acked ← select (is_acked events) events
    kinds ← kinds_of events (get_or "kinds" (obj end) persisted)
    ok (
        field "session_dir" (str session_dir) (
          field "event_count" (get_or "event_count" (int (pos (length events))) persisted) (
            field "kinds" kinds.0 (
              field "kind_counts" (obj kinds.1) (
                field "trial_ids"
                  (get_or "trial_ids" (arr (items (map str (sorted_set trial_ids)))) persisted)
                  (field "acked_messages" (int (pos (length acked))) (
                    field "metrics" (get_or "metrics" (obj end) persisted) (
                      field "transport_metrics" (get_or "transport_metrics" (obj end) persisted) (
                        field "registry" (get_or "registry" (arr (items [])) persisted) end)))))))))
