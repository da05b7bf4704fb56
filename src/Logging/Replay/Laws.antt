-- ===== src/Logging/Replay/Laws.antt =====
-- What replay reads from a log that EventRecorder wrote for the server.
use psyexp_net.Prelude.{
  Option-cases, String, Bool, not, ◌&&◌, ◌||◌, Option, none, some, List, map, keep, ◌≡◌, refl, ap,
  arith, inl, inr, Bool-cases, ◌==◌, string_eq, if◌then◌else◌,
}
use mathlib.Core.List.{map-map, Perm}
use psyexp_net.Prelude.Sorting.{
  sort_by, sort_by-map, sort_by-perm, sort_by-IsSorted, keep-sort_by, IsStrict, IsSorted, IsClass,
}
use psyexp_net.Errors.Loops.{select-map, gather-map, traverse-map}
use psyexp_net.Errors.{ok, ◌>>=◌}
use psyexp_net.Floats.{Floats}
use psyexp_net.Logging.Replay.{
  message_header, message_payload, message_id, message_type, reply_to, trial_id_for_event,
  trial_row, trial_timeline, is_text, is_id, get_or_null, fields_or_empty, message,
}
use psyexp_net.Logging.Replay.Messages.{related_events, is_related, by_ts, float_of}
use psyexp_net.Protocol.Message.{Message, to_dict, header_to_dict}
use psyexp_net.Runtime.Server.State.{message_row}
use psyexp_net.Runtime.Session
use psyexp_net.Runtime.Session.{SessionSnapshot}
use psyexp_net.Value.{Value, null, str, float, obj, Fields, field, end, opt_str}

-- A call of the server's `_record`, and the reading of the clock in it.
pub record Entry (F : Type 0) : Type 0 where
  pub ts : F
  pub kind : String
  pub peer_id : String
  -- none for the rows of an ACK that timed out and of a client that was lost
  pub message : Option (Message F)
  pub session : SessionSnapshot
  pub extra : Fields F

module _ {F : Type 0} where
  -- What a row without a message, or with one, says of itself: its id, its type, its trial, or else
  -- the session's, and what it answers, by the message's header or else by its payload.
  abbrev pub id_of : Option (Message F) → Option String
  id_of none = none
  id_of (some m) = some m.msg_id

  abbrev pub type_of : Option (Message F) → Option String
  type_of none = none
  type_of (some m) = some m.msg_type

  abbrev pub trial_in : (session : Option String) → Option (Message F) → Option String
  trial_in session none = session
  trial_in session (some m) = elim m.trial_id [
    | none ↦ session
    | some t ↦ if t == "" then session else some t
  ]

  abbrev pub payload_of : Option (Message F) → Fields F
  payload_of none = end
  payload_of (some m) = fields_or_empty (some m.payload)

  abbrev pub answered : Option (Message F) → Value F
  answered none = null
  answered (some m) = elim m.reply_to [
    | none ↦ get_or_null "reply_to" (payload_of (some m))
    | some r ↦ if r == "" then get_or_null "reply_to" (payload_of (some m)) else str r
  ]

  -- What the recorder writes for it.
  abbrev pub row : Entry F → Fields F
  row e = field "ts" (float e.ts) (
      field "kind" (str e.kind) (
        field "peer_id" (str e.peer_id) (
          field "message" (message_row e.message)
            (field "session" (obj (Session.as_dict e.session)) e.extra))))

  -- Its trial, and what it answers.
  abbrev pub trial : Entry F → Option String
  trial e = trial_in e.session.trial_id e.message

  abbrev pub answers : Entry F → Value F
  answers e = answered e.message

  abbrev pub timeline_row : Entry F → Fields F
  timeline_row e = field "ts" (float e.ts) (
      field "kind" (str e.kind) (
        field "peer_id" (str e.peer_id) (
          field "msg_type" (opt_str (type_of e.message)) (
            field "msg_id" (opt_str (id_of e.message)) (
              field "reply_to" (answers e) (
                field "session_state" (str e.session.state)
                  (field "phase" (opt_str e.session.phase) end)))))))

  -- The events of a message, its own and those that answer it.
  abbrev pub related : (msg_id : String) → List (Entry F) → List (Entry F)
  related t = keep (λ e. is_id t (id_of e.message) || is_text t (answers e))

module _ {F : Type 0} ⦃fl : Floats F⦄ where
  open fl use {lt}

  pub message_id-row : (e : Entry F) → message_id (row e) ≡ ok (id_of e.message)
  unfolding message_id message_header message to_dict header_to_dict
  message_id-row e = elim (Option-cases e.message) [ inl n ↦ rw n refl | inr (m, h) ↦ rw h refl ]

  pub message_type-row : (e : Entry F) → message_type (row e) ≡ ok (type_of e.message)
  unfolding message_type message_header message to_dict header_to_dict
  message_type-row e = elim (Option-cases e.message) [ inl n ↦ rw n refl | inr (m, h) ↦ rw h refl ]

  pub reply_to-row : (e : Entry F) → reply_to (row e) ≡ ok (answers e)
  unfolding reply_to message_header message_payload message to_dict header_to_dict
  reply_to-row e = elim (Option-cases e.message) [
    | inl n ↦ rw n refl
    | inr (m, k) ↦ elim (Option-cases m.reply_to) [
      | inl h ↦ rw (k, h) refl
      | inr (r, h) ↦ elim (Bool-cases (r == "")) [
        | inl b ↦ rw (k, h, b) refl
        | inr b ↦ rw (k, h, b) refl
      ]
    ]
  ]

  pub trial_id_for_event-row : (e : Entry F) → trial_id_for_event (row e) ≡ ok (opt_str (trial e))
  unfolding trial_id_for_event message_header message to_dict header_to_dict Session.as_dict
  trial_id_for_event-row e = elim (Option-cases e.message) [
    | inl n ↦ rw n refl
    | inr (m, k) ↦ elim (Option-cases m.trial_id) [
      | inl h ↦ rw (k, h) refl
      | inr (t, h) ↦ elim (Bool-cases (t == "")) [
        | inl b ↦ rw (k, h, b) refl
        | inr b ↦ rw (k, h, b) refl
      ]
    ]
  ]

  trial_row-row : (e : Entry F) → trial_row (row e) ≡ ok (timeline_row e)
  unfolding trial_row Session.as_dict
  trial_row-row e = rw (message_id-row, message_type-row, reply_to-row)

  chosen :
      (t : String) (e : Entry F)
      → (do
        found ← trial_id_for_event (row e)
        if is_text t found then (do r ← trial_row (row e); ok (some r)) else ok none)
        ≡ ok (if is_id t (trial e) then some (timeline_row e) else none)
  chosen t e =
      rw (trial_id_for_event-row, trial_row-row)
        (elim (Option-cases (trial e)) [
          | inl h ↦ rw h refl
          | inr (i, h) ↦ elim (Bool-cases (i == t)) [
            | inl b ↦ rw (h, b) refl
            | inr b ↦ rw (h, b) refl
          ]
        ])

  -- The timeline of a trial has exactly the events of the trial, in the order in which they were
  -- recorded, and its reading raises nothing.
  pub trial_timeline_lem :
      (t : String) (es : List (Entry F))
      → trial_timeline (map row es) t ≡ ok (map timeline_row (keep (λ e. is_id t (trial e)) es))
  unfolding trial_timeline
  trial_timeline_lem t es = gather-map row _ (λ e. is_id t (trial e)) timeline_row (chosen t) es

  is_related-row :
      (t : String) (e : Entry F)
      → is_related t (row e) ≡ ok (is_id t (id_of e.message) || is_text t (answers e))
  is_related-row t e = elim (Bool-cases (is_id t (id_of e.message))) [
    | inl b ↦ rw (message_id-row, reply_to-row, b) refl
    | inr b ↦ rw (message_id-row, reply_to-row, b) refl
  ]

  abbrev keyed : Entry F → F × Fields F
  keyed e = (e.ts, row e)

  by_ts-row :
      (es : List (Entry F)) → by_ts (map row es) ≡ ok (map row (sort_by (λ a b. lt a.ts b.ts) es))
  by_ts-row es =
      rw
        (
          traverse-map row (λ event. do t ← float_of "ts" event; ok (t, event)) keyed (λ e. refl)
              es,
          sort_by-map keyed (λ a b. lt a.0 b.0) es,
        )
        (ap ok (map-map _ keyed _))

  by_stamp : IsStrict lt → IsStrict (λ (a b : Entry F). lt a.ts b.ts)
  by_stamp s = record {
    asym = λ a b. s.asym a.ts b.ts;
    through = λ a b c. s.through a.ts b.ts c.ts;
  }

  pub related_events-row :
      (t : String) (es : List (Entry F))
      → related_events (map row es) t ≡ ok (map row (sort_by (λ a b. lt a.ts b.ts) (related t es)))
  unfolding related_events
  related_events-row t es =
      rw
        (select-map row (is_related t) (λ e. is_id t (id_of e.message) || is_text t (answers e))
          (is_related-row t) es)
        (by_ts-row (related t es))

  -- whether the stamp of an event is neither before nor after a time
  abbrev pub is_at : F → Entry F → Bool
  is_at x e = not (lt e.ts x) && not (lt x e.ts)

  is_at-IsClass : IsStrict lt → (x : F) → IsClass (λ (a b : Entry F). lt a.ts b.ts) (is_at x)
  is_at-IsClass s x a b ha hb = s.through b.ts x a.ts (ground arith) (ground arith)

  -- In a log of the server's rows, those without a message too: the timeline of a message has exactly its own events and those that answer it, none before one
  -- that is older, and its reading raises nothing. Events with one and the same stamp stay in the
  -- order in which they were recorded. The stamps have to be in a strict weak order, as floats that
  -- are not NaN are.
  pub related_events_lem :
      (strict : IsStrict lt) (t : String) (es : List (Entry F))
      → (os : List (Entry F)) × (related_events (map row es) t ≡ ok (map row os))
        × Perm os (related t es)
        × IsSorted (λ a b. lt a.ts b.ts) os
        × ((x : F) → keep (is_at x) os ≡ keep (is_at x) (related t es))
  related_events_lem strict t es =
      let earlier : Entry F → Entry F → Bool = λ a b. lt a.ts b.ts in
      (
        sort_by earlier (related t es),
        related_events-row t es,
        sort_by-perm earlier (related t es),
        sort_by-IsSorted earlier (by_stamp strict) (related t es),
        λ x. keep-sort_by earlier (is_at x) (is_at-IsClass strict x) (related t es),
      )
