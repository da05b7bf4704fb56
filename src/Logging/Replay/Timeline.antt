-- ===== src/Logging/Replay/Timeline.antt =====
-- The whole timeline of a message, `message_timeline` of psyexp_net/logging/replay.py, in a recorded log.
use mathlib.Core.Option
use psyexp_net.Prelude.{
  arith, String, Bool, true, false, ◌&&◌, ◌||◌, ◌⊎◌, inl, inr, Option, none, some, Bool-cases,
  Option-cases, List, [], ◌∷◌, map, keep, length, All, All-keep, ◌≡◌, refl, ap, ◌∙◌, sym, subst,
  ◌==◌, string_eq,
}
use psyexp_net.Prelude.Sorting.{sort_by, All-sort_by, length-keep-sort_by}
use psyexp_net.Errors.{ok, ◌>>=◌}
use psyexp_net.Errors.Loops.{find, first-map, gather-length, Gives, traverse-map}
use psyexp_net.Floats.{Floats, of_ℕ}
use psyexp_net.Logging.Replay.{
  get_or_null, is_id, is_text, message_type, message_payload, message_header, message,
  trial_id_for_event,
}
use psyexp_net.Logging.Replay.Laws.{
  Entry, row, related, answers, id_of, type_of, payload_of, related_events-row, message_id-row,
  message_type-row, reply_to-row, trial_id_for_event-row,
}
use psyexp_net.Logging.Replay.Messages.{
  message_timeline, ack_row, ack_of, event_of, timeline_of, event_row, is_sent, start_of, of_event,
  latency_ms, apply_latency_ms,
}
use psyexp_net.Protocol.Message.{Message, to_dict, header_to_dict}
use psyexp_net.Value.{Value, arr, items, null, float, opt_str, obj, Fields, lookup}

module _ {F : Type 0} ⦃fl : Floats F⦄ where
  open fl use {lt, times, minus}

  -- what the payload of a message says of the time of its execution
  abbrev pub apply_ts : Entry F → Value F
  apply_ts e = get_or_null "apply_ts" (payload_of e.message)

  -- the server's stamp
  abbrev pub stamp_of : Option (Message F) → Option F
  stamp_of none = none
  stamp_of (some m) = m.server_ts

  -- A sending is stamped by the server, and the time of execution in a payload, if any, is a float.
  abbrev pub IsTimed : Entry F → Type 0
  IsTimed e =
      (((e.kind == "send") ≡ false) ⊎ ((x : F) × (stamp_of e.message ≡ some x)))
      × ((apply_ts e ≡ null) ⊎ ((x : F) × (apply_ts e ≡ float x)))

  abbrev pub is_ack : Entry F → Bool
  is_ack e = is_id "ACK" (type_of e.message)

  abbrev is_sending : String → Entry F → Bool
  is_sending t e = e.kind == "send" && is_id t (id_of e.message)

  is_sent-row : (t : String) (e : Entry F) → is_sent t (row e) ≡ ok (is_sending t e)
  is_sent-row t e = elim (Bool-cases (e.kind == "send")) [
    | inl b ↦ rw (b, message_id-row) refl
    | inr b ↦ rw b refl
  ]

  latency_lem : (x : F) (start : Option F) → (v : Value F) × (latency_ms (float x) start ≡ ok v)
  latency_lem x none = (null, refl)
  latency_lem x (some start) = (_, refl)

  -- The sending, if there is one, was stamped.
  abbrev IsStamped : Option (Entry F) → Type 0
  IsStamped none = Unit
  IsStamped (some s) = (x : F) × (stamp_of s.message ≡ some x)

  stamped :
      (s : Entry F) (y x : F)
      → stamp_of s.message ≡ some x
      → apply_latency_ms (float y) (some (row s)) ≡ ok (float (times (minus y x) (of_ℕ 1000)))
  unfolding message_header message to_dict header_to_dict
  stamped s y x h = elim (Option-cases s.message) [
    | inl n ↦ cc (rw n at h)
    | inr (m, k) ↦ let h' : m.server_ts ≡ some x = rw k at h in rw (k, h') refl
  ]

  apply_latency_lem :
      (v : Value F) (sent : Option (Entry F))
      → (v ≡ null) ⊎ ((x : F) × (v ≡ float x))
      → IsStamped sent
      → (w : Value F) × (apply_latency_ms v (Option.map row sent) ≡ ok w)
  apply_latency_lem v sent (inl n) h = (null, rw n refl)
  apply_latency_lem v none (inr (x, n)) h = (null, rw n refl)
  apply_latency_lem v (some s) (inr (x, n)) h =
      subst (λ v. (w : Value F) × (apply_latency_ms v (some (row s)) ≡ ok w)) (sym n)
        (_, stamped s x h.0 h.1)

  message_payload-row : (e : Entry F) → message_payload (row e) ≡ ok (payload_of e.message)
  unfolding message_payload message to_dict header_to_dict
  message_payload-row e = elim (Option-cases e.message) [
    | inl n ↦ rw n refl
    | inr (m, h) ↦ rw h refl
  ]

  -- The item of an ACK, when its two latencies come out.
  ack_row-row :
      (sent : Option (Entry F)) (start : Option F) (e : Entry F) (l a : Value F)
      → is_ack e ≡ true
      → latency_ms (float e.ts) start ≡ ok l
      → apply_latency_ms (apply_ts e) (Option.map row sent) ≡ ok a
      → ack_row (Option.map row sent) start (row e)
        ≡ ok (some (ack_of (row e) (payload_of e.message) l a))
  unfolding ack_row
  ack_row-row sent start e l a t el ea =
      let p = payload_of e.message in
      rw (message_type-row e, t)
        (ap
            (λ r. do
              p' ← r
              ack_latency ← latency_ms (float e.ts) start
              apply_latency ← apply_latency_ms (get_or_null "apply_ts" p') (Option.map row sent)
              ok (some (ack_of (row e) p' ack_latency apply_latency)))
            (message_payload-row e)
          ∙ ap
              (λ r. do
                ack_latency ← r
                apply_latency ← apply_latency_ms (apply_ts e) (Option.map row sent)
                ok (some (ack_of (row e) p ack_latency apply_latency)))
              el
          ∙ ap (λ r. do apply_latency ← r; ok (some (ack_of (row e) p l apply_latency))) ea)

  Gives-ack_row :
      (sent : Option (Entry F)) (start : Option F) (e : Entry F)
      → IsStamped sent
      → IsTimed e
      → Gives row (ack_row (Option.map row sent) start) is_ack e
  unfolding ack_row
  Gives-ack_row sent start e h timed =
      let (l, el) = latency_lem e.ts start in
      let (a, ea) = apply_latency_lem (apply_ts e) sent timed.1 h in
      elim (Bool-cases (is_ack e)) [
        | inr f ↦ (none, rw (message_type-row e, f) refl, rw f refl)
        | inl t ↦ (
          some (ack_of (row e) (payload_of e.message) l a),
          ack_row-row sent start e l a t el ea,
          rw t refl,
        )
      ]

  each :
      (sent : Option (Entry F)) (start : Option F)
      → IsStamped sent
      → (es : List (Entry F)) → All IsTimed es
      → All (Gives row (ack_row (Option.map row sent) start) is_ack) es
  each sent start h [] timed = tt
  each sent start h (e ∷ es) timed =
      (Gives-ack_row sent start e h timed.0, each sent start h es timed.1)

  abbrev shown : Entry F → Fields F
  shown e = event_of (row e) (type_of e.message) (id_of e.message) (answers e)

  event_row-row : (e : Entry F) → event_row (row e) ≡ ok (shown e)
  unfolding event_row
  event_row-row e = rw (message_type-row e, message_id-row e, reply_to-row e) refl

  start_of-row :
      (sent : Option (Entry F)) → (x : Option F) × (start_of (Option.map row sent) ≡ ok x)
  start_of-row none = (none, refl)
  start_of-row (some s) = (some s.ts, refl)

  type-row :
      (sent : Option (Entry F))
      → (v : Value F) × (of_event (λ e. do t ← message_type e; ok (opt_str t)) (Option.map row sent)
          ≡ ok v)
  type-row none = (null, refl)
  type-row (some s) = (opt_str (type_of s.message), rw (message_type-row s) refl)

  trial-row :
      (sent : Option (Entry F))
      → (v : Value F) × (of_event trial_id_for_event (Option.map row sent) ≡ ok v)
  trial-row none = (null, refl)
  trial-row (some s) = (_, trial_id_for_event-row s)

  IsStamped-find :
      (t : String) (es : List (Entry F)) → All IsTimed es → IsStamped (find (is_sending t) es)
  IsStamped-find t [] h = tt
  IsStamped-find t (e ∷ es) h =
      let rest = IsStamped-find t es h.1 in
      elim (Bool-cases (e.kind == "send")) [
        | inr f ↦ rw f rest
        | inl k ↦ elim (Bool-cases (is_id t (id_of e.message))) [
          | inr f ↦ rw (k, f) rest
          | inl m ↦ elim h.0.0 [ inl f ↦ ground arith | inr stamp ↦ rw (k, m) stamp ]
        ]
      ]

  -- For a message id that is not empty, in a log of the server's rows, those without a message too,
  -- whose sendings are all stamped by the server and whose payloads hold, where they hold an
  -- `apply_ts`, a float, reading the timeline raises nothing. Its
  -- "acks" hold one item for each ACK among the message's own events and those that answer it.
  pub message_timeline_lem :
      (t : String) (es : List (Entry F))
      → (t == "") ≡ false
      → All IsTimed es
      → (d : Fields F) × (acks : List (Fields F)) × (message_timeline (map row es) (some t)
          ≡ ok (d, acks))
        × (lookup "acks" d ≡ some (arr (items (map obj acks))))
        × (length acks ≡ length (keep is_ack (related t es)))
  unfolding message_timeline
  message_timeline_lem t es full timed =
      let sent = find (is_sending t) es in
      let found = first-map row (is_sent t) (is_sending t) (is_sent-row t) es in
      let sorted = sort_by (λ a b. lt a.ts b.ts) (related t es) in
      let stamps = IsStamped-find t es timed in
      let (start, es1) = start_of-row sent in
      let (ty, es2) = type-row sent in
      let (tr, es3) = trial-row sent in
      let ordered : All IsTimed sorted =
        All-sort_by (λ a b. lt a.ts b.ts) IsTimed (related t es)
          (All-keep IsTimed (λ e. is_id t (id_of e.message) || is_text t (answers e)) es timed) in
      let (acks, es4, l) =
        gather-length row (ack_row (Option.map row sent) start) is_ack sorted
          (each sent start stamps sorted ordered) in
      let es5 = traverse-map row event_row shown event_row-row sorted in
      (
        (timeline_of t (Option.map row sent) ty tr (map shown sorted) acks).0,
        acks,
        rw (full, found, related_events-row t es, es1, es4, es2, es3, es5) refl,
        refl,
        l ∙ length-keep-sort_by (λ a b. lt a.ts b.ts) is_ack (related t es),
      )
