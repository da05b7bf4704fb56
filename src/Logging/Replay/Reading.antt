-- ===== src/Logging/Replay/Reading.antt =====
-- Replay reads back what EventRecorder of psyexp_net/logging/recorder.py has written.
use psyexp_net.Prelude.{
  String, true, false, some, List, [], ◌∷◌, ◌++◌, map, ◌≡◌, refl, inl, inr, Bool-cases, ◌==◌,
  string_eq,
}
use psyexp_net.Errors.{ok, ◌>>=◌, Result-cases}
use psyexp_net.Logging.Recorder.{EventRecorder, record_event, recorded, log_row}
use psyexp_net.Logging.Replay.{Lines, read_line, read_lines, events}
use psyexp_net.Value.Json.{is_json, fields_json}
use psyexp_net.Value.{Value, obj, Fields}

module _ {F : Type 0} (io : Lines F) (dumps : Value F → String) where
  open io use {strip, loads}

  read_line-dumps :
      (d : Fields F) → loads (dumps (obj d)) ≡ some (obj d) → read_line io (dumps (obj d)) ≡ ok d
  unfolding read_line
  read_line-dumps d back = rw back refl

  read_lines-append :
      (vs : List (Value F)) (d : Fields F)
      → (strip (dumps (obj d)) == "") ≡ false
      → loads (dumps (obj d)) ≡ some (obj d)
      → read_lines io (map dumps (vs ++ obj d ∷ []))
        ≡ (do ds ← read_lines io (map dumps vs); ok (ds ++ d ∷ []))
  unfolding read_lines
  read_lines-append [] d full back = rw (full, read_line-dumps d back) refl
  read_lines-append (v ∷ vs) d full back = elim (Bool-cases (strip (dumps v) == "")) [
    | inl b ↦ rw b (read_lines-append vs d full back)
    | inr b ↦ elim (Result-cases (read_line io (dumps v))) [
      | inr (x, e) ↦ rw (b, e) refl
      | inl (w, e) ↦
          rw (b, e, read_lines-append vs d full back)
            (elim (Result-cases (read_lines io (map dumps vs))) [
              | inl (ds, f) ↦ rw f refl
              | inr (x, f) ↦ rw f refl
            ])
    ]
  ]

  -- After a `record(kind, **payload)` that raises nothing, replay reads the events that it read before,
  -- and then the new one with its stamp, its kind and its payload. The line of the event must not be
  -- blank and must read back with json.loads. A `record` raises nothing only where the payload holds no bytes.
  pub events-record_event :
      (kind : String) (payload : Fields F) (r r' : EventRecorder F) (ds : List (Fields F))
      → record_event kind payload r ≡ ok r'
      → (strip (dumps (obj (log_row kind payload r))) == "") ≡ false
      → loads (dumps (obj (log_row kind payload r))) ≡ some (obj (log_row kind payload r))
      → events io (some (map dumps r.rows)) ≡ ok ds
      → (events io (some (map dumps r'.rows)) ≡ ok (ds ++ log_row kind payload r ∷ []))
        × (is_json (obj payload) ≡ true)
  unfolding events record_event is_json
  events-record_event kind payload r r' ds written full back h =
      elim (Bool-cases (fields_json payload)) [
        | inr f ↦ let no = rw f at written in cc
        | inl t ↦
            let same : recorded kind payload r ≡ r' = let w = rw t at written in cc in
            (
              rw (← same)
                  (rw (read_lines-append r.rows (log_row kind payload r) full back, h) refl),
              t,
            )
      ]
