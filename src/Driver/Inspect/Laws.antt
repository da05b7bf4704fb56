-- ===== src/Driver/Inspect/Laws.antt =====
-- What `psyexp-net inspect-log` finds in the log of a server.
use psyexp_net.Prelude.{
  String, some, List, ◌∷◌, ◌++◌, map, length, length-map, ◌≡◌, refl, inl, inr, Option-cases,
  Bool-cases, ◌==◌, string_eq,
}
use psyexp_net.Config.Mapping.{nat, texts}
use psyexp_net.Driver.Inspect.{trial_of, kind_of, inspect}
use psyexp_net.Errors.{ok, err, attribute_error}
use psyexp_net.Errors.Loops.{somes, traverse-map, gather-somes, gather-append_err}
use psyexp_net.Floats.{Floats}
use psyexp_net.Logging.Replay.Laws.{Entry, row, trial, trial_id_for_event-row}
use psyexp_net.Logging.Replay.Messages.{trial_ids_of}
use psyexp_net.Protocol.Message.{Message, to_dict, header_to_dict}
use psyexp_net.Protocol.Versioning.{sorted_set}
use psyexp_net.Runtime.Session
use psyexp_net.Runtime.Session.{SessionSnapshot}
use psyexp_net.Value.{null, float, str, obj, Fields, field, end}
use psyexp_net.Value.Typed.{as_opt_str-opt_str}

-- A call of the server's `_record` with a message.
pub record Heard (F : Type 0) : Type 0 where
  pub ts : F
  pub kind : String
  pub peer_id : String
  pub message : Message F
  pub session : SessionSnapshot
  pub extra : Fields F

module _ {F : Type 0} where
  abbrev pub entry : Heard F → Entry F
  entry h = record {
    ts = h.ts;
    kind = h.kind;
    peer_id = h.peer_id;
    message = some h.message;
    session = h.session;
    extra = h.extra;
  }

  abbrev pub heard_row : Heard F → Fields F
  heard_row h = row (entry h)

  -- A row that `_record` writes without a message, such as that of a client that was lost.
  abbrev pub silent :
      (ts : F) (kind peer_id : String) → SessionSnapshot → (extra : Fields F) → Fields F
  silent ts kind peer_id session extra = field "ts" (float ts) (
      field "kind" (str kind) (
        field "peer_id" (str peer_id)
          (field "message" null (field "session" (obj (Session.as_dict session)) extra))))

module _ {F : Type 0} ⦃fl : Floats F⦄ where
  trial_of-row : (e : Heard F) → trial_of (heard_row e) ≡ ok (trial (entry e))
  unfolding trial_of to_dict header_to_dict Session.as_dict
  trial_of-row e = elim (Option-cases e.message.trial_id) [
    | inl h ↦ rw h (as_opt_str-opt_str F e.session.trial_id)
    | inr (t, h) ↦ elim (Bool-cases (t == "")) [
      | inl b ↦ rw (h, b) (as_opt_str-opt_str F e.session.trial_id)
      | inr b ↦ rw (h, b) refl
    ]
  ]

  trial_ids_of-row :
      (es : List (Heard F))
      → trial_ids_of (map heard_row es) ≡ ok (somes (map (λ e. trial (entry e)) es))
  trial_ids_of-row es =
      gather-somes heard_row _ (λ e. trial (entry e))
        (λ e. rw (trial_id_for_event-row (entry e)) (as_opt_str-opt_str F (trial (entry e)))) es

  -- In a log whose events all have their message, the command finds as many rows as there are
  -- events, the kinds that occur, and the trials that the replay engine finds too.
  pub inspect-trial_ids_of :
      (es : List (Heard F))
      → (trials : List String) × (trial_ids_of (map heard_row es) ≡ ok trials)
        × (inspect (map heard_row es)
            ≡ ok (
                field "rows" (nat (length es)) (
                  field "kinds"
                    (texts (sorted_set (map (λ e. e.kind) es)))
                    (field "trial_ids" (texts (sorted_set trials)) end))))
  unfolding inspect
  inspect-trial_ids_of es = (
    somes (map (λ e. trial (entry e)) es),
    trial_ids_of-row es,
    rw
        (
          gather-somes heard_row trial_of (λ e. trial (entry e)) trial_of-row es,
          traverse-map heard_row kind_of (λ e. e.kind) (λ e. refl) es,
          length-map heard_row es,
        )
        refl,
  )

  -- A log with an event that was recorded without a message, as the server records an ACK that timed
  -- out and a client that was lost, makes the command raise an AttributeError, whatever else it has.
  pub inspect-silent :
      (es : List (Heard F)) (ts : F) (kind peer_id : String) (session : SessionSnapshot)
      (extra : Fields F) (rest : List (Fields F))
      → inspect (map heard_row es ++ silent ts kind peer_id session extra ∷ rest)
        ≡ err attribute_error
  unfolding inspect trial_of Session.as_dict
  inspect-silent es ts kind peer_id session extra rest =
      rw
        (gather-append_err heard_row trial_of (λ e. trial (entry e))
          (silent ts kind peer_id session extra) rest trial_of-row refl es)
        refl
