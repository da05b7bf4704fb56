-- ===== src/Runtime/Server/State/Recording.antt =====
-- When `_record` of psyexp_net/runtime/server.py raises, and what it leaves where it does not.
use psyexp_net.Prelude.{
  String, Bool, true, false, ◌&&◌, Option, none, some, [], ◌∷◌, ◌++◌, ◌≡◌, refl, ap, ◌∙◌,
  if◌then◌else◌,
}
use psyexp_net.Errors.{ok, err, type_error}
use psyexp_net.Logging.Recorder.{record_event, recorded, log_row}
use psyexp_net.Protocol.Message.{Message, MessageHeader, to_dict, header_to_dict}
use psyexp_net.Runtime.Server.State.{
  Server, record_row, row_of, message_row, keep_recorder, unicast, hand_over, transport_send,
}
use psyexp_net.Exec.{◌>>◌}
use psyexp_net.Runtime.Session
use psyexp_net.Runtime.Session.{SessionSnapshot}
use psyexp_net.Value.{obj, Fields}
use psyexp_net.Value.Json.{
  is_json, fields_json, is_json-opt_str, is_json-opt_float, is_json-opt_int,
}

pub fields_json-as_dict :
    (F : Type 0) (p : SessionSnapshot) → fields_json {F = F} (Session.as_dict p) ≡ true
unfolding Session.as_dict is_json
fields_json-as_dict F p = simp is_json-opt_str

&&-true : (b : Bool) → (b && true) ≡ b
&&-true true = refl
&&-true false = refl

module _ {F : Type 0} where
  fields_json-header : (h : MessageHeader F) → fields_json (header_to_dict h) ≡ true
  unfolding header_to_dict is_json
  fields_json-header h = simp (is_json-opt_str, is_json-opt_float, is_json-opt_int)

  -- A message without attachments holds bytes exactly where its payload does.
  pub is_json-to_dict :
      (m : Message F) → m.attachments ≡ [] → is_json (message_row (some m)) ≡ is_json m.payload
  unfolding to_dict is_json
  is_json-to_dict m none_there =
      rw (fields_json-header m.header, none_there) (&&-true (is_json m.payload))

  -- The state with the row in its log.
  abbrev pub with_row : String → String → Option (Message F) → Fields F → Server F → Server F
  with_row kind peer m extra s = record s {
    recorder = recorded kind (row_of peer m extra s) s.recorder;
  }

  row_json :
      (kind peer : String) (m : Option (Message F)) (extra : Fields F) (s : Server F)
      → is_json (obj (log_row kind (row_of peer m extra s) s.recorder))
        ≡ (is_json (message_row m) && fields_json extra)
  unfolding is_json
  row_json kind peer m extra s = rw (fields_json-as_dict F (Session.snapshot s.session)) refl

  kept :
      (kind peer : String) (m : Option (Message F)) (extra : Fields F) (s : Server F) (b : Bool)
      → keep_recorder
          (if b then ok (recorded kind (row_of peer m extra s) s.recorder) else err type_error)
          s
        ≡ (if b then (ok tt, with_row kind peer m extra s) else (err type_error, s))
  kept kind peer m extra s true = refl
  kept kind peer m extra s false = refl

  -- `_record` raises a TypeError exactly where the message or what else is recorded holds bytes.
  pub record_row-eq :
      (kind peer : String) (m : Option (Message F)) (extra : Fields F) (s : Server F)
      → record_row kind peer m extra s ≡ (
          if is_json (message_row m) && fields_json extra
          then (ok tt, with_row kind peer m extra s)
          else (err type_error, s))
  unfolding record_row record_event
  record_row-eq kind peer m extra s =
      ap
        (λ b.
          keep_recorder
            (if b then ok (recorded kind (row_of peer m extra s) s.recorder) else err type_error) s)
        (row_json kind peer m extra s)
      ∙ kept kind peer m extra s (is_json (message_row m) && fields_json extra)

  pub record_row-ok :
      (kind peer : String) (m : Option (Message F)) (extra : Fields F) (s : Server F)
      → is_json (message_row m) ≡ true
      → fields_json extra ≡ true
      → record_row kind peer m extra s ≡ (ok tt, with_row kind peer m extra s)
  record_row-ok kind peer m extra s j k = rw (record_row-eq kind peer m extra s, j, k) refl

  -- The state with the message handed to the transport.
  abbrev pub sent_to : String → Message F → Server F → Server F
  sent_to peer m s = record s {
    env = record s.env { outbox = s.env.outbox ++ unicast peer m ∷ [] };
  }

  pub transport_send-ok :
      (peer : String) (m : Message F) (s : Server F)
      → s.env.refuses (unicast peer m) ≡ none
      → transport_send peer m s ≡ (ok tt, sent_to peer m s)
  unfolding transport_send
  transport_send-ok peer m s taken = rw (taken, hand_over) refl

  -- A message that the transport takes, and that holds no bytes, is sent and then recorded.
  pub send-record :
      (kind peer : String) (m : Message F) (extra : Fields F) (s : Server F)
      → s.env.refuses (unicast peer m) ≡ none
      → m.attachments ≡ []
      → is_json m.payload ≡ true
      → fields_json extra ≡ true
      → (do transport_send peer m; record_row kind peer (some m) extra) s
        ≡ (ok tt, with_row kind peer (some m) extra (sent_to peer m s))
  send-record kind peer m extra s taken bare j k =
      rw (transport_send-ok peer m s taken)
        (record_row-ok kind peer (some m) extra (sent_to peer m s) (is_json-to_dict m bare ∙ j) k)
