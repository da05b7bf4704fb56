-- ===== src/Protocol/Message.antt =====
-- psyexp_net/protocol/message.py: messages, their headers, and ACKs.
pub mod Laws
use psyexp_net.Prelude.{
  String, ℕ, Bool, true, false, Option, none, some, List, [], ◌∷◌, map, string_eq, if◌then◌else◌,
}
use psyexp_net.Enums.{MessageType, message_type_value, Priority, priority_value}
use psyexp_net.Errors.{Result, ok, err, key_error, type_error, ◌>>=◌, need}
use psyexp_net.Floats.{ℤ, pos}
use psyexp_net.Value.{
  Value, null, bool, int, float, str, bytes, arr, obj, Fields, field, end, lookup, items, opt_str,
  opt_float, opt_int, opt_int,
}
use psyexp_net.Value.Typed.{
  as_str, as_opt_str, as_bool, as_ℤ, as_opt_ℤ, as_opt_float, as_fields, as_bytes_list, keyword,
  only,
}

pub record MessageHeader (F : Type 0) : Type 0 where
  pub msg_type : String
  pub version : String
  pub msg_id : String
  pub reply_to : Option String
  pub sender_id : String
  pub sender_role : String
  pub session_id : Option String
  pub run_id : Option String
  pub block_id : Option String
  pub trial_id : Option String
  pub server_ts : Option F
  pub client_ts : Option F
  pub logical_seq : ℤ
  pub priority : String
  pub requires_ack : Bool
  pub deadline_ms : Option ℤ
  pub payload_codec : String
  pub schema : String

pub record Message (F : Type 0) : Type 0 where
  pub header : MessageHeader F
  pub open header use *
  pub payload : Value F
  pub attachments : List (List ℕ)

-- The field names of the class.
abbrev pub header_keys : List String
header_keys =
    "version" ∷ "msg_type" ∷ "msg_id" ∷ "reply_to" ∷ "sender_id" ∷ "sender_role" ∷ "session_id"
    ∷ "run_id" ∷ "block_id" ∷ "trial_id" ∷ "server_ts" ∷ "client_ts" ∷ "logical_seq" ∷ "priority"
    ∷ "requires_ack" ∷ "deadline_ms" ∷ "payload_codec" ∷ "schema" ∷ []

module _ {F : Type 0} where
  -- `MessageHeader.create`; `now` is its reading of time.monotonic(), and `msg_id` the new uuid. It
  -- takes a deadline and does not pass it on.
  unfoldable pub create :
      (now : F) (msg_id msg_type sender_id sender_role : String)
      (session_id trial_id : Option String) (requires_ack : Bool) (reply_to : Option String)
      (priority : String) (deadline_ms : Option ℤ)
      → MessageHeader F
  create now msg_id msg_type sender_id sender_role session_id trial_id requires_ack reply_to
        priority deadline_ms =
      record {
        msg_type = msg_type;
        version = "1.0";
        msg_id = msg_id;
        reply_to = reply_to;
        sender_id = sender_id;
        sender_role = sender_role;
        session_id = session_id;
        run_id = none;
        block_id = none;
        trial_id = trial_id;
        server_ts = none;
        client_ts = some now;
        logical_seq = pos 0;
        priority = priority;
        requires_ack = requires_ack;
        deadline_ms = none;
        payload_codec = "json";
        schema = "default";
      }

  -- `MessageHeader.to_dict`
  unfoldable pub header_to_dict : MessageHeader F → Fields F
  header_to_dict h = field "version" (str h.version) (
      field "msg_type" (str h.msg_type) (
        field "msg_id" (str h.msg_id) (
          field "reply_to" (opt_str h.reply_to) (
            field "sender_id" (str h.sender_id) (
              field "sender_role" (str h.sender_role) (
                field "session_id" (opt_str h.session_id) (
                  field "run_id" (opt_str h.run_id) (
                    field "block_id" (opt_str h.block_id) (
                      field "trial_id" (opt_str h.trial_id) (
                        field "server_ts" (opt_float h.server_ts) (
                          field "client_ts" (opt_float h.client_ts) (
                            field "logical_seq" (int h.logical_seq) (
                              field "priority" (str h.priority) (
                                field "requires_ack" (bool h.requires_ack) (
                                  field "deadline_ms" (opt_int h.deadline_ms) (
                                    field "payload_codec" (str h.payload_codec)
                                      (field "schema" (str h.schema) (end))))))))))))))))))

  -- `MessageHeader.from_dict`, with `fresh` for the id that a header without one gets
  unfoldable pub header_from_dict : String → Fields F → Result (MessageHeader F)
  header_from_dict fresh d = do
    msg_type ← need type_error (lookup "msg_type" d)
    msg_type ← as_str msg_type
    version ← keyword as_str ("1.0") (lookup "version" d)
    msg_id ← keyword as_str (fresh) (lookup "msg_id" d)
    reply_to ← keyword as_opt_str none (lookup "reply_to" d)
    sender_id ← keyword as_str ("") (lookup "sender_id" d)
    sender_role ← keyword as_str ("") (lookup "sender_role" d)
    session_id ← keyword as_opt_str none (lookup "session_id" d)
    run_id ← keyword as_opt_str none (lookup "run_id" d)
    block_id ← keyword as_opt_str none (lookup "block_id" d)
    trial_id ← keyword as_opt_str none (lookup "trial_id" d)
    server_ts ← keyword as_opt_float none (lookup "server_ts" d)
    client_ts ← keyword as_opt_float none (lookup "client_ts" d)
    logical_seq ← keyword as_ℤ (pos 0) (lookup "logical_seq" d)
    priority ← keyword as_str (priority_value Priority.normal) (lookup "priority" d)
    requires_ack ← keyword as_bool (false) (lookup "requires_ack" d)
    deadline_ms ← keyword as_opt_ℤ none (lookup "deadline_ms" d)
    payload_codec ← keyword as_str ("json") (lookup "payload_codec" d)
    schema ← keyword as_str ("default") (lookup "schema" d)
    if only header_keys d
        then ok (record {
          msg_type = msg_type;
          version = version;
          msg_id = msg_id;
          reply_to = reply_to;
          sender_id = sender_id;
          sender_role = sender_role;
          session_id = session_id;
          run_id = run_id;
          block_id = block_id;
          trial_id = trial_id;
          server_ts = server_ts;
          client_ts = client_ts;
          logical_seq = logical_seq;
          priority = priority;
          requires_ack = requires_ack;
          deadline_ms = deadline_ms;
          payload_codec = payload_codec;
          schema = schema;
        })
        else err type_error

  -- `Message.to_dict`
  unfoldable pub to_dict : Message F → Fields F
  to_dict m =
      field "header" (obj (header_to_dict m.header)) (
        field "payload" m.payload (field "attachments" (arr (items (map bytes m.attachments))) end))

  -- `Message.from_dict`
  unfoldable pub from_dict : String → Fields F → Result (Message F)
  from_dict fresh d = do
    header ← need key_error (lookup "header" d)
    header ← as_fields header
    header ← header_from_dict fresh header
    payload ← keyword ok (obj end) (lookup "payload" d)
    attachments ← keyword as_bytes_list [] (lookup "attachments" d)
    ok (record { header = header; payload = payload; attachments = attachments })

  -- `make_ack`, as the program calls it: the status is "ok" and there is no error code. `now` and
  -- `receive_ts` are the two readings of the clock.
  unfoldable pub make_ack :
      (now receive_ts : F) (msg_id : String)
      → Message F
      → (receiver_id : String) → (apply_ts : Option F) → Message F
  unfolding create
  make_ack now receive_ts msg_id original receiver_id apply_ts = record {
    header =
        create now msg_id (message_type_value MessageType.ack) receiver_id "" none none false
          (some original.msg_id) (priority_value Priority.normal) none;
    payload = obj (
        field "reply_to" (str original.msg_id) (
          field "receiver_id" (str receiver_id) (
            field "receive_ts" (float receive_ts) (
              field "apply_ts" (opt_float apply_ts)
                (field "status" (str "ok") (field "error_code" null end))))));
    attachments = [];
  }
