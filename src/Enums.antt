-- ===== src/Enums.antt =====
-- The string enumerations of psyexp_net/enums.py. Each member is a constructor, and `value` is the
-- text that it is: the program compares members with plain texts, so its state holds texts.
use psyexp_net.Prelude.{String}

pub data MessageType : Type 0 where
  hello register register_ok register_reject heartbeat ping pong goodbye error warn : MessageType
  metrics session_create session_start session_pause session_resume session_stop : MessageType
  session_abort trial_arm trial_start_at trial_state trial_end trial_abort snapshot : MessageType
  state_update param_update role_status client_status event_report result_report : MessageType
  data_chunk marker ack nack retry_notice : MessageType

pub data Priority : Type 0 where
  low normal high critical : Priority

pub data ClientStatus : Type 0 where
  discovered connected registered synced ready running degraded reconnecting disconnected :
      ClientStatus
  rejected : ClientStatus

pub data SessionState : Type 0 where
  idle waiting_clients ready running paused degraded stopping stopped aborted : SessionState

pub data ErrorCode : Type 0 where
  discovery_failed server_not_reachable control_connect_failed pub_channel_failed : ErrorCode
  version_mismatch duplicate_client_id auth_failed missing_required_role : ErrorCode
  clock_skew_too_large latency_exceeds_limit queue_overflow ack_timeout : ErrorCode

abbrev pub message_type_value : MessageType → String
message_type_value MessageType.hello = "HELLO"
message_type_value MessageType.register = "REGISTER"
message_type_value MessageType.register_ok = "REGISTER_OK"
message_type_value MessageType.register_reject = "REGISTER_REJECT"
message_type_value MessageType.heartbeat = "HEARTBEAT"
message_type_value MessageType.ping = "PING"
message_type_value MessageType.pong = "PONG"
message_type_value MessageType.goodbye = "GOODBYE"
message_type_value MessageType.error = "ERROR"
message_type_value MessageType.warn = "WARN"
message_type_value MessageType.metrics = "METRICS"
message_type_value MessageType.session_create = "SESSION_CREATE"
message_type_value MessageType.session_start = "SESSION_START"
message_type_value MessageType.session_pause = "SESSION_PAUSE"
message_type_value MessageType.session_resume = "SESSION_RESUME"
message_type_value MessageType.session_stop = "SESSION_STOP"
message_type_value MessageType.session_abort = "SESSION_ABORT"
message_type_value MessageType.trial_arm = "TRIAL_ARM"
message_type_value MessageType.trial_start_at = "TRIAL_START_AT"
message_type_value MessageType.trial_state = "TRIAL_STATE"
message_type_value MessageType.trial_end = "TRIAL_END"
message_type_value MessageType.trial_abort = "TRIAL_ABORT"
message_type_value MessageType.snapshot = "SNAPSHOT"
message_type_value MessageType.state_update = "STATE_UPDATE"
message_type_value MessageType.param_update = "PARAM_UPDATE"
message_type_value MessageType.role_status = "ROLE_STATUS"
message_type_value MessageType.client_status = "CLIENT_STATUS"
message_type_value MessageType.event_report = "EVENT_REPORT"
message_type_value MessageType.result_report = "RESULT_REPORT"
message_type_value MessageType.data_chunk = "DATA_CHUNK"
message_type_value MessageType.marker = "MARKER"
message_type_value MessageType.ack = "ACK"
message_type_value MessageType.nack = "NACK"
message_type_value MessageType.retry_notice = "RETRY_NOTICE"

abbrev pub priority_value : Priority → String
priority_value Priority.low = "low"
priority_value Priority.normal = "normal"
priority_value Priority.high = "high"
priority_value Priority.critical = "critical"

abbrev pub client_status_value : ClientStatus → String
client_status_value ClientStatus.discovered = "DISCOVERED"
client_status_value ClientStatus.connected = "CONNECTED"
client_status_value ClientStatus.registered = "REGISTERED"
client_status_value ClientStatus.synced = "SYNCED"
client_status_value ClientStatus.ready = "READY"
client_status_value ClientStatus.running = "RUNNING"
client_status_value ClientStatus.degraded = "DEGRADED"
client_status_value ClientStatus.reconnecting = "RECONNECTING"
client_status_value ClientStatus.disconnected = "DISCONNECTED"
client_status_value ClientStatus.rejected = "REJECTED"

abbrev pub session_state_value : SessionState → String
session_state_value SessionState.idle = "IDLE"
session_state_value SessionState.waiting_clients = "WAITING_CLIENTS"
session_state_value SessionState.ready = "READY"
session_state_value SessionState.running = "RUNNING"
session_state_value SessionState.paused = "PAUSED"
session_state_value SessionState.degraded = "DEGRADED"
session_state_value SessionState.stopping = "STOPPING"
session_state_value SessionState.stopped = "STOPPED"
session_state_value SessionState.aborted = "ABORTED"

abbrev pub error_code_value : ErrorCode → String
error_code_value ErrorCode.discovery_failed = "DISCOVERY_FAILED"
error_code_value ErrorCode.server_not_reachable = "SERVER_NOT_REACHABLE"
error_code_value ErrorCode.control_connect_failed = "CONTROL_CONNECT_FAILED"
error_code_value ErrorCode.pub_channel_failed = "PUB_CHANNEL_FAILED"
error_code_value ErrorCode.version_mismatch = "VERSION_MISMATCH"
error_code_value ErrorCode.duplicate_client_id = "DUPLICATE_CLIENT_ID"
error_code_value ErrorCode.auth_failed = "AUTH_FAILED"
error_code_value ErrorCode.missing_required_role = "MISSING_REQUIRED_ROLE"
error_code_value ErrorCode.clock_skew_too_large = "CLOCK_SKEW_TOO_LARGE"
error_code_value ErrorCode.latency_exceeds_limit = "LATENCY_EXCEEDS_LIMIT"
error_code_value ErrorCode.queue_overflow = "QUEUE_OVERFLOW"
error_code_value ErrorCode.ack_timeout = "ACK_TIMEOUT"
