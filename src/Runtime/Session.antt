-- ===== src/Runtime/Session.antt =====
-- psyexp_net/runtime/session.py: the state of an experiment session. A method changes the manager and
-- returns its snapshot; here it returns the new manager, and `snapshot` of that is the result.
pub mod Laws
use psyexp_net.Prelude.{
  String, ℕ, Bool, true, false, Option, none, some, ◌==◌, string_eq, if◌then◌else◌, List, [], ◌∷◌,
}
use psyexp_net.Enums.{SessionState, session_state_value}
use psyexp_net.Errors.{Result, ok, err, type_error, ◌>>=◌, need}
use psyexp_net.Floats.{pos}
use psyexp_net.Value.Typed.{as_str, as_opt_str, as_ℕ, only}
use psyexp_net.Value.{Value, null, str, int, Fields, field, end, opt_str, lookup, obj}

pub record SessionSnapshot : Type 0 where
  pub session_id : Option String
  pub state : String
  pub trial_id : Option String
  pub phase : Option String
  pub parameter_version : ℕ

pub record SessionManager : Type 0 where
  pub session_id : Option String
  pub state : String
  pub current_trial_id : Option String
  pub current_phase : Option String
  pub parameter_version : ℕ

abbrev pub init : SessionManager
init = record {
  session_id = none;
  state = session_state_value SessionState.idle;
  current_trial_id = none;
  current_phase = none;
  parameter_version = 0;
}

unfoldable pub create : String → SessionManager → SessionManager
create session_id s = record s {
  session_id = some session_id;
  state = session_state_value SessionState.waiting_clients;
  current_trial_id = none;
  current_phase = none;
}

unfoldable pub mark_ready : SessionManager → SessionManager
mark_ready s = record s { state = session_state_value SessionState.ready }

unfoldable pub start : SessionManager → SessionManager
start s = record s { state = session_state_value SessionState.running }

unfoldable pub pause : SessionManager → SessionManager
pause s = record s { state = session_state_value SessionState.paused }

unfoldable pub stop : SessionManager → SessionManager
stop s = record s { state = session_state_value SessionState.stopped }

unfoldable pub abort : SessionManager → SessionManager
abort s = record s { state = session_state_value SessionState.aborted }

unfoldable pub arm_trial : String → SessionManager → SessionManager
arm_trial trial_id s = record s { current_trial_id = some trial_id; current_phase = some "armed" }

unfoldable pub start_trial : String → SessionManager → SessionManager
start_trial trial_id s = record s {
  current_trial_id = some trial_id;
  current_phase = some "running";
}

-- self.current_trial_id == trial_id
abbrev pub is_current : String → Option String → Bool
is_current trial_id none = false
is_current trial_id (some t) = t == trial_id

unfoldable pub end_trial : String → SessionManager → SessionManager
end_trial trial_id s =
    if is_current trial_id s.current_trial_id then record s { current_phase = some "ended" } else s

unfoldable pub snapshot : SessionManager → SessionSnapshot
snapshot s = record {
  session_id = s.session_id;
  state = s.state;
  trial_id = s.current_trial_id;
  phase = s.current_phase;
  parameter_version = s.parameter_version;
}

unfoldable pub apply_snapshot : SessionSnapshot → SessionManager → SessionManager
apply_snapshot p s = record {
  session_id = p.session_id;
  state = p.state;
  current_trial_id = p.trial_id;
  current_phase = p.phase;
  parameter_version = p.parameter_version;
}

module _ {F : Type 0} where
  -- asdict(snapshot)
  unfoldable pub as_dict : SessionSnapshot → Fields F
  as_dict p = field "session_id" (opt_str p.session_id) (
      field "state" (str p.state) (
        field "trial_id" (opt_str p.trial_id) (
          field "phase" (opt_str p.phase)
            (field "parameter_version" (int (pos p.parameter_version)) end))))

  -- SessionSnapshot(**d), by keywords, with fields of the declared types.
  unfoldable pub of_dict : Fields F → Result SessionSnapshot
  of_dict d = do
    session_id ← need type_error (lookup "session_id" d)
    session_id ← as_opt_str session_id
    state ← need type_error (lookup "state" d)
    state ← as_str state
    trial_id ← need type_error (lookup "trial_id" d)
    trial_id ← as_opt_str trial_id
    phase ← need type_error (lookup "phase" d)
    phase ← as_opt_str phase
    version ← need type_error (lookup "parameter_version" d)
    version ← as_ℕ version
    if only ("session_id" ∷ "state" ∷ "trial_id" ∷ "phase" ∷ "parameter_version" ∷ []) d
        then ok (record {
          session_id = session_id;
          state = state;
          trial_id = trial_id;
          phase = phase;
          parameter_version = version;
        })
        else err type_error
