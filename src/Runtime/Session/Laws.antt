-- ===== src/Runtime/Session/Laws.antt =====
-- The session of psyexp_net/runtime/session.py: snapshots, and what holds after any calls.
use psyexp_net.Prelude.{
  String, false, Option, none, some, List, [], ◌∷◌, ◌≡◌, ◌≢◌, ◌⊎◌, refl, arith, eq_iff, ◌==◌,
  string_eq, inl, inr, beq_self, Bool-cases, ◌∙◌, if◌then◌else◌,
}
use psyexp_net.Errors.{ok}
use psyexp_net.Runtime.Session
use psyexp_net.Runtime.Session.{SessionManager, SessionSnapshot}

-- A snapshot that travels as a dictionary and is applied to any other manager makes that manager
-- equal to the one that the snapshot was taken of.
pub apply_snapshot-of_dict :
    (F : Type 0) (s t : SessionManager)
    → (p : SessionSnapshot) × (Session.of_dict (Session.as_dict {F = F} (Session.snapshot s))
        ≡ ok p)
      × (Session.apply_snapshot p t ≡ s)
unfolding Session.of_dict Session.as_dict Session.snapshot Session.apply_snapshot
apply_snapshot-of_dict F s t = (Session.snapshot s, ground arith, refl)

-- The methods that the server's session runs through. (`apply_snapshot` is the client's.)
pub data Call : Type 0 where
  create arm_trial start_trial end_trial : String → Call
  mark_ready start pause stop abort : Call

pub call : Call → SessionManager → SessionManager
call (create i) = Session.create i
call (arm_trial t) = Session.arm_trial t
call (start_trial t) = Session.start_trial t
call (end_trial t) = Session.end_trial t
call mark_ready = Session.mark_ready
call start = Session.start
call pause = Session.pause
call stop = Session.stop
call abort = Session.abort

pub run : List Call → SessionManager → SessionManager
run [] s = s
run (c ∷ cs) s = run cs (call c s)

-- A phase is one of the three that the code writes, and there is one exactly when there is a trial.
abbrev pub IsPhase : Option String → Option String → Type 0
IsPhase none none = Unit
IsPhase (some t) (some p) = (p ≡ "armed") ⊎ (p ≡ "running") ⊎ (p ≡ "ended")
IsPhase _ _ = ⊥

end_trial-IsPhase :
    (t : String) (trial phase : Option String)
    → IsPhase trial phase
    → IsPhase trial (if Session.is_current t trial then some "ended" else phase)
end_trial-IsPhase t none none h = tt
end_trial-IsPhase t (some u) (some p) h = elim (Bool-cases (u == t)) [
  | inl same ↦ rw same (inr (inr refl))
  | inr other ↦ rw other h
]
end_trial-IsPhase t _ _ h = absurd h

phase-end_trial :
    (t : String) (s : SessionManager)
    → ((Session.end_trial t s).current_trial_id ≡ s.current_trial_id)
      × ((Session.end_trial t s).parameter_version ≡ s.parameter_version)
      × ((Session.end_trial t s).current_phase
          ≡ (if Session.is_current t s.current_trial_id then some "ended" else s.current_phase))
unfolding Session.end_trial
phase-end_trial t s = ground arith

abbrev pub IsWellFormed : SessionManager → Type 0
IsWellFormed s = IsPhase s.current_trial_id s.current_phase × (s.parameter_version ≡ 0)

call-IsWellFormed : (c : Call) (s : SessionManager) → IsWellFormed s → IsWellFormed (call c s)
unfolding call Session.create Session.arm_trial Session.start_trial Session.mark_ready Session.start
    Session.pause Session.stop Session.abort
call-IsWellFormed (create i) s h = (tt, h.1)
call-IsWellFormed (arm_trial t) s h = (inl refl, h.1)
call-IsWellFormed (start_trial t) s h = (inr (inl refl), h.1)
call-IsWellFormed (end_trial t) s h =
    let e = phase-end_trial t s in
    rw (e.0, e.2) (end_trial-IsPhase t s.current_trial_id s.current_phase h.0, e.1 ∙ h.1)
call-IsWellFormed mark_ready s h = h
call-IsWellFormed start s h = h
call-IsWellFormed pause s h = h
call-IsWellFormed stop s h = h
call-IsWellFormed abort s h = h

run-keeps : (cs : List Call) (s : SessionManager) → IsWellFormed s → IsWellFormed (run cs s)
unfolding run
run-keeps [] s h = h
run-keeps (c ∷ cs) s h = run-keeps cs (call c s) (call-IsWellFormed c s h)

-- After any calls on a new session but apply_snapshot, in any order, there is a phase exactly when
-- there is a trial, a phase is "armed", "running" or "ended", and the parameter version is still
-- 0.
pub run-IsWellFormed : (cs : List Call) → IsWellFormed (run cs Session.init)
run-IsWellFormed cs = run-keeps cs Session.init (tt, refl)

other : (t : String) (trial : Option String) → trial ≢ some t → Session.is_current t trial ≡ false
other t none ne = refl
other t (some u) ne = ground (arith, eq_iff u t)

-- To end a trial marks it as ended if it is the current one, and otherwise changes nothing.
pub end_trial_cases :
    (t : String) (s : SessionManager)
    → (s.current_trial_id ≡ some t
        → Session.end_trial t s ≡ record s { current_phase = some "ended" })
      × (s.current_trial_id ≢ some t → Session.end_trial t s ≡ s)
unfolding Session.end_trial
end_trial_cases t s = (
  λ e. rw (e, Session.is_current, beq_self t),
  λ ne. ground (arith, other t s.current_trial_id ne),
)
