-- ===== src/Runtime/Scheduler.antt =====
-- psyexp_net/runtime/scheduler.py: when a trial starts. `now` is the reading of time.monotonic().
use Prim.Native.Char.{code}
use psyexp_net.Prelude.{String, ℕ, Option, none, some, nat_beq, ◌==◌, string_eq, if◌then◌else◌}
use psyexp_net.Errors.{Result, ok, value_error, need, ◌>>=◌}
use psyexp_net.Floats.{Floats, of_ℕ, seconds}

-- The argument `at`: None, a float or a text.
pub data At (F : Type 0) : Type 0 where
  unset : At F
  absolute : F → At F
  text : String → At F

abbrev pub prepend : String → Option String → Option String
prepend c none = none
prepend String.[] o = o
prepend (String.◌∷◌ c _) (some s) = some (String.◌∷◌ c s)

-- s[:-len(suffix)], if s.endswith(suffix)
unfoldable pub before : (suffix : String) → String → Option String
before suffix String.[] = none
before suffix (String.◌∷◌ c s) =
    let rest = before suffix s in
    if String.◌∷◌ c s == suffix then some "" else prepend (String.◌∷◌ c "") rest

-- s[1:], if s.startswith("+")
abbrev pub after_plus : String → Option String
after_plus String.[] = none
after_plus (String.◌∷◌ c s) = if nat_beq (code c) b'+' then some s else none

abbrev pub relative : (suffix : String) → Option String → Option String
relative suffix none = none
relative suffix (some rest) = before suffix rest

module _ {F : Type 0} ⦃fl : Floats F⦄ where
  open fl use {plus, over, parse_float}

  -- float(s)
  abbrev pub to_number : String → Result F
  to_number s = need value_error (parse_float s)

  -- now + float(value[1:-2]) / 1000, now + float(value[1:-1]), or float(value)
  abbrev pub from_text : F → String → Option String → Option String → Result F
  from_text now value (some ms) _ = do x ← to_number ms; ok (plus now (over x (of_ℕ 1000)))
  from_text now value none (some s) = do x ← to_number s; ok (plus now x)
  from_text now value none none = to_number value

  unfoldable pub resolve_execute_at : (now : F) → At F → (lead_time_ms : ℕ) → Result F
  unfolding before
  resolve_execute_at now unset lead_time_ms = ok (plus now (seconds lead_time_ms))
  resolve_execute_at now (absolute x) lead_time_ms = ok x
  resolve_execute_at now (text value) lead_time_ms =
      from_text now value (relative "ms" (after_plus value)) (relative "s" (after_plus value))
