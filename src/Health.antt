-- ===== src/Health.antt =====
-- psyexp_net/health/monitors.py: which limits of the timing configuration a measurement exceeds.
pub mod Doctor
use psyexp_net.Prelude.{
  String, Bool, true, not, List, [], ◌∷◌, ◌++◌, is_empty, contains, ◌≡◌, ◌↔◌, ◌⊎◌, arith, string_eq,
  if◌then◌else◌,
}
use psyexp_net.Config.{TimingConfig}
use psyexp_net.Floats.{Floats}

pub record HealthSnapshot : Type 0 where
  pub degraded : Bool
  pub reasons : List String

-- `reasons.append(reason)` under a test
abbrev pub note : Bool → String → List String → List String
note over reason reasons = if over then reasons ++ reason ∷ [] else reasons

tests :
    (r j o : Bool)
    → ((not (is_empty (note o "clock_offset" (note j "jitter" (note r "rtt" [])))) ≡ true)
        ↔ ((r ≡ true) ⊎ (j ≡ true) ⊎ (o ≡ true)))
      × (contains "rtt" (note o "clock_offset" (note j "jitter" (note r "rtt" []))) ≡ r)
      × (contains "jitter" (note o "clock_offset" (note j "jitter" (note r "rtt" []))) ≡ j)
      × (contains "clock_offset" (note o "clock_offset" (note j "jitter" (note r "rtt" []))) ≡ o)
tests r j o = ground arith

module _ {F : Type 0} ⦃fl : Floats F⦄ where
  open fl use {lt, abs}

  abbrev pub reasons_of : TimingConfig F → (rtt_ms jitter_ms offset_ms : F) → List String
  reasons_of config rtt_ms jitter_ms offset_ms =
      note (lt config.max_clock_offset_ms (abs offset_ms)) "clock_offset" (
        note (lt config.max_jitter_ms jitter_ms) "jitter"
          (note (lt config.max_rtt_ms rtt_ms) "rtt" []))

  -- `HealthMonitor.evaluate`
  unfoldable pub evaluate : TimingConfig F → (rtt_ms jitter_ms offset_ms : F) → HealthSnapshot
  evaluate config rtt_ms jitter_ms offset_ms = record {
    degraded = not (is_empty (reasons_of config rtt_ms jitter_ms offset_ms));
    reasons = reasons_of config rtt_ms jitter_ms offset_ms;
  }

  -- A client is degraded exactly when a limit is exceeded, and each of the three reasons is named
  -- exactly when its own limit is: RTT, jitter, and the absolute clock offset.
  pub evaluate_lem :
      (config : TimingConfig F) (rtt_ms jitter_ms offset_ms : F)
      → (((evaluate config rtt_ms jitter_ms offset_ms).degraded ≡ true) ↔ (
          (lt config.max_rtt_ms rtt_ms ≡ true)
          ⊎ (lt config.max_jitter_ms jitter_ms ≡ true)
          ⊎ (lt config.max_clock_offset_ms (abs offset_ms) ≡ true)))
        × (contains "rtt" (evaluate config rtt_ms jitter_ms offset_ms).reasons
            ≡ lt config.max_rtt_ms rtt_ms)
        × (contains "jitter" (evaluate config rtt_ms jitter_ms offset_ms).reasons
            ≡ lt config.max_jitter_ms jitter_ms)
        × (contains "clock_offset" (evaluate config rtt_ms jitter_ms offset_ms).reasons
            ≡ lt config.max_clock_offset_ms (abs offset_ms))
  unfolding evaluate
  evaluate_lem config rtt_ms jitter_ms offset_ms =
      tests (lt config.max_rtt_ms rtt_ms) (lt config.max_jitter_ms jitter_ms)
        (lt config.max_clock_offset_ms (abs offset_ms))
