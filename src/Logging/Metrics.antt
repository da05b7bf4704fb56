-- ===== src/Logging/Metrics.antt =====
-- psyexp_net/logging/metrics.py: counters and samples.
use psyexp_net.Prelude.{String, ℕ, ◌+◌, Option, none, some, List, [], ◌∷◌, ◌++◌, string_eq}
use psyexp_net.Prelude.Dict
use psyexp_net.Prelude.Dict.{Dict}

pub record MetricsCollector (F : Type 0) : Type 0 where
  pub counters : Dict String ℕ
  pub samples : Dict String (List F)

abbrev pub count_of : Option ℕ → ℕ
count_of none = 0
count_of (some n) = n

abbrev pub list_of {ℓ} : {A : Type ℓ} → Option (List A) → List A
list_of none = []
list_of (some xs) = xs

module _ {F : Type 0} where
  abbrev pub new : MetricsCollector F
  new = record { counters = []; samples = [] }

  -- `increment`, by one, as the program calls it
  unfoldable pub increment : String → MetricsCollector F → MetricsCollector F
  increment name m = record m {
    counters = Dict.put name (count_of (Dict.get name m.counters) + 1) m.counters;
  }

  unfoldable pub observe : String → F → MetricsCollector F → MetricsCollector F
  observe name value m = record m {
    samples = Dict.put name (list_of (Dict.get name m.samples) ++ value ∷ []) m.samples;
  }
