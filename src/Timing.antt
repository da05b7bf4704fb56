-- ===== src/Timing.antt =====
-- psyexp_net/timing/sync.py: the clock estimate of a ping.
pub mod Rolling
use psyexp_net.Prelude.{List, [], ◌∷◌, ◌++◌}
use psyexp_net.Floats.{Floats, of_ℕ}

pub record SyncSample (F : Type 0) : Type 0 where
  pub rtt_ms : F
  pub offset_ms : F

-- `samples` of a SyncEstimator
abbrev pub SyncEstimator : Type 0 → Type 0
SyncEstimator F = List (SyncSample F)

module _ {F : Type 0} ⦃fl : Floats F⦄ where
  open fl use {plus, minus, times}

  abbrev pub sample : (t0 t1 t2 t3 : F) → SyncSample F
  sample t0 t1 t2 t3 = record {
    rtt_ms = times (minus (minus t3 t0) (minus t2 t1)) (of_ℕ 1000);
    offset_ms = times (plus (minus t1 t0) (minus t2 t3)) (of_ℕ 500);
  }

  unfoldable pub add_sample : (t0 t1 t2 t3 : F) → SyncEstimator F → SyncSample F × SyncEstimator F
  add_sample t0 t1 t2 t3 samples = (sample t0 t1 t2 t3, samples ++ sample t0 t1 t2 t3 ∷ [])
