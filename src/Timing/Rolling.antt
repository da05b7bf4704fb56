-- ===== src/Timing/Rolling.antt =====
-- psyexp_net/timing/latency.py and jitter.py, and the average of psyexp_net/timing/sync.py. The
-- statistics module is a parameter.
pub mod Window
use psyexp_net.Prelude.{
  String, ℕ, zero, suc, ◌+◌, ◌-◌, ◌≤◌, List, [], ◌∷◌, ◌++◌, length, map, ltb, ◌≡◌, refl, arith,
  append_assoc, length-append, if◌then◌else◌,
}
use psyexp_net.Floats.{Floats, max_from}
use psyexp_net.Logging.Summary.{Statistics}
use psyexp_net.Timing.{SyncEstimator}

pub record RollingLatencyStats (F : Type 0) : Type 0 where
  pub max_size : ℕ
  pub values : List F

unfoldable pub drop {ℓ} : {A : Type ℓ} → ℕ → List A → List A
drop zero xs = xs
drop (suc n) [] = []
drop (suc n) (x ∷ xs) = drop n xs

-- what a deque of at most `n` items keeps
abbrev pub last_items {ℓ} : {A : Type ℓ} → ℕ → List A → List A
last_items n xs = drop (length xs - n) xs

module _ {F : Type 0} where
  abbrev pub new : ℕ → RollingLatencyStats F
  new max_size = record { max_size = max_size; values = [] }

  unfoldable pub add : F → RollingLatencyStats F → RollingLatencyStats F
  unfolding drop
  add value_ms r = record r { values = last_items r.max_size (r.values ++ value_ms ∷ []) }

module _ {F : Type 0} ⦃fl : Floats F⦄ (st : Statistics F) where
  open fl use {lit}
  open st use {mean, pstdev}

  -- `RollingLatencyStats.summary`: "mean_ms" and "max_ms"
  unfoldable pub summary : RollingLatencyStats F → F × F
  unfolding max_from
  summary r = elim r.values [ [] ↦ (lit 0 1, lit 0 1) | v ∷ vs ↦ (mean (v ∷ vs), max_from v vs) ]

  unfoldable pub compute_jitter_ms : List F → F
  compute_jitter_ms values = if ltb (length values) 2 then lit 0 1 else pstdev values

  -- `SyncEstimator.average_offset_ms`
  unfoldable pub average_offset_ms : SyncEstimator F → F
  average_offset_ms [] = lit 0 1
  average_offset_ms (s ∷ ss) = mean (map (λ s. s.offset_ms) (s ∷ ss))

module _ {F : Type 0} where
  -- Several additions, in order.
  unfoldable pub add_all : List F → RollingLatencyStats F → RollingLatencyStats F
  unfolding add
  add_all [] r = r
  add_all (v ∷ vs) r = add_all vs (add v r)
