-- ===== src/Logging/Summary.antt =====
-- What psyexp_net/logging gives at the end: MetricsCollector.snapshot of metrics.py and
-- EventRecorder.write_summary of recorder.py. The statistics module and int() of a float are
-- parameters.
pub mod Bounds
use Prim.Native.String.{◌++◌}
use psyexp_net.Prelude.{
  String, ℕ, zero, suc, ◌-◌, Option, none, some, List, [], ◌∷◌, length, map, ltb, if◌then◌else◌,
}
use psyexp_net.Prelude.Dict.{Dict}
use psyexp_net.Prelude.Sorting.{sort_by}
use psyexp_net.Floats.{ℤ, negsuc, Floats, pos, of_ℕ, max_from}
use psyexp_net.Logging.Metrics.{MetricsCollector}
use psyexp_net.Logging.Recorder.{EventRecorder}
use psyexp_net.Protocol.Versioning.{sorted_set, ltz, min_ℤ}
use psyexp_net.Value.{
  Value, null, int, float, str, arr, obj, items, Fields, field, end, put_field, put_fields,
}

-- statistics.mean and statistics.pstdev of lists that are not empty, and int(x) of a float
pub record Statistics (F : Type 0) : Type 0 where
  pub mean : List F → F
  pub pstdev : List F → F
  pub truncate : F → ℤ

-- max(a, b) of ints
abbrev pub max_ℤ : ℤ → ℤ → ℤ
max_ℤ a b = if ltz a b then b else a

module _ {F : Type 0} where
  abbrev pub counts : Dict String ℕ → Fields F
  counts [] = end
  counts ((k, n) ∷ d) = field k (int (pos n)) (counts d)

  abbrev pub session_value : Option (Fields F) → Value F
  session_value none = null
  session_value (some d) = obj d

  -- `write_summary`: the summary, which is what the file then holds
  unfoldable pub write_summary :
      (session_dir : String) (extra : Fields F) → EventRecorder F → Fields F
  unfolding put_fields
  write_summary session_dir extra r = put_fields extra (
      field "session_dir" (str session_dir) (
        field "event_count" (int (pos r.event_count)) (
          field "kinds" (obj (counts r.kinds)) (
            field "trial_ids" (arr (items (map str (sorted_set r.trial_ids)))) (
              field "peer_ids" (arr (items (map str (sorted_set r.peer_ids))))
                (field "last_session" (session_value r.last_session) end))))))

module _ {F : Type 0} ⦃fl : Floats F⦄ (st : Statistics F) where
  open fl use {lit, lt, times}
  open st use {mean, pstdev, truncate}

  -- sorted(values)
  unfoldable pub sorted : List F → List F
  unfolding sort_by
  sorted = sort_by lt

  abbrev pub element_at : List F → ℕ → F
  element_at [] i = lit 0 1
  element_at (x ∷ xs) zero = x
  element_at (x ∷ xs) (suc i) = element_at xs i

  -- values[i] of a list that has an element there: a negative index counts from the end
  abbrev pub element : List F → ℤ → F
  element xs (pos i) = element_at xs i
  element xs (negsuc k) = element_at xs (length xs - suc k)

  -- `_percentile`, of a list that is not empty
  unfoldable pub percentile : List F → (ratio : F) → F
  unfolding sorted
  percentile values ratio =
      let last = length (sorted values) - 1 in
      element (sorted values)
        (max_ℤ (pos 0) (min_ℤ (pos last) (truncate (times (of_ℕ last) ratio))))

  abbrev pub mean_of : List F → F
  mean_of [] = lit 0 1
  mean_of (x ∷ xs) = mean (x ∷ xs)

  abbrev pub largest : List F → F
  largest [] = lit 0 1
  largest (x ∷ xs) = max_from x xs

  abbrev pub p95 : List F → F
  p95 [] = lit 0 1
  p95 (x ∷ xs) = percentile (x ∷ xs) (lit 95 100)

  abbrev pub stddev : List F → F
  stddev values = if ltb 1 (length values) then pstdev values else lit 0 1

  -- The four statistics of each kind of sample, put into the mapping.
  unfoldable pub put_samples : Dict String (List F) → Fields F → Fields F
  unfolding put_field percentile max_from
  put_samples [] fields = fields
  put_samples ((key, values) ∷ samples) fields = put_samples samples (
      put_field (key ++ "_stddev") (float (stddev values)) (
        put_field (key ++ "_p95") (float (p95 values)) (
          put_field (key ++ "_max") (float (largest values))
            (put_field (key ++ "_mean") (float (mean_of values)) fields))))

  -- `MetricsCollector.snapshot`
  unfoldable pub metrics_snapshot : MetricsCollector F → Fields F
  unfolding put_samples
  metrics_snapshot m = put_samples m.samples (counts m.counters)
