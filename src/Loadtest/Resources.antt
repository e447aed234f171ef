-- ===== src/Loadtest/Resources.antt =====
-- `evaluate_resources` and `main` of Eve/loadtest/evaluate.py. The lines of JSON arrive parsed.
use django_app_eve.Prelude.{
  ℕ, suc, ◌+◌, String, Option, none, some, Bool, false, List, [], ◌∷◌, ◌++◌, ◌&&◌, not, ◌==◌,
  str_eq, if◌then◌else◌,
}
use django_app_eve.Loadtest.Stats.{
  Failure, no_samples, invalid_json, pool_exhausted, pg_utilization, redis_utilization,
  uncertain_backlog, Floats, Row, Flow, read_rows, evaluate_stats,
}

-- A line of the snapshots.
pub record Sample (Number : Type 0) : Type 0 where
  pub event : String
  pub pg_total : Option Number
  pub pg_max : Option Number
  pub redis_in_use : Option Number
  pub redis_max : Option Number
  pub is_uncertain : Bool

-- A JSON value that is no object has no `get`: the program ends.
pub data Line (Number : Type 0) : Type 0 where
  blank invalid not_object : Line Number
  sample : Sample Number → Line Number

abbrev pub and_failures : List Failure → Option (List Failure) → Option (List Failure)
and_failures l none = none
and_failures l (some rest) = some (l ++ rest)

abbrev pub and_samples : ℕ → Option (List Failure) → Option (List Failure)
and_samples n none = none
and_samples n (some failures) = some (failures ++ (if n == 0 then no_samples ∷ [] else []))

abbrev exit_status : List Failure → ℕ
exit_status [] = 0
exit_status (f ∷ rest) = 1

abbrev pub report : List Failure → Option (List Failure) → Option ℕ
report failures none = none
report failures (some more) = some (exit_status (failures ++ more))

abbrev report_rows :
    (floats : Floats)
    → List String
    → ℕ
    → Option (List (Flow floats.Float))
    → Option (List Failure)
    → Option ℕ
report_rows floats required min_requests none resources = none
report_rows floats required min_requests (some flows) resources =
    report (evaluate_stats floats required min_requests flows) resources

module _ {Number : Type 0} (is_zero : Number → Bool) (is_over_pool : Number → Number → Bool) where
  -- `used / maximum > MAX_POOL_UTILIZATION`, where both are numbers and the maximum is not 0.
  unfoldable pub exceeds_pool : Option Number → Option Number → Bool
  exceeds_pool none maximum = false
  exceeds_pool (some used) none = false
  exceeds_pool (some used) (some maximum) = not (is_zero maximum) && is_over_pool used maximum

  unfoldable pub snapshot_failures : ℕ → Sample Number → List Failure
  unfolding exceeds_pool
  snapshot_failures n s =
      (if exceeds_pool s.pg_total s.pg_max then pg_utilization n ∷ [] else [])
      ++ (if exceeds_pool s.redis_in_use s.redis_max then redis_utilization n ∷ [] else [])
      ++ (if s.is_uncertain then uncertain_backlog n ∷ [] else [])

  unfoldable pub is_snapshot : Sample Number → Bool
  is_snapshot s = str_eq s.event "resource_snapshot"

  unfoldable pub is_exhausted : Sample Number → Bool
  is_exhausted s = str_eq s.event "mongo_pool_exhausted"

  unfoldable pub sample_failures : ℕ → Sample Number → List Failure
  sample_failures n s =
      if is_exhausted s
      then pool_exhausted n ∷ []
      else if is_snapshot s
      then snapshot_failures n s
      else []

  unfoldable pub is_sampled : Sample Number → Bool
  is_sampled s = not (is_exhausted s) && is_snapshot s

  abbrev pub samples : List (Line Number) → ℕ
  samples [] = 0
  samples (sample s ∷ rest) = (if is_sampled s then 1 else 0) + samples rest
  samples (blank ∷ rest) = samples rest
  samples (invalid ∷ rest) = samples rest
  samples (not_object ∷ rest) = samples rest

  -- The lines from number `n` on.
  unfoldable pub line_failures : ℕ → List (Line Number) → Option (List Failure)
  line_failures n [] = some []
  line_failures n (blank ∷ rest) = line_failures (suc n) rest
  line_failures n (invalid ∷ rest) = and_failures (invalid_json n ∷ []) (line_failures (suc n) rest)
  line_failures n (not_object ∷ rest) = none
  line_failures n (sample s ∷ rest) =
      and_failures (sample_failures n s) (line_failures (suc n) rest)

  -- `evaluate_resources`
  unfoldable pub evaluate_resources : List (Line Number) → Option (List Failure)
  evaluate_resources lines = and_samples (samples lines) (line_failures 1 lines)

  -- `main`, with its exit status; `none` is an exception.
  unfoldable pub main :
      (floats : Floats) → List String → ℕ → List Row → List (Line Number) → Option ℕ
  main floats required min_requests rows lines =
      report_rows floats required min_requests (read_rows floats required min_requests rows)
        (evaluate_resources lines)
