-- ===== src/Loadtest/Accepts.antt =====
-- What a load test must show to pass the gate.
use django_app_eve.Prelude.{
  ℕ, ◌<◌, ◌≡◌, refl, ◌↔◌, String, Option, none, some, Bool, List, [], ◌∷◌, All, Option-cases, inl,
  inr,
}
use django_app_eve.Loadtest.Stats.{Floats, Row, Flow, Failure, read_rows, evaluate_stats}
use django_app_eve.Loadtest.Resources.{Line, samples, report, evaluate_resources, main}
use django_app_eve.Loadtest.Fast.{Passing, stats-Passing}
use django_app_eve.Loadtest.Clean.{IsClean, resources-IsClean}

report-zero :
    (l : List Failure) (o : Option (List Failure))
    → (report l o ≡ some 0) ↔ ((l ≡ []) × (o ≡ some []))
report-zero [] none = ((λ h. cc h), (λ h. cc (h.1)))
report-zero [] (some []) = ((λ h. (refl, refl)), (λ h. refl))
report-zero [] (some (f ∷ rest)) = ((λ h. cc h), (λ h. cc (h.1)))
report-zero (f ∷ l) none = ((λ h. cc h), (λ h. cc (h.0)))
report-zero (f ∷ l) (some rest) = ((λ h. cc h), (λ h. cc (h.0)))

module _ {Number : Type 0} (is_zero : Number → Bool) (is_over_pool : Number → Number → Bool)
    (floats : Floats) (required : List String) (min_requests : ℕ) where
  -- The evidence that the gate accepts: rows that can be read, with every flow fast and every required
  -- one measured, and at least one snapshot, none of which shows a shortage.
  pub record Evidence (rows : List Row) (lines : List (Line Number)) : Type 0 where
    pub flows : List (Flow floats.Float)
    pub read : read_rows floats required min_requests rows ≡ some flows
    pub passing : Passing floats required min_requests flows
    pub clean : All (IsClean is_zero is_over_pool) lines
    pub sampled : 0 < samples is_zero is_over_pool lines

  -- The gate ends with status 0 exactly when every row can be read, every required flow was measured, each of
  -- its rows with at least the minimum of requests and within its budget if it has one, at least one request was sent
  -- and at most one in a hundred failed, every line of the snapshots is valid, none reports an exhausted
  -- pool, at least one is a snapshot of resources, and each of those shows no uncertain checkout and, for
  -- every pool that it reports, a use within the limit.
  pub main_iff :
      (rows : List Row) (lines : List (Line Number))
      → (main is_zero is_over_pool floats required min_requests rows lines ≡ some 0)
        ↔ Evidence rows lines
  unfolding main
  main_iff rows lines =
      let resources = evaluate_resources is_zero is_over_pool lines in
      let ends = λ (flows : List (Flow floats.Float)).
        report-zero (evaluate_stats floats required min_requests flows) resources in
      let stats = stats-Passing floats required min_requests in
      let clean = resources-IsClean is_zero is_over_pool lines in
      (
        λ h. elim (Option-cases (read_rows floats required min_requests rows)) [
          | inl e ↦ cc (rw e at h)
          | inr (flows, e) ↦
              let (a, b) = (ends flows).0 (rw e at h) in
              let (all, some_samples) = clean.0 b in
              record {
                flows = flows;
                read = e;
                passing = (stats flows).0 a;
                clean = all;
                sampled = some_samples;
              }
        ],
        λ v.
            rw v.read
              ((ends v.flows).1 ((stats v.flows).1 v.passing, clean.1 (v.clean, v.sampled))),
      )
