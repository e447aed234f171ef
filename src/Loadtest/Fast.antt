-- ===== src/Loadtest/Fast.antt =====
-- When the statistics of a load test show no failure.
use django_app_eve.Prelude.{
  ℕ, ◌*◌, ◌≤◌, ◌<◌, ◌≡◌, refl, ◌↔◌, String, Bool, true, false, List, [], ◌∷◌, ◌++◌, not, ltb, map,
  flat_map, select, append-empty, flat_map-empty, select-empty, guard-empty, map-empty, ap, All,
  All-mono, if◌then◌else◌, arith,
}
use django_app_eve.Loadtest.Stats.{
  Floats, Flow, skipped, counted, measured, too_few, too_slow, missing_flow, too_many_failures,
  requests_of, failed_of, total, was_seen, over_budget, budget_of, flow_failures, is_over_ratio,
  evaluate_stats,
}

not_below : (n m : ℕ) → ltb n m ≡ false → m ≤ n
not_below n m h = ground arith

not_below_of : (n m : ℕ) → m ≤ n → ltb n m ≡ false
not_below_of n m h = ground arith

not-not : (b : Bool) → not b ≡ false → b ≡ true
not-not true h = refl
not-not false h = cc h

not-not_of : (b : Bool) → b ≡ true → not b ≡ false
not-not_of b h = ap not h

over_ratio_iff :
    (failed requests : ℕ)
    → (is_over_ratio failed requests ≡ false) ↔ ((0 < requests) × (failed * 100 ≤ requests))
unfolding is_over_ratio
over_ratio_iff failed requests = ground arith

module _ (floats : Floats) (required : List String) (min_requests : ℕ) where
  open floats use {Float}

  -- A flow was measured often enough and is within its budget.
  abbrev pub IsFast : Flow Float → Type 0
  IsFast skipped = Unit
  IsFast (counted requests failed) = Unit
  IsFast (measured name requests failed p95) =
      (min_requests ≤ requests) × (over_budget floats p95 (budget_of name) ≡ false)

  -- Every flow was fast enough, every required one was measured, and at most one request in a hundred
  -- failed.
  pub record Passing (flows : List (Flow Float)) : Type 0 where
    pub fast : All IsFast flows
    pub complete : All (λ name. was_seen flows name ≡ true) required
    pub some_requests : 0 < total requests_of flows
    pub few_failures : total failed_of flows * 100 ≤ total requests_of flows

  flow-IsFast : (f : Flow Float) → (flow_failures floats required min_requests f ≡ []) ↔ IsFast f
  unfolding flow_failures
  flow-IsFast skipped = ((λ h. tt), (λ h. refl))
  flow-IsFast (counted n f) = ((λ h. tt), (λ h. refl))
  flow-IsFast (measured name n f p95) =
      let over = over_budget floats p95 (budget_of name) in
      let few = ltb n min_requests in
      let parts =
        append-empty (if few then too_few name ∷ [] else [])
          (if over then too_slow name ∷ [] else []) in
      let counts = guard-empty few (too_few name) in
      let times = guard-empty over (too_slow name) in
      (
        λ h.
            let (enough, fast) = parts.0 h in
            (not_below n min_requests (counts.0 enough), times.0 fast),
        λ h. parts.1 (counts.1 (not_below_of n min_requests h.0), times.1 h.1),
      )

  pub stats-Passing :
      (flows : List (Flow Float))
      → (evaluate_stats floats required min_requests flows ≡ []) ↔ Passing flows
  unfolding evaluate_stats
  stats-Passing flows =
      let fast = flat_map-empty (flow_failures floats required min_requests) flows in
      let unseen = select (λ name. not (was_seen flows name)) required in
      let complete = select-empty (λ name. not (was_seen flows name)) required in
      let over = is_over_ratio (total failed_of flows) (total requests_of flows) in
      let slow = flat_map (flow_failures floats required min_requests) flows in
      let last =
        append-empty (slow ++ map missing_flow unseen)
          (if over then too_many_failures ∷ [] else []) in
      let first = append-empty slow (map missing_flow unseen) in
      let ratio = over_ratio_iff (total failed_of flows) (total requests_of flows) in
      (
        λ h.
            let (ab, c) = last.0 h in
            let (a, b) = first.0 ab in
            let (some_requests, few_failures) =
              ratio.0 ((guard-empty over too_many_failures).0 c) in
            record {
              fast = All-mono _ IsFast flows (λ f. (flow-IsFast f).0) (fast.0 a);
              complete =
                  All-mono _ _ required (λ name. not-not (was_seen flows name))
                    (complete.0 ((map-empty missing_flow unseen).0 b));
              some_requests = some_requests;
              few_failures = few_failures;
            },
        λ p. last.1 (
          first.1 (
            fast.1 (All-mono IsFast _ flows (λ f. (flow-IsFast f).1) p.fast),
            (map-empty missing_flow unseen).1 (
                complete.1
                  (All-mono _ _ required (λ name. not-not_of (was_seen flows name)) p.complete)),
          ),
          (guard-empty over too_many_failures).1 (ratio.1 (p.some_requests, p.few_failures)),
        ),
      )
