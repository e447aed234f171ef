-- ===== src/Loadtest/Clean.antt =====
-- When the snapshots of a load test show no failure.
use mathlib.Core.Option.{some-injective}
use django_app_eve.Prelude.{
  ℕ, suc, ◌<◌, ◌≡◌, refl, ◌↔◌, Option, none, some, Bool, true, false, Bool-cases, inl, inr, List,
  [], ◌∷◌, ◌++◌, ◌==◌, append-empty, guard-empty, ap, All, if◌then◌else◌, arith,
}
use django_app_eve.Loadtest.Stats.{
  Failure, invalid_json, no_samples, pg_utilization, redis_utilization, uncertain_backlog,
}
use django_app_eve.Loadtest.Resources.{
  Sample, Line, blank, invalid, not_object, sample, exceeds_pool, snapshot_failures, is_snapshot,
  is_exhausted, sample_failures, samples, line_failures, evaluate_resources, and_failures,
  and_samples,
}

is_pos : (n : ℕ) → (n == 0) ≡ false → 0 < n
is_pos n h = ground arith

is_pos_of : (n : ℕ) → 0 < n → (n == 0) ≡ false
is_pos_of n h = ground arith

and_failures-empty :
    (l : List Failure) (o : Option (List Failure))
    → (and_failures l o ≡ some []) ↔ ((l ≡ []) × (o ≡ some []))
and_failures-empty l none = ((λ h. cc h), (λ h. cc (h.1)))
and_failures-empty l (some rest) =
    let parts = append-empty l rest in
    (
      λ h. let (a, b) = parts.0 (some-injective (l ++ rest) [] h) in (a, ap some b),
      λ h. ap some (parts.1 (h.0, some-injective rest [] h.1)),
    )

and_samples-empty :
    (n : ℕ) (o : Option (List Failure)) → (and_samples n o ≡ some []) ↔ ((o ≡ some []) × (0 < n))
and_samples-empty n none = ((λ h. cc h), (λ h. cc (h.0)))
and_samples-empty n (some rest) =
    let parts = append-empty rest (if n == 0 then no_samples ∷ [] else []) in
    let guard = guard-empty (n == 0) no_samples in
    (
      λ h. let (a, b) = parts.0 (some-injective _ [] h) in (ap some a, is_pos n (guard.0 b)),
      λ h. ap some (parts.1 (some-injective rest [] h.0, guard.1 (is_pos_of n h.1))),
    )

module _ {Number : Type 0} (is_zero : Number → Bool) (is_over_pool : Number → Number → Bool) where
  -- A snapshot that shows room in both pools, where it reports them, and no open checkout.
  pub record HasRoom (s : Sample Number) : Type 0 where
    pub pg : exceeds_pool is_zero is_over_pool s.pg_total s.pg_max ≡ false
    pub redis : exceeds_pool is_zero is_over_pool s.redis_in_use s.redis_max ≡ false
    pub settled : s.is_uncertain ≡ false

  abbrev pub IsClean : Line Number → Type 0
  IsClean blank = Unit
  IsClean invalid = ⊥
  IsClean not_object = ⊥
  IsClean (sample s) =
      (is_exhausted is_zero is_over_pool s ≡ false)
      × (is_snapshot is_zero is_over_pool s ≡ true → HasRoom s)

  snapshot-HasRoom :
      (n : ℕ) (s : Sample Number) → (snapshot_failures is_zero is_over_pool n s ≡ []) ↔ HasRoom s
  unfolding snapshot_failures
  snapshot-HasRoom n s =
      let pg = exceeds_pool is_zero is_over_pool s.pg_total s.pg_max in
      let redis = exceeds_pool is_zero is_over_pool s.redis_in_use s.redis_max in
      let pools =
        append-empty (if pg then pg_utilization n ∷ [] else [])
          (if redis then redis_utilization n ∷ [] else []) in
      let last =
        append-empty
          ((if pg then pg_utilization n ∷ [] else [])
            ++ (if redis then redis_utilization n ∷ [] else []))
          (if s.is_uncertain then uncertain_backlog n ∷ [] else []) in
      (
        λ h.
            let (ab, c) = last.0 h in
            let (a, b) = pools.0 ab in
            record {
              pg = (guard-empty pg (pg_utilization n)).0 a;
              redis = (guard-empty redis (redis_utilization n)).0 b;
              settled = (guard-empty s.is_uncertain (uncertain_backlog n)).0 c;
            },
        λ r. last.1 (
          pools.1 (
            (guard-empty pg (pg_utilization n)).1 r.pg,
            (guard-empty redis (redis_utilization n)).1 r.redis,
          ),
          (guard-empty s.is_uncertain (uncertain_backlog n)).1 r.settled,
        ),
      )

  sample-IsClean :
      (n : ℕ) (s : Sample Number)
      → (sample_failures is_zero is_over_pool n s ≡ []) ↔ IsClean (sample s)
  unfolding sample_failures
  sample-IsClean n s = elim (Bool-cases (is_exhausted is_zero is_over_pool s)) [
    | inl e ↦ rw e ((λ h. cc h), (λ h. cc (h.0)))
    | inr e ↦ elim (Bool-cases (is_snapshot is_zero is_over_pool s)) [
      | inl z ↦ rw e (
          rw z (
            (λ h. (refl, λ _. (snapshot-HasRoom n s).0 h)),
            (λ h. (snapshot-HasRoom n s).1 (h.1 refl)),
          ))
      | inr z ↦ rw e (rw z ((λ h. (refl, λ no. absurd (cc no))), (λ h. refl)))
    ]
  ]

  lines-IsClean :
      (n : ℕ) (lines : List (Line Number))
      → (line_failures is_zero is_over_pool n lines ≡ some []) ↔ All IsClean lines
  unfolding line_failures
  lines-IsClean n [] = ((λ h. tt), (λ h. refl))
  lines-IsClean n (blank ∷ rest) =
      let later = lines-IsClean (suc n) rest in ((λ h. (tt, later.0 h)), (λ h. later.1 h.1))
  lines-IsClean n (invalid ∷ rest) =
      let parts =
        and_failures-empty (invalid_json n ∷ [])
          (line_failures is_zero is_over_pool (suc n) rest) in
      ((λ h. absurd (cc ((parts.0 h).0))), (λ h. absurd h.0))
  lines-IsClean n (not_object ∷ rest) = ((λ h. cc h), (λ h. absurd h.0))
  lines-IsClean n (sample s ∷ rest) =
      let later = lines-IsClean (suc n) rest in
      let parts =
        and_failures-empty (sample_failures is_zero is_over_pool n s)
          (line_failures is_zero is_over_pool (suc n) rest) in
      (
        λ h. let (a, b) = parts.0 h in ((sample-IsClean n s).0 a, later.0 b),
        λ h. parts.1 ((sample-IsClean n s).1 h.0, later.1 h.1),
      )

  pub resources-IsClean :
      (lines : List (Line Number))
      → (evaluate_resources is_zero is_over_pool lines ≡ some [])
        ↔ (All IsClean lines × (0 < samples is_zero is_over_pool lines))
  unfolding evaluate_resources
  resources-IsClean lines =
      let parts =
        and_samples-empty (samples is_zero is_over_pool lines)
          (line_failures is_zero is_over_pool 1 lines) in
      let clean = lines-IsClean 1 lines in
      (λ h. let (a, b) = parts.0 h in (clean.0 a, b), λ h. parts.1 (clean.1 h.0, h.1))
