-- ===== src/Deploy/Gate.antt =====
-- The gate of a rollout against the readiness probes of the workers that answer it.
use django_app_eve.Prelude.{
  ℕ, ◌+◌, ◌≤◌, ◌≡◌, refl, ap, ◌↔◌, ◌&&◌, leb, some, Bool, true, false, if◌then◌else◌, arith, String,
}
use std.Path.{fun_ext}
use django_app_eve.Core.Cache.{Cache}
use django_app_eve.Core.Health.{Readiness, readiness_view, readiness, all_ok}
use django_app_eve.Core.Health.Ready.{keeps_probe}
use django_app_eve.Deploy.{
  Url, Probe, answers, caught, object, judge, judge_body, healthy, unhealthy, verify, verify_from,
  is_origin,
}
use django_app_eve.Deploy.Streak.{
  Passes, Three, verdict_of, verify_from_sound, verify_from_complete,
}

-- What the gate receives from a worker that is alive and answers the readiness probe: `urlopen` raises for
-- an answer with a status of an error.
unfoldable pub served : Readiness → Probe
served r =
    if leb 400 r.status_code
    then caught
    else answers 200 true r.status_code (object (some r.status) r.checks)

module _ (c : Cache) where
  open c use {State}

  -- What a worker has at one attempt: what the databases answer to it, and the cache.
  pub record Conditions : Type 0 where
    pub postgresql : Bool
    pub mongodb : Bool
    pub cache : State

  unfoldable pub all_up : Conditions → Bool
  all_up w = w.postgresql && w.mongodb && keeps_probe c w.cache

  unfoldable pub probe_of : Conditions → Probe
  unfolding served
  probe_of w = served (readiness_view c w.postgresql w.mongodb w.cache).0

  judged :
      (p m k : Bool) (o : String)
      → judge (served (readiness c p m k o)) ≡ (if p && m && k then healthy else unhealthy)
  unfolding judge judge_body served readiness all_ok
  judged true true true o = refl
  judged true true false o = refl
  judged true false k o = refl
  judged false m k o = refl

  abbrev saleor_circuit_of : Conditions → String
  saleor_circuit_of w = (readiness_view c w.postgresql w.mongodb w.cache).0.saleor_circuit

  -- The gate finds ready exactly the workers with everything up.
  judge-probe_of :
      (worker : ℕ → Conditions) (n : ℕ)
      → judge (probe_of (worker n)) ≡ verdict_of (λ i. all_up (worker i)) n
  unfolding probe_of readiness_view all_up
  judge-probe_of worker n =
      let w = worker n in
      judged w.postgresql w.mongodb (keeps_probe c w.cache) (saleor_circuit_of w)

  verify-runs :
      (url : Url) (attempts : ℕ) (worker : ℕ → Conditions)
      → is_origin url ≡ true
      → verify url attempts (λ n. probe_of (worker n))
        ≡ verify_from (verdict_of (λ i. all_up (worker i))) attempts 1 0
  unfolding verify
  verify-runs url attempts worker origin =
      rw origin (ap (λ v. verify_from v attempts 1 0) (fun_ext (judge-probe_of worker)))

  -- The gate on a deployment that is reached over https accepts it exactly when at three consecutive
  -- ones of its attempts the worker that answered had PostgreSQL, MongoDB and a cache that gives the
  -- probe back. Saleor has no influence, nor have the attempts before these three.
  pub verify_iff :
      (url : Url) (attempts : ℕ) (worker : ℕ → Conditions)
      → is_origin url ≡ true
      → Passes (verify url attempts (λ n. probe_of (worker n)))
        ↔ ((j : ℕ) × (1 ≤ j) × (j + 2 ≤ attempts) × Three (λ n. all_up (worker n)) j)
  verify_iff url attempts worker origin =
      let good : ℕ → Bool = λ n. all_up (worker n) in
      let runs = verify-runs url attempts worker origin in
      (
        λ p.
            let r =
              verify_from_sound good attempts 1 0 (omega arith) (omega arith)
                (λ i a b. ground (arith, a, b)) (rw runs at p) in
            (r.0, r.1, omega (arith, r), r.3),
        λ r. rw runs (
            verify_from_complete good attempts 1 0 r.0 (omega arith) (omega (arith, r))
              (omega (arith, r)) r.3),
      )
