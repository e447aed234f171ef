-- ===== src/Core/Health/Ready.antt =====
-- When a worker says that it may serve.
use django_app_eve.Prelude.{ℕ, ◌≡◌, refl, ◌↔◌, Bool, true, false, String, if◌then◌else◌, arith}
use django_app_eve.Core.Cache.{Cache, text}
use django_app_eve.Ecommerce.SaleorClient.{circuit_is_open}
use django_app_eve.Core.Health.{
  Readiness, readiness_view, readiness, probe_cache, probe_key, all_ok,
}

-- The answer of a worker that may serve.
abbrev pub IsReady : Readiness → Type 0
IsReady r = (r.status_code ≡ 200) × (r.status ≡ "ready") × (all_ok r.checks ≡ true)

only_200 : (b : Bool) → ◌≡◌ {A = ℕ} (if b then 200 else 503) 200 → b ≡ true
only_200 b h = ground arith

module _ (c : Cache) where
  open c use {State, get, set}

  -- Whether the cache gives the probe back.
  abbrev pub keeps_probe : State → Bool
  unfolding probe_cache
  keeps_probe s = (probe_cache c (set (probe_key c) (text "1") 5 s)).0

  readiness_iff :
      (p m k : Bool) (o : String)
      → IsReady (readiness c p m k o) ↔ ((p ≡ true) × (m ≡ true) × (k ≡ true))
  unfolding readiness
  readiness_iff true true true o = ((λ h. (refl, refl, refl)), (λ h. (refl, refl, refl)))
  readiness_iff false m k o = ((λ h. cc (only_200 false h.0)), (λ h. cc (h.0)))
  readiness_iff true false k o = ((λ h. cc (only_200 false h.0)), (λ h. cc (h.1)))
  readiness_iff true true false o = ((λ h. cc (only_200 false h.0)), (λ h. cc (h.2)))

  pub readiness_view_iff :
      (p m : Bool) (s : State)
      → IsReady (readiness_view c p m s).0 ↔ ((p ≡ true) × (m ≡ true) × (keeps_probe s ≡ true))
  unfolding readiness_view
  readiness_view_iff p m s =
      let s' = (probe_cache c (set (probe_key c) (text "1") 5 s)).1 in
      readiness_iff p m (keeps_probe s) (if circuit_is_open c s' then "open" else "closed")
