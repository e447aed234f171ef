-- ===== src/Core/Health.antt =====
-- `readiness_view` of Eve/core/views.py. What PostgreSQL and MongoDB answer to a ping are arguments
-- (false where the call raises); the cache is the shared one.
pub mod Ready
use django_app_eve.Prelude.{
  ℕ, String, Option, none, some, Bool, true, false, List, [], ◌∷◌, ◌&&◌, str_eq, if◌then◌else◌,
}
use django_app_eve.Core.Cache.{Cache, Value, text, num, flag, Reply, ok, value_error, unreachable}
use django_app_eve.Ecommerce.SaleorClient.{circuit_is_open}

-- The JSON that the view answers with. `checks` are its entries in order.
pub record Readiness : Type 0 where
  pub status : String
  pub checks : List (String × String)
  pub saleor_circuit : String
  pub status_code : ℕ

abbrev check : Bool → String
check answers = if answers then "ok" else "fail"

-- `all(status == "ok" for status in checks.values())`
unfoldable pub all_ok : List (String × String) → Bool
all_ok [] = true
all_ok ((name, status) ∷ rest) = str_eq status "ok" && all_ok rest

module _ (c : Cache) where
  open c use {State, get, set}

  abbrev probe_key : String
  probe_key = "readiness-probe"

  unfoldable pub is_probe : Reply (Option Value) → Bool
  is_probe (ok (some (text t))) = str_eq t "1"
  is_probe _ = false

  -- The probe is written and read again.
  unfoldable pub probe_cache : Reply (Unit {0}) × State → Bool × State
  unfolding is_probe
  probe_cache (ok _, s) = (is_probe (get probe_key s), s)
  probe_cache (_, s) = (false, s)

  unfoldable pub readiness : Bool → Bool → Bool → String → Readiness
  unfolding all_ok
  readiness postgresql mongodb cache saleor_circuit =
      let checks =
        ("postgresql", check postgresql)
        ∷ ("mongodb", check mongodb)
        ∷ ("cache", check cache)
        ∷ [] in
      let ready = all_ok checks in
      record {
        status = if ready then "ready" else "degraded";
        checks = checks;
        saleor_circuit = saleor_circuit;
        status_code = if ready then 200 else 503;
      }

  unfoldable pub readiness_view : Bool → Bool → State → Readiness × State
  unfolding probe_cache readiness circuit_is_open
  readiness_view postgresql mongodb s =
      let (cache, s') = probe_cache (set probe_key (text "1") 5 s) in
      let saleor_circuit = if circuit_is_open c s' then "open" else "closed" in
      (readiness postgresql mongodb cache saleor_circuit, s')
