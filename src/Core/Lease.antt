-- ===== src/Core/Lease.antt =====
-- Eve/core/cache_lock.py: a short lease on a key of the shared cache, and the polling of a value
-- that the owner of a lease is about to produce.
pub mod Exclusive
pub mod Waiting
use django_app_eve.Prelude.{
  ℕ, zero, suc, String, ◌≡◌, ◌≢◌, refl, Option, none, some, Bool, true, false, List, [], ◌∷◌,
  str_eq, eq_refl, arith, if◌then◌else◌,
}
use django_app_eve.Core.Cache.{
  Cache, Laws, IsDown, Value, num, text, flag, Reply, ok, value_error, unreachable,
}

-- `cache.get(key) == token`
unfoldable pub holds : String → Option Value → Bool
holds token (some (text t)) = str_eq t token
holds token _ = false

module _ (c : Cache) where
  open c use {State, get, add, delete}

  -- The `try` of the `finally`: delete the entry if it is still this process's.
  unfoldable pub give_back : String → String → Reply (Option Value) → State → State
  unfolding holds
  give_back key token (ok o) s = if holds token o then (delete key s).1 else s
  give_back key token _ s = s

  unfoldable pub release : String → String → Bool → State → State
  unfolding give_back
  release key token true s = give_back key token (get key s) s
  release key token false s = s

  -- `with cache_lease(key, timeout=…) as owner: body`. The body runs on a state that holds the
  -- cache; `put` and `cache_of` say where. `none` is CacheLeaseUnavailable, raised before the body.
  module _ {W R : Type 0} (cache_of : W → State) (put : State → W → W) where
    unfoldable pub finish_lease : String → String → Bool → R × W → Option R × W
    unfolding release
    finish_lease key token owner (r, w) = (some r, put (release key token owner (cache_of w)) w)

    unfoldable pub run_lease :
        String → String → (Bool → W → R × W) → Reply Bool × State → W → Option R × W
    unfolding finish_lease
    run_lease key token body (ok owner, s) w = finish_lease key token owner (body owner (put s w))
    run_lease key token body (_, s) w = (none, put s w)

    unfoldable pub cache_lease : String → String → ℕ → (Bool → W → R × W) → W → Option R × W
    unfolding run_lease
    cache_lease key token timeout body w =
        run_lease key token body (add key (text token) timeout (cache_of w)) w

-- `wait_for_value`: one poll for each value that `probe` would give before the deadline; the
-- list is the answers of the polls, in order.
unfoldable pub wait_for_value {ℓ} : {A : Type ℓ} → List (Option A) → Option A
wait_for_value [] = none
wait_for_value (some v ∷ rest) = some v
wait_for_value (none ∷ rest) = wait_for_value rest
