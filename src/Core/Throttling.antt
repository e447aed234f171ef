-- ===== src/Core/Throttling.antt =====
-- Eve/core/throttling.py: the fixed-window limit on POST requests of one address.
pub mod Window
use django_app_eve.Prelude.{
  ℕ, zero, suc, ◌+◌, max, String, Option, none, some, Bool, true, false, List, [], ◌∷◌, ltb, ◌&&◌,
  if◌then◌else◌,
}
use django_app_eve.Core.Cache.{Cache, Value, num, Reply, ok, value_error, unreachable}

-- `max(1, int(limit * RATE_LIMIT_SCALE))`; `scaled` is the product, cut to an integer.
unfoldable pub effective_limit : (ℕ → ℕ) → ℕ → ℕ
effective_limit scaled limit = max 1 (scaled limit)

pub data Response {ℓ} (A : Type ℓ) : Type ℓ where
  too_many : Response A
  served : A → Response A

-- `count is not None and count > effective`
unfoldable pub exceeds : Option ℕ → ℕ → Bool
exceeds none limit = false
exceeds (some n) limit = ltb limit n

module _ (c : Cache) where
  open c use {State, get, add, incr}

  -- The entry expired between `add` and `incr`: start it again.
  unfoldable pub started_again : Reply Bool × State → Option ℕ × State
  started_again (unreachable, s) = (none, s)
  started_again (value_error, s) = (none, s)
  started_again (ok _, s) = (some 1, s)

  unfoldable pub incremented : String → ℕ → Reply ℕ × State → Option ℕ × State
  unfolding started_again
  incremented key window (ok n, s) = (some n, s)
  incremented key window (value_error, s) = started_again (add key (num 1) window s)
  incremented key window (unreachable, s) = (none, s)

  unfoldable pub count_from : String → ℕ → Reply Bool × State → Option ℕ × State
  unfolding incremented
  count_from key window (ok true, s) = (some 1, s)
  count_from key window (ok false, s) = incremented key window (incr key s)
  count_from key window (_, s) = (none, s)

  -- `key` is `ratelimit:<prefix>:<address>:<number of the window>`; `none` is a cache that cannot
  -- be reached.
  unfoldable pub current_count : String → ℕ → State → Option ℕ × State
  unfolding count_from
  current_count key window s = count_from key window (add key (num 1) window s)

  -- The wrapper that `rate_limit` puts round a view.
  unfoldable pub rate_limit :
      {A : Type 0}
      → (scaled : ℕ → ℕ) → (limit window : ℕ) → (is_post : Bool) → String
      → (State → A × State)
      → State
      → Response A × State
  unfolding exceeds
  rate_limit scaled limit window false key view s = let (a, s') = view s in (served a, s')
  rate_limit scaled limit window true key view s =
      let (n, s') = current_count key window s in
      if exceeds n (effective_limit scaled limit)
      then (too_many, s')
      else (let (a, s'') = view s' in (served a, s''))
