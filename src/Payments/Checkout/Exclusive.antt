-- ===== src/Payments/Checkout/Exclusive.antt =====
-- The lease round a run of `place_order_once` (Eve/payments/services/checkout.py).
use django_app_eve.Prelude.{ℕ, ◌≡◌, refl, String, Option, none, some, Bool, true, List}
use django_app_eve.Core.Cache.{Cache, Laws, IsDown, Value, ok}
use django_app_eve.Core.Lease.{finish_lease}
use django_app_eve.Core.Lease.Exclusive.{
  release-own, cache_lease-free, cache_lease-busy, cache_lease-down,
}
use django_app_eve.Payments.SaleorCheckout.{CartItem}
use django_app_eve.Payments.Rows.{Journal}
use django_app_eve.Payments.Checkout.{
  Outcome, refused, Digests, Env, scoped_idempotency_key, place_order, leased, place_order_once,
  World,
}

abbrev body :
    (c : Cache) → Digests → Env → ℕ → String → List CartItem → Bool → World c → Outcome × World c
body c digests env user raw_key items =
    leased c digests env user (scoped_idempotency_key digests user raw_key) items

module _ (c : Cache) (laws : Laws c) (digests : Digests) (env : Env) (lease_key token : String)
    (user : ℕ) (raw_key : String) (items : List CartItem) (s : c.State) (j : Journal) where
  abbrev run : Option Outcome × World c
  run = place_order_once c digests env lease_key token user raw_key items (s, j)

  abbrev owned : Outcome × Journal
  owned = place_order digests env user (scoped_idempotency_key digests user raw_key) items true j

  -- With the user's lease free, the request does what its owner does, under the key scoped to the
  -- user, and afterwards the lease is free again.
  pub place_order_once-free :
      c.get lease_key s ≡ ok none
      → (run.0 ≡ some owned.0) × (run.1.1 ≡ owned.1) × (c.get lease_key run.1.0 ≡ ok none)
  unfolding place_order_once finish_lease leased
  place_order_once-free free =
      let (ran, held) =
        cache_lease-free c laws {W = World c} {R = Outcome} (λ w. w.0) (λ s w. (s, w.1))
          (λ s w. refl) lease_key token 60 (body c digests env user raw_key items) (s, j) free in
      rw ran (refl, refl, release-own c laws lease_key token _ held)

  -- While another request of the user holds the lease, the request is refused: nothing is read from
  -- or written to the tables, nothing is sent to Saleor, and the lease stays with its holder.
  pub place_order_once-busy :
      (v : Value)
      → c.get lease_key s ≡ ok (some v)
      → (run.0 ≡ some refused) × (run.1.1 ≡ j) × (c.get lease_key run.1.0 ≡ ok (some v))
  unfolding place_order_once place_order leased
  place_order_once-busy v busy =
      let (ran, held) =
        cache_lease-busy c laws {W = World c} {R = Outcome} (λ w. w.0) (λ s w. (s, w.1))
          (λ s w. refl) lease_key token 60 (body c digests env user raw_key items) (s, j) v busy in
      rw ran (refl, refl, held)

-- Where the cache cannot be reached, CacheLeaseUnavailable is raised, nothing is written and nothing
-- is sent to Saleor: the checkout fails closed.
pub place_order_once-down :
    (c : Cache) (digests : Digests) (env : Env) (lease_key token : String) (user : ℕ)
    (raw_key : String) (items : List CartItem) (s : c.State) (j : Journal)
    → IsDown c s
    → place_order_once c digests env lease_key token user raw_key items (s, j) ≡ (none, (s, j))
unfolding place_order_once
place_order_once-down c digests env lease_key token user raw_key items s j down =
    cache_lease-down c {W = World c} {R = Outcome} (λ w. w.0) (λ s w. (s, w.1)) lease_key token 60
      (body c digests env user raw_key items) (s, j) down
