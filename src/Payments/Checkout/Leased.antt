-- ===== src/Payments/Checkout/Leased.antt =====
-- What `place_order_once` (Eve/payments/services/checkout.py) returns, seen through its lease.
use django_app_eve.Prelude.{ℕ, ◌≡◌, String, Option, some, Bool, List, find}
use django_app_eve.Core.Cache.{Cache, Reply, ok, value_error, unreachable, text}
use django_app_eve.Core.Lease.{run_lease, finish_lease, cache_lease}
use django_app_eve.Payments.Models.{Order}
use django_app_eve.Payments.SaleorCheckout.{CartItem}
use django_app_eve.Payments.Rows.{is_order_of}
use django_app_eve.Payments.Checkout.{
  Outcome, placed, Digests, Env, scoped_idempotency_key, leased, place_order_once, World,
}
use django_app_eve.Payments.Checkout.Safe.{IsSafe}
use django_app_eve.Payments.Checkout.AtMostOnce.{place_order-IsSafe}
use django_app_eve.Payments.Checkout.Replay.{place_order-found}

some_inner : (r p : Outcome) → some r ≡ some p → r ≡ p
some_inner r p h = cc

module _ (c : Cache) (digests : Digests) (env : Env) (lease_key token : String) (user : ℕ)
    (raw_key : String) (items : List CartItem) (o : Order) where
  -- If the run returned the order, the lookup finds it.
  abbrev Finds : Option Outcome × World c → Type 0
  Finds (r, w) =
      r ≡ some (placed o)
      → find (is_order_of user (scoped_idempotency_key digests user raw_key)) w.1.db.orders ≡ some o

  run_lease-Finds :
      (added : Reply Bool × c.State) (w : World c)
      → Finds (
          run_lease c {W = World c} {R = Outcome}
            (λ w. w.0)
            (λ s w. (s, w.1))
            lease_key
            token
            (leased c digests env user (scoped_idempotency_key digests user raw_key) items)
            added
            w)
  unfolding run_lease finish_lease leased
  run_lease-Finds (ok owner, s) w h =
      place_order-found digests env user (scoped_idempotency_key digests user raw_key) items owner
        w.1 o (some_inner _ (placed o) h)
  run_lease-Finds (value_error, s) w h = cc
  run_lease-Finds (unreachable, s) w h = cc

  -- The order that a request returned is found by its key and user afterwards.
  pub place_order_once-found :
      (w : World c)
      → let r = place_order_once c digests env lease_key token user raw_key items w in
        r.0 ≡ some (placed o)
        → find (is_order_of user (scoped_idempotency_key digests user raw_key)) r.1.1.db.orders
          ≡ some o
  unfolding place_order_once cache_lease
  place_order_once-found w h = run_lease-Finds (c.add lease_key (text token) 60 w.0) w h

-- A request keeps the invariant of the journal, whatever becomes of its lease.
module _ (c : Cache) (digests : Digests) (env : Env) (lease_key token : String) (user : ℕ)
    (raw_key : String) (items : List CartItem) where
  run_lease-IsSafe :
      (added : Reply Bool × c.State) (w : World c)
      → IsSafe w.1
      → IsSafe
          (run_lease c {W = World c} {R = Outcome}
            (λ w. w.0)
            (λ s w. (s, w.1))
            lease_key
            token
            (leased c digests env user (scoped_idempotency_key digests user raw_key) items)
            added
            w).1.1
  unfolding run_lease finish_lease leased
  run_lease-IsSafe (ok owner, s) w h =
      place_order-IsSafe digests env user (scoped_idempotency_key digests user raw_key) items owner
        w.1 h
  run_lease-IsSafe (value_error, s) w h = h
  run_lease-IsSafe (unreachable, s) w h = h

  pub place_order_once-IsSafe :
      (w : World c)
      → IsSafe w.1
      → IsSafe (place_order_once c digests env lease_key token user raw_key items w).1.1
  unfolding place_order_once cache_lease
  place_order_once-IsSafe w h = run_lease-IsSafe (c.add lease_key (text token) 60 w.0) w h
