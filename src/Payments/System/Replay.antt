-- ===== src/Payments/System/Replay.antt =====
-- Repeating a request to the checkout (Eve/payments/services/checkout.py) after other steps of the app.
use mathlib.Core.Option.{some-injective}
use mathlib.Core.Path.{subst}
use django_app_eve.Prelude.{
  ℕ, ◌≡◌, refl, ap, inl, inr, String, Bool-cases, true, some, List, [], ◌∷◌, find,
}
use django_app_eve.Payments.Models.{Order}
use django_app_eve.Payments.SaleorCheckout.{CartItem}
use django_app_eve.Payments.Rows.{Journal, is_order_of}
use django_app_eve.Payments.Checkout.{Outcome, placed, Digests, Env, place_order}
use django_app_eve.Payments.Checkout.Safe.{IsSafe}
use django_app_eve.Payments.Checkout.AtMostOnce.{place_order-IsSafe}
use django_app_eve.Payments.Checkout.Replay.{place_order-found, place_order-served}
use django_app_eve.Payments.Inbox.{Externals}
use django_app_eve.Payments.Tasks.Walks.{Walked}
use django_app_eve.Payments.System.{Action, run_all}
use django_app_eve.Payments.System.Grown.{Grown}
use django_app_eve.Payments.System.History.{run_all-Grown}

module _ (user : ℕ) (key : String) where
  is_order_of-Walked :
      (o o' : Order) → Walked o o' → is_order_of user key o' ≡ is_order_of user key o
  is_order_of-Walked o o' (inl same) = ap (is_order_of user key) same
  is_order_of-Walked o o' (inr (a, b, at_a, at_b, w)) = ap (is_order_of user key) at_b

  -- An order that is found goes on to be found, with the status that it has by then.
  pub find-Grown :
      (xs ys : List Order) (o : Order)
      → Grown xs ys
      → find (is_order_of user key) xs ≡ some o
      → (o' : Order) × Walked o o' × (find (is_order_of user key) ys ≡ some o')
  unfolding find
  find-Grown [] ys o g h = cc h
  find-Grown (x ∷ xs) [] o g h = absurd g
  find-Grown (x ∷ xs) (y ∷ ys) o g h =
      let same = is_order_of-Walked x y g.0 in
      elim (Bool-cases (is_order_of user key x)) [
        | inl e ↦
            let it : x ≡ o = some-injective x o (rw e at h) in
            (y, subst (λ z. Walked z y) it g.0, rw same (rw e refl))
        | inr e ↦
            let (o', w, found) = find-Grown xs ys o g.1 (rw e at h) in (o', w, rw same (rw e found))
      ]

-- When a run of the owner of the lease, from tables and a log that satisfy the invariant of
-- Checkout/Safe, returned an order, every later request of that user with that key returns this order,
-- sends nothing to Saleor and changes no table, whatever its cart and Saleor's answers, and
-- whichever checkouts, deliveries, webhook tasks and reconciliations came in between. The order is
-- the same but for its status, which may have gone on from pending, paid or failed as webhooks
-- make it.
pub place_order-replay :
    (digests : Digests) (ext : Externals) (actions : List Action) (env env' : Env) (user : ℕ)
    (key : String) (items items' : List CartItem) (j j' : Journal) (o : Order)
    → IsSafe j
    → place_order digests env user key items true j ≡ (placed o, j')
    → let j'' = run_all digests ext actions j' in
      (o' : Order) × Walked o o'
      × (place_order digests env' user key items' true j'' ≡ (placed o', j''))
place_order-replay digests ext actions env env' user key items items' j j' o s ran =
    let state = ap (λ (r : Outcome × Journal). r.1) ran in
    let found : find (is_order_of user key) j'.db.orders ≡ some o =
      subst (λ (x : Journal). find (is_order_of user key) x.db.orders ≡ some o) state
        (place_order-found digests env user key items true j o
          (ap (λ (r : Outcome × Journal). r.0) ran)) in
    let safe : IsSafe j' =
      subst IsSafe state (place_order-IsSafe digests env user key items true j s) in
    let j'' = run_all digests ext actions j' in
    let (o', walked, again) =
      find-Grown user key j'.db.orders j''.db.orders o (run_all-Grown digests ext actions j' safe)
        found in
    (o', walked, place_order-served digests env' user key items' j'' o' again)
