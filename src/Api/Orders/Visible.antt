-- ===== src/Api/Orders/Visible.antt =====
-- Who can read an order over the API (Eve/api/v1/views.py).
use mathlib.Core.Option.{some-injective}
use mathlib.Core.Path.{subst}
use django_app_eve.Prelude.{
  ℕ, ◌≡◌, sym, ap, ◌∙◌, inl, inr, none, some, Option-cases, &&-right, Bool, true, Bool-cases, All,
  All-mono, find, find-All, find_sound, find-select-kept, find-select-none, ◌==◌, str_eq, eq_iff,
  if◌then◌else◌, arith,
}
use django_app_eve.Prelude.Unique.{Unique, find_self}
use django_app_eve.Core.Cache.{Cache}
use django_app_eve.Payments.Models.{Order}
use django_app_eve.Payments.Rows.{is_order_of}
use django_app_eve.Payments.Checkout.{Digests, scoped_idempotency_key}
use django_app_eve.Payments.Db.{Db}
use django_app_eve.Api.Checkout.{Post, Desk, checkout_post, key_of}
use django_app_eve.Api.Checkout.Replay.{order_of, checkout_post-found}
use django_app_eve.Api.Orders.{order_retrieve}

module _ (db : Db) (o : Order) (unique : Unique (λ (x : Order). x.saleor_order_id) db.orders) where
  -- The order stands in the table under its Saleor id, and under no other row.
  found_by_id :
      (q : Order → Bool)
      → find q db.orders ≡ some o
      → find (λ (x : Order). str_eq x.saleor_order_id o.saleor_order_id) db.orders ≡ some o
  found_by_id q found =
      find-All
        (λ (a : Order).
          find (λ (x : Order). str_eq x.saleor_order_id a.saleor_order_id) db.orders ≡ some a)
        q db.orders {a = o}
        (find_self (λ (x : Order). x.saleor_order_id) str_eq eq_iff db.orders unique) found

  only_one :
      find (λ (x : Order). str_eq x.saleor_order_id o.saleor_order_id) db.orders ≡ some o
      → All (λ (x : Order). str_eq x.saleor_order_id o.saleor_order_id ≡ true → x ≡ o) db.orders
  only_one found =
      All-mono _ _ db.orders
        (λ x at same. some-injective x o (
          sym at
          ∙ subst (λ k. find (λ (y : Order). str_eq y.saleor_order_id k) db.orders ≡ some o)
              (sym ((eq_iff x.saleor_order_id o.saleor_order_id).0 same)) found))
        (find_self (λ (x : Order). x.saleor_order_id) str_eq eq_iff db.orders unique)

  own_order :
      (v user : ℕ) (q : Order → Bool)
      → find q db.orders ≡ some o
      → (o.user == user) ≡ true
      → order_retrieve v o.saleor_order_id db ≡ (if v == user then some o else none)
  unfolding order_retrieve
  own_order v user q found own = elim (Bool-cases (v == user)) [
    | inl e ↦ rw e (
        find-select-kept (λ (x : Order). str_eq x.saleor_order_id o.saleor_order_id)
          (λ (x : Order). x.user == v) db.orders o (found_by_id q found) (ground (arith, own, e)))
    | inr e ↦ rw e (
        find-select-none (λ (x : Order). str_eq x.saleor_order_id o.saleor_order_id)
          (λ (x : Order). x.user == v) db.orders
          (All-mono _ _ db.orders
            (λ x only same. ap (λ (y : Order). y.user == v) (only same) ∙ ground (arith, own, e))
            (only_one (found_by_id q found))))
  ]

-- An order that `CheckoutView.post` answered with, new or not, is the one that `OrderViewSet.retrieve`
-- then gives to that user under its id, and any other user gets 404. The column of the Saleor ids
-- is unique.
pub order_retrieve-checkout_post :
    (c : Cache) (digests : Digests) (p : Post) (s : Desk c digests) (o : Order) (v : ℕ)
    → let r = checkout_post c digests p s in
      let db = r.1.world.1.db in
      order_of r.0 ≡ some o
      → Unique (λ (x : Order). x.saleor_order_id) db.orders
      → order_retrieve v o.saleor_order_id db ≡ (if v == p.user then some o else none)
order_retrieve-checkout_post c digests p s o v answered unique =
    let key = scoped_idempotency_key digests p.user (key_of p.header) in
    let db = (checkout_post c digests p s).1.world.1.db in
    let found = checkout_post-found c digests p s o answered in
    own_order db o unique v p.user (is_order_of p.user key) found
      (owner o (find_sound (is_order_of p.user key) db.orders {a = o} found))
  where
    owner :
        (x : Order)
        → is_order_of p.user (scoped_idempotency_key digests p.user (key_of p.header)) x ≡ true
        → (x.user == p.user) ≡ true
    owner x h = elim (Option-cases x.idempotency_key) [
      | inl e ↦ cc (rw e at h)
      | inr (k, e) ↦
          &&-right (str_eq k (scoped_idempotency_key digests p.user (key_of p.header)))
            (x.user == p.user) (rw e at h)
    ]
