-- ===== src/Api/Checkout/Replay.antt =====
-- Repeating a request to the checkout of the API (Eve/api/v1/views.py).
use django_app_eve.Prelude.{
  ◌≡◌, refl, ◌∙◌, String, Option, none, some, true, false, find, not, if-both, arith,
}
use django_app_eve.Core.Cache.{Cache}
use django_app_eve.Ecommerce.Cart.{get_cart}
use django_app_eve.Payments.Models.{Order}
use django_app_eve.Payments.Rows.{is_order_of}
use django_app_eve.Payments.Checkout.{
  Outcome, placed, refused, failed_checkout, crashed, Digests, scoped_idempotency_key,
  place_order_once,
}
use django_app_eve.Payments.Checkout.Leased.{place_order_once-found}
use django_app_eve.Payments.CheckoutView.{cart_items}
use django_app_eve.Accounts.Profiles.{get_or_create, get_or_create-again}
use django_app_eve.Api.Checkout.{
  Answer, created, replayed, error, server_error, Post, Desk, Seen, on_outcome, finish_placing,
  place, unless_existing, check_key, checkout_post, key_of, is_bad_key,
}

-- The order that an answer carries.
abbrev pub order_of : Answer → Option Order
order_of (created o) = some o
order_of (replayed o) = some o
order_of (error status code) = none
order_of server_error = none

module _ (c : Cache) (digests : Digests) (p : Post) (o : Order) where
  -- The order that a lookup by the user and the key finds.
  abbrev pub existing : String → Desk c digests → Option Order
  existing key s =
      find (is_order_of p.user (scoped_idempotency_key digests p.user key)) s.world.1.db.orders

  abbrev pub key : String
  key = key_of p.header

  -- What a step that answered with the order leaves behind.
  record Kept (r : Seen c digests) : Type 0 where
    found : order_of r.0 ≡ some o → existing key r.1 ≡ some o

  on_outcome-Kept :
      (r : Option Outcome) (s : Desk c digests)
      → (r ≡ some (placed o) → existing key s ≡ some o)
      → Kept (on_outcome c digests p r s)
  unfolding on_outcome
  on_outcome-Kept none s h = record { found = λ e. cc }
  on_outcome-Kept (some failed_checkout) s h = record { found = λ e. cc }
  on_outcome-Kept (some crashed) s h = record { found = λ e. cc }
  on_outcome-Kept (some refused) s h = record { found = λ e. cc }
  on_outcome-Kept (some (placed x)) s h = record { found = λ e. h (cc) }

  unless_existing-Kept :
      (x : Option Order) (s : Desk c digests)
      → existing key s ≡ x
      → Kept (unless_existing c digests p key x s)
  unfolding unless_existing place finish_placing
  unless_existing-Kept (some x) s h = record { found = λ e. h ∙ e }
  unless_existing-Kept none s h =
      let (cart, carts) = get_cart p.now p.user s.carts in
      let r =
        place_order_once c digests p.env p.lease_key p.token p.user key (cart_items cart.items)
          s.world in
      on_outcome-Kept r.0 (record s { carts = carts; world = r.1 })
        (place_order_once-found c digests p.env p.lease_key p.token p.user key
          (cart_items cart.items) o s.world)

  -- A request that is let through to the lookup, and what holds of its answer.
  pub record Passed (s : Desk c digests) (r : Seen c digests) : Type 0 where
    pub keyed : is_bad_key key ≡ false
    pub kept : existing key r.1 ≡ some o
    pub verified : (get_or_create p.user r.1.profiles).0.email_verified ≡ true
    pub settled : (get_or_create p.user r.1.profiles).1 ≡ r.1.profiles

  -- The steps after the profile leave the profiles alone.
  on_outcome-profiles :
      (r : Option Outcome) (s : Desk c digests)
      → (on_outcome c digests p r s).1.profiles ≡ s.profiles
  unfolding on_outcome
  on_outcome-profiles none s = refl
  on_outcome-profiles (some failed_checkout) s = refl
  on_outcome-profiles (some crashed) s = refl
  on_outcome-profiles (some refused) s = refl
  on_outcome-profiles (some (placed x)) s = refl

  unless_existing-profiles :
      (x : Option Order) (s : Desk c digests)
      → (unless_existing c digests p key x s).1.profiles ≡ s.profiles
  unfolding unless_existing place finish_placing
  unless_existing-profiles (some x) s = refl
  unless_existing-profiles none s = on_outcome-profiles _ _

  checked :
      (s : Desk c digests)
      → (get_or_create p.user s.profiles).0.email_verified ≡ true
      → (get_or_create p.user s.profiles).1 ≡ s.profiles
      → order_of (check_key c digests p key s).0 ≡ some o
      → Passed s (check_key c digests p key s)
  unfolding check_key
  checked s v same =
      if-both (λ r. order_of r.0 ≡ some o → Passed s r) (is_bad_key key) _ _ (λ e h. cc)
        (λ e h. record {
          keyed = e;
          kept = (unless_existing-Kept (existing key s) s refl).found h;
          verified = rw (unless_existing-profiles (existing key s) s) v;
          settled = rw (unless_existing-profiles (existing key s) s) same;
        })

  pub passed :
      (s : Desk c digests)
      → order_of (checkout_post c digests p s).0 ≡ some o
      → Passed s (checkout_post c digests p s)
  unfolding checkout_post
  passed s =
      if-both Good (not p.is_enabled) _ _ (λ e h. cc)
        (λ e.
          if-both Good (not (get_or_create p.user s.profiles).0.email_verified) _ _ (λ e h. cc)
            (λ e h.
              let again = get_or_create-again p.user s.profiles in
              let r =
                checked (record s { profiles = (get_or_create p.user s.profiles).1 })
                  (rw again (ground (arith, e))) (rw again refl) h in
              record {
                keyed = r.keyed;
                kept = r.kept;
                verified = r.verified;
                settled = r.settled;
              }))
    where
      Good : Seen c digests → Type 0
      Good r = order_of r.0 ≡ some o → Passed s r

-- The order of an answer is found by its user and key afterwards.
pub checkout_post-found :
    (c : Cache) (digests : Digests) (p : Post) (s : Desk c digests) (o : Order)
    → let r = checkout_post c digests p s in
      order_of r.0 ≡ some o
      → find
          (is_order_of p.user (scoped_idempotency_key digests p.user (key_of p.header)))
          r.1.world.1.db.orders
        ≡ some o
checkout_post-found c digests p s o h = (passed c digests p o s h).kept

-- A request whose order is found already.
pub found_already :
    (c : Cache) (digests : Digests) (p : Post) (s : Desk c digests) (o : Order)
    → p.is_enabled ≡ true
    → (get_or_create p.user s.profiles).0.email_verified ≡ true
    → (get_or_create p.user s.profiles).1 ≡ s.profiles
    → is_bad_key (key_of p.header) ≡ false
    → existing c digests p o (key_of p.header) s ≡ some o
    → checkout_post c digests p s ≡ (replayed o, s)
unfolding checkout_post check_key unless_existing
found_already c digests p s o enabled verified settled keyed found =
    rw (enabled, settled, keyed, found) (rw verified)
