-- ===== src/Api/Checkout/Again.antt =====
-- Repeating a request to the checkout of the API (Eve/api/v1/views.py) after other steps of the app.
use mathlib.Core.Path.{subst}
use django_app_eve.Prelude.{
  ℕ, ◌≡◌, refl, sym, String, Option, none, some, true, false, List, find, not, if-both,
}
use django_app_eve.Core.Cache.{Cache}
use django_app_eve.Ecommerce.Cart.{get_cart}
use django_app_eve.Payments.Models.{Order}
use django_app_eve.Payments.Checkout.{
  Outcome, placed, refused, failed_checkout, crashed, Digests, scoped_idempotency_key,
}
use django_app_eve.Payments.Checkout.Safe.{IsSafe}
use django_app_eve.Payments.Checkout.Leased.{place_order_once-IsSafe}
use django_app_eve.Payments.CheckoutView.{cart_items}
use django_app_eve.Payments.Inbox.{Externals}
use django_app_eve.Payments.Tasks.Walks.{Walked}
use django_app_eve.Payments.System.{Action, run_all}
use django_app_eve.Payments.System.History.{run_all-Grown}
use django_app_eve.Payments.System.Replay.{find-Grown}
use django_app_eve.Accounts.Profiles.{Profile, is_profile_of, get_or_create, get_or_create_from}
use django_app_eve.Api.Checkout.{
  replayed, Post, Desk, Seen, on_outcome, finish_placing, place, unless_existing, check_key,
  checkout_post, key_of, is_bad_key,
}
use django_app_eve.Api.Checkout.Replay.{order_of, passed, found_already}

module _ (c : Cache) (digests : Digests) (p : Post) where
  abbrev Safely : Seen c digests → Type 0
  Safely r = IsSafe r.1.world.1

  on_outcome-IsSafe :
      (r : Option Outcome) (s : Desk c digests)
      → IsSafe s.world.1
      → Safely (on_outcome c digests p r s)
  unfolding on_outcome
  on_outcome-IsSafe none s h = h
  on_outcome-IsSafe (some failed_checkout) s h = h
  on_outcome-IsSafe (some crashed) s h = h
  on_outcome-IsSafe (some refused) s h = h
  on_outcome-IsSafe (some (placed o)) s h = h

  unless_existing-IsSafe :
      (key : String) (x : Option Order) (s : Desk c digests)
      → IsSafe s.world.1
      → Safely (unless_existing c digests p key x s)
  unfolding unless_existing place finish_placing
  unless_existing-IsSafe key (some x) s h = h
  unless_existing-IsSafe key none s h = on_outcome-IsSafe _ _ (
      place_order_once-IsSafe c digests p.env p.lease_key p.token p.user key
        (cart_items (get_cart p.now p.user s.carts).0.items) s.world h)

  -- A request keeps the invariant of the journal.
  pub checkout_post-IsSafe :
      (s : Desk c digests) → IsSafe s.world.1 → Safely (checkout_post c digests p s)
  unfolding checkout_post check_key
  checkout_post-IsSafe s h =
      if-both Safely (not p.is_enabled) _ _ (λ e. h)
        (λ e.
          if-both Safely (not (get_or_create p.user s.profiles).0.email_verified) _ _ (λ e. h)
            (λ e.
              if-both Safely (is_bad_key (key_of p.header)) _ _ (λ e. h)
                (λ e. unless_existing-IsSafe (key_of p.header) _ _ h)))

-- A profile that is there is found and not made again.
get_or_create-there :
    (user : ℕ) (profiles : List Profile) (q : Profile)
    → find (is_profile_of user) profiles ≡ some q
    → get_or_create user profiles ≡ (q, profiles)
unfolding get_or_create get_or_create_from
get_or_create-there user profiles q there = rw there refl

-- Once a request was answered with an order, new or not, in tables that satisfy the invariant of
-- Payments/Checkout/Safe, a later request of that user with that
-- header gets 200 with this order and changes nothing: neither the tables, the carts nor the
-- profiles, and nothing is sent to Saleor. In between there may have been any checkouts,
-- deliveries, webhook tasks and reconciliations, and the carts, the cache and the profiles may be
-- any, as long as the user has a profile with a verified address. The order is the same but for its
-- status, which may have gone on as webhooks make it.
pub checkout_post-replay :
    (c : Cache) (digests : Digests) (ext : Externals) (actions : List Action) (p again : Post)
    (s t : Desk c digests) (o : Order) (q : Profile)
    → IsSafe s.world.1
    → order_of (checkout_post c digests p s).0 ≡ some o
    → again.is_enabled ≡ true
    → again.user ≡ p.user
    → again.header ≡ p.header
    → t.world.1 ≡ run_all digests ext actions (checkout_post c digests p s).1.world.1
    → find (is_profile_of again.user) t.profiles ≡ some q
    → q.email_verified ≡ true
    → (o' : Order) × Walked o o' × (checkout_post c digests again t ≡ (replayed o', t))
checkout_post-replay c digests ext actions p again s t o q safe h enabled user header journal there
      verified =
    let r = passed c digests p o s h in
    let profile = get_or_create-there again.user t.profiles q there in
    let j' = (checkout_post c digests p s).1.world.1 in
    let (o', walked, found) =
      find-Grown p.user (scoped_idempotency_key digests p.user (key_of p.header)) j'.db.orders
        (run_all digests ext actions j').db.orders o
        (run_all-Grown digests ext actions j' (checkout_post-IsSafe c digests p s safe)) r.kept in
    (
      o',
      walked,
      found_already c digests again t o' enabled (rw profile verified) (rw profile refl)
          (subst (λ x. is_bad_key (key_of x) ≡ false) (sym header) r.keyed)
          (rw (journal, user, header) found),
    )
