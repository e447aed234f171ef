-- ===== src/Api/Checkout/Empties.antt =====
-- When `CheckoutView.post` (Eve/api/v1/views.py) empties the cart.
use django_app_eve.Prelude.{
  ℕ, ◌≡◌, ◌∙◌, String, Option, none, some, Bool, true, false, Bool-cases, inl, inr, List, not, ◌&&◌,
  ◌==◌, if◌then◌else◌, if-both,
}
use django_app_eve.Core.Cache.{Cache}
use django_app_eve.Ecommerce.Cart.{Cart, get_cart}
use django_app_eve.Ecommerce.Cart.View.{quantity_in}
use django_app_eve.Ecommerce.Cart.Changes.{clear_cart_exact}
use django_app_eve.Payments.Models.{Order}
use django_app_eve.Payments.Checkout.{
  Outcome, placed, refused, failed_checkout, crashed, Digests, place_order_once,
}
use django_app_eve.Payments.CheckoutView.{cart_items}
use django_app_eve.Payments.CheckoutView.Empties.{get_cart-quantity_in}
use django_app_eve.Accounts.Profiles.{get_or_create}
use django_app_eve.Api.Checkout.{
  Answer, created, Post, Desk, Seen, on_outcome, finish_placing, place, unless_existing, check_key,
  checkout_post, key_of, is_bad_key,
}

abbrev pub is_created : Answer → Bool
is_created (created o) = true
is_created _ = false

module _ (c : Cache) (digests : Digests) (p : Post) (w : ℕ) (q : String) where
  -- The quantities after a step, against those of the carts before it.
  abbrev Quantities : List Cart → Seen c digests → Type 0
  Quantities carts (a, s) =
      quantity_in w q s.carts ≡ (if w == p.user && is_created a then 0 else quantity_in w q carts)

  unchanged : (n : ℕ) → n ≡ (if w == p.user && false then 0 else n)
  unchanged n = elim (Bool-cases (w == p.user)) [ inl e ↦ rw e | inr e ↦ rw e ]

  on_outcome-Quantities :
      (r : Option Outcome) (s : Desk c digests) → Quantities s.carts (on_outcome c digests p r s)
  unfolding on_outcome
  on_outcome-Quantities none s = unchanged _
  on_outcome-Quantities (some failed_checkout) s = unchanged _
  on_outcome-Quantities (some crashed) s = unchanged _
  on_outcome-Quantities (some refused) s = unchanged _
  on_outcome-Quantities (some (placed o)) s =
      clear_cart_exact p.now p.user s.carts w q
      ∙ elim (Bool-cases (w == p.user)) [ inl e ↦ rw e | inr e ↦ rw e ]

  place-Quantities :
      (key : String) (s : Desk c digests) → Quantities s.carts (place c digests p key s)
  unfolding place finish_placing
  place-Quantities key s =
      let (cart, carts) = get_cart p.now p.user s.carts in
      let r =
        place_order_once c digests p.env p.lease_key p.token p.user key (cart_items cart.items)
          s.world in
      on_outcome-Quantities r.0 (record s { carts = carts; world = r.1 })
      ∙ rw (get_cart-quantity_in p.now p.user s.carts w q)

  unless_existing-Quantities :
      (key : String) (o : Option Order) (s : Desk c digests)
      → Quantities s.carts (unless_existing c digests p key o s)
  unfolding unless_existing
  unless_existing-Quantities key (some o) s = unchanged _
  unless_existing-Quantities key none s = place-Quantities key s

  check_key-Quantities :
      (key : String) (s : Desk c digests) → Quantities s.carts (check_key c digests p key s)
  unfolding check_key
  check_key-Quantities key s =
      if-both (Quantities s.carts) (is_bad_key key) _ _ (λ e. unchanged _)
        (λ e. unless_existing-Quantities key _ s)

-- A request to the checkout of the API empties the user's cart exactly when it answers 201: after a
-- replay and after every error all quantities are as before, and other users' carts always are.
pub checkout_post-empties :
    (c : Cache) (digests : Digests) (p : Post) (s : Desk c digests) (w : ℕ) (q : String)
    → let (a, s') = checkout_post c digests p s in
      quantity_in w q s'.carts
      ≡ (if w == p.user && is_created a then 0 else quantity_in w q s.carts)
unfolding checkout_post
checkout_post-empties c digests p s w q =
    if-both Good (not p.is_enabled) _ _ (λ e. unchanged c digests p w q _)
      (λ e.
        if-both Good (not (get_or_create p.user s.profiles).0.email_verified) _ _
          (λ e. unchanged c digests p w q _)
          (λ e.
            check_key-Quantities c digests p w q (key_of p.header)
              (record s { profiles = (get_or_create p.user s.profiles).1 })))
  where
    Good : Seen c digests → Type 0
    Good = Quantities c digests p w q s.carts
