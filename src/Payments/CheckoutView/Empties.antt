-- ===== src/Payments/CheckoutView/Empties.antt =====
-- When `checkout_view` (Eve/payments/views.py) empties the cart.
use django_app_eve.Prelude.{
  ℕ, ◌≡◌, refl, ◌∙◌, String, Option, none, some, Option-cases, Bool, true, false, Bool-cases, ◌⊎◌,
  inl, inr, List, find, not, ◌&&◌, ◌==◌, ==_iff, str_eq, if◌then◌else◌, if-both,
}
use django_app_eve.Core.Cache.{Cache}
use django_app_eve.Ecommerce.Cart.{Cart, find_cart, get_cart, empty_cart_doc}
use django_app_eve.Ecommerce.Cart.Items.{quantity_of}
use django_app_eve.Ecommerce.Cart.View.{quantity_in, find_cart-appended}
use django_app_eve.Ecommerce.Cart.Changes.{emptied, clear_cart_exact}
use django_app_eve.Payments.Models.{Order}
use django_app_eve.Payments.Checkout.{
  Outcome, placed, refused, failed_checkout, crashed, Digests, place_order_once,
}
use django_app_eve.Payments.CheckoutView.{
  Visit, Shop, Seen, cart_items, on_outcome, finish_placing, place_with, with_cart, unless_ordered,
  post, show_checkout, get_page, checkout_view,
}

abbrev pub has_ordered : Option Order → Bool
has_ordered none = false
has_ordered (some o) = true

-- Making an empty document changes no quantity.
pub get_cart-quantity_in :
    (now u : ℕ) (carts : List Cart) (w : ℕ) (q : String)
    → quantity_in w q (get_cart now u carts).1 ≡ quantity_in w q carts
unfolding get_cart empty_cart_doc quantity_in quantity_of find
get_cart-quantity_in now u carts w q = elim (Option-cases (find_cart u carts)) [
  | inr (d, e) ↦ rw (e, get_cart) refl
  | inl e ↦
      rw (e, get_cart)
        (emptied u w q carts _ (empty_cart_doc now u) refl (find_cart-appended u w carts _ refl e)
          ∙ none_there e (Bool-cases (w == u)))
]
  where
    none_there :
        find_cart u carts ≡ none
        → ((w == u) ≡ true) ⊎ ((w == u) ≡ false)
        → (if w == u then 0 else quantity_in w q carts) ≡ quantity_in w q carts
    none_there e (inr z) = rw z
    none_there e (inl z) = rw z (rw ((==_iff w u).0 z) (rw e))

module _ (c : Cache) (digests : Digests) (v : Visit) (w : ℕ) (q : String) where
  -- The quantities after a step, against those of the carts before it.
  abbrev Quantities : List Cart → Seen c digests → Type 0
  Quantities carts (page, o, s) =
      quantity_in w q s.carts ≡ (if w == v.user && has_ordered o then 0 else quantity_in w q carts)

  unchanged : (n : ℕ) → n ≡ (if w == v.user && false then 0 else n)
  unchanged n = elim (Bool-cases (w == v.user)) [ inl e ↦ rw e | inr e ↦ rw e ]

  on_outcome-Quantities :
      (r : Option Outcome) (s : Shop c digests) → Quantities s.carts (on_outcome c digests v r s)
  unfolding on_outcome
  on_outcome-Quantities none s = unchanged _
  on_outcome-Quantities (some failed_checkout) s = unchanged _
  on_outcome-Quantities (some crashed) s = unchanged _
  on_outcome-Quantities (some refused) s = unchanged _
  on_outcome-Quantities (some (placed o)) s =
      clear_cart_exact v.now v.user s.carts w q
      ∙ elim (Bool-cases (w == v.user)) [ inl e ↦ rw e | inr e ↦ rw e ]

  with_cart-Quantities :
      (rest : Cart → Shop c digests → Seen c digests) (s : Shop c digests)
      → ((d : Cart) (t : Shop c digests) → Quantities t.carts (rest d t))
      → Quantities s.carts (with_cart c digests v rest s)
  unfolding with_cart
  with_cart-Quantities rest s h =
      h (get_cart v.now v.user s.carts).0 (record s { carts = (get_cart v.now v.user s.carts).1 })
      ∙ rw (get_cart-quantity_in v.now v.user s.carts w q)

  place_with-Quantities :
      (key : String) (d : Cart) (s : Shop c digests)
      → Quantities s.carts (place_with c digests v key d s)
  unfolding place_with finish_placing
  place_with-Quantities key d s =
      let r =
        place_order_once c digests v.env v.lease_key v.token v.user key (cart_items d.items)
          s.world in
      on_outcome-Quantities r.0 (record s { world = r.1 })

  unless_ordered-Quantities :
      (key : String) (o : Option Order) (s : Shop c digests)
      → Quantities s.carts (unless_ordered c digests v key o s)
  unfolding unless_ordered
  unless_ordered-Quantities key (some o) s = unchanged _
  unless_ordered-Quantities key none s =
      with_cart-Quantities (place_with c digests v key) s (place_with-Quantities key)

  post-Quantities :
      (key : Option String) (s : Shop c digests) → Quantities s.carts (post c digests v key s)
  unfolding post
  post-Quantities none s = unchanged _
  post-Quantities (some key) s =
      if-both (Quantities s.carts) (str_eq key "") _ _ (λ e. unchanged _)
        (λ e. unless_ordered-Quantities key _ s)

-- A visit to the checkout empties the user's cart exactly when it placed an order: on every other page
-- and after every error all quantities are as before, and other users' carts always are.
pub checkout_view-empties :
    (c : Cache) (digests : Digests) (v : Visit) (s : Shop c digests) (w : ℕ) (q : String)
    → let (page, o, s') = checkout_view c digests v s in
      quantity_in w q s'.carts
      ≡ (if w == v.user && has_ordered o then 0 else quantity_in w q s.carts)
unfolding checkout_view get_page show_checkout
checkout_view-empties c digests v s w q =
    if-both Good (not v.is_enabled) _ _ (λ e. unchanged c digests v w q _)
      (λ e.
        if-both Good (not v.email_verified) _ _ (λ e. unchanged c digests v w q _)
          (λ e.
            if-both Good v.is_post _ _ (λ e. post-Quantities c digests v w q s.session_key s)
              (λ e.
                with_cart-Quantities c digests v w q (show_checkout c digests)
                  (record s { session_key = some v.new_key })
                  (λ d t. unchanged c digests v w q _))))
  where
    Good : Seen c digests → Type 0
    Good = Quantities c digests v w q s.carts
