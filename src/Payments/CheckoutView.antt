-- ===== src/Payments/CheckoutView.antt =====
-- Eve/payments/views.py: `checkout_view`, which joins the session, the carts and `place_order_once`.
pub mod Empties
use django_app_eve.Prelude.{
  ℕ, String, Option, none, some, Bool, true, false, List, [], ◌∷◌, find, map, not, str_eq,
  if◌then◌else◌,
}
use django_app_eve.Core.Cache.{Cache}
use django_app_eve.Ecommerce.Cart.{LineItem, Cart, get_cart, clear_cart}
use django_app_eve.Payments.Models.{Order}
use django_app_eve.Payments.SaleorCheckout.{CartItem}
use django_app_eve.Payments.Rows.{Journal, is_order_of}
use django_app_eve.Payments.Checkout.{
  Outcome, placed, refused, failed_checkout, crashed, Digests, Env, scoped_idempotency_key, World,
  place_order_once,
}

-- The pages and redirects; `server_error` is an exception that the view does not catch.
pub data Page : Type 0 where
  not_allowed disabled to_profile to_checkout to_history server_error : Page
  checkout_page : List LineItem → Page

-- What a request brings: the settings and the profile, the method, a new random key, the time, the
-- token of the lease and what Saleor answers.
pub record Visit : Type 0 where
  pub is_enabled : Bool
  pub email_verified : Bool
  pub is_post : Bool
  pub user : ℕ
  pub new_key : String
  pub now : ℕ
  pub lease_key : String
  pub token : String
  pub env : Env

-- `cart["items"]`, as the checkout reads them.
unfoldable pub cart_items : List LineItem → List CartItem
cart_items items =
    map
      (λ (i : LineItem).
        let c : CartItem = record { variant_id = i.variant_id; quantity = i.quantity } in c)
      items

module _ (c : Cache) (digests : Digests) where
  -- The cache and the tables, the carts, and the key in the session.
  pub record Shop : Type 0 where
    pub world : World c
    pub carts : List Cart
    pub session_key : Option String

  -- The page, the order that this request placed, and the state.
  abbrev pub Seen : Type 0
  Seen = Page × Option Order × Shop

  -- After `place_order_once`.
  unfoldable pub on_outcome : Visit → Option Outcome → Shop → Seen
  on_outcome v none s = (to_checkout, none, s)
  on_outcome v (some failed_checkout) s = (to_checkout, none, s)
  on_outcome v (some crashed) s = (server_error, none, s)
  on_outcome v (some refused) s = (to_history, none, s)
  on_outcome v (some (placed o)) s =
      (to_history, some o, record s { session_key = none; carts = clear_cart v.now v.user s.carts })

  unfoldable pub finish_placing : Visit → Shop → Option Outcome × World c → Seen
  finish_placing v s (r, w) = on_outcome v r (record s { world = w })

  unfoldable pub place_with : Visit → String → Cart → Shop → Seen
  place_with v key cart s = finish_placing v s (
      place_order_once c digests v.env v.lease_key v.token v.user key (cart_items cart.items)
        s.world)

  -- `get_cart`, then the rest with its document.
  unfoldable pub with_cart : Visit → (Cart → Shop → Seen) → Shop → Seen
  with_cart v rest s =
      let (cart, carts) = get_cart v.now v.user s.carts in rest cart (record s { carts = carts })

  unfoldable pub unless_ordered : Visit → String → Option Order → Shop → Seen
  unfolding with_cart place_with
  unless_ordered v key (some o) s = (to_history, none, s)
  unless_ordered v key none s = with_cart v (place_with v key) s

  unfoldable pub post : Visit → Option String → Shop → Seen
  unfolding unless_ordered
  post v none s = (to_checkout, none, s)
  post v (some key) s =
      if str_eq key ""
      then (to_checkout, none, s)
      else unless_ordered v key
          (find (is_order_of v.user (scoped_idempotency_key digests v.user key))
            s.world.1.db.orders)
          s

  unfoldable pub show_checkout : Cart → Shop → Seen
  show_checkout cart s = (checkout_page cart.items, none, s)

  -- A GET puts a new key in the session and shows the cart.
  unfoldable pub get_page : Visit → Shop → Seen
  unfolding with_cart show_checkout
  get_page v s = with_cart v show_checkout (record s { session_key = some v.new_key })

  unfoldable pub checkout_view : Visit → Shop → Seen
  unfolding post get_page
  checkout_view v s =
      if not v.is_enabled
      then ((if v.is_post then not_allowed else disabled), none, s)
      else if not v.email_verified
      then (to_profile, none, s)
      else if v.is_post
      then post v s.session_key s
      else get_page v s
