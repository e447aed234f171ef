-- ===== src/Api/CartViews/Bounded.antt =====
-- The bounds on what the API shows of the carts (Eve/api/v1/views.py, Eve/api/v1/serializers.py).
use django_app_eve.Prelude.{
  ℕ, ◌*◌, ◌≤◌, ◌≡◌, refl, String, Bool, List, [], ◌∷◌, map, length, length-map, All, All-map, arith,
}
use django_app_eve.Ecommerce.Cart.{LineItem, Cart, get_cart, max_item_quantity, max_cart_items}
use django_app_eve.Ecommerce.Cart.Bounds.{InRange, IsValid, AllValid}
use django_app_eve.Ecommerce.Cart.Requests.{get_cart-IsValid}
use django_app_eve.Ecommerce.Storefront.{Money, Shelf}
use django_app_eve.Api.Serializers.{ItemView, View, sum, item_view, cart_representation}
use django_app_eve.Api.CartViews.{cart, show_cart, cart_get}
use django_app_eve.Api.CartViews.Requests.{Request, run_requests, run_requests-AllValid}

-- The count of a list of items in range.
sum_quantities-le :
    (money : Money) (l : List LineItem)
    → All InRange l
    → sum (map (λ (i : ItemView money.Amount). i.quantity) (map (item_view money) l))
      ≤ length l * max_item_quantity
unfolding item_view
sum_quantities-le money [] h = omega arith
sum_quantities-le money (i ∷ l) h = omega (arith, h.0.1, sum_quantities-le money l h.1)

-- What the API shows of a valid cart.
abbrev pub IsShown : {A : Type 0} → View A → Type 0
IsShown v =
    (length v.items ≤ max_cart_items)
    × All (λ i. (1 ≤ i.quantity) × (i.quantity ≤ max_item_quantity)) v.items
    × (v.item_count ≤ max_cart_items * max_item_quantity)

representation-IsShown :
    (money : Money) (d : Cart) → IsValid d → IsShown (cart_representation money d)
unfolding cart_representation item_view
representation-IsShown money d v = (
  omega (arith, v.size, length-map (item_view money) d.items),
  All-map (item_view money) _ d.items v.range,
  omega (arith, v.size, sum_quantities-le money d.items v.range),
)

-- Whatever the users send to the pages and the endpoints of the cart, valid or not, and whatever the
-- catalogue answers: from valid carts on, every cart stays valid (at most 50 items, each product
-- once, each quantity from 1 to 99), and what `CartView.get` then answers to any user is a cart of
-- at most 50 items with those quantities, and a count of at most 4950.
pub run_requests-IsShown :
    (money : Money) (shelf : Shelf) (is_slug : String → Bool) (l : List (ℕ × ℕ × Request))
    (carts : List Cart) (now u : ℕ)
    → AllValid carts
    → let carts' = run_requests money shelf is_slug l carts in
      AllValid carts'
      × (v : View money.Amount) × ((cart_get money now u carts').0 ≡ cart 200 v)
      × IsShown v
unfolding cart_get show_cart
run_requests-IsShown money shelf is_slug l carts now u all =
    let after = run_requests-AllValid money shelf is_slug l carts all in
    let carts' = run_requests money shelf is_slug l carts in
    (
      after,
      cart_representation money (get_cart now u carts').0,
      refl,
      representation-IsShown money (get_cart now u carts').0 (get_cart-IsValid now u carts' after),
    )
