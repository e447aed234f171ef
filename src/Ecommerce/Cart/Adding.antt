-- ===== src/Ecommerce/Cart/Adding.antt =====
-- `add_to_cart` of Eve/ecommerce/services/cart_service.py as an operation on the map from users and
-- products to quantities.
use django_app_eve.Prelude.{
  ℕ, ◌+◌, ◌≤◌, min, ◌≡◌, refl, String, none, some, false, Option-cases, inl, inr, List, length,
  find, ◌&&◌, ◌==◌, str_eq, if◌then◌else◌, arith,
}
use django_app_eve.Ecommerce.Cart.{
  Cart, Product, is_item, has_item, find_cart, empty_cart_doc, AddResult, added, cart_full,
  add_to_cart, line_item, max_item_quantity, max_cart_items,
}
use django_app_eve.Ecommerce.Cart.Items.{quantity_of}
use django_app_eve.Ecommerce.Cart.View.{
  quantity_in, quantity_in-changed, increment-clamp, append-quantity_of,
}
use django_app_eve.Ecommerce.Cart.Cases.{
  NewCart, bumped, pushed, created, AddCases, add_to_cart-AddCases,
}

-- What adding `n` of a product to a user's cart means: one entry of the map grows, up to 99. A
-- refusal changes nothing, and happens at a cart with 50 items or more, none of that product.
abbrev pub AddEffect : ℕ → String → ℕ → List Cart → AddResult → Type 0
AddEffect u product n carts (added carts') =
    (v : ℕ) (q : String)
    → quantity_in v q carts' ≡ (
        if v == u && str_eq product q
        then min max_item_quantity (quantity_in u product carts + n)
        else quantity_in v q carts)
AddEffect u product n carts (cart_full carts') =
    (carts' ≡ carts)
    × (d : Cart) × (find_cart u carts ≡ some d)
    × (has_item product d ≡ false)
    × (max_cart_items ≤ length d.items)

module _ (now u : ℕ) (p : Product) (n : ℕ) (small : n ≤ max_item_quantity) (carts : List Cart) where
  -- Where none was held, `n` is the clamped sum.
  sum_lem : quantity_in u p.id carts ≡ 0 → n ≡ min max_item_quantity (quantity_in u p.id carts + n)
  sum_lem e = omega (arith, e, small)

  none_held : (d : Cart) → has_item p.id d ≡ false → quantity_of p.id d.items ≡ 0
  unfolding has_item quantity_of
  none_held d away = elim (Option-cases (find (is_item p.id) d.items)) [
    | inl z ↦ rw z
    | inr (i, z) ↦ cc (rw z at away)
  ]

  new_quantities :
      (carts' : List Cart) (d : Cart)
      → NewCart now u p n carts d
      → ((v : ℕ) → find_cart v carts' ≡ (if v == u then some d else find_cart v carts))
      → AddEffect u p.id n carts (added carts')
  unfolding quantity_in line_item has_item quantity_of empty_cart_doc find
  new_quantities carts' d' (bumped d here there) lookup = rw here (
      quantity_in-changed u p.id (min max_item_quantity (quantity_of p.id d.items + n)) carts carts'
        (some d) _ here lookup (increment-clamp now p.id n d there))
  new_quantities carts' d' (pushed d here away room) lookup =
      rw (← sum_lem (rw here (none_held d away))) (
        quantity_in-changed u p.id n carts carts' (some d) _ here lookup
          (append-quantity_of now (line_item p n) d away))
  new_quantities carts' d' (created absent) lookup = rw (← sum_lem (rw absent)) (
      quantity_in-changed u p.id n carts carts' none _ absent lookup
        (append-quantity_of now (line_item p n) (empty_cart_doc now u) refl))

  effect_of : (r : AddResult) → AddCases now u p n carts r → AddEffect u p.id n carts r
  effect_of (added carts') (d, new, lookup) = new_quantities carts' d new lookup
  effect_of (cart_full carts') h = h

-- Adding `n` ≤ 99 of a product either succeeds, and then the user's quantity of that product is the
-- old one plus `n`, at most 99, while every other product and every other user's cart is as before;
-- or it is refused, and then nothing changed, and the cart holds 50 items or more, none of them that
-- product.
pub add_to_cart_exact :
    (now u : ℕ) (p : Product) (n : ℕ) (carts : List Cart)
    → n ≤ max_item_quantity
    → AddEffect u p.id n carts (add_to_cart now u p n carts)
add_to_cart_exact now u p n carts small =
    effect_of now u p n small carts _ (add_to_cart-AddCases now u p n carts)
