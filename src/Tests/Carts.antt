-- ===== src/Tests/Carts.antt =====
-- The theorems about the carts, at one cart of two items.
use django_app_eve.Prelude.{ℕ, String, none, some, List, [], ◌∷◌, find, arith}
use django_app_eve.Ecommerce.Cart.{Field, LineItem, Cart, Product, find_cart, add_to_cart}
use django_app_eve.Ecommerce.Cart.Adding.{AddEffect, add_to_cart_exact}
use django_app_eve.Ecommerce.Cart.Bounds.{AllValid}
use django_app_eve.Ecommerce.Cart.Requests.{Op}

abbrev line : String → ℕ → LineItem
line id n = record {
  product_id = id;
  slug = id;
  name = id;
  variant_id = some "v";
  price_amount = "9.5";
  price_currency = "EUR";
  quantity = n;
  thumbnail_url = none;
}

abbrev carts : List Cart
carts = record { user_id = 7; items = line "tea" 98 ∷ line "mug" 1 ∷ []; updated_at = 0 } ∷ []

abbrev tea : Product
tea = record {
  id = "tea";
  slug = "tea";
  name = "tea";
  variant_id = some "v";
  gross = some (Field.num "9.5", Field.str "EUR");
  thumbnail_url = none;
}

add_to_cart_exact_example : AddEffect 7 "tea" 20 carts (add_to_cart 1 7 tea 20 carts)
add_to_cart_exact_example = add_to_cart_exact 1 7 tea 20 carts (omega arith)

abbrev requests : List (ℕ × ℕ × Op)
requests =
    (1, 7, Op.add tea 20) ∷ (2, 7, Op.set "mug" 300) ∷ (3, 8, Op.view) ∷ (4, 7, Op.clear) ∷ []

none_valid : AllValid []
unfolding find_cart find
none_valid v d h = cc
