-- ===== src/Api/CartViews/Requests.antt =====
-- The bounds on the carts, through the pages of the shop (Eve/ecommerce/views.py) and the endpoints of
-- the API (Eve/api/v1/views.py): what the views let through is what the service expects.
use django_app_eve.Prelude.{
  ℕ, ◌≤◌, ◌≡◌, refl, String, Option, none, some, Bool, true, false, List, [], ◌∷◌, arith,
}
use django_app_eve.Ecommerce.Cart.{
  Cart, Product, AddResult, added, cart_full, add_to_cart, set_item_quantity, max_request_quantity,
}
use django_app_eve.Ecommerce.Cart.Bounds.{carts_of, AllValid}
use django_app_eve.Ecommerce.Cart.Requests.{Op, run_op, run_op-AllValid}
use django_app_eve.Ecommerce.Catalogue
use django_app_eve.Ecommerce.Catalogue.{Sources, Result, found, not_found, unavailable, get_product}
use django_app_eve.Ecommerce.Quantity.{Integer, parse_quantity, parse_quantity_bounds}
use django_app_eve.Ecommerce.Storefront.{
  Money, Shelf, get_product_or_404, cart_view, add_to_cart_view, remove_from_cart_view,
}
use django_app_eve.Ecommerce.Storefront
use django_app_eve.Api.Serializers.{
  Input, absent, malformed, value, valid_quantity, add_quantity, update_quantity, valid_slug,
}
use django_app_eve.Api.CartViews.{
  show_cart, cart_get, cart_delete, after_add, add_found, add_valid, cart_items_post, after_update,
  update_valid, cart_item_patch, cart_item_delete,
}

-- A request of a signed-in user, at either door, with whatever the client sends.
pub data Request : Type 0 where
  page_add : Option String → Sources → Request
  page_remove : String → Request
  page_cart : Request
  api_add : Input String → Input Integer → (String → Sources) → Request
  api_set : String → Input Integer → Request
  api_remove : String → Request
  api_cart : Request
  api_clear : Request

valid_quantity_bounds :
    (i : Integer) (n : ℕ) → valid_quantity i ≡ some n → (1 ≤ n) × (n ≤ max_request_quantity)
unfolding valid_quantity
valid_quantity_bounds i n h = ground arith

add_quantity_bounds :
    (q : Input Integer) (n : ℕ) → add_quantity q ≡ some n → (1 ≤ n) × (n ≤ max_request_quantity)
unfolding add_quantity
add_quantity_bounds absent n h = ground arith
add_quantity_bounds malformed n h = cc
add_quantity_bounds (value i) n h = valid_quantity_bounds i n h

module _ (money : Money) (shelf : Shelf) (is_slug : String → Bool) where
  unfoldable pub run_request : ℕ → ℕ → Request → List Cart → List Cart
  run_request now u (page_add quantity src) carts =
      (add_to_cart_view money shelf now u quantity src carts).1
  run_request now u (page_remove product) carts =
      (remove_from_cart_view money now u product carts).1
  run_request now u page_cart carts = (cart_view money now u carts).1
  run_request now u (api_add slug quantity sources) carts =
      (cart_items_post money shelf is_slug sources now u slug quantity carts).1
  run_request now u (api_set product quantity) carts =
      (cart_item_patch money now u product quantity carts).1
  run_request now u (api_remove product) carts = (cart_item_delete money now u product carts).1
  run_request now u api_cart carts = (cart_get money now u carts).1
  run_request now u api_clear carts = (cart_delete money now u carts).1

  -- At a time, a user's request.
  unfoldable pub run_requests : List (ℕ × ℕ × Request) → List Cart → List Cart
  run_requests [] carts = carts
  run_requests ((now, u, r) ∷ rest) carts = run_requests rest (run_request now u r carts)

  -- Adding a quantity that was let through.
  adding :
      (now u n : ℕ) (p : Product) (carts : List Cart)
      → (1 ≤ n) × (n ≤ max_request_quantity)
      → AllValid carts
      → AllValid (carts_of (add_to_cart now u p n carts))
  unfolding run_op
  adding now u n p carts bounds all = run_op-AllValid now u (Op.add p n) carts bounds all

  shown-AllValid :
      (status now u : ℕ) (carts : List Cart)
      → AllValid carts
      → AllValid (show_cart money status now u carts).1
  unfolding show_cart run_op
  shown-AllValid status now u carts all = run_op-AllValid now u Op.view carts tt all

  page_after_add :
      (r : AddResult) → AllValid (carts_of r) → AllValid (Storefront.after_add money r).1
  unfolding Storefront.after_add
  page_after_add (added carts) h = h
  page_after_add (cart_full carts) h = h

  page_product :
      (now u n : ℕ) (o : Option Catalogue.Product) (carts : List Cart)
      → (1 ≤ n) × (n ≤ max_request_quantity)
      → AllValid carts
      → AllValid (Storefront.add_product money shelf now u n o carts).1
  unfolding Storefront.add_product
  page_product now u n none carts bounds all = all
  page_product now u n (some p) carts bounds all =
      page_after_add (add_to_cart now u (shelf.read p) n carts)
        (adding now u n (shelf.read p) carts bounds all)

  page_quantity :
      (now u : ℕ) (src : Sources) (q : Option ℕ) (carts : List Cart)
      → ((n : ℕ) → q ≡ some n → (1 ≤ n) × (n ≤ max_request_quantity))
      → AllValid carts
      → AllValid (Storefront.add_quantity money shelf now u src q carts).1
  unfolding Storefront.add_quantity
  page_quantity now u src none carts bounds all = all
  page_quantity now u src (some n) carts bounds all =
      page_product now u n (get_product_or_404 shelf.parse src) carts (bounds n refl) all

  api_after_add :
      (now u : ℕ) (r : AddResult) → AllValid (carts_of r) → AllValid (after_add money now u r).1
  unfolding after_add
  api_after_add now u (added carts) h = shown-AllValid 201 now u carts h
  api_after_add now u (cart_full carts) h = h

  api_found :
      (now u n : ℕ) (r : Result) (carts : List Cart)
      → (1 ≤ n) × (n ≤ max_request_quantity)
      → AllValid carts
      → AllValid (add_found money shelf now u n r carts).1
  unfolding add_found
  api_found now u n not_found carts bounds all = all
  api_found now u n unavailable carts bounds all = all
  api_found now u n (found p) carts bounds all =
      api_after_add now u (add_to_cart now u (shelf.read p) n carts)
        (adding now u n (shelf.read p) carts bounds all)

  api_valid :
      (sources : String → Sources) (now u : ℕ) (slug : Option String) (q : Option ℕ)
      (carts : List Cart)
      → ((n : ℕ) → q ≡ some n → (1 ≤ n) × (n ≤ max_request_quantity))
      → AllValid carts
      → AllValid (add_valid money shelf sources now u slug q carts).1
  unfolding add_valid
  api_valid sources now u (some slug) (some n) carts bounds all =
      api_found now u n (get_product shelf.parse (sources slug)).result carts (bounds n refl) all
  api_valid sources now u (some slug) none carts bounds all = all
  api_valid sources now u none (some n) carts bounds all = all
  api_valid sources now u none none carts bounds all = all

  update-AllValid :
      (now u : ℕ) (product : String) (q : Option ℕ) (carts : List Cart)
      → AllValid carts
      → AllValid (update_valid money now u product q carts).1
  unfolding update_valid run_op
  update-AllValid now u product none carts all = all
  update-AllValid now u product (some n) carts all =
      after_update-AllValid (set_item_quantity now u product n carts)
        (run_op-AllValid now u (Op.set product n) carts tt all)
    where
      after_update-AllValid :
          (r : Bool × List Cart) → AllValid r.1 → AllValid (after_update money now u r).1
      after_update-AllValid (false, carts) h = h
      after_update-AllValid (true, carts) h = shown-AllValid 200 now u carts h

  run_request-AllValid :
      (now u : ℕ) (r : Request) (carts : List Cart)
      → AllValid carts
      → AllValid (run_request now u r carts)
  unfolding run_request add_to_cart_view remove_from_cart_view cart_view cart_items_post
      cart_item_patch cart_item_delete cart_get cart_delete run_op
  run_request-AllValid now u (page_add quantity src) carts all =
      page_quantity now u src (parse_quantity shelf.decimal quantity) carts
        (parse_quantity_bounds shelf.decimal quantity) all
  run_request-AllValid now u (page_remove product) carts all =
      run_op-AllValid now u (Op.remove product) carts tt all
  run_request-AllValid now u page_cart carts all = run_op-AllValid now u Op.view carts tt all
  run_request-AllValid now u (api_add slug quantity sources) carts all =
      api_valid sources now u (valid_slug is_slug slug) (add_quantity quantity) carts
        (add_quantity_bounds quantity) all
  run_request-AllValid now u (api_set product quantity) carts all =
      update-AllValid now u product (update_quantity quantity) carts all
  run_request-AllValid now u (api_remove product) carts all =
      run_op-AllValid now u (Op.remove product) carts tt all
  run_request-AllValid now u api_cart carts all = shown-AllValid 200 now u carts all
  run_request-AllValid now u api_clear carts all = run_op-AllValid now u Op.clear carts tt all

  pub run_requests-AllValid :
      (l : List (ℕ × ℕ × Request)) (carts : List Cart)
      → AllValid carts
      → AllValid (run_requests l carts)
  unfolding run_requests
  run_requests-AllValid [] carts all = all
  run_requests-AllValid ((now, u, r) ∷ rest) carts all =
      run_requests-AllValid rest (run_request now u r carts)
        (run_request-AllValid now u r carts all)
