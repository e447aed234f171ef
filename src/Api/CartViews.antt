-- ===== src/Api/CartViews.antt =====
-- Eve/api/v1/views.py: `ProductViewSet`, `CartView`, `CartItemsView` and `CartItemDetailView`, over the
-- serializers (Api/Serializers), the carts and the catalogue.
pub mod Requests
pub mod Bounded
use Prim.Native.String.{count as str_length}
use django_app_eve.Prelude.{
  ℕ, ◌+◌, String, Option, none, some, Bool, true, false, List, [], ◌∷◌, map, length, ◌&&◌, not, leb,
  str_eq, if◌then◌else◌,
}
use django_app_eve.Ecommerce.Cart.{
  LineItem, Cart, max_request_quantity, get_cart, AddResult, added, cart_full, add_to_cart,
  set_item_quantity, remove_from_cart, clear_cart,
}
use django_app_eve.Ecommerce.Catalogue
use django_app_eve.Ecommerce.Catalogue.{
  UrlParse, Sources, Result, found, not_found, unavailable, get_product,
}
use django_app_eve.Ecommerce.Catalogue.Listing.{ListSources, ListRun, list_products}
use django_app_eve.Ecommerce.Quantity.{Integer}
use django_app_eve.Ecommerce.Storefront.{Money, Shelf}
use django_app_eve.Api.Serializers.{
  Input, ItemView, View, cart_representation, add_quantity, update_quantity, valid_slug,
}

pub data Answer (A : Type 0) : Type 0 where
  cart : ℕ → View A → Answer A
  product : Catalogue.Product → Answer A
  products : ℕ → Bool → List Catalogue.Product → Answer A
  no_content : Answer A
  error : ℕ → String → Answer A

module _ (money : Money) where
  open money use {Amount}

  abbrev pub Seen : Type 0
  Seen = Answer Amount × List Cart

  -- `ProductViewSet.list`
  unfoldable pub list_answer : ListRun → Answer Amount
  list_answer run = elim run.products [
    | [] ↦ if run.is_unavailable then error 503 "catalogue_unavailable" else products 0 false []
    | p ∷ rest ↦ products (length (p ∷ rest)) run.is_unavailable (p ∷ rest)
  ]

  unfoldable pub product_list : UrlParse → ListSources → Answer Amount
  unfolding list_answer
  product_list parse src = list_answer (list_products parse src)

  -- `ProductViewSet.retrieve`
  unfoldable pub retrieved : Result → Answer Amount
  retrieved (found p) = product p
  retrieved not_found = error 404 "product_not_found"
  retrieved unavailable = error 503 "catalogue_unavailable"

  unfoldable pub product_retrieve : UrlParse → Sources → Answer Amount
  unfolding retrieved
  product_retrieve parse src = retrieved (get_product parse src).result

  -- The cart after a change, with a status.
  unfoldable pub show_cart : ℕ → ℕ → ℕ → List Cart → Seen
  show_cart status now user carts =
      let (c, carts') = get_cart now user carts in
      (cart status (cart_representation money c), carts')

  -- `CartView`
  unfoldable pub cart_get : ℕ → ℕ → List Cart → Seen
  unfolding show_cart
  cart_get now user carts = show_cart 200 now user carts

  unfoldable pub cart_delete : ℕ → ℕ → List Cart → Seen
  cart_delete now user carts = (no_content, clear_cart now user carts)

  unfoldable pub after_add : ℕ → ℕ → AddResult → Seen
  unfolding show_cart
  after_add now user (cart_full carts) = (error 409 "cart_full", carts)
  after_add now user (added carts) = show_cart 201 now user carts

  unfoldable pub add_found : Shelf → ℕ → ℕ → ℕ → Result → List Cart → Seen
  unfolding after_add
  add_found shelf now user n not_found carts = (error 404 "product_not_found", carts)
  add_found shelf now user n unavailable carts = (error 503 "catalogue_unavailable", carts)
  add_found shelf now user n (found p) carts =
      after_add now user (add_to_cart now user (shelf.read p) n carts)

  -- A payload is refused where either field is. `sources` is what `get_product` meets for a slug.
  unfoldable pub add_valid :
      Shelf → (String → Sources) → ℕ → ℕ → Option String → Option ℕ → List Cart → Seen
  unfolding add_found
  add_valid shelf sources now user (some slug) (some n) carts =
      add_found shelf now user n (get_product shelf.parse (sources slug)).result carts
  add_valid shelf sources now user _ _ carts = (error 400 "validation_error", carts)

  -- `CartItemsView.post`
  unfoldable pub cart_items_post :
      Shelf
      → (String → Bool)
      → (String → Sources)
      → ℕ
      → ℕ
      → Input String
      → Input Integer
      → List Cart
      → Seen
  unfolding add_valid valid_slug add_quantity
  cart_items_post shelf is_slug sources now user slug quantity carts =
      add_valid shelf sources now user (valid_slug is_slug slug) (add_quantity quantity) carts

  abbrev pub after_update : ℕ → ℕ → Bool × List Cart → Seen
  after_update now user (false, carts) = (error 404 "cart_item_not_found", carts)
  after_update now user (true, carts) = show_cart 200 now user carts

  unfoldable pub update_valid : ℕ → ℕ → String → Option ℕ → List Cart → Seen
  unfolding show_cart
  update_valid now user product_id none carts = (error 400 "validation_error", carts)
  update_valid now user product_id (some n) carts =
      after_update now user (set_item_quantity now user product_id n carts)

  -- `CartItemDetailView`
  unfoldable pub cart_item_patch : ℕ → ℕ → String → Input Integer → List Cart → Seen
  unfolding update_valid update_quantity
  cart_item_patch now user product_id quantity carts =
      update_valid now user product_id (update_quantity quantity) carts

  unfoldable pub cart_item_delete : ℕ → ℕ → String → List Cart → Seen
  cart_item_delete now user product_id carts =
      (no_content, remove_from_cart now user product_id carts)
