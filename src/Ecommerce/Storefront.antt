-- ===== src/Ecommerce/Storefront.antt =====
-- Eve/ecommerce/views.py: the pages of the catalogue and of the cart. A request arrives with what
-- `get_product` meets (Ecommerce/Catalogue); `read` gives the fields of a product document that the
-- cart reads. Amounts of money are floats, so they are a parameter.
use Prim.Native.Char.{Char}
use django_app_eve.Prelude.{
  ℕ, String, Option, none, some, Bool, true, false, List, [], ◌∷◌, str_eq, if◌then◌else◌,
}
use django_app_eve.Ecommerce.Cart.{
  LineItem, Cart, Product, get_cart, AddResult, added, cart_full, add_to_cart, remove_from_cart,
}
use django_app_eve.Ecommerce.Catalogue
use django_app_eve.Ecommerce.Catalogue.{
  UrlParse, no_media, Sources, Result, found, not_found, unavailable, get_product,
}
use django_app_eve.Ecommerce.Catalogue.Listing.{ListSources, list_products}
use django_app_eve.Ecommerce.Quantity.{parse_quantity}

-- Python's floats, as far as the totals use them: `float` of a stored amount (`none` is ValueError or
-- TypeError), 0, the sum, the product with a quantity, and `round(…, 2)`.
pub record Money : Type 1 where
  pub Amount : Type 0
  pub zero_amount : Amount
  pub float : String → Option Amount
  pub plus : Amount → Amount → Amount
  pub times : Amount → ℕ → Amount
  pub round : Amount → Amount

-- The catalogue around the views: the parser of URLs, and the reading of a document.
pub record Shelf : Type 0 where
  pub parse : UrlParse
  pub read : Catalogue.Product → Product
  pub decimal : Char → Option ℕ

unfoldable pub fallback_product : String → String → String → String → Catalogue.Product
fallback_product id name slug image = record {
  id = some id;
  name = some name;
  slug = some slug;
  thumbnail = some (some image);
  media = no_media;
}

-- FALLBACK_PRODUCTS
unfoldable pub fallback_products : List Catalogue.Product
unfolding fallback_product
fallback_products =
    fallback_product "1" "Eve Horizon – Nature Escape" "eve-horizon-nature-escape"
      "https://via.placeholder.com/300x200?text=Nature"
    ∷ fallback_product "2" "Eve Home – Family Moments" "eve-home-family-moments"
        "https://via.placeholder.com/300x200?text=Home"
    ∷ []

-- The context of the page: the products, and whether the catalogue is unavailable.
abbrev pub or_fallback : List Catalogue.Product → Bool → List Catalogue.Product
or_fallback [] true = fallback_products
or_fallback products is_unavailable = products

unfoldable pub product_catalogue_view : UrlParse → ListSources → List Catalogue.Product × Bool
product_catalogue_view parse src =
    let run = list_products parse src in
    (or_fallback run.products run.is_unavailable, run.is_unavailable)

-- `_get_product_or_404`; `none` is Http404.
unfoldable pub product_of : Result → Option Catalogue.Product
product_of (found p) = some p
product_of not_found = none
product_of unavailable = none

unfoldable pub get_product_or_404 : UrlParse → Sources → Option Catalogue.Product
unfolding product_of
get_product_or_404 parse src = product_of (get_product parse src).result

pub data Page (A : Type 0) : Type 0 where
  bad_request : Page A
  page_not_found : Page A
  product_page : Catalogue.Product → Page A
  to_cart : (is_full : Bool) → Page A
  cart_page : List LineItem → A → Option String → Page A

module _ (money : Money) where
  open money use {Amount, zero_amount, float, plus, times}

  -- The loop of `cart_view`: an item whose amount is malformed is skipped.
  unfoldable pub add_line :
      LineItem → Option Amount → Amount × Option String → Amount × Option String
  add_line item none (total, currency) = (total, currency)
  add_line item (some amount) (total, currency) = (
    plus total (times amount item.quantity),
    if str_eq item.price_currency "" then currency else some item.price_currency,
  )

  unfoldable pub total_from : List LineItem → Amount × Option String → Amount × Option String
  unfolding add_line
  total_from [] acc = acc
  total_from (item ∷ rest) acc = total_from rest (add_line item (float item.price_amount) acc)

  unfoldable pub cart_view : ℕ → ℕ → List Cart → Page Amount × List Cart
  unfolding total_from
  cart_view now user carts =
      let (cart, carts') = get_cart now user carts in
      let (total, currency) = total_from cart.items (zero_amount, none) in
      (cart_page cart.items total currency, carts')

  unfoldable pub product_detail_view : Shelf → Sources → Page Amount
  product_detail_view shelf src = elim (get_product_or_404 shelf.parse src) [
    | none ↦ page_not_found
    | some p ↦ product_page p
  ]

  unfoldable pub after_add : AddResult → Page Amount × List Cart
  after_add (added carts) = (to_cart false, carts)
  after_add (cart_full carts) = (to_cart true, carts)

  unfoldable pub add_product :
      Shelf → ℕ → ℕ → ℕ → Option Catalogue.Product → List Cart → Page Amount × List Cart
  unfolding after_add
  add_product shelf now user n none carts = (page_not_found, carts)
  add_product shelf now user n (some p) carts =
      after_add (add_to_cart now user (shelf.read p) n carts)

  unfoldable pub add_quantity :
      Shelf → ℕ → ℕ → Sources → Option ℕ → List Cart → Page Amount × List Cart
  unfolding add_product
  add_quantity shelf now user src none carts = (bad_request, carts)
  add_quantity shelf now user src (some n) carts =
      add_product shelf now user n (get_product_or_404 shelf.parse src) carts

  unfoldable pub add_to_cart_view :
      Shelf → ℕ → ℕ → Option String → Sources → List Cart → Page Amount × List Cart
  unfolding add_quantity
  add_to_cart_view shelf now user quantity src carts =
      add_quantity shelf now user src (parse_quantity shelf.decimal quantity) carts

  unfoldable pub remove_from_cart_view : ℕ → ℕ → String → List Cart → Page Amount × List Cart
  remove_from_cart_view now user product_id carts =
      (to_cart false, remove_from_cart now user product_id carts)
