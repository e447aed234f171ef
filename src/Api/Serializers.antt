-- ===== src/Api/Serializers.antt =====
-- Eve/api/v1/serializers.py: the representation of a cart, and the checks of the payloads that change
-- one. The checks of types in rest_framework's fields are arguments: a payload arrives with each
-- field read as its type, where it can be.
use Prim.Native.String.{count as str_length}
use django_app_eve.Prelude.{
  ℕ, ◌+◌, String, Option, none, some, Bool, List, [], ◌∷◌, map, ◌&&◌, not, leb, str_eq,
  if◌then◌else◌,
}
use django_app_eve.Ecommerce.Cart.{LineItem, Cart, max_request_quantity}
use django_app_eve.Ecommerce.Quantity.{Integer}
use django_app_eve.Ecommerce.Storefront.{Money}

-- A field of a payload: left out, of another type, or a value.
pub data Input (A : Type 0) : Type 0 where
  absent malformed : Input A
  value : A → Input A

-- What the serializers of a cart give, with the amounts of its items rounded.
pub record ItemView (A : Type 0) : Type 0 where
  pub product_id : String
  pub slug : String
  pub name : String
  pub thumbnail_url : Option String
  pub quantity : ℕ
  pub unit_amount : A
  pub unit_currency : String
  pub line_total : A

pub record View (A : Type 0) : Type 0 where
  pub items : List (ItemView A)
  pub item_count : ℕ
  pub total : A
  pub currency : String
  pub updated_at : ℕ

abbrev or_eur : String → String
or_eur currency = if str_eq currency "" then "EUR" else currency

-- `sum` of a list of counts.
abbrev pub sum : List ℕ → ℕ
sum [] = 0
sum (n ∷ rest) = n + sum rest

-- `IntegerField(min_value=1, max_value=MAX_REQUEST_QUANTITY)`
unfoldable pub valid_quantity : Integer → Option ℕ
valid_quantity i =
    if not i.is_negative && (leb 1 i.size && leb i.size max_request_quantity)
    then some i.size
    else none

-- The quantity of `AddCartItemSerializer` is 1 where it is left out.
unfoldable pub add_quantity : Input Integer → Option ℕ
unfolding valid_quantity
add_quantity absent = some 1
add_quantity malformed = none
add_quantity (value i) = valid_quantity i

-- That of `UpdateCartItemSerializer` is required.
unfoldable pub update_quantity : Input Integer → Option ℕ
unfolding valid_quantity
update_quantity (value i) = valid_quantity i
update_quantity _ = none

-- `SlugField(max_length=255)`; `is_slug` is its pattern.
unfoldable pub valid_slug : (String → Bool) → Input String → Option String
valid_slug is_slug (value s) =
    if not (str_eq s "") && (is_slug s && leb (str_length s) 255) then some s else none
valid_slug is_slug _ = none

module _ (money : Money) where
  open money use {Amount, zero_amount, float, plus, times, round}

  abbrev or_zero : Option Amount → Amount
  or_zero none = zero_amount
  or_zero (some a) = a

  -- `CartItemSerializer.to_representation`
  unfoldable pub item_view : LineItem → ItemView Amount
  item_view i =
      let unit_amount = or_zero (float i.price_amount) in
      record {
        product_id = i.product_id;
        slug = i.slug;
        name = i.name;
        thumbnail_url = i.thumbnail_url;
        quantity = i.quantity;
        unit_amount = unit_amount;
        unit_currency = or_eur i.price_currency;
        line_total = round (times unit_amount i.quantity);
      }

  -- The currency of the first item that has one.
  unfoldable pub first_currency : List (ItemView Amount) → String
  first_currency [] = "EUR"
  first_currency (i ∷ rest) =
      let later = first_currency rest in
      if str_eq i.unit_currency "" then later else i.unit_currency

  unfoldable pub sum_amounts : Amount → List (ItemView Amount) → Amount
  sum_amounts total [] = total
  sum_amounts total (i ∷ rest) = sum_amounts (plus total i.line_total) rest

  -- `CartSerializer.to_representation`
  unfoldable pub cart_representation : Cart → View Amount
  unfolding item_view first_currency sum_amounts
  cart_representation c =
      let items = map item_view c.items in
      record {
        items = items;
        item_count = sum (map (λ (i : ItemView Amount). i.quantity) items);
        total = round (sum_amounts zero_amount items);
        currency = first_currency items;
        updated_at = c.updated_at;
      }
