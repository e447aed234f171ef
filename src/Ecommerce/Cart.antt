-- ===== src/Ecommerce/Cart.antt =====
-- Eve/ecommerce/services/cart_service.py: the cart documents of MongoDB and the atomic updates on
-- them. The index of `ensure_indexes` makes `user_id` unique, so an `update_one` that names a user
-- is addressed to that user's document, and matches where the document meets the filter's other
-- conditions.
pub mod Items
pub mod Bounds
pub mod View
pub mod Cases
pub mod Adding
pub mod Changes
pub mod Requests
use django_app_eve.Prelude.{
  ℕ, suc, ◌+◌, min, max, String, Option, none, some, Bool, true, false, List, [], ◌∷◌, ◌++◌, length,
  find, update_where, update_first, select, not, ◌&&◌, ltb, leb, ◌==◌, str_eq, if◌then◌else◌,
}

abbrev pub max_item_quantity : ℕ
max_item_quantity = 99

abbrev pub max_request_quantity : ℕ
max_request_quantity = 20

abbrev pub max_cart_items : ℕ
max_cart_items = 50

-- A value of an upstream document: a number by its text, a text, or anything else.
pub data Field : Type 0 where
  num : String → Field
  str : String → Field
  other : Field

pub record LineItem : Type 0 where
  pub product_id : String
  pub slug : String
  pub name : String
  pub variant_id : Option String
  pub price_amount : String
  pub price_currency : String
  pub quantity : ℕ
  pub thumbnail_url : Option String

pub record Cart : Type 0 where
  pub user_id : ℕ
  pub items : List LineItem
  pub updated_at : ℕ

-- A validated product; `gross` is the amount and the currency at
-- `pricing.priceRange.start.gross`, where that path exists.
pub record Product : Type 0 where
  pub id : String
  pub slug : String
  pub name : String
  pub variant_id : Option String
  pub gross : Option (Field × Field)
  pub thumbnail_url : Option String

-- The `try` that reads the price; whatever is malformed counts as 0 EUR.
unfoldable pub price_of : Option (Field × Field) → String × String
price_of (some (num amount, str currency)) =
    if str_eq currency "" then ("0", "EUR") else (amount, currency)
price_of _ = ("0", "EUR")

unfoldable pub line_item : Product → ℕ → LineItem
unfolding price_of
line_item p quantity = record {
  product_id = p.id;
  slug = p.slug;
  name = p.name;
  variant_id = p.variant_id;
  price_amount = (price_of p.gross).0;
  price_currency = (price_of p.gross).1;
  quantity = quantity;
  thumbnail_url = p.thumbnail_url;
}

abbrev pub is_item : String → LineItem → Bool
is_item product_id i = str_eq i.product_id product_id

abbrev pub is_some {ℓ} : {A : Type ℓ} → Option A → Bool
is_some none = false
is_some (some _) = true

unfoldable pub has_item : String → Cart → Bool
has_item product_id cart = is_some (find (is_item product_id) cart.items)

unfoldable pub find_cart : ℕ → List Cart → Option Cart
find_cart user_id carts = find (λ (d : Cart). d.user_id == user_id) carts

-- `update_one({"user_id": …, <condition>}, <update>)`, with whether it matched.
unfoldable pub update_matching :
    ℕ → (Cart → Bool) → (Cart → Cart) → Option Cart → List Cart → Bool × List Cart
update_matching user_id condition f none carts = (false, carts)
update_matching user_id condition f (some d) carts =
    if condition d
    then (true, update_where (λ (d : Cart). d.user_id == user_id) f carts)
    else (false, carts)

unfoldable pub update_one : ℕ → (Cart → Bool) → (Cart → Cart) → List Cart → Bool × List Cart
unfolding update_matching
update_one user_id condition f carts =
    update_matching user_id condition f (find_cart user_id carts) carts

abbrev pub always : Cart → Bool
always d = true

unfoldable pub empty_cart_doc : ℕ → ℕ → Cart
empty_cart_doc now user_id = record { user_id = user_id; items = []; updated_at = now }

-- `get_cart`: the document, made if it is not there.
unfoldable pub get_cart : ℕ → ℕ → List Cart → Cart × List Cart
unfolding empty_cart_doc
get_cart now user_id carts = elim (find_cart user_id carts) [
  | some d ↦ (d, carts)
  | none ↦ (empty_cart_doc now user_id, carts ++ empty_cart_doc now user_id ∷ [])
]

unfoldable pub increment : ℕ → String → ℕ → Cart → Cart
increment now product_id quantity d = record d {
  items =
      update_first (is_item product_id) (λ i. record i { quantity = i.quantity + quantity })
        d.items;
  updated_at = now;
}

unfoldable pub clamp : String → Cart → Cart
clamp product_id d = record d {
  items =
      update_where (λ i. is_item product_id i && ltb max_item_quantity i.quantity)
        (λ i. record i { quantity = max_item_quantity }) d.items;
}

unfoldable pub append_item : ℕ → LineItem → Cart → Cart
append_item now item d = record d { items = d.items ++ item ∷ []; updated_at = now }

-- `items.product_id: {$ne: …}` and `$size < MAX_CART_ITEMS`
unfoldable pub has_room : String → Cart → Bool
has_room product_id d = not (has_item product_id d) && ltb (length d.items) max_cart_items

unfoldable pub push_item : ℕ → ℕ → LineItem → List Cart → Bool × List Cart
push_item now user_id item carts =
    update_one user_id (has_room item.product_id) (append_item now item) carts

pub data AddResult : Type 0 where
  added : List Cart → AddResult
  cart_full : List Cart → AddResult

-- What follows a push that matched nothing: a first cart, a full one, or a concurrent push.
pub after_push : ℕ → ℕ → LineItem → Option Cart → List Cart → AddResult
after_push now user_id item none carts =
    added (push_item now user_id item (get_cart now user_id carts).1).1
after_push now user_id item (some d) carts =
    if leb max_cart_items (length d.items) then cart_full carts else added carts

pub after_increment : ℕ → ℕ → Product → ℕ → Bool × List Cart → AddResult
after_increment now user_id p quantity (true, carts) =
    added (update_one user_id always (clamp p.id) carts).1
after_increment now user_id p quantity (false, carts) =
    let item = line_item p quantity in
    let (pushed, carts') = push_item now user_id item carts in
    if pushed then added carts' else after_push now user_id item (find_cart user_id carts') carts'

pub add_to_cart : ℕ → ℕ → Product → ℕ → List Cart → AddResult
add_to_cart now user_id p quantity carts =
    after_increment now user_id p quantity
      (update_one user_id (has_item p.id) (increment now p.id quantity) carts)

unfoldable pub set_quantity : ℕ → String → ℕ → Cart → Cart
set_quantity now product_id quantity d = record d {
  items = update_first (is_item product_id) (λ i. record i { quantity = quantity }) d.items;
  updated_at = now;
}

-- An integer below 1 counts as 0, which gives 1 as well.
pub set_item_quantity : ℕ → ℕ → String → ℕ → List Cart → Bool × List Cart
set_item_quantity now user_id product_id quantity carts =
    update_one user_id (has_item product_id)
      (set_quantity now product_id (max 1 (min quantity max_item_quantity))) carts

unfoldable pub pull_item : ℕ → String → Cart → Cart
pull_item now product_id d = record d {
  items = select (λ i. not (is_item product_id i)) d.items;
  updated_at = now;
}

pub remove_from_cart : ℕ → ℕ → String → List Cart → List Cart
remove_from_cart now user_id product_id carts =
    (update_one user_id always (pull_item now product_id) carts).1

unfoldable pub empty_items : ℕ → Cart → Cart
empty_items now d = record d { items = []; updated_at = now }

-- `upsert=True`: a user with no document gets an empty one.
unfoldable pub or_insert : ℕ → ℕ → Bool × List Cart → List Cart
unfolding empty_cart_doc
or_insert now user_id (true, carts) = carts
or_insert now user_id (false, carts) = carts ++ empty_cart_doc now user_id ∷ []

pub clear_cart : ℕ → ℕ → List Cart → List Cart
clear_cart now user_id carts =
    or_insert now user_id (update_one user_id always (empty_items now) carts)
