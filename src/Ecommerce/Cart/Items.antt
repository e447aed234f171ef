-- ===== src/Ecommerce/Cart/Items.antt =====
-- The items of one cart document under the updates of Eve/ecommerce/services/cart_service.py.
use mathlib.Core.Option
use django_app_eve.Prelude.{
  ℕ, ◌≡◌, refl, String, Option, none, some, List, [], ◌∷◌, find, find-update_where, update_where,
  update_first, select, not, ◌&&◌, ltb, str_eq, eq_iff, if◌then◌else◌, arith,
}
use django_app_eve.Ecommerce.Cart.{LineItem, is_item, max_item_quantity}

-- How many of a product the items hold.
abbrev pub held : Option LineItem → ℕ
held none = 0
held (some i) = i.quantity

unfoldable pub quantity_of : String → List LineItem → ℕ
quantity_of p items = held (find (is_item p) items)

module _ (product : String) where
  pub find-set_first :
      (f : LineItem → LineItem) (p : String) (items : List LineItem)
      → ((i : LineItem) → (f i).product_id ≡ i.product_id)
      → find (is_item p) (update_first (is_item product) f items) ≡ (
          if str_eq product p
          then Option.map f (find (is_item p) items)
          else find (is_item p) items)
  unfolding find update_first
  find-set_first f p [] same = ground arith
  find-set_first f p (x ∷ xs) same = ground (
    arith,
    eq_iff product p,
    eq_iff x.product_id product,
    eq_iff x.product_id p,
    same x,
    find-set_first f p xs same,
  )

  pub find-clamped :
      (p : String) (items : List LineItem)
      → find (is_item p) (
          update_where
            (λ i. is_item product i && ltb max_item_quantity i.quantity)
            (λ i. record i { quantity = max_item_quantity })
            items)
        ≡ Option.map
            (λ i.
              if is_item product i && ltb max_item_quantity i.quantity
              then record i { quantity = max_item_quantity }
              else i)
            (find (is_item p) items)
  find-clamped p items = find-update_where (is_item p) _ _ items (λ a e. refl)

  pub find-pulled :
      (p : String) (items : List LineItem)
      → find (is_item p) (select (λ i. not (is_item product i)) items)
        ≡ (if str_eq product p then none else find (is_item p) items)
  unfolding find select
  find-pulled p [] = ground arith
  find-pulled p (x ∷ xs) = ground (
    arith,
    eq_iff product p,
    eq_iff x.product_id product,
    eq_iff x.product_id p,
    find-pulled p xs,
  )
