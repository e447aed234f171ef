-- ===== src/Ecommerce/Cart/Changes.antt =====
-- `set_item_quantity`, `remove_from_cart` and `clear_cart` of Eve/ecommerce/services/cart_service.py
-- as operations on the map from users and products to quantities.
use mathlib.Core.Option
use mathlib.Core.Option.{some-injective}
use mathlib.Core.Path.{subst}
use django_app_eve.Prelude.{
  ℕ, min, max, ◌≡◌, refl, sym, ap, String, Option, none, some, Bool, true, false, Bool-cases,
  Option-cases, inl, inr, ◌⊎◌, List, [], find, ◌&&◌, ◌==◌, ==_iff, str_eq, eq_iff, if◌then◌else◌,
  &&-left,
}
use django_app_eve.Ecommerce.Cart.{
  LineItem, Cart, is_item, is_some, has_item, find_cart, always, empty_cart_doc, set_quantity,
  set_item_quantity, pull_item, remove_from_cart, empty_items, or_insert, clear_cart,
  max_item_quantity,
}
use django_app_eve.Ecommerce.Cart.Items.{held, quantity_of, find-set_first, find-pulled}
use django_app_eve.Ecommerce.Cart.View.{
  items_of, quantity_in, update_one-hit, update_one-miss, update_one-absent, find_cart-updated,
  find_cart-appended, quantity_in-changed,
}

set-quantity_of :
    (now : ℕ) (product : String) (n : ℕ) (d : Cart)
    → has_item product d ≡ true
    → (q : String)
    → quantity_of q (set_quantity now product n d).items
      ≡ (if str_eq product q then n else quantity_of q d.items)
unfolding set_quantity quantity_of has_item
set-quantity_of now product n d there q =
    rw (find-set_first product (λ i. record i { quantity = n }) q d.items (λ i. refl))
      (elim (Bool-cases (str_eq product q)) [
        | inl e ↦ rw e (stored e (Option-cases (find (is_item q) d.items)))
        | inr e ↦ rw e
      ])
  where
    written : LineItem → LineItem
    written i = record i { quantity = n }

    stored :
        str_eq product q ≡ true
        → (find (is_item q) d.items ≡ none) ⊎ ((i : LineItem) × (find (is_item q) d.items ≡ some i))
        → held (Option.map written (find (is_item q) d.items)) ≡ n
    stored e (inr (i, z)) = rw z
    stored e (inl z) =
        cc
          (subst (λ x. is_some (find (is_item x) d.items) ≡ true) ((eq_iff product q).0 e) there, z)

-- Whether the user's cart holds a product.
abbrev pub holds_in : String → Option Cart → Bool
holds_in product none = false
holds_in product (some d) = has_item product d

-- `set_item_quantity` returns True exactly when the user's cart holds the product; then the quantity
-- is the one asked for, held between 1 and 99, and all others are as before. Otherwise nothing
-- changes.
pub set_item_quantity_exact :
    (now u : ℕ) (product : String) (n : ℕ) (carts : List Cart)
    → let r = set_item_quantity now u product n carts in
      ((r.0 ≡ true)
        × (holds_in product (find_cart u carts) ≡ true)
        × ((v : ℕ) (q : String)
            → quantity_in v q r.1 ≡ (
                if v == u && str_eq product q
                then max 1 (min n max_item_quantity)
                else quantity_in v q carts)))
      ⊎ ((r ≡ (false, carts)) × (holds_in product (find_cart u carts) ≡ false))
unfolding set_item_quantity set_quantity
set_item_quantity_exact now u product n carts = elim (Option-cases (find_cart u carts)) [
  | inl absent ↦ inr (update_one-absent u (has_item product) _ carts absent, rw absent)
  | inr (d, here) ↦ elim (Bool-cases (has_item product d)) [
    | inl there ↦
        let kept = max 1 (min n max_item_quantity) in
        inl (
          rw
            (update_one-hit u (has_item product) (set_quantity now product kept) carts d here there)
            (
              refl,
              rw here there,
              quantity_in-changed u product kept carts _ (some d) (set_quantity now product kept d)
                  here
                  (λ v.
                    find_cart-updated u v (set_quantity now product kept) carts d (λ c. refl) here)
                  (set-quantity_of now product kept d there),
            ))
    | inr away ↦ inr (update_one-miss u (has_item product) _ carts d here away, rw here away)
  ]
]

pull-quantity_of :
    (now : ℕ) (product : String) (d : Cart) (q : String)
    → quantity_of q (pull_item now product d).items
      ≡ (if str_eq product q then 0 else quantity_of q d.items)
unfolding pull_item quantity_of
pull-quantity_of now product d q =
    rw (find-pulled product q d.items)
      (elim (Bool-cases (str_eq product q)) [ inl e ↦ rw e | inr e ↦ rw e ])

pull_owner : (now : ℕ) (product : String) (d : Cart) → (pull_item now product d).user_id ≡ d.user_id
unfolding pull_item
pull_owner now product d = refl

-- A user with no document holds nothing.
absent-quantity_in :
    (u v : ℕ) (q : String) (carts : List Cart) (m : Bool)
    → find_cart u carts ≡ none
    → quantity_in v q carts ≡ (if v == u && m then 0 else quantity_in v q carts)
unfolding quantity_in quantity_of find
absent-quantity_in u v q carts m absent = elim (Bool-cases (v == u && m)) [
  | inr e ↦ rw e
  | inl e ↦ rw e (
      subst (λ x. held (find (is_item q) (items_of (find_cart x carts))) ≡ 0)
        (sym ((==_iff v u).0 (&&-left (v == u) m e))) (rw absent))
]

-- After `remove_from_cart` the user holds none of the product, and every other quantity is as before.
pub remove_from_cart_exact :
    (now u : ℕ) (product : String) (carts : List Cart) (v : ℕ) (q : String)
    → quantity_in v q (remove_from_cart now u product carts)
      ≡ (if v == u && str_eq product q then 0 else quantity_in v q carts)
unfolding remove_from_cart
remove_from_cart_exact now u product carts v q = elim (Option-cases (find_cart u carts)) [
  | inl absent ↦
      rw (update_one-absent u always (pull_item now product) carts absent, remove_from_cart)
        (absent-quantity_in u v q carts (str_eq product q) absent)
  | inr (d, here) ↦
      rw (update_one-hit u always (pull_item now product) carts d here refl, remove_from_cart)
        (quantity_in-changed u product 0 carts _ (some d) (pull_item now product d) here
          (λ w. find_cart-updated u w (pull_item now product) carts d (pull_owner now product) here)
          (pull-quantity_of now product d) v q)
]

pub emptied :
    (u v : ℕ) (q : String) (carts carts' : List Cart) (d : Cart)
    → d.items ≡ []
    → find_cart v carts' ≡ (if v == u then some d else find_cart v carts)
    → quantity_in v q carts' ≡ (if v == u then 0 else quantity_in v q carts)
unfolding quantity_in quantity_of find
emptied u v q carts carts' d nothing lookup = elim (Bool-cases (v == u)) [
  | inl e ↦ rw (lookup, e) (ap (λ l. held (find (is_item q) l)) nothing)
  | inr e ↦ rw (lookup, e)
]

-- After `clear_cart` the user holds nothing, and every other cart is as before.
pub clear_cart_exact :
    (now u : ℕ) (carts : List Cart) (v : ℕ) (q : String)
    → quantity_in v q (clear_cart now u carts) ≡ (if v == u then 0 else quantity_in v q carts)
unfolding clear_cart empty_items or_insert empty_cart_doc
clear_cart_exact now u carts v q = elim (Option-cases (find_cart u carts)) [
  | inl absent ↦ rw (update_one-absent u always (empty_items now) carts absent) (
      emptied u v q carts _ (empty_cart_doc now u) refl
        (find_cart-appended u v carts (empty_cart_doc now u) refl absent))
  | inr (d, here) ↦ rw (update_one-hit u always (empty_items now) carts d here refl) (
      emptied u v q carts _ (empty_items now d) refl
        (find_cart-updated u v (empty_items now) carts d (λ c. refl) here))
]
