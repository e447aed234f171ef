-- ===== src/Ecommerce/Cart/Requests.antt =====
-- Sequences of requests on the carts (Eve/ecommerce/services/cart_service.py, as the views of
-- Eve/ecommerce/views.py call it).
use mathlib.Core.Path.{subst}
use django_app_eve.Prelude.{
  ℕ, ◌≤◌, ◌≡◌, refl, sym, String, none, Option-cases, inl, inr, List, [], ◌∷◌, ◌++◌, All, arith,
}
use django_app_eve.Ecommerce.Cart.{
  Cart, Product, find_cart, always, empty_cart_doc, get_cart, add_to_cart, set_quantity,
  set_item_quantity, pull_item, remove_from_cart, empty_items, or_insert, clear_cart,
  max_request_quantity,
}
use django_app_eve.Ecommerce.Cart.View.{
  update_one-hit, update_one-absent, find_cart-updated, find_cart-appended,
}
use django_app_eve.Ecommerce.Cart.Cases.{made_cart}
use django_app_eve.Ecommerce.Cart.Bounds.{
  carts_of, IsValid, AllValid, AllValid-replaced, update_one-AllValid, set_quantity-IsValid,
  pull_item-IsValid, add_to_cart-AllValid,
}

-- The requests that reach the carts. The views take a quantity from 1 to 20 to add, and any number
-- to set; `get_cart` makes a missing document.
pub data Op : Type 0 where
  add : Product → ℕ → Op
  set : String → ℕ → Op
  remove : String → Op
  clear : Op
  view : Op

abbrev pub IsRequest : Op → Type 0
IsRequest (add p n) = (1 ≤ n) × (n ≤ max_request_quantity)
IsRequest _ = Unit

unfoldable pub run_op : ℕ → ℕ → Op → List Cart → List Cart
run_op now u (add p n) carts = carts_of (add_to_cart now u p n carts)
run_op now u (set product n) carts = (set_item_quantity now u product n carts).1
run_op now u (remove product) carts = remove_from_cart now u product carts
run_op now u clear carts = clear_cart now u carts
run_op now u view carts = (get_cart now u carts).1

-- A trace: at a time, a user's request.
unfoldable pub run_ops : List (ℕ × ℕ × Op) → List Cart → List Cart
run_ops [] carts = carts
run_ops ((now, u, op) ∷ rest) carts = run_ops rest (run_op now u op carts)

owner_lem : (now u : ℕ) → (empty_cart_doc now u).user_id ≡ u
unfolding empty_cart_doc
owner_lem now u = refl

with_new :
    (u : ℕ) (carts : List Cart) (d : Cart)
    → AllValid carts
    → d.user_id ≡ u
    → find_cart u carts ≡ none
    → IsValid d
    → AllValid (carts ++ d ∷ [])
with_new u carts d all owner absent v =
    AllValid-replaced u carts _ d all v (λ w. find_cart-appended u w carts d owner absent)

blank_IsValid : (now u : ℕ) → IsValid (empty_cart_doc now u)
unfolding empty_cart_doc
blank_IsValid now u = record { size = omega arith; distinct = tt; range = tt }

clear_cart-AllValid :
    (now u : ℕ) (carts : List Cart) → AllValid carts → AllValid (clear_cart now u carts)
unfolding clear_cart or_insert empty_items
clear_cart-AllValid now u carts all = elim (Option-cases (find_cart u carts)) [
  | inl absent ↦
      rw (update_one-absent u always (empty_items now) carts absent, clear_cart)
        (with_new u carts (empty_cart_doc now u) all (owner_lem now u) absent (blank_IsValid now u))
  | inr (d, here) ↦
      rw (update_one-hit u always (empty_items now) carts d here refl, clear_cart)
        (AllValid-replaced u carts _ (empty_items now d) all
          (record { size = omega arith; distinct = tt; range = tt })
          (λ v. find_cart-updated u v (empty_items now) carts d (λ c. refl) here))
]

get_cart-AllValid :
    (now u : ℕ) (carts : List Cart) → AllValid carts → AllValid (get_cart now u carts).1
unfolding get_cart
get_cart-AllValid now u carts all = elim (Option-cases (find_cart u carts)) [
  | inl absent ↦
      subst AllValid (sym (made_cart now u carts absent))
        (with_new u carts (empty_cart_doc now u) all (owner_lem now u) absent (blank_IsValid now u))
  | inr (d, here) ↦ rw (here, get_cart) all
]

pub run_op-AllValid :
    (now u : ℕ) (op : Op) (carts : List Cart)
    → IsRequest op
    → AllValid carts
    → AllValid (run_op now u op carts)
unfolding run_op set_item_quantity remove_from_cart set_quantity pull_item empty_items
    empty_cart_doc
run_op-AllValid now u (add p n) carts (least, most) all =
    add_to_cart-AllValid now u p n carts least (omega (arith, most)) all
run_op-AllValid now u (set product n) carts h all =
    update_one-AllValid now u _ _ (λ d. refl)
      (λ d v. set_quantity-IsValid now product _ d (omega arith) (omega arith) v) carts all
run_op-AllValid now u (remove product) carts h all =
    update_one-AllValid now u _ _ (λ d. refl) (pull_item-IsValid now product) carts all
run_op-AllValid now u clear carts h all = clear_cart-AllValid now u carts all
run_op-AllValid now u view carts h all = get_cart-AllValid now u carts all

-- Whatever sequence of requests the users send, starting from valid carts, each cart has at most 50
-- items, each product once, and each quantity between 1 and 99.
pub run_ops-AllValid :
    (ops : List (ℕ × ℕ × Op)) (carts : List Cart)
    → All (λ (r : ℕ × ℕ × Op). IsRequest r.2) ops
    → AllValid carts
    → AllValid (run_ops ops carts)
unfolding run_ops
run_ops-AllValid [] carts h all = all
run_ops-AllValid ((now, u, op) ∷ rest) carts h all =
    run_ops-AllValid rest (run_op now u op carts) h.1 (run_op-AllValid now u op carts h.0 all)

-- The document that `get_cart` gives is valid.
pub get_cart-IsValid :
    (now u : ℕ) (carts : List Cart) → AllValid carts → IsValid (get_cart now u carts).0
unfolding get_cart
get_cart-IsValid now u carts all = elim (Option-cases (find_cart u carts)) [
  | inl absent ↦ rw (absent, get_cart) (blank_IsValid now u)
  | inr (d, here) ↦ rw (here, get_cart) (all u d here)
]
