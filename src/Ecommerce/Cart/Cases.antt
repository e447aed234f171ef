-- ===== src/Ecommerce/Cart/Cases.antt =====
-- The ways in which `add_to_cart` of Eve/ecommerce/services/cart_service.py ends.
use mathlib.Core.Path.{subst}
use django_app_eve.Prelude.{
  ℕ, ◌≤◌, ◌≡◌, refl, sym, ◌∙◌, ap, none, some, true, false, Bool-cases, Option-cases, inl, inr,
  List, [], ◌∷◌, ◌++◌, length, find, update_where, ltb, leb, ◌==◌, ==_refl, if◌then◌else◌, arith,
}
use django_app_eve.Ecommerce.Cart.{
  LineItem, Cart, Product, has_item, find_cart, update_one, always, empty_cart_doc, get_cart,
  increment, clamp, append_item, has_room, push_item, AddResult, added, cart_full, after_push,
  after_increment, add_to_cart, line_item, max_cart_items,
}
use django_app_eve.Ecommerce.Cart.View.{
  update_one-hit, update_one-miss, update_one-absent, find_cart-updated, find_cart-appended,
}

pub made_cart :
    (now u : ℕ) (carts : List Cart)
    → find_cart u carts ≡ none
    → (get_cart now u carts).1 ≡ carts ++ empty_cart_doc now u ∷ []
unfolding get_cart
made_cart now u carts absent = rw (absent, get_cart)

-- The document that a successful call leaves for its user.
pub data NewCart (now u : ℕ) (p : Product) (n : ℕ) (carts : List Cart) : Cart → Type 0 where
  bumped :
      (d : Cart)
      → find_cart u carts ≡ some d
      → has_item p.id d ≡ true
      → NewCart now u p n carts (clamp p.id (increment now p.id n d))
  pushed :
      (d : Cart)
      → find_cart u carts ≡ some d
      → has_item p.id d ≡ false
      → ltb (length d.items) max_cart_items ≡ true
      → NewCart now u p n carts (append_item now (line_item p n) d)
  created :
      find_cart u carts ≡ none
      → NewCart now u p n carts (append_item now (line_item p n) (empty_cart_doc now u))

-- A successful call replaces the user's document and no other; a refused one changes nothing, and
-- the cart has 50 items or more, none of them the product.
abbrev pub AddCases : ℕ → ℕ → Product → ℕ → List Cart → AddResult → Type 0
AddCases now u p n carts (added carts') =
    (d : Cart) × NewCart now u p n carts d
    × ((v : ℕ) → find_cart v carts' ≡ (if v == u then some d else find_cart v carts))
AddCases now u p n carts (cart_full carts') =
    (carts' ≡ carts)
    × (d : Cart) × (find_cart u carts ≡ some d)
    × (has_item p.id d ≡ false)
    × (max_cart_items ≤ length d.items)

module _ (now u : ℕ) (p : Product) (n : ℕ) (carts : List Cart) where
  abbrev new_item : LineItem
  new_item = line_item p n

  increment_owner : (d : Cart) → (increment now p.id n d).user_id ≡ d.user_id
  unfolding increment
  increment_owner d = refl

  clamp_owner : (d : Cart) → (clamp p.id d).user_id ≡ d.user_id
  unfolding clamp
  clamp_owner d = refl

  append_owner : (d : Cart) → (append_item now new_item d).user_id ≡ d.user_id
  unfolding append_item
  append_owner d = refl

  add-hit :
      (d : Cart)
      → find_cart u carts ≡ some d
      → has_item p.id d ≡ true
      → AddCases now u p n carts (add_to_cart now u p n carts)
  unfolding add_to_cart after_increment
  add-hit d here there =
      rw (update_one-hit u (has_item p.id) (increment now p.id n) carts d here there) (
        rw (update_one-hit u always (clamp p.id) carts1 _ here1 refl) (
          clamp p.id (increment now p.id n d),
          bumped d here there,
          λ v.
              find_cart-updated u v (clamp p.id) carts1 _ clamp_owner here1
              ∙ rw (lookup1 v) (ground arith),
        ))
    where
      carts1 : List Cart
      carts1 = update_where (λ (c : Cart). c.user_id == u) (increment now p.id n) carts

      lookup1 :
          (v : ℕ)
          → find_cart v carts1
            ≡ (if v == u then some (increment now p.id n d) else find_cart v carts)
      lookup1 v = find_cart-updated u v (increment now p.id n) carts d increment_owner here

      here1 : find_cart u carts1 ≡ some (increment now p.id n d)
      here1 = lookup1 u ∙ rw (==_refl u)

  add-push :
      (d : Cart)
      → find_cart u carts ≡ some d
      → has_item p.id d ≡ false
      → AddCases now u p n carts (add_to_cart now u p n carts)
  unfolding add_to_cart after_increment push_item after_push has_room line_item
  add-push d here away =
      rw (update_one-miss u (has_item p.id) (increment now p.id n) carts d here away)
        (elim (Bool-cases (ltb (length d.items) max_cart_items)) [
          | inl room ↦
              rw
                (update_one-hit u (has_room p.id) (append_item now new_item) carts d here
                  (rw (away, room)))
                (
                  append_item now new_item d,
                  pushed d here away room,
                  λ v. find_cart-updated u v (append_item now new_item) carts d append_owner here,
                )
          | inr full ↦
              rw
                (update_one-miss u (has_room p.id) (append_item now new_item) carts d here
                  (rw (away, full)))
                (rw here (
                  subst (AddCases now u p n carts) (sym (full_case full))
                    (refl, d, here, away, ground arith)))
        ])
    where
      full_case :
          ltb (length d.items) max_cart_items ≡ false
          → (if leb max_cart_items (length d.items) then cart_full carts else added carts)
            ≡ cart_full carts
      full_case full = ground arith

  add-first : find_cart u carts ≡ none → AddCases now u p n carts (add_to_cart now u p n carts)
  unfolding add_to_cart after_increment push_item after_push has_room has_item line_item
      empty_cart_doc find
  add-first absent = subst (AddCases now u p n carts) (sym result) (
    append_item now new_item (empty_cart_doc now u),
    created absent,
    λ v.
        find_cart-updated u v (append_item now new_item) carts1 blank append_owner here1
        ∙ rw (find_cart-appended u v carts blank refl absent) (ground arith),
  )
    where
      blank : Cart
      blank = empty_cart_doc now u

      carts1 : List Cart
      carts1 = carts ++ blank ∷ []

      here1 : find_cart u carts1 ≡ some blank
      here1 = find_cart-appended u u carts blank refl absent ∙ rw (==_refl u)

      result :
          add_to_cart now u p n carts
          ≡ added (update_where (λ (c : Cart). c.user_id == u) (append_item now new_item) carts1)
      result = rw (update_one-absent u (has_item p.id) (increment now p.id n) carts absent) (
          rw (update_one-absent u (has_room p.id) (append_item now new_item) carts absent) (
            rw absent (
              ap
                (λ (c : List Cart).
                  added (update_one u (has_room p.id) (append_item now new_item) c).1)
                (made_cart now u carts absent)
              ∙ rw (
                  update_one-hit u (has_room p.id) (append_item now new_item) carts1 blank here1
                    refl))))

pub add_to_cart-AddCases :
    (now u : ℕ) (p : Product) (n : ℕ) (carts : List Cart)
    → AddCases now u p n carts (add_to_cart now u p n carts)
add_to_cart-AddCases now u p n carts = elim (Option-cases (find_cart u carts)) [
  | inl absent ↦ add-first now u p n carts absent
  | inr (d, here) ↦ elim (Bool-cases (has_item p.id d)) [
    | inl there ↦ add-hit now u p n carts d here there
    | inr away ↦ add-push now u p n carts d here away
  ]
]
