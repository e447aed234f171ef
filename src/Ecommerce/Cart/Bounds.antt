-- ===== src/Ecommerce/Cart/Bounds.antt =====
-- The bounds on every stored cart (Eve/ecommerce/services/cart_service.py).
use native.Mathlib.Nat.{le_trans}
use mathlib.Core.Option.{some-injective}
use mathlib.Core.Path.{subst}
use django_app_eve.Prelude.{
  ℕ, ◌+◌, ◌≤◌, ◌<◌, ◌≡◌, refl, sym, ◌∙◌, String, Option, none, some, Bool, true, false, Bool-cases,
  Option-cases, inl, inr, ◌⊎◌, List, [], ◌∷◌, length, length-append, length-select-le,
  length-update_where, length-update_first, All, All-rewritten, All-update_first, All-append,
  All-mono, All-select, find, update_first, not, ◌&&◌, ltb, ◌==◌, str_eq, eq_iff, if◌then◌else◌,
  arith,
}
use django_app_eve.Prelude.Unique.{
  Unique, Unique-select, Unique-update_where, Unique-update_first, Unique-append, Fresh-find-none,
}
use django_app_eve.Ecommerce.Cart.{
  LineItem, Cart, Product, is_item, is_some, has_item, find_cart, update_one, empty_cart_doc,
  increment, clamp, append_item, AddResult, added, cart_full, add_to_cart, set_quantity, pull_item,
  line_item, max_item_quantity, max_cart_items,
}
use django_app_eve.Ecommerce.Cart.View.{
  update_one-hit, update_one-miss, update_one-absent, find_cart-updated,
}
use django_app_eve.Ecommerce.Cart.Cases.{
  NewCart, bumped, pushed, created, AddCases, add_to_cart-AddCases,
}

-- The collection that a call leaves.
abbrev pub carts_of : AddResult → List Cart
carts_of (added carts) = carts
carts_of (cart_full carts) = carts

-- A quantity between 1 and 99.
abbrev pub InRange : LineItem → Type 0
InRange i = (1 ≤ i.quantity) × (i.quantity ≤ max_item_quantity)

-- At most 50 items, each product once, each quantity in range.
pub record IsValid (d : Cart) : Type 0 where
  pub size : length d.items ≤ max_cart_items
  pub distinct : Unique (λ (i : LineItem). i.product_id) d.items
  pub range : All InRange d.items

-- Every document that a lookup can find is valid.
abbrev pub AllValid : List Cart → Type 0
AllValid carts = (v : ℕ) (d : Cart) → find_cart v carts ≡ some d → IsValid d

-- One document was replaced by a valid one.
pub AllValid-replaced :
    (u : ℕ) (carts carts' : List Cart) (d : Cart)
    → AllValid carts
    → IsValid d
    → ((v : ℕ) → find_cart v carts' ≡ (if v == u then some d else find_cart v carts))
    → AllValid carts'
AllValid-replaced u carts carts' d all valid lookup v e found = elim (Bool-cases (v == u)) [
  | inl same ↦ subst IsValid (some-injective d e (sym (rw (lookup v, same) refl) ∙ found)) valid
  | inr other ↦ all v e (sym (rw (lookup v, other) refl) ∙ found)
]

module _ (now : ℕ) (product : String) where
  -- `$inc` by n and the clamp give back a valid document.
  increment-clamp-IsValid :
      (n : ℕ) (d : Cart) → IsValid d → IsValid (clamp product (increment now product n d))
  unfolding clamp increment
  increment-clamp-IsValid n d v = record {
    size = omega (
      arith,
      v.size,
      length-update_where {0} (λ i. is_item product i && ltb max_item_quantity i.quantity)
          (λ i. record i { quantity = max_item_quantity })
          (update_first (is_item product) (λ i. record i { quantity = i.quantity + n }) d.items),
      length-update_first {0} (is_item product) (λ i. record i { quantity = i.quantity + n })
          d.items,
    );
    distinct =
        Unique-update_where _ _ _ _ (λ i. refl)
          (Unique-update_first _ _ _ d.items (λ i. refl) v.distinct);
    range = All-rewritten Loose InRange _ _ _ clamp_lem keep_lem (
        All-update_first Loose _ _ d.items raise_lem
          (All-mono InRange Loose d.items (λ i h. (h.0, inr h.1)) v.range));
  }
    where
      -- between the two updates: only the product may be above the bound
      Loose : LineItem → Type 0
      Loose i = (1 ≤ i.quantity) × ((is_item product i ≡ true) ⊎ (i.quantity ≤ max_item_quantity))

      raise_lem :
          (i : LineItem)
          → is_item product i ≡ true
          → Loose i
          → Loose (record i { quantity = i.quantity + n })
      raise_lem i e h = (omega (arith, h.0), inl e)

      clamp_lem :
          (i : LineItem)
          → (is_item product i && ltb max_item_quantity i.quantity) ≡ true
          → Loose i
          → InRange (record i { quantity = max_item_quantity })
      clamp_lem i e h = omega arith

      below : (m : ℕ) → ltb max_item_quantity m ≡ false → m ≤ max_item_quantity
      below m e = ground arith

      keep_lem :
          (i : LineItem)
          → (is_item product i && ltb max_item_quantity i.quantity) ≡ false
          → Loose i
          → InRange i
      keep_lem i e (low, inr high) = (low, high)
      keep_lem i e (low, inl item) = (low, below i.quantity (rw item at e))

  append-IsValid :
      (item : LineItem) (d : Cart)
      → has_item item.product_id d ≡ false
      → length d.items < max_cart_items
      → InRange item
      → IsValid d
      → IsValid (append_item now item d)
  unfolding append_item has_item
  append-IsValid item d away room fits v = record {
    size = omega (arith, room, length-append {0} d.items (item ∷ []));
    distinct = Unique-append _ d.items item v.distinct (
        Fresh-find-none (λ (i : LineItem). i.product_id) str_eq eq_iff item.product_id d.items
          (is_none (find (is_item item.product_id) d.items) away));
    range = All-append _ d.items (item ∷ []) v.range (fits, tt);
  }
    where
      is_none : (o : Option LineItem) → is_some o ≡ false → o ≡ none
      is_none none e = refl
      is_none (some i) e = cc

module _ (now u : ℕ) (condition : Cart → Bool) (f : Cart → Cart)
    (owner : (d : Cart) → (f d).user_id ≡ d.user_id)
    (keeps : (d : Cart) → IsValid d → IsValid (f d)) (carts : List Cart)
    (all : AllValid carts) where
  -- An update that keeps every document valid keeps the collection so, whether or not it matches.
  pub update_one-AllValid : AllValid (update_one u condition f carts).1
  update_one-AllValid = elim (Option-cases (find_cart u carts)) [
    | inl absent ↦ rw (update_one-absent u condition f carts absent) all
    | inr (d, here) ↦ elim (Bool-cases (condition d)) [
      | inl met ↦ rw (update_one-hit u condition f carts d here met) (
          AllValid-replaced u carts _ (f d) all (keeps d (all u d here))
            (λ v. find_cart-updated u v f carts d owner here))
      | inr fails ↦ rw (update_one-miss u condition f carts d here fails) all
    ]
  ]

module _ (now : ℕ) (product : String) where
  pub set_quantity-IsValid :
      (n : ℕ) (d : Cart)
      → 1 ≤ n
      → n ≤ max_item_quantity
      → IsValid d
      → IsValid (set_quantity now product n d)
  unfolding set_quantity
  set_quantity-IsValid n d least most v = record {
    size = omega (
      arith,
      v.size,
      length-update_first {0} (is_item product) (λ i. record i { quantity = n }) d.items,
    );
    distinct = Unique-update_first _ _ _ d.items (λ i. refl) v.distinct;
    range = All-update_first InRange _ _ d.items (λ i e h. (least, most)) v.range;
  }

  pub pull_item-IsValid : (d : Cart) → IsValid d → IsValid (pull_item now product d)
  unfolding pull_item
  pull_item-IsValid d v = record {
    size = le_trans (length-select-le (λ i. not (is_item product i)) d.items) v.size;
    distinct = Unique-select _ _ d.items v.distinct;
    range =
        All-mono _ InRange _ (λ i h. h.0)
          (All-select InRange (λ i. not (is_item product i)) d.items v.range);
  }

-- From valid carts, adding between 1 and 99 of a product leaves every cart with at most 50 items, each
-- product once and each quantity between 1 and 99.
pub add_to_cart-AllValid :
    (now u : ℕ) (p : Product) (n : ℕ) (carts : List Cart)
    → 1 ≤ n
    → n ≤ max_item_quantity
    → AllValid carts
    → AllValid (carts_of (add_to_cart now u p n carts))
unfolding line_item has_item empty_cart_doc find
add_to_cart-AllValid now u p n carts least most all =
    by_case (add_to_cart now u p n carts) (add_to_cart-AddCases now u p n carts)
  where
    new_IsValid : (d : Cart) → NewCart now u p n carts d → IsValid d
    new_IsValid e (bumped d here there) = increment-clamp-IsValid now p.id n d (all u d here)
    new_IsValid e (pushed d here away room) =
        append-IsValid now p.id (line_item p n) d away (ground arith) (least, most) (all u d here)
    new_IsValid e (created absent) =
        append-IsValid now p.id (line_item p n) (empty_cart_doc now u) refl (omega arith)
          (least, most) (record { size = omega arith; distinct = tt; range = tt })

    by_case : (r : AddResult) → AddCases now u p n carts r → AllValid (carts_of r)
    by_case (added carts') (d, new, lookup) =
        AllValid-replaced u carts carts' d all (new_IsValid d new) lookup
    by_case (cart_full carts') h = subst AllValid (sym h.0) all
