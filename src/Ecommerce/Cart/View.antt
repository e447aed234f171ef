-- ===== src/Ecommerce/Cart/View.antt =====
-- The carts as a map from users and products to quantities, and what each operation of
-- Eve/ecommerce/services/cart_service.py does to that map.
use mathlib.Core.Option
use mathlib.Core.Path.{subst}
use django_app_eve.Prelude.{
  ℕ, ◌+◌, min, ◌≡◌, refl, sym, ◌∙◌, String, Option, none, some, Bool, true, false, Bool-cases,
  Option-cases, inl, inr, ◌⊎◌, List, [], ◌∷◌, ◌++◌, find, find-append, find_sound,
  find-update_where, update_where, update_first, ◌&&◌, ltb, ◌==◌, ==_iff, str_eq, eq_iff, eq_refl,
  if◌then◌else◌, arith,
}
use django_app_eve.Ecommerce.Cart.{
  LineItem, Cart, is_item, is_some, has_item, find_cart, update_one, increment, clamp, append_item,
  max_item_quantity,
}
use django_app_eve.Ecommerce.Cart.Items.{held, quantity_of, find-set_first, find-clamped}

abbrev pub items_of : Option Cart → List LineItem
items_of none = []
items_of (some d) = d.items

-- How many of a product a user's cart holds.
unfoldable pub quantity_in : ℕ → String → List Cart → ℕ
unfolding quantity_of
quantity_in u p carts = quantity_of p (items_of (find_cart u carts))

module _ (u : ℕ) (condition : Cart → Bool) (f : Cart → Cart) (carts : List Cart) where
  pub update_one-hit :
      (d : Cart)
      → find_cart u carts ≡ some d
      → condition d ≡ true
      → update_one u condition f carts ≡ (true, update_where (λ (d : Cart). d.user_id == u) f carts)
  unfolding update_one
  update_one-hit d here met = rw here (rw met)

  pub update_one-miss :
      (d : Cart)
      → find_cart u carts ≡ some d
      → condition d ≡ false
      → update_one u condition f carts ≡ (false, carts)
  unfolding update_one
  update_one-miss d here fails = rw here (rw fails)

  pub update_one-absent : find_cart u carts ≡ none → update_one u condition f carts ≡ (false, carts)
  unfolding update_one
  update_one-absent absent = rw absent

-- The updated document is the user's; every other user's is untouched.
pub find_cart-updated :
    (u v : ℕ) (f : Cart → Cart) (carts : List Cart) (d : Cart)
    → ((c : Cart) → (f c).user_id ≡ c.user_id)
    → find_cart u carts ≡ some d
    → find_cart v (update_where (λ (d : Cart). d.user_id == u) f carts)
      ≡ (if v == u then some (f d) else find_cart v carts)
unfolding find_cart
find_cart-updated u v f carts d keeps here =
    find-update_where _ _ f carts (λ a e. rw (keeps a)) ∙ at (Bool-cases (v == u))
  where
    at :
        ((v == u) ≡ true) ⊎ ((v == u) ≡ false)
        → Option.map
            (λ a. if a.user_id == u then f a else a)
            (find (λ (d : Cart). d.user_id == v) carts)
          ≡ (if v == u then some (f d) else find (λ (d : Cart). d.user_id == v) carts)
    at (inl e) =
        rw ((==_iff v u).0 e)
          (rw here (ground (arith, find_sound (λ (c : Cart). c.user_id == u) carts here)))
    at (inr e) = elim (Option-cases (find (λ (d : Cart). d.user_id == v) carts)) [
      | inl z ↦ rw (z, e)
      | inr (a, z) ↦
          rw (z, e) (ground (arith, e, find_sound (λ (c : Cart). c.user_id == v) carts z))
    ]

pub find_cart-appended :
    (u v : ℕ) (carts : List Cart) (d : Cart)
    → d.user_id ≡ u
    → find_cart u carts ≡ none
    → find_cart v (carts ++ d ∷ []) ≡ (if v == u then some d else find_cart v carts)
unfolding find_cart find
find_cart-appended u v carts d owner absent =
    find-append (λ (c : Cart). c.user_id == v) carts (d ∷ []) ∙ at (Bool-cases (v == u))
  where
    at :
        ((v == u) ≡ true) ⊎ ((v == u) ≡ false)
        → elim (find (λ (c : Cart). c.user_id == v) carts) as (λ x. Option Cart) [
          | none ↦ (if d.user_id == v then some d else none)
          | some a ↦ some a
        ]
          ≡ (if v == u then some d else find (λ (c : Cart). c.user_id == v) carts)
    at (inl e) =
        let gone : find (λ (c : Cart). c.user_id == v) carts ≡ none =
          subst (λ x. find (λ (c : Cart). c.user_id == x) carts ≡ none) (sym ((==_iff v u).0 e))
            absent in
        rw (gone, e) (ground (arith, e, owner))
    at (inr e) = elim (Option-cases (find (λ (d : Cart). d.user_id == v) carts)) [
      | inl z ↦ rw (z, e) (ground (arith, e, owner))
      | inr (a, z) ↦ rw (z, e)
    ]

-- From a document to the whole map: the user's document changed at one product.
pub quantity_in-changed :
    (u : ℕ) (product : String) (m : ℕ) (carts carts' : List Cart) (o : Option Cart) (d : Cart)
    → find_cart u carts ≡ o
    → ((v : ℕ) → find_cart v carts' ≡ (if v == u then some d else find_cart v carts))
    → ((q : String)
        → quantity_of q d.items ≡ (if str_eq product q then m else quantity_of q (items_of o)))
    → (v : ℕ) (q : String)
    → quantity_in v q carts' ≡ (if v == u && str_eq product q then m else quantity_in v q carts)
unfolding quantity_in
quantity_in-changed u product m carts carts' o d here lookup items v q =
    elim (Bool-cases (v == u)) [
      | inl e ↦ let same = (==_iff v u).0 e in rw (lookup v, e) (rw same (rw here (items q)))
      | inr e ↦ rw (lookup v, e)
    ]

abbrev clamped : String → LineItem → LineItem
clamped product i =
    if is_item product i && ltb max_item_quantity i.quantity
    then record i { quantity = max_item_quantity }
    else i

abbrev pub increased : ℕ → LineItem → LineItem
increased n i = record i { quantity = i.quantity + n }

-- The update of `$inc` and then the clamp, at one document.
pub increment-clamp :
    (now : ℕ) (product : String) (n : ℕ) (d : Cart)
    → has_item product d ≡ true
    → (q : String)
    → quantity_of q (clamp product (increment now product n d)).items ≡ (
        if str_eq product q
        then min max_item_quantity (quantity_of product d.items + n)
        else quantity_of q d.items)
unfolding clamp increment quantity_of has_item
increment-clamp now product n d there q =
    rw
      (
        find-clamped product q (update_first (is_item product) (increased n) d.items),
        find-set_first product (increased n) q d.items (λ i. refl),
      )
      (elim (Bool-cases (str_eq product q)) [
        | inl e ↦
            subst
              (λ x.
                held (
                  Option.map (clamped product) (
                    if str_eq product x
                    then Option.map (increased n) (find (is_item x) d.items)
                    else find (is_item x) d.items))
                ≡ (if str_eq product x
                    then min max_item_quantity (held (find (is_item product) d.items) + n)
                    else held (find (is_item x) d.items)))
              ((eq_iff product q).0 e) (at_product (Option-cases (find (is_item product) d.items)))
        | inr e ↦ rw e (elsewhere e (Option-cases (find (is_item q) d.items)))
      ])
  where
    at_product :
        (find (is_item product) d.items ≡ none)
          ⊎ ((i : LineItem) × (find (is_item product) d.items ≡ some i))
        → held (
            Option.map (clamped product) (
              if str_eq product product
              then Option.map (increased n) (find (is_item product) d.items)
              else find (is_item product) d.items))
          ≡ (if str_eq product product
              then min max_item_quantity (held (find (is_item product) d.items) + n)
              else held (find (is_item product) d.items))
    at_product (inl z) = cc (rw z at there)
    at_product (inr (i, z)) =
        rw (eq_refl product, z)
          (ground (arith, eq_iff i.product_id product, find_sound (is_item product) d.items z))

    elsewhere :
        str_eq product q ≡ false
        → (find (is_item q) d.items ≡ none) ⊎ ((i : LineItem) × (find (is_item q) d.items ≡ some i))
        → held (Option.map (clamped product) (find (is_item q) d.items))
          ≡ held (find (is_item q) d.items)
    elsewhere e (inl z) = rw z
    elsewhere e (inr (i, z)) = rw z (
        ground (
          arith,
          eq_iff i.product_id product,
          eq_iff i.product_id q,
          eq_iff product q,
          find_sound (is_item q) d.items z,
        ))

-- A pushed item, at a document that does not hold its product.
pub append-quantity_of :
    (now : ℕ) (item : LineItem) (d : Cart)
    → has_item item.product_id d ≡ false
    → (q : String)
    → quantity_of q (append_item now item d).items
      ≡ (if str_eq item.product_id q then item.quantity else quantity_of q d.items)
unfolding append_item quantity_of has_item find
append-quantity_of now item d away q =
    rw (find-append (is_item q) d.items (item ∷ []))
      (elim (Option-cases (find (is_item q) d.items)) [
        | inl z ↦ rw z (ground arith)
        | inr (i, z) ↦ rw z (apart i z (Bool-cases (str_eq item.product_id q)))
      ])
  where
    apart :
        (i : LineItem)
        → find (is_item q) d.items ≡ some i
        → (str_eq item.product_id q ≡ true) ⊎ (str_eq item.product_id q ≡ false)
        → i.quantity ≡ (if str_eq item.product_id q then item.quantity else i.quantity)
    apart i z (inr e) = rw e
    apart i z (inl e) = cc (
      away,
      subst (λ x. is_some (find (is_item x) d.items) ≡ true) (sym ((eq_iff item.product_id q).0 e))
          (rw z),
    )
