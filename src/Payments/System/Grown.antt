-- ===== src/Payments/System/Grown.antt =====
-- A table of orders before and after: what may be added, and how an order that was there may have moved.
use mathlib.Core.Path.{subst}
use mathlib.Core.Option.{some-injective}
use django_app_eve.Prelude.{
  ℕ, ◌≡◌, refl, sym, ap, ◌∙◌, ◌⊎◌, inl, inr, Option, none, some, List, [], ◌∷◌, ◌++◌, find,
  Pointwise,
}
use django_app_eve.Payments.Models.{Status, value, Order}
use django_app_eve.Payments.Db.{Db}
use django_app_eve.Payments.Rows.{insert_if_free, insert_order}
use django_app_eve.Payments.Tasks.Moves.{Moved, value-injective}
use django_app_eve.Payments.Tasks.Walks.{Walk, stay, Walked, Walked-Moved}

-- An order that was not there before: its status is pending, or went on from there.
abbrev pub Born : Order → Type 0
Born o = (b : Status) × (o.status ≡ value b) × Walk Status.pending b

-- The orders before and after: none is gone, each is as it was but for its status, which went along the
-- walks of a webhook, and those behind them are new.
abbrev pub Grown : List Order → List Order → Type 0
Grown [] [] = Unit
Grown [] (z ∷ zs) = Born z × Grown [] zs
Grown (x ∷ xs) [] = ⊥
Grown (x ∷ xs) (z ∷ zs) = Walked x z × Grown xs zs

pub Grown-refl : (xs : List Order) → Grown xs xs
Grown-refl [] = tt
Grown-refl (x ∷ xs) = (inl refl, Grown-refl xs)

-- At most one order is added, and it is pending.
abbrev pub Adds : List Order → List Order → Type 0
Adds xs ys = (ys ≡ xs) ⊎ ((o : Order) × (o.status ≡ value Status.pending) × (ys ≡ xs ++ o ∷ []))

Born-Walked : (o z : Order) → o.status ≡ value Status.pending → Walked o z → Born z
Born-Walked o z p (inl same) = (Status.pending, ap (λ (x : Order). x.status) same ∙ p, stay)
Born-Walked o z p (inr (a, b, at_a, at_b, w)) =
    let from : a ≡ Status.pending = value-injective a Status.pending (sym at_a ∙ p) in
    (b, ap (λ (x : Order). x.status) at_b, subst (λ x. Walk x b) from w)

Grown-added :
    (xs zs : List Order) (o : Order)
    → o.status ≡ value Status.pending
    → Grown (xs ++ o ∷ []) zs
    → Grown xs zs
Grown-added [] [] o p g = absurd g
Grown-added [] (z ∷ zs) o p g = (Born-Walked o z p g.0, g.1)
Grown-added (x ∷ xs) [] o p g = g
Grown-added (x ∷ xs) (z ∷ zs) o p g = (g.0, Grown-added xs zs o p g.1)

pub Grown-Adds : (xs ys zs : List Order) → Adds xs ys → Grown ys zs → Grown xs zs
Grown-Adds xs ys zs (inl same) g = subst (λ l. Grown l zs) same g
Grown-Adds xs ys zs (inr (o, p, added)) g = Grown-added xs zs o p (subst (λ l. Grown l zs) added g)

pub Grown-Moved : (xs ys zs : List Order) → Pointwise Moved xs ys → Grown ys zs → Grown xs zs
Grown-Moved [] [] zs m g = g
Grown-Moved [] (y ∷ ys) zs m g = absurd m
Grown-Moved (x ∷ xs) [] zs m g = absurd m
Grown-Moved (x ∷ xs) (y ∷ ys) [] m g = g
Grown-Moved (x ∷ xs) (y ∷ ys) (z ∷ zs) m g =
    (Walked-Moved x y z m.0 g.0, Grown-Moved xs ys zs m.1 g.1)

pub insert_order-Adds :
    (row : ℕ → Order) (db db' : Db)
    → ((n : ℕ) → (row n).status ≡ value Status.pending)
    → insert_order row db ≡ some db'
    → Adds db.orders db'.orders
unfolding insert_order insert_if_free
insert_order-Adds row db db' p h = free (find _ db.orders) (find _ db.orders) h
  where
    free :
        (a b : Option Order)
        → insert_if_free a b (row db.next_pk) db ≡ some db'
        → Adds db.orders db'.orders
    free (some _) none e = cc e
    free (some _) (some _) e = cc e
    free none (some _) e = cc e
    free none none e =
        inr (row db.next_pk, p db.next_pk, sym (ap (λ (d : Db). d.orders) (some-injective _ db' e)))
