-- ===== src/Prelude/OrderBy.antt =====
-- The `order_by` of a query.
use Prim.Native.Nat.{ℕ, suc}
use mathlib.Core.Path.{◌≡◌, refl}
use mathlib.Core.List.{List, [], ◌∷◌}
use mathlib.Core.Logic.{inl, inr}
use native.Mathlib.Omega.{arith}
use django_app_eve.Prelude.Tests.{if◌then◌else◌, if-both, leb, Bool-cases}
use django_app_eve.Prelude.Lists.{length, All}

-- `order_by(key)`: a stable insertion sort.
module _ {ℓ} {A : Type ℓ} (key : A → ℕ) where
  unfoldable pub insert_by : A → List A → List A
  insert_by a [] = a ∷ []
  insert_by a (x ∷ xs) =
      let rest = insert_by a xs in if leb (key a) (key x) then a ∷ x ∷ xs else x ∷ rest

  unfoldable pub order_by : List A → List A
  unfolding insert_by
  order_by [] = []
  order_by (x ∷ xs) = insert_by x (order_by xs)

  All-insert_by {κ} :
      (P : A → Type κ) (a : A) (xs : List A) → P a → All P xs → All P (insert_by a xs)
  unfolding insert_by
  All-insert_by P a [] h hs = (h, tt)
  All-insert_by P a (x ∷ xs) h hs =
      if-both (All P) (leb (key a) (key x)) _ _ (λ e. (h, hs))
        (λ e. (hs.0, All-insert_by P a xs h hs.1))

  pub All-order_by {κ} : (P : A → Type κ) (xs : List A) → All P xs → All P (order_by xs)
  unfolding order_by
  All-order_by P [] h = tt
  All-order_by P (x ∷ xs) h = All-insert_by P x (order_by xs) h.0 (All-order_by P xs h.1)

  length-insert_by : (a : A) (xs : List A) → length (insert_by a xs) ≡ suc (length xs)
  unfolding insert_by
  length-insert_by a [] = refl
  length-insert_by a (x ∷ xs) = ground (arith, length-insert_by a xs)

  pub length-order_by : (xs : List A) → length (order_by xs) ≡ length xs
  unfolding order_by
  length-order_by [] = refl
  length-order_by (x ∷ xs) = omega (arith, length-order_by xs, length-insert_by x (order_by xs))

  All-uninsert_by {κ} :
      (P : A → Type κ) (a : A) (xs : List A) → All P (insert_by a xs) → P a × All P xs
  unfolding insert_by
  All-uninsert_by P a [] h = h
  All-uninsert_by P a (x ∷ xs) h = elim (Bool-cases (leb (key a) (key x))) [
    | inl e ↦ rw e at h
    | inr e ↦ let h' = rw e at h in let (ha, hs) = All-uninsert_by P a xs h'.1 in (ha, (h'.0, hs))
  ]

  -- Sorting loses no element.
  pub All-unorder_by {κ} : (P : A → Type κ) (xs : List A) → All P (order_by xs) → All P xs
  unfolding order_by
  All-unorder_by P [] h = tt
  All-unorder_by P (x ∷ xs) h =
      let (hx, hs) = All-uninsert_by P x (order_by xs) h in (hx, All-unorder_by P xs hs)
