-- ===== src/Prelude/Filter.antt =====
-- What filtering the rows of a table keeps, and what a lookup finds among the rows that were kept.
use mathlib.Core.Path.{◌≡◌, refl, ap, ◌∙◌}
use mathlib.Core.Bool.{Bool, true, false}
use mathlib.Core.Option.{none, some, some-injective}
use mathlib.Core.Logic.{inl, inr}
use mathlib.Core.List.{List, [], ◌∷◌}
use native.Mathlib.Omega.{arith}
use django_app_eve.Prelude.Tests.{Bool-cases}
use django_app_eve.Prelude.Lists.{All}
use django_app_eve.Prelude.Table.{find, select}

module _ {ℓ} {A : Type ℓ} where
  -- Filtering twice, where the inner filter keeps what the outer one wants.
  pub select-select :
      (p q : A → Bool) (xs : List A)
      → ((a : A) → p a ≡ true → q a ≡ true)
      → select p (select q xs) ≡ select p xs
  unfolding select
  select-select p q [] h = refl
  select-select p q (x ∷ xs) h = ground (arith, h x, select-select p q xs h)

  pub select-idempotent :
      (p q : A → Bool) (xs : List A)
      → ((a : A) → p a ≡ true → q a ≡ true)
      → select q (select p xs) ≡ select p xs
  unfolding select
  select-idempotent p q [] h = refl
  select-idempotent p q (x ∷ xs) h = elim (Bool-cases (p x)) [
    | inl e ↦ rw e (rw (h x e) (ap (λ l. x ∷ l) (select-idempotent p q xs h)))
    | inr e ↦ rw e (select-idempotent p q xs h)
  ]

  pub All-everything : (xs : List A) → All (λ a. Unit {0}) xs
  All-everything [] = tt
  All-everything (x ∷ xs) = (tt, All-everything xs)

  -- What holds of every row that passes the test.
  pub All-unselect {κ} :
      (P : A → Type κ) (p : A → Bool) (xs : List A)
      → All P (select p xs)
      → All (λ a. p a ≡ true → P a) xs
  unfolding select
  All-unselect P p [] h = tt
  All-unselect P p (x ∷ xs) h = elim (Bool-cases (p x)) [
    | inl e ↦ let h' = rw e at h in ((λ q. h'.0), All-unselect P p xs h'.1)
    | inr e ↦ ((λ q. cc), All-unselect P p xs (rw e at h))
  ]

  -- A lookup that finds a row finds it among the rows that a test keeps, if it keeps this one.
  pub find-select-kept :
      (p q : A → Bool) (l : List A) (a : A)
      → find p l ≡ some a
      → q a ≡ true
      → find p (select q l) ≡ some a
  unfolding find select
  find-select-kept p q [] a h k = h
  find-select-kept p q (x ∷ l) a h k = elim (Bool-cases (p x)) [
    | inl e ↦
        let same : x ≡ a = some-injective x a (rw e at h) in
        rw (ap q same ∙ k) (rw e (ap some same))
    | inr e ↦ elim (Bool-cases (q x)) [
      | inl z ↦ rw z (rw e (find-select-kept p q l a (rw e at h) k))
      | inr z ↦ rw z (find-select-kept p q l a (rw e at h) k)
    ]
  ]

  -- If every row with the property is refused by the test, none is found.
  pub find-select-none :
      (p q : A → Bool) (l : List A)
      → All (λ a. p a ≡ true → q a ≡ false) l
      → find p (select q l) ≡ none
  unfolding find select
  find-select-none p q [] h = refl
  find-select-none p q (x ∷ l) h = elim (Bool-cases (q x)) [
    | inr e ↦ rw e (find-select-none p q l h.1)
    | inl e ↦ elim (Bool-cases (p x)) [
      | inl z ↦ cc (h.0 z)
      | inr z ↦ rw e (rw z (find-select-none p q l h.1))
    ]
  ]
