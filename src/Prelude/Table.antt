-- ===== src/Prelude/Table.antt =====
-- A table of a database as the list of its rows, oldest first, and what a query does to it.
use Prim.Native.Nat.{◌≤◌}
use mathlib.Core.Path.{◌≡◌, refl, subst}
use mathlib.Core.Bool.{Bool, true, false}
use mathlib.Core.Option
use mathlib.Core.Option.{Option, none, some, some-injective}
use mathlib.Core.Logic.{inl, inr}
use mathlib.Core.List.{List, [], ◌∷◌, ◌++◌}
use native.Mathlib.Omega.{arith}
use django_app_eve.Prelude.Tests.{if◌then◌else◌, if-both, Bool-cases}
use django_app_eve.Prelude.Lists.{All, Pointwise, length, count}

module _ {ℓ} {A : Type ℓ} where
  -- The first row that passes the test.
  unfoldable pub find : (A → Bool) → List A → Option A
  find p [] = none
  find p (x ∷ xs) = if p x then some x else find p xs

  -- Rewrite every row that passes the test.
  unfoldable pub update_where : (A → Bool) → (A → A) → List A → List A
  update_where p f [] = []
  update_where p f (x ∷ xs) = (if p x then f x else x) ∷ update_where p f xs

  -- The rows that pass the test.
  unfoldable pub select : (A → Bool) → List A → List A
  select p [] = []
  select p (x ∷ xs) = let rest = select p xs in if p x then x ∷ rest else rest

  pub find_sound : (p : A → Bool) (xs : List A) {a : A} → find p xs ≡ some a → p a ≡ true
  unfolding find
  find_sound p [] h = cc
  find_sound p (x ∷ xs) {a} h = ground (arith, find_sound p xs {a = a})

  -- What a lookup finds after an update that does not move rows in or out of the lookup's test.
  pub find-update_where :
      (q p : A → Bool) (f : A → A) (xs : List A)
      → ((a : A) → p a ≡ true → q (f a) ≡ q a)
      → find q (update_where p f xs) ≡ Option.map (λ a. if p a then f a else a) (find q xs)
  unfolding find update_where
  find-update_where q p f [] h = refl
  find-update_where q p f (x ∷ xs) h = ground (arith, h x, find-update_where q p f xs h)

  pub find-append :
      (p : A → Bool) (xs ys : List A)
      → find p (xs ++ ys) ≡ elim (find p xs) [ none ↦ find p ys | some a ↦ some a ]
  unfolding find
  find-append p [] ys = refl
  find-append p (x ∷ xs) ys = ground (arith, find-append p xs ys)

  pub find-All {κ} :
      (P : A → Type κ) (p : A → Bool) (xs : List A) {a : A} → All P xs → find p xs ≡ some a → P a
  unfolding find
  find-All P p [] hs h = cc
  find-All P p (x ∷ xs) hs h = elim (Bool-cases (p x)) [
    | inl e ↦ subst P (some-injective _ _ (rw e at h)) hs.0
    | inr e ↦ find-All P p xs hs.1 (rw e at h)
  ]

  pub All-update_where {κ} :
      (P : A → Type κ) (p : A → Bool) (f : A → A) (xs : List A)
      → ((a : A) → p a ≡ true → P a → P (f a))
      → All P xs
      → All P (update_where p f xs)
  unfolding update_where
  All-update_where P p f [] h hs = hs
  All-update_where P p f (x ∷ xs) h hs =
      (if-both P (p x) (f x) x (λ e. h x e hs.0) (λ e. hs.0), All-update_where P p f xs h hs.1)

  pub Pointwise-update_where :
      (R : A → A → Type 0) (p : A → Bool) (f : A → A) (xs : List A)
      → ((a : A) → R a a)
      → ((a : A) → p a ≡ true → R a (f a))
      → Pointwise R xs (update_where p f xs)
  unfolding update_where
  Pointwise-update_where R p f [] r h = tt
  Pointwise-update_where R p f (x ∷ xs) r h =
      (if-both (R x) (p x) (f x) x (h x) (λ e. r x), Pointwise-update_where R p f xs r h)

  pub find-none : (p : A → Bool) (xs : List A) → find p xs ≡ none → All (λ a. p a ≡ false) xs
  unfolding find
  find-none p [] h = tt
  find-none p (x ∷ xs) h = elim (Bool-cases (p x)) [
    | inl e ↦ cc (rw e at h)
    | inr e ↦ (e, find-none p xs (rw e at h))
  ]

  pub All-select {κ} :
      (P : A → Type κ) (p : A → Bool) (xs : List A)
      → All P xs
      → All (λ a. P a × (p a ≡ true)) (select p xs)
  unfolding select
  All-select P p [] h = tt
  All-select P p (x ∷ xs) h = elim (Bool-cases (p x)) [
    | inl e ↦ rw e ((h.0, e), All-select P p xs h.1)
    | inr e ↦ rw e (All-select P p xs h.1)
  ]

  pub length-select : (p : A → Bool) (xs : List A) → length (select p xs) ≡ count p xs
  unfolding select
  length-select p [] = refl
  length-select p (x ∷ xs) = ground (arith, length-select p xs)

  -- Rewrite the first row that passes the test (MongoDB's positional operator).
  unfoldable pub update_first : (A → Bool) → (A → A) → List A → List A
  update_first p f [] = []
  update_first p f (x ∷ xs) = if p x then f x ∷ xs else x ∷ update_first p f xs

  pub length-update_where :
      (p : A → Bool) (f : A → A) (xs : List A) → length (update_where p f xs) ≡ length xs
  unfolding update_where
  length-update_where p f [] = refl
  length-update_where p f (x ∷ xs) = omega (arith, length-update_where p f xs)

  pub length-update_first :
      (p : A → Bool) (f : A → A) (xs : List A) → length (update_first p f xs) ≡ length xs
  unfolding update_first
  length-update_first p f [] = refl
  length-update_first p f (x ∷ xs) = ground (arith, length-update_first p f xs)

  -- From a property of the old rows to one of the new rows.
  pub All-rewritten {κ μ} :
      (P : A → Type κ) (Q : A → Type μ) (p : A → Bool) (f : A → A) (xs : List A)
      → ((a : A) → p a ≡ true → P a → Q (f a))
      → ((a : A) → p a ≡ false → P a → Q a)
      → All P xs
      → All Q (update_where p f xs)
  unfolding update_where
  All-rewritten P Q p f [] h k hs = tt
  All-rewritten P Q p f (x ∷ xs) h k hs = (
    if-both Q (p x) (f x) x (λ e. h x e hs.0) (λ e. k x e hs.0),
    All-rewritten P Q p f xs h k hs.1,
  )

  pub All-update_first {κ} :
      (Q : A → Type κ) (p : A → Bool) (f : A → A) (xs : List A)
      → ((a : A) → p a ≡ true → Q a → Q (f a))
      → All Q xs
      → All Q (update_first p f xs)
  unfolding update_first
  All-update_first Q p f [] h hs = tt
  All-update_first Q p f (x ∷ xs) h hs =
      if-both (All Q) (p x) (f x ∷ xs) (x ∷ update_first p f xs) (λ e. (h x e hs.0, hs.1))
        (λ e. (hs.0, All-update_first Q p f xs h hs.1))

  pub length-select-le : (p : A → Bool) (xs : List A) → length (select p xs) ≤ length xs
  unfolding select
  length-select-le p [] = omega arith
  length-select-le p (x ∷ xs) = ground (arith, length-select-le p xs)
