-- ===== src/Prelude/Lists.antt =====
-- Lists measured by native numbers, and predicates on their elements.
use Prim.Native.Nat.{ℕ, zero, suc, ◌+◌, ◌≤◌, min}
use mathlib.Core.Path.{◌≡◌, refl, ap}
use mathlib.Core.Bool.{Bool}
use mathlib.Core.List.{List, [], ◌∷◌, ◌++◌, map}
use native.Mathlib.Omega.{arith}
use django_app_eve.Prelude.Tests.{if◌then◌else◌}

module _ {ℓ} {A : Type ℓ} where
  abbrev pub length : List A → ℕ
  length [] = 0
  length (x ∷ xs) = suc (length xs)

  abbrev pub take : ℕ → List A → List A
  take zero xs = []
  take (suc n) [] = []
  take (suc n) (x ∷ xs) = x ∷ take n xs

  -- How many elements pass a test.
  abbrev pub count : (A → Bool) → List A → ℕ
  count p [] = 0
  count p (x ∷ xs) = (if p x then 1 else 0) + count p xs

  pub length-append : (xs ys : List A) → length (xs ++ ys) ≡ length xs + length ys
  length-append [] ys = omega arith
  length-append (x ∷ xs) ys = omega (arith, length-append xs ys)

  pub count-append : (p : A → Bool) (xs ys : List A) → count p (xs ++ ys) ≡ count p xs + count p ys
  count-append p [] ys = omega arith
  count-append p (x ∷ xs) ys = omega (arith, count-append p xs ys)

-- Every element has the property.
abbrev pub All {ℓ κ} : {A : Type ℓ} → (A → Type κ) → List A → Type κ
All P [] = Unit
All P (x ∷ xs) = P x × All P xs

pub All-append {ℓ κ} :
    {A : Type ℓ} (P : A → Type κ) (xs ys : List A) → All P xs → All P ys → All P (xs ++ ys)
All-append P [] ys hx hy = hy
All-append P (x ∷ xs) ys hx hy = (hx.0, All-append P xs ys hx.1 hy)

-- Two lists of one length, related element by element.
abbrev pub Pointwise {ℓ} : {A : Type ℓ} → (A → A → Type 0) → List A → List A → Type 0
Pointwise R [] [] = Unit
Pointwise R [] (y ∷ ys) = ⊥
Pointwise R (x ∷ xs) [] = ⊥
Pointwise R (x ∷ xs) (y ∷ ys) = R x y × Pointwise R xs ys

pub Pointwise-refl {ℓ} :
    {A : Type ℓ} (R : A → A → Type 0) → ((a : A) → R a a) → (l : List A) → Pointwise R l l
Pointwise-refl R r [] = tt
Pointwise-refl R r (x ∷ xs) = (r x, Pointwise-refl R r xs)

pub Pointwise-trans {ℓ} :
    {A : Type ℓ} (R S T : A → A → Type 0)
    → ((a b c : A) → R a b → S b c → T a c)
    → (xs ys zs : List A) → Pointwise R xs ys
    → Pointwise S ys zs
    → Pointwise T xs zs
Pointwise-trans R S T t [] [] [] r s = tt
Pointwise-trans R S T t [] [] (z ∷ zs) r s = absurd s
Pointwise-trans R S T t [] (y ∷ ys) zs r s = absurd r
Pointwise-trans R S T t (x ∷ xs) [] zs r s = absurd r
Pointwise-trans R S T t (x ∷ xs) (y ∷ ys) [] r s = absurd s
Pointwise-trans R S T t (x ∷ xs) (y ∷ ys) (z ∷ zs) r s =
    (t x y z r.0 s.0, Pointwise-trans R S T t xs ys zs r.1 s.1)

module _ {ℓ} {A : Type ℓ} where
  pub All-take {κ} : (P : A → Type κ) (n : ℕ) (xs : List A) → All P xs → All P (take n xs)
  All-take P zero xs h = tt
  All-take P (suc n) [] h = tt
  All-take P (suc n) (x ∷ xs) h = (h.0, All-take P n xs h.1)

  pub length-take : (n : ℕ) (xs : List A) → length (take n xs) ≡ min n (length xs)
  length-take zero xs = omega arith
  length-take (suc n) [] = omega arith
  length-take (suc n) (x ∷ xs) = omega (arith, length-take n xs)

module _ {ℓ κ} {A : Type ℓ} {B : Type κ} (f : A → B) where
  pub All-map {μ} : (P : B → Type μ) (xs : List A) → All (λ a. P (f a)) xs → All P (map f xs)
  All-map P [] h = tt
  All-map P (x ∷ xs) h = (h.0, All-map P xs h.1)

  pub length-map : (xs : List A) → length (map f xs) ≡ length xs
  length-map [] = refl
  length-map (x ∷ xs) = ap suc (length-map xs)

pub All-mono {ℓ κ μ} :
    {A : Type ℓ} (P : A → Type κ) (Q : A → Type μ) (xs : List A)
    → ((a : A) → P a → Q a)
    → All P xs
    → All Q xs
All-mono P Q [] f h = tt
All-mono P Q (x ∷ xs) f h = (f x h.0, All-mono P Q xs f h.1)

pub All-both {ℓ κ μ} :
    {A : Type ℓ} (P : A → Type κ) (Q : A → Type μ) (xs : List A)
    → All P xs
    → All Q xs
    → All (λ a. P a × Q a) xs
All-both P Q [] p q = tt
All-both P Q (x ∷ xs) p q = ((p.0, q.0), All-both P Q xs p.1 q.1)

-- What holds of every result holds at every element.
pub All-unmap {ℓ κ μ} :
    {A : Type ℓ} {B : Type κ} (f : A → B) (P : B → Type μ) (xs : List A)
    → All P (map f xs)
    → All (λ a. P (f a)) xs
All-unmap f P [] h = tt
All-unmap f P (x ∷ xs) h = (h.0, All-unmap f P xs h.1)

-- A prefix that is long enough is the whole list.
pub take-all {ℓ} : {A : Type ℓ} (n : ℕ) (xs : List A) → length xs ≤ n → take n xs ≡ xs
take-all zero [] h = refl
take-all zero (x ∷ xs) h = absurd (omega arith)
take-all (suc n) [] h = refl
take-all (suc n) (x ∷ xs) h = ap (λ l. x ∷ l) (take-all n xs (omega arith))
