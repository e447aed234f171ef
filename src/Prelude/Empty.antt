-- ===== src/Prelude/Empty.antt =====
-- When a list that is put together from parts, such as a list of failures, is empty.
use mathlib.Core.Path.{◌≡◌, refl}
use mathlib.Core.Bool.{Bool, true, false}
use mathlib.Core.Logic.{◌↔◌, inl, inr}
use mathlib.Core.List.{List, [], ◌∷◌, ◌++◌, map, flat_map}
use django_app_eve.Prelude.Tests.{Bool-cases, if◌then◌else◌}
use django_app_eve.Prelude.Lists.{All}
use django_app_eve.Prelude.Table.{select}

module _ {ℓ} {A : Type ℓ} where
  pub append-empty : (xs ys : List A) → (xs ++ ys ≡ []) ↔ ((xs ≡ []) × (ys ≡ []))
  append-empty [] ys = ((λ h. (refl, h)), (λ h. h.1))
  append-empty (x ∷ xs) ys = ((λ h. cc h), (λ h. cc (h.0)))

  pub select-empty : (p : A → Bool) (xs : List A) → (select p xs ≡ []) ↔ All (λ a. p a ≡ false) xs
  unfolding select
  select-empty p [] = ((λ h. tt), (λ h. refl))
  select-empty p (x ∷ xs) = elim (Bool-cases (p x)) [
    | inl e ↦ ((λ h. cc (rw e at h)), (λ h. cc (h.0, e)))
    | inr e ↦ (λ h. (e, (select-empty p xs).0 (rw e at h)), λ h. rw e ((select-empty p xs).1 h.1))
  ]

  pub guard-empty : (b : Bool) (x : A) → ((if b then x ∷ [] else []) ≡ []) ↔ (b ≡ false)
  guard-empty true x = ((λ h. cc h), (λ h. cc h))
  guard-empty false x = ((λ h. refl), (λ h. refl))

pub map-empty {ℓ κ} :
    {A : Type ℓ} {B : Type κ} (f : A → B) (xs : List A) → (map f xs ≡ []) ↔ (xs ≡ [])
map-empty f [] = ((λ h. refl), (λ h. refl))
map-empty f (x ∷ xs) = ((λ h. cc h), (λ h. cc h))

pub flat_map-empty {ℓ κ} :
    {A : Type ℓ} {B : Type κ} (f : A → List B) (xs : List A)
    → (flat_map f xs ≡ []) ↔ All (λ a. f a ≡ []) xs
unfolding flat_map
flat_map-empty f [] = ((λ h. tt), (λ h. refl))
flat_map-empty f (x ∷ xs) = (
  λ h.
      let (here, later) = (append-empty (f x) (flat_map f xs)).0 h in
      (here, (flat_map-empty f xs).0 later),
  λ h. (append-empty (f x) (flat_map f xs)).1 (h.0, (flat_map-empty f xs).1 h.1),
)
