-- ===== src/Prelude/Unique.antt =====
-- A column of a table in which no value stands twice (a primary key or a unique constraint).
use mathlib.Core.Path.{◌≡◌, refl, sym, ◌∙◌, subst}
use mathlib.Core.Logic.{◌↔◌, ◌≢◌, inl, inr}
use mathlib.Core.Bool.{Bool, true, false}
use mathlib.Core.Option.{some, none, some-injective}
use mathlib.Core.List.{List, [], ◌∷◌, ◌++◌}
use django_app_eve.Prelude.Tests.{Bool-cases, if-both}
use django_app_eve.Prelude.Lists.{All, All-append, Pointwise}
use django_app_eve.Prelude.Table.{find, update_where, update_first, select, find-All}

module _ {ℓ} {A : Type ℓ} {K : Type 0} (key : A → K) where
  abbrev pub Fresh : K → List A → Type 0
  Fresh k xs = All (λ a. key a ≢ k) xs

  abbrev pub Unique : List A → Type 0
  Unique [] = Unit
  Unique (x ∷ xs) = Fresh (key x) xs × Unique xs

  Fresh-update_where :
      (k : K) (p : A → Bool) (f : A → A) (xs : List A)
      → ((a : A) → key (f a) ≡ key a)
      → Fresh k xs
      → Fresh k (update_where p f xs)
  unfolding update_where
  Fresh-update_where k p f [] same h = tt
  Fresh-update_where k p f (x ∷ xs) same h = (
    if-both (λ a. key a ≢ k) (p x) (f x) x (λ e q. h.0 (sym (same x) ∙ q)) (λ e. h.0),
    Fresh-update_where k p f xs same h.1,
  )

  pub Unique-update_where :
      (p : A → Bool) (f : A → A) (xs : List A)
      → ((a : A) → key (f a) ≡ key a)
      → Unique xs
      → Unique (update_where p f xs)
  unfolding update_where
  Unique-update_where p f [] same h = tt
  Unique-update_where p f (x ∷ xs) same h = (
    if-both (λ a. Fresh (key a) (update_where p f xs)) (p x) (f x) x
        (λ e. rw (same x) (Fresh-update_where (key x) p f xs same h.0))
        (λ e. Fresh-update_where (key x) p f xs same h.0),
    Unique-update_where p f xs same h.1,
  )

  Fresh-update_first :
      (k : K) (p : A → Bool) (f : A → A) (xs : List A)
      → ((a : A) → key (f a) ≡ key a)
      → Fresh k xs
      → Fresh k (update_first p f xs)
  unfolding update_first
  Fresh-update_first k p f [] same h = tt
  Fresh-update_first k p f (x ∷ xs) same h =
      if-both (Fresh k) (p x) (f x ∷ xs) (x ∷ update_first p f xs)
        (λ e. ((λ q. h.0 (sym (same x) ∙ q)), h.1))
        (λ e. (h.0, Fresh-update_first k p f xs same h.1))

  pub Unique-update_first :
      (p : A → Bool) (f : A → A) (xs : List A)
      → ((a : A) → key (f a) ≡ key a)
      → Unique xs
      → Unique (update_first p f xs)
  unfolding update_first
  Unique-update_first p f [] same h = tt
  Unique-update_first p f (x ∷ xs) same h =
      if-both Unique (p x) (f x ∷ xs) (x ∷ update_first p f xs) (λ e. (rw (same x) h.0, h.1))
        (λ e. (Fresh-update_first (key x) p f xs same h.0, Unique-update_first p f xs same h.1))

  pub Unique-select : (p : A → Bool) (xs : List A) → Unique xs → Unique (select p xs)
  unfolding select
  Unique-select p [] h = tt
  Unique-select p (x ∷ xs) h =
      if-both Unique (p x) (x ∷ select p xs) (select p xs)
        (λ e. (kept (key x) xs h.0, Unique-select p xs h.1)) (λ e. Unique-select p xs h.1)
    where
      kept : (k : K) (l : List A) → Fresh k l → Fresh k (select p l)
      kept k [] f = tt
      kept k (y ∷ ys) f =
          if-both (Fresh k) (p y) (y ∷ select p ys) (select p ys) (λ e. (f.0, kept k ys f.1))
            (λ e. kept k ys f.1)

  pub Unique-append : (xs : List A) (a : A) → Unique xs → Fresh (key a) xs → Unique (xs ++ a ∷ [])
  Unique-append [] a h fresh = (tt, tt)
  Unique-append (x ∷ xs) a h fresh = (
    All-append (λ b. key b ≢ key x) xs (a ∷ []) h.0 ((λ e. fresh.0 (sym e)), tt),
    Unique-append xs a h.1 fresh.1,
  )

module _ {ℓ} {A : Type ℓ} {K : Type 0} (key : A → K) (eqb : K → K → Bool)
    (eqb_iff : (a b : K) → (eqb a b ≡ true) ↔ (a ≡ b)) where
  eqb_ne : (a b : K) → a ≢ b → eqb a b ≡ false
  eqb_ne a b h = elim (Bool-cases (eqb a b)) [ inl e ↦ absurd (h ((eqb_iff a b).0 e)) | inr e ↦ e ]

  pub eqb_refl : (a : K) → eqb a a ≡ true
  eqb_refl a = (eqb_iff a a).1 refl

  pub Fresh-find-none : (k : K) (xs : List A) → find (λ a. eqb (key a) k) xs ≡ none → Fresh key k xs
  unfolding find
  Fresh-find-none k [] h = tt
  Fresh-find-none k (x ∷ xs) h = elim (Bool-cases (eqb (key x) k)) [
    | inl e ↦ cc (rw e at h)
    | inr e ↦ ((λ q. cc ((eqb_iff (key x) k).1 q, e)), Fresh-find-none k xs (rw e at h))
  ]

  untouched :
      (R : A → A → Type 0) (k : K) (f : A → A) (xs : List A)
      → ((a : A) → R a a)
      → Fresh key k xs
      → Pointwise R xs (update_where (λ r. eqb (key r) k) f xs)
  unfolding update_where
  untouched R k f [] r h = tt
  untouched R k f (x ∷ xs) r h = (rw (eqb_ne (key x) k h.0) (r x), untouched R k f xs r h.1)

  -- An update by the key of one found row changes that row alone.
  pub Pointwise-update_found :
      (R : A → A → Type 0) (q : A → Bool) (f : A → A) (xs : List A) (a : A)
      → ((b : A) → R b b)
      → Unique key xs
      → find q xs ≡ some a
      → R a (f a)
      → Pointwise R xs (update_where (λ r. eqb (key r) (key a)) f xs)
  unfolding find update_where
  Pointwise-update_found R q f [] a r u found h = tt
  Pointwise-update_found R q f (x ∷ xs) a r u found h = elim (Bool-cases (q x)) [
    | inl e ↦
        let same = some-injective x a (rw e at found) in
        (
          rw (← same) (rw (eqb_refl (key x)) (rw same h)),
          untouched R (key a) f xs r (subst (λ b. Fresh key (key b) xs) same u.0),
        )
    | inr e ↦
        let later = rw e at found in
        (
          rw (eqb_ne (key x) (key a) (λ p. find-All (λ b. key b ≢ key x) q xs u.0 later (sym p)))
              (r x),
          Pointwise-update_found R q f xs a r u.1 later h,
        )
  ]

  found_behind :
      (x : A) (xs ys : List A)
      → Fresh key (key x) ys
      → All (λ a. find (λ r. eqb (key r) (key a)) xs ≡ some a) ys
      → All (λ a. find (λ r. eqb (key r) (key a)) (x ∷ xs) ≡ some a) ys
  unfolding find
  found_behind x xs [] fresh h = tt
  found_behind x xs (y ∷ ys) fresh h =
      (rw (eqb_ne (key x) (key y) (λ q. fresh.0 (sym q))) h.0, found_behind x xs ys fresh.1 h.1)

  -- A lookup by the key of a row finds that row.
  pub find_self :
      (xs : List A) → Unique key xs → All (λ a. find (λ r. eqb (key r) (key a)) xs ≡ some a) xs
  unfolding find
  find_self [] u = tt
  find_self (x ∷ xs) u = (rw (eqb_refl (key x)), found_behind x xs xs u.0 (find_self xs u.1))

  -- Two rows that were found and have one key are the same row.
  pub same_row :
      (p q : A → Bool) (xs : List A) (a b : A)
      → Unique key xs
      → find p xs ≡ some a
      → find q xs ≡ some b
      → key a ≡ key b
      → a ≡ b
  same_row p q xs a b u ha hb same =
      let at_a = find-All _ p xs (find_self xs u) ha in
      let at_b = find-All _ q xs (find_self xs u) hb in
      some-injective a b
        (sym at_a ∙ subst (λ k. find (λ r. eqb (key r) k) xs ≡ some b) (sym same) at_b)
