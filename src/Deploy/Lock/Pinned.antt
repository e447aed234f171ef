-- ===== src/Deploy/Lock/Pinned.antt =====
-- Which lock files the check accepts.
use django_app_eve.Prelude.{
  ℕ, suc, ◌≡◌, ◌≢◌, refl, sym, ◌↔◌, String, true, false, Bool-cases, inl, inr, List, [], ◌∷◌, map,
  select, not, ◌==◌, ==_iff, ==_refl, strip, All, All-mono, All-both,
}
use django_app_eve.Prelude.Unique.{Unique}
use django_app_eve.Deploy.Lock.{
  is_comment, is_pin, package_of, same_package, contains, validate_from, validate, none_found,
}

same_package_sound : (l m : List ℕ) → same_package l m ≡ true → l ≡ m
unfolding same_package
same_package_sound [] [] h = refl
same_package_sound [] (b ∷ m) h = cc h
same_package_sound (a ∷ l) [] h = cc h
same_package_sound (a ∷ l) (b ∷ m) h = elim (Bool-cases (a == b)) [
  | inl e ↦ cc ((==_iff a b).0 e, same_package_sound l m (rw e at h))
  | inr e ↦ cc (rw e at h)
]

same_package_refl : (l : List ℕ) → same_package l l ≡ true
unfolding same_package
same_package_refl [] = refl
same_package_refl (a ∷ l) = rw (==_refl a) (same_package_refl l)

-- No package in the list is this one.
abbrev Absent : List ℕ → List (List ℕ) → Type 0
Absent p packages = All (λ q. q ≢ p) packages

contains-Absent :
    (p : List ℕ) (packages : List (List ℕ)) → (contains p packages ≡ false) ↔ Absent p packages
unfolding contains
contains-Absent p [] = ((λ h. tt), (λ h. refl))
contains-Absent p (q ∷ rest) = elim (Bool-cases (same_package q p)) [
  | inl e ↦ rw e ((λ h. cc h), (λ h. absurd (h.0 (same_package_sound q p e))))
  | inr e ↦ rw e (
    (λ h. ((λ s. cc (s, e, same_package_refl p)), (contains-Absent p rest).0 h)),
    (λ h. (contains-Absent p rest).1 h.1),
  )
]

-- The lines that name a dependency, without the white space around them.
unfoldable pub dependencies : List String → List String
dependencies lines = select (λ l. not (is_comment l)) (map strip lines)

-- At least one dependency, of those behind and those ahead.
abbrev Found : List (List ℕ) → List String → Type 0
Found [] [] = ⊥
Found [] (d ∷ ahead) = Unit
Found (p ∷ behind) ahead = Unit

-- Every dependency is pinned, no two are of one package, and there is one.
pub record Locked (packages : List (List ℕ)) (ahead : List String) : Type 0 where
  pub pinned : All (λ d. is_pin d ≡ true) ahead
  pub once : Unique package_of ahead
  pub fresh : All (λ d. Absent (package_of d) packages) ahead
  pub found : Found packages ahead

Found-none_found : (packages : List (List ℕ)) → (none_found packages ≡ []) ↔ Found packages []
Found-none_found [] = ((λ h. cc h), (λ h. absurd h))
Found-none_found (p ∷ packages) = ((λ h. tt), (λ h. refl))

Found-more :
    (packages : List (List ℕ)) (d : String) (ahead : List String) → Found packages (d ∷ ahead)
Found-more [] d ahead = tt
Found-more (p ∷ packages) d ahead = tt

-- One more dependency at the front.
Locked-cons :
    (packages : List (List ℕ)) (d : String) (ahead : List String)
    → is_pin d ≡ true
    → Absent (package_of d) packages
    → Locked (package_of d ∷ packages) ahead ↔ Locked packages (d ∷ ahead)
Locked-cons packages d ahead pinned absent = (
  λ k. record {
    pinned = (pinned, k.pinned);
    once = (All-mono _ _ ahead (λ a both s. both.0 (sym s)) k.fresh, k.once);
    fresh = (absent, All-mono _ _ ahead (λ a both. both.1) k.fresh);
    found = Found-more packages d ahead;
  },
  λ k. record {
    pinned = k.pinned.1;
    once = k.once.1;
    fresh = All-both _ _ ahead (All-mono _ _ ahead (λ a ne s. ne (sym s)) k.once.0) k.fresh.1;
    found = tt;
  },
)

validate_from-Locked :
    (n : ℕ) (packages : List (List ℕ)) (lines : List String)
    → (validate_from n packages lines ≡ []) ↔ Locked packages (dependencies lines)
unfolding validate_from dependencies select
validate_from-Locked n packages [] =
    let found = Found-none_found packages in
    (λ h. record { pinned = tt; once = tt; fresh = tt; found = found.0 h }, λ k. found.1 k.found)
validate_from-Locked n packages (raw ∷ rest) = elim (Bool-cases (is_comment (strip raw))) [
  | inl c ↦ rw c (validate_from-Locked (suc n) packages rest)
  | inr c ↦ elim (Bool-cases (is_pin (strip raw))) [
    | inr e ↦ rw c (rw e ((λ h. cc h), (λ k. absurd (cc (k.pinned.0, e)))))
    | inl e ↦ elim (Bool-cases (contains (package_of (strip raw)) packages)) [
      | inl z ↦ rw c (
          rw e
            (rw z ((λ h. cc h), (λ k. absurd (cc ((contains-Absent _ packages).1 k.fresh.0, z))))))
      | inr z ↦
          let p = package_of (strip raw) in
          let later = validate_from-Locked (suc n) (p ∷ packages) rest in
          let more =
            Locked-cons packages (strip raw) (dependencies rest) e
              ((contains-Absent p packages).0 z) in
          rw c (rw e (rw z ((λ h. more.0 (later.0 h)), (λ k. later.1 (more.1 k)))))
    ]
  ]
]

-- The check accepts a lock file exactly when it has a dependency, every dependency is pinned to a version,
-- and no two dependencies are of one package, where names that differ in case or by "_" for "-" are
-- of one package. Empty lines and comments are no dependencies.
pub validate_iff : (lines : List String) → (validate lines ≡ []) ↔ Locked [] (dependencies lines)
unfolding validate
validate_iff lines = validate_from-Locked 1 [] lines
