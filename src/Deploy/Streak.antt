-- ===== src/Deploy/Streak.antt =====
-- Three ready answers in a row: when the loop of Eve/deploy/verify_deployment.py passes.
use django_app_eve.Prelude.{
  ℕ, zero, suc, ◌+◌, ◌-◌, ◌≤◌, ◌<◌, ◌≡◌, refl, ap, ◌∙◌, ◌⊎◌, Bool, true, false, Bool-cases, inl,
  inr, leb, if◌then◌else◌, arith,
}
use django_app_eve.Deploy.{Verdict, healthy, unhealthy, Result, passed, verify_from, on_verdict}

-- Three attempts in a row from `j` on.
abbrev pub Three : (ℕ → Bool) → ℕ → Type 0
Three good j = (i : ℕ) → j ≤ i → i ≤ j + 2 → good i ≡ true

abbrev pub verdict_of : (ℕ → Bool) → ℕ → Verdict
verdict_of good n = if good n then healthy else unhealthy

abbrev pub Passes : Result → Type 0
Passes r = (a : ℕ) × (r ≡ passed a)

before_or_at : (i k : ℕ) → i < suc k → (i < k) ⊎ (i ≡ k)
before_or_at i k b = ground arith

-- Whether the streak reaches three.
enough-cases :
    (s : ℕ) → ((leb 3 (suc s) ≡ true) × (3 ≤ suc s)) ⊎ ((leb 3 (suc s) ≡ false) × (suc s < 3))
enough-cases s = ground arith

stuck : (k s j : ℕ) → s ≤ 2 → k ≤ j + s → j + 2 < k + 0 → true ≡ false
stuck k s j small a b = ground arith

module _ (good : ℕ → Bool) where
  streak_extends :
      (k s : ℕ)
      → ((i : ℕ) → k ≤ i + s → i < k → good i ≡ true)
      → good k ≡ true
      → (i : ℕ) → suc k ≤ i + suc s
      → i < suc k
      → good i ≡ true
  streak_extends k s h g i a b = elim (before_or_at i k b) [
    | inl l ↦ h i (omega (arith, a)) l
    | inr e ↦ ap good e ∙ g
  ]

  Three-before :
      (k s : ℕ)
      → s ≤ 2
      → 3 ≤ suc s
      → s < k
      → ((i : ℕ) → suc k ≤ i + suc s → i < suc k → good i ≡ true)
      → Three good (k - 2)
  Three-before k s small three one h i a b =
      h i (omega (arith, a, three)) (omega (arith, b, one, three))

  -- Three attempts among those after the next one.
  one_later :
      (n k : ℕ)
      → (j : ℕ) × (1 ≤ j) × (j + 2 < suc k + n) × Three good j
      → (j : ℕ) × (1 ≤ j) × (j + 2 < k + suc n) × Three good j
  one_later n k r = (r.0, r.1, omega (arith, r), r.3)

  pub verify_from_sound :
      (n k s : ℕ)
      → s < k
      → s ≤ 2
      → ((i : ℕ) → k ≤ i + s → i < k → good i ≡ true)
      → Passes (verify_from (verdict_of good) n k s)
      → (j : ℕ) × (1 ≤ j) × (j + 2 < k + n) × Three good j
  unfolding verify_from on_verdict
  verify_from_sound zero k s one small h p = cc (p.1)
  verify_from_sound (suc n) k s one small h p = elim (Bool-cases (good k)) [
    | inl e ↦ elim (enough-cases s) [
      | inl three ↦ (
        k - 2,
        omega (arith, three.1, one),
        omega (arith, three.1, one),
        Three-before k s small three.1 one (streak_extends k s h e),
      )
      | inr fewer ↦ one_later n k (
          verify_from_sound n (suc k) (suc s) (omega (arith, one)) (omega (arith, small, fewer.1))
            (streak_extends k s h e) (rw fewer.0 at (rw e at p)))
    ]
    | inr e ↦ one_later n k (
        verify_from_sound n (suc k) 0 (omega arith) (omega arith) (λ i a b. ground (arith, a, b))
          (rw e at p))
  ]

  -- An attempt that is not ready lies before the three that are.
  later : (k s j : ℕ) → s ≤ 2 → k ≤ j + s → good k ≡ false → Three good j → suc k ≤ j + 0
  later k s j small a e h = ground (arith, h k)

  pub verify_from_complete :
      (n k s j : ℕ)
      → s ≤ 2
      → k ≤ j + s
      → j + 2 < k + n
      → Three good j
      → Passes (verify_from (verdict_of good) n k s)
  unfolding verify_from on_verdict
  verify_from_complete zero k s j small a b h = cc (stuck k s j small a b)
  verify_from_complete (suc n) k s j small a b h = elim (Bool-cases (good k)) [
    | inl e ↦ elim (enough-cases s) [
      | inl three ↦ rw e (rw three.0 (k, refl))
      | inr fewer ↦ rw e (
          rw fewer.0 (
            verify_from_complete n (suc k) (suc s) j (omega (arith, small, fewer.1))
              (omega (arith, a)) (omega (arith, b)) h))
    ]
    | inr e ↦ rw e (
        verify_from_complete n (suc k) 0 j (omega arith) (later k s j small a e h)
          (omega (arith, b)) h)
  ]
