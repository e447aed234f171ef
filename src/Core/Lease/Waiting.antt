-- ===== src/Core/Lease/Waiting.antt =====
-- The loop of `wait_for_value` (Eve/core/cache_lock.py) against a clock, and the answers that it takes.
use django_app_eve.Prelude.{
  ℕ, zero, suc, ◌+◌, ◌≤◌, ◌<◌, ◌⊎◌, ◌≡◌, refl, inl, inr, Option, none, some, Option-cases,
  Bool-cases, true, false, List, [], ◌∷◌, ltb, if◌then◌else◌, arith,
}
use django_app_eve.Core.Lease.{wait_for_value}

over : (now deadline : ℕ) → deadline ≤ now → ltb now deadline ≡ false
over now deadline late = ground arith

module _ {A : Type 0} (clock : ℕ → ℕ) (probe : ℕ → Option A) where
  abbrev probed : Option A → Option (Option A) → Option (Option A)
  probed (some v) later = some (some v)
  probed none later = later

  -- The loop from the `k`th test of its condition on: `clock k` is the time then, and `probe k` what the
  -- cache holds. `none` is fuel that was used up.
  unfoldable pub wait_until : (fuel deadline k : ℕ) → Option (Option A)
  wait_until zero deadline k = none
  wait_until (suc fuel) deadline k =
      let later = wait_until fuel deadline (suc k) in
      if ltb (clock k) deadline then probed (probe k) later else some none

  -- The answers of `n` polls from the `k`th on.
  abbrev pub answers_from : (k n : ℕ) → List (Option A)
  answers_from k zero = []
  answers_from k (suc n) = probe k ∷ answers_from (suc k) n

  -- `n` times the interval.
  abbrev pub span : (n interval : ℕ) → ℕ
  span zero interval = 0
  span (suc n) interval = interval + span n interval

  -- The loop is over after at most `f` polls, each made before the deadline, with what these found. All
  -- but the last of them missed, and after the last there is a value, or the deadline is over.
  pub record Ends (f deadline k : ℕ) : Type 0 where
    pub polls : ℕ
    pub few : polls ≤ f
    pub early : (i : ℕ) → i < polls → clock (k + i) < deadline
    pub misses : (i : ℕ) → suc i < polls → probe (k + i) ≡ none
    pub last :
        ((v : A) × (wait_for_value (answers_from k polls) ≡ some v))
        ⊎ (deadline ≤ clock (k + polls))
    pub result : wait_until (suc f) deadline k ≡ some (wait_for_value (answers_from k polls))

  -- The loop stops at once where the deadline is over.
  stopped : (f deadline k : ℕ) → ltb (clock k) deadline ≡ false → Ends f deadline k
  unfolding wait_until wait_for_value
  stopped f deadline k e = record {
    polls = 0;
    few = omega arith;
    early = λ i h. absurd (omega (arith, h));
    misses = λ i h. absurd (omega (arith, h));
    last = inr (at_start k (ground arith));
    result = rw e refl;
  }
    where
      at_start : (j : ℕ) → deadline ≤ clock j → deadline ≤ clock (j + 0)
      at_start j h = (let q : j + 0 ≡ j = ground arith in rw q h)

  -- A poll that missed, before the loop goes on.
  missed_then :
      (f deadline k : ℕ)
      → ltb (clock k) deadline ≡ true
      → probe k ≡ none
      → Ends f deadline (suc k)
      → Ends (suc f) deadline k
  unfolding wait_until wait_for_value
  missed_then f deadline k e missed rest = record {
    polls = suc rest.polls;
    few = omega (arith, rest.few);
    early = before;
    misses = earlier;
    last = ended rest.last;
    result = rw e (rw missed rest.result);
  }
    where
      before : (i : ℕ) → i < suc rest.polls → clock (k + i) < deadline
      before zero h = (let q : k + 0 ≡ k = ground arith in rw q (ground arith))
      before (suc i) h =
          (let q : k + suc i ≡ suc k + i = ground arith in rw q (rest.early i (omega (arith, h))))

      earlier : (i : ℕ) → suc i < suc rest.polls → probe (k + i) ≡ none
      earlier zero h = (let q : k + 0 ≡ k = ground arith in rw q missed)
      earlier (suc i) h =
          (let q : k + suc i ≡ suc k + i = ground arith in rw q (rest.misses i (omega (arith, h))))

      ended :
          ((v : A) × (wait_for_value (answers_from (suc k) rest.polls) ≡ some v))
            ⊎ (deadline ≤ clock (suc k + rest.polls))
          → ((v : A) × (wait_for_value (answers_from k (suc rest.polls)) ≡ some v))
            ⊎ (deadline ≤ clock (k + suc rest.polls))
      ended (inl (v, h)) = inl (v, rw missed h)
      ended (inr h) =
          inr ((let q : k + suc rest.polls ≡ suc k + rest.polls = ground arith in rw q h))

  Ends-answers_from :
      (deadline interval f k : ℕ)
      → ((i : ℕ) → clock i + interval ≤ clock (suc i))
      → deadline ≤ clock k + span f interval
      → Ends f deadline k
  unfolding wait_until wait_for_value
  Ends-answers_from deadline interval zero k sleeps late =
      stopped 0 deadline k (over (clock k) deadline (omega (arith, late)))
  Ends-answers_from deadline interval (suc f) k sleeps late =
      elim (Bool-cases (ltb (clock k) deadline)) [
        | inr e ↦ stopped (suc f) deadline k e
        | inl e ↦ elim (Option-cases (probe k)) [
          | inr (v, found) ↦ record {
            polls = 1;
            few = omega arith;
            early = λ i h. first i (omega (arith, h)) (ground arith);
            misses = λ i h. absurd (omega (arith, h));
            last = inl (v, rw found refl);
            result = rw e (rw found refl);
          }
          | inl missed ↦
              missed_then f deadline k e missed (
                Ends-answers_from deadline interval f (suc k) sleeps
                  (omega (arith, late, sleeps k)))
        ]
      ]
    where
      first : (i : ℕ) → i ≡ 0 → clock k < deadline → clock (k + i) < deadline
      first i z h = (let q : k + i ≡ k = ground arith in rw q h)

  -- Where every sleep lasts at least the interval and `n` intervals make up the timeout, the loop ends
  -- after at most `n` polls, each of them made before the deadline. It stops at the first poll that
  -- finds a value, which it returns, or else when the deadline is over, with None; in particular
  -- it does not give up at a poll that missed.
  pub wait_until-Ends :
      (start timeout interval n : ℕ)
      → start ≤ clock 0
      → ((i : ℕ) → clock i + interval ≤ clock (suc i))
      → timeout ≤ span n interval
      → Ends n (start + timeout) 0
  wait_until-Ends start timeout interval n begun sleeps enough =
      Ends-answers_from (start + timeout) interval n 0 sleeps (omega (arith, begun, enough))
