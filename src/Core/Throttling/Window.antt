-- ===== src/Core/Throttling/Window.antt =====
-- How many requests one window of Eve/core/throttling.py lets through.
use django_app_eve.Prelude.{
  ℕ, zero, suc, ◌≡◌, ◌≢◌, ◌∙◌, refl, String, none, some, Bool, true, false, leb, if◌then◌else◌,
  arith,
}
use django_app_eve.Core.Cache.{Cache, Laws, IsDown, num, Reply, ok, value_error, unreachable}
use django_app_eve.Core.Throttling.{
  effective_limit, too_many, served, started_again, incremented, count_from, current_count,
  rate_limit,
}

module _ (c : Cache) (laws : Laws c) (key : String) where
  open c use {State, get, add, incr}

  -- The entry after `n` requests of the window.
  abbrev pub Counts : ℕ → State → Type 0
  Counts zero s = get key s ≡ ok none
  Counts (suc n) s = get key s ≡ ok (some (num (suc n)))

  count_from-added :
      (window : ℕ) (r : Reply Bool × State)
      → r.0 ≡ ok true
      → count_from c key window r ≡ (some 1, r.1)
  unfolding count_from
  count_from-added window (ok true, s) e = refl
  count_from-added window (ok false, s) e = cc
  count_from-added window (value_error, s) e = cc
  count_from-added window (unreachable, s) e = cc

  count_from-present :
      (window : ℕ) (r : Reply Bool × State)
      → r.0 ≡ ok false
      → count_from c key window r ≡ incremented c key window (incr key r.1)
  unfolding count_from
  count_from-present window (ok false, s) e = refl
  count_from-present window (ok true, s) e = cc
  count_from-present window (value_error, s) e = cc
  count_from-present window (unreachable, s) e = cc

  incremented-ok :
      (window n : ℕ) (r : Reply ℕ × State) → r.0 ≡ ok n → incremented c key window r ≡ (some n, r.1)
  unfolding incremented
  incremented-ok window n (ok m, s) e = cc
  incremented-ok window n (value_error, s) e = cc
  incremented-ok window n (unreachable, s) e = cc

  current_count-Counts :
      (window n : ℕ) (s : State)
      → Counts n s
      → ((current_count c key window s).0 ≡ some (suc n))
        × Counts (suc n) (current_count c key window s).1
  unfolding current_count
  current_count-Counts window zero s h =
      let (added, held) = laws.add_missing key (num 1) window s h in
      rw (count_from-added window (add key (num 1) window s) added) (refl, held)
  current_count-Counts window (suc n) s h =
      let (present, held) = laws.add_present key (num 1) (num (suc n)) window s h in
      let (more, held') = laws.incr_num key (suc n) (add key (num 1) window s).1 held in
      rw
        (
          count_from-present window (add key (num 1) window s) present,
          incremented-ok window (suc (suc n)) (incr key (add key (num 1) window s).1) more,
        )
        (refl, held')

  -- The count of an address touches no other entry.
  module _ (other : String) (apart : key ≢ other) where
    started_again-other : (r : Reply Bool × State) → get other (started_again c r).1 ≡ get other r.1
    unfolding started_again
    started_again-other (ok b, s) = refl
    started_again-other (value_error, s) = refl
    started_again-other (unreachable, s) = refl

    incremented-other :
        (window : ℕ) (r : Reply ℕ × State)
        → get other (incremented c key window r).1 ≡ get other r.1
    unfolding incremented
    incremented-other window (ok n, s) = refl
    incremented-other window (value_error, s) =
        started_again-other (add key (num 1) window s)
        ∙ laws.add_other key other (num 1) window s apart
    incremented-other window (unreachable, s) = refl

    count_from-other :
        (window : ℕ) (r : Reply Bool × State)
        → get other (count_from c key window r).1 ≡ get other r.1
    unfolding count_from
    count_from-other window (ok true, s) = refl
    count_from-other window (ok false, s) =
        incremented-other window (incr key s) ∙ laws.incr_other key other s apart
    count_from-other window (value_error, s) = refl
    count_from-other window (unreachable, s) = refl

    pub current_count-other :
        (window : ℕ) (s : State) → get other (current_count c key window s).1 ≡ get other s
    unfolding current_count
    current_count-other window s =
        count_from-other window (add key (num 1) window s)
        ∙ laws.add_other key other (num 1) window s apart

  -- The (n + 1)st POST of a window reaches the view exactly when n + 1 is at most the
  -- limit, scaled and at least 1; otherwise it gets 429, and the view does not run. The request is counted either way.
  pub rate_limit_exact :
      {A : Type 0} (scaled : ℕ → ℕ) (limit window n : ℕ) (view : State → A × State) (s : State)
      → Counts n s
      → (s' : State) × Counts (suc n) s'
        × (rate_limit c scaled limit window true key view s ≡ (
            if leb (suc n) (effective_limit scaled limit)
            then (served (view s').0, (view s').1)
            else (too_many, s')))
  unfolding rate_limit
  rate_limit_exact scaled limit window n view s h =
      let (e, held) = current_count-Counts window n s h in
      ((current_count c key window s).1, held, rw e (ground arith))

-- Where the cache cannot be reached the limit fails open: every POST reaches the view, as a GET does.
pub rate_limit_open :
    (c : Cache) (key : String) {A : Type 0} (scaled : ℕ → ℕ) (limit window : ℕ)
    (view : c.State → A × c.State) (s : c.State)
    → IsDown c s
    → (rate_limit c scaled limit window true key view s ≡ (served (view s).0, (view s).1))
      × (rate_limit c scaled limit window true key view s
          ≡ rate_limit c scaled limit window false key view s)
unfolding rate_limit current_count count_from
rate_limit_open c key scaled limit window view s down =
    (rw (down.add_raises key (num 1) window), rw (down.add_raises key (num 1) window))
