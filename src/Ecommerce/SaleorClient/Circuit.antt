-- ===== src/Ecommerce/SaleorClient/Circuit.antt =====
-- The circuit breaker of Eve/ecommerce/services/saleor_client.py while the cache can be reached.
use mathlib.Core.Bool.{false≢true}
use mathlib.Core.Path.{subst}
use django_app_eve.Prelude.{
  ℕ, zero, suc, ◌*◌, ◌≤◌, ◌≡◌, ◌≢◌, sym, ◌∙◌, ap, Option, none, some, true, false, Bool-cases, inl,
  inr, leb, eq_iff, if◌then◌else◌, if-both, arith,
}
use django_app_eve.Core.Cache.{Cache, Laws, Value, num, flag, Reply, ok, value_error, unreachable}
use django_app_eve.Ecommerce.SaleorClient.{
  circuit_failure_threshold, circuit_cooldown_seconds, failures_key, open_key, was_open_key,
  is_present, circuit_is_open, when_ok, open_circuit, open_at_threshold, circuit_record_failure,
  circuit_record_success,
}

failures-ne-open : failures_key ≢ open_key
failures-ne-open p = false≢true ((eq_iff failures_key open_key).1 p)

failures-ne-was : failures_key ≢ was_open_key
failures-ne-was p = false≢true ((eq_iff failures_key was_open_key).1 p)

open-ne-was : open_key ≢ was_open_key
open-ne-was p = false≢true ((eq_iff open_key was_open_key).1 p)

module _ (c : Cache) (laws : Laws c) where
  open c use {State, get, add, set, incr, delete}

  -- The count of consecutive failures, and a closed circuit.
  abbrev pub Counter : ℕ → State → Type 0
  Counter zero s = get failures_key s ≡ ok none
  Counter (suc n) s = get failures_key s ≡ ok (some (num (suc n)))

  pub record Closed (n : ℕ) (s : State) : Type 0 where
    pub counter : Counter n s
    pub is_closed : get open_key s ≡ ok none
    pub was_open : (w : Option Value) × (get was_open_key s ≡ ok w)

  -- Open, with the count started afresh.
  pub record Opened (s : State) : Type 0 where
    pub counter : get failures_key s ≡ ok none
    pub is_open : get open_key s ≡ ok (some flag)
    pub was_open : get was_open_key s ≡ ok (some flag)

  when_ok_lem :
      {A : Type 0} (r : Reply A × State) (k : A → State → State) (a : A)
      → r.0 ≡ ok a
      → when_ok c r k ≡ k a r.1
  when_ok_lem (ok b, s) k a e = ap (λ x. k x s) (ok-injective b a e)
    where
      ok-injective : {A : Type 0} (x y : A) → ok x ≡ ok y → x ≡ y
      ok-injective x y h = cc
  when_ok_lem (value_error, s) k a e = cc
  when_ok_lem (unreachable, s) k a e = cc

  open_circuit-Opened :
      (s : State) (o w f : Option Value)
      → get open_key s ≡ ok o
      → get was_open_key s ≡ ok w
      → get failures_key s ≡ ok f
      → Opened (open_circuit c s)
  unfolding open_circuit
  open_circuit-Opened s o w f at_open at_was at_failures =
      let s1 = (set open_key flag circuit_cooldown_seconds s).1 in
      let s2 = (set was_open_key flag (circuit_cooldown_seconds * 10) s1).1 in
      let (e1, open1) = laws.set_lem open_key flag circuit_cooldown_seconds s o at_open in
      let was1 =
        laws.set_other open_key was_open_key flag circuit_cooldown_seconds s open-ne-was ∙ at_was in
      let failures1 =
        laws.set_other open_key failures_key flag circuit_cooldown_seconds s
          (λ p. failures-ne-open (sym p))
        ∙ at_failures in
      let (e2, was2) = laws.set_lem was_open_key flag (circuit_cooldown_seconds * 10) s1 w was1 in
      let open2 =
        laws.set_other was_open_key open_key flag (circuit_cooldown_seconds * 10) s1
          (λ p. open-ne-was (sym p))
        ∙ open1 in
      let failures2 =
        laws.set_other was_open_key failures_key flag (circuit_cooldown_seconds * 10) s1
          (λ p. failures-ne-was (sym p))
        ∙ failures1 in
      let (e3, failures3) = laws.delete_lem failures_key s2 f failures2 in
      subst Opened
        (sym (
          when_ok_lem (set open_key flag circuit_cooldown_seconds s) _ tt e1
          ∙ when_ok_lem (set was_open_key flag (circuit_cooldown_seconds * 10) s1) _ tt e2
          ∙ when_ok_lem (delete failures_key s2) _ tt e3))
        (record {
          counter = failures3;
          is_open = laws.delete_other failures_key open_key s2 failures-ne-open ∙ open2;
          was_open = laws.delete_other failures_key was_open_key s2 failures-ne-was ∙ was2;
        })

  -- The state after a failure that made the count `n`.
  abbrev pub Counted : ℕ → State → Type 0
  Counted n s = if leb circuit_failure_threshold n then Opened s else Closed n s

  Counted-at :
      (n : ℕ) (s : State) (f : Option Value)
      → get failures_key s ≡ ok f
      → Closed n s
      → Counted n (open_at_threshold c n s)
  unfolding open_at_threshold
  Counted-at n s f at_f closed = elim (Bool-cases (leb circuit_failure_threshold n)) [
    | inl trip ↦
        rw trip
          (open_circuit-Opened s none closed.was_open.0 f closed.is_closed closed.was_open.1 at_f)
    | inr below ↦ rw below closed
  ]

  -- From a closed circuit with `n` consecutive failures, one more either opens it (at the fifth), with
  -- the count started afresh, or leaves it closed with `n + 1`.
  circuit_record_failure-Counted :
      (n : ℕ) (s : State) → Closed n s → Counted (suc n) (circuit_record_failure c s)
  unfolding circuit_record_failure
  circuit_record_failure-Counted zero s closed =
      let (e, held) =
        laws.add_missing failures_key (num 1) (circuit_cooldown_seconds * 2) s closed.counter in
      subst (Counted 1)
        (sym (when_ok_lem (add failures_key (num 1) (circuit_cooldown_seconds * 2) s) _ true e))
        (Counted-at 1 _ _ held (record {
          counter = held;
          is_closed =
              laws.add_other failures_key open_key (num 1) (circuit_cooldown_seconds * 2) s
                failures-ne-open
              ∙ closed.is_closed;
          was_open = (
            closed.was_open.0,
            laws.add_other failures_key was_open_key (num 1) (circuit_cooldown_seconds * 2) s
                  failures-ne-was
                ∙ closed.was_open.1,
          );
        }))
  circuit_record_failure-Counted (suc n) s closed =
      let (e, held) =
        laws.add_present failures_key (num 1) (num (suc n)) (circuit_cooldown_seconds * 2) s
          closed.counter in
      let s1 = (add failures_key (num 1) (circuit_cooldown_seconds * 2) s).1 in
      let (e2, held2) = laws.incr_num failures_key (suc n) s1 held in
      subst (Counted (suc (suc n)))
        (sym (
          when_ok_lem (add failures_key (num 1) (circuit_cooldown_seconds * 2) s) _ false e
          ∙ when_ok_lem (incr failures_key s1) _ (suc (suc n)) e2))
        (Counted-at (suc (suc n)) _ _ held2 (record {
          counter = held2;
          is_closed =
              laws.incr_other failures_key open_key s1 failures-ne-open
              ∙ laws.add_other failures_key open_key (num 1) (circuit_cooldown_seconds * 2) s
                  failures-ne-open
              ∙ closed.is_closed;
          was_open = (
            closed.was_open.0,
            laws.incr_other failures_key was_open_key s1 failures-ne-was
                ∙ laws.add_other failures_key was_open_key (num 1) (circuit_cooldown_seconds * 2) s
                    failures-ne-was
                ∙ closed.was_open.1,
          );
        }))

  unfoldable pub fail_times : ℕ → State → State
  fail_times zero s = s
  fail_times (suc n) s = circuit_record_failure c (fail_times n s)

  fail_times-Counted :
      (n : ℕ) (s : State) → n ≤ circuit_failure_threshold → Closed 0 s → Counted n (fail_times n s)
  unfolding fail_times
  fail_times-Counted zero s small closed = closed
  fail_times-Counted (suc n) s small closed =
      circuit_record_failure-Counted n (fail_times n s)
        (still_closed (fail_times-Counted n s (omega (arith, small)) closed))
    where
      below : (m : ℕ) → suc m ≤ circuit_failure_threshold → leb circuit_failure_threshold m ≡ false
      below m h = ground arith

      still_closed : Counted n (fail_times n s) → Closed n (fail_times n s)
      still_closed h = rw (below n small) at h

  is_open-Counted :
      (n : ℕ) (s : State) → Counted n s → circuit_is_open c s ≡ leb circuit_failure_threshold n
  unfolding circuit_is_open
  is_open-Counted n s h = elim (Bool-cases (leb circuit_failure_threshold n)) [
    | inl trip ↦ let opened : Opened s = rw trip at h in rw (opened.is_open, trip)
    | inr below ↦ let closed : Closed n s = rw below at h in rw (closed.is_closed, below)
  ]

  -- From a closed circuit with no failure counted, `n` ≤ 5 failures in a row open it if and only if
  -- n = 5.
  pub circuit_exact :
      (n : ℕ) (s : State)
      → n ≤ circuit_failure_threshold
      → Closed 0 s
      → circuit_is_open c (fail_times n s) ≡ leb circuit_failure_threshold n
  circuit_exact n s small closed =
      is_open-Counted n (fail_times n s) (fail_times-Counted n s small closed)

  -- A success starts the count of failures afresh, and neither opens nor closes the circuit.
  pub circuit_record_success-resets :
      (s : State) (f w : Option Value)
      → get failures_key s ≡ ok f
      → get was_open_key s ≡ ok w
      → (get failures_key (circuit_record_success c s) ≡ ok none)
        × (circuit_is_open c (circuit_record_success c s) ≡ circuit_is_open c s)
  unfolding circuit_record_success circuit_is_open
  circuit_record_success-resets s f w at_f at_w =
      let (e, gone) = laws.delete_lem failures_key s f at_f in
      let s1 = (delete failures_key s).1 in
      let was1 = laws.delete_other failures_key was_open_key s failures-ne-was ∙ at_w in
      subst Reset (sym (when_ok_lem (delete failures_key s) _ tt e)) (
        if-both Reset (is_present c (get was_open_key s1)) _ _
          (λ h.
            let (e2, gone2) = laws.delete_lem was_open_key s1 w was1 in
            subst Reset (sym (when_ok_lem (delete was_open_key s1) _ tt e2)) (
              laws.delete_other was_open_key failures_key s1 (λ p. failures-ne-was (sym p)) ∙ gone,
              ap (is_present c) (
                  laws.delete_other was_open_key open_key s1 (λ p. open-ne-was (sym p))
                  ∙ laws.delete_other failures_key open_key s failures-ne-open),
            ))
          (λ h.
            (gone, ap (is_present c) (laws.delete_other failures_key open_key s failures-ne-open))))
    where
      Reset : State → Type 0
      Reset t =
          (get failures_key t ≡ ok none)
          × (is_present c (get open_key t) ≡ is_present c (get open_key s))
