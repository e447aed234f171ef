-- ===== src/Payments/Checkout/Steps.antt =====
-- The effects of a run of Eve/payments/services/checkout.py, one by one, under the invariant of
-- Safe: a mutation is sent, a journal row is made, an order is made.
use mathlib.Core.Option.{some-injective}
use mathlib.Core.Path.{subst}
use django_app_eve.Prelude.{
  ℕ, ◌+◌, ◌<◌, ◌≡◌, refl, sym, ◌∙◌, inl, inr, String, Bool-cases, Option, none, some, zero_or_pos,
  List, [], ◌∷◌, ◌++◌, count-append, find, find-append, All, All-append, All-mono, str_eq, eq_iff,
  eq_refl, if◌then◌else◌, arith,
}
use django_app_eve.Prelude.Unique.{Unique-append, Fresh-find-none}
use django_app_eve.Payments.Models.{Order, CheckoutAttempt}
use django_app_eve.Payments.Db.{Db, IsValid}
use django_app_eve.Payments.SaleorCheckout.{CartItem}
use django_app_eve.Payments.Rows.{
  create_call, complete_call, Journal, has_key, send, insert_if_free, insert_order,
}
use django_app_eve.Payments.Checkout.{Env, fresh_attempt, insert_attempt}
use django_app_eve.Payments.Checkout.Safe.{is_complete, completes, IsLocked, Locked, IsSafe, At}

-- Nothing was sent for a key with no journal row.
pub completes-none :
    (j : Journal) (key : String)
    → IsSafe j
    → find (has_key key) j.db.attempts ≡ none
    → completes key j.calls ≡ 0
completes-none j key s absent = elim (zero_or_pos (completes key j.calls)) [
  | inl z ↦ z
  | inr p ↦ let (a, found, lock) = s.locked key p in cc (absent, found)
]

-- Nor for a key whose row is not locked.
pub completes-open :
    (j : Journal) (key : String) (r : CheckoutAttempt)
    → IsSafe j
    → find (has_key key) j.db.attempts ≡ some r
    → ¬ IsLocked r.state
    → completes key j.calls ≡ 0
completes-open j key r s found unlocked = elim (zero_or_pos (completes key j.calls)) [
  | inl z ↦ z
  | inr p ↦
      let (a, found', lock) = s.locked key p in
      absurd (
        unlocked (
          subst (λ (x : CheckoutAttempt). IsLocked x.state)
            (some-injective a r (sym found' ∙ found)) lock))
]

pub send_create-IsSafe : (j : Journal) (key : String) → IsSafe j → IsSafe (send (create_call key) j)
unfolding send
send_create-IsSafe j key s = record {
  valid = s.valid;
  once =
      λ k. omega (arith, s.once k, count-append {0} (is_complete k) j.calls (create_call key ∷ []));
  locked = λ k p.
      s.locked k
        (omega (arith, p, count-append {0} (is_complete k) j.calls (create_call key ∷ [])));
}

pub completes-send_create :
    (j : Journal) (key k : String)
    → completes k (send (create_call key) j).calls ≡ completes k j.calls
unfolding send
completes-send_create j key k =
    omega (arith, count-append {0} (is_complete k) j.calls (create_call key ∷ []))

pub send_complete-IsSafe :
    (j : Journal) (key id : String)
    → IsSafe j
    → completes key j.calls ≡ 0
    → Locked key j.db.attempts
    → IsSafe (send (complete_call key id) j)
unfolding send
send_complete-IsSafe j key id s zero lock = record {
  valid = s.valid;
  once = λ k. ground (arith, s.once k, added k, eq_iff key k, same_zero k);
  locked = λ k p. elim (Bool-cases (str_eq key k)) [
    | inl e ↦ subst (λ x. Locked x j.db.attempts) ((eq_iff key k).0 e) lock
    | inr e ↦ s.locked k (ground (arith, p, added k, e))
  ];
}
  where
    added :
        (k : String)
        → completes k (j.calls ++ complete_call key id ∷ [])
          ≡ completes k j.calls + ((if str_eq key k then 1 else 0) + 0)
    added k = count-append (is_complete k) j.calls (complete_call key id ∷ [])

    same_zero : (k : String) → key ≡ k → completes k j.calls ≡ 0
    same_zero k e = subst (λ x. completes x j.calls ≡ 0) e zero

pub below-Fresh {ℓ} :
    {A : Type ℓ} (pk : A → ℕ) (n : ℕ) (xs : List A)
    → All (λ a. pk a < n) xs
    → All (λ a. ¬ (pk a ≡ n)) xs
below-Fresh pk n xs h = All-mono _ _ xs (λ a l e. omega (arith, l, e)) h

pub below-suc {ℓ} :
    {A : Type ℓ} (pk : A → ℕ) (n : ℕ) (xs : List A)
    → All (λ a. pk a < n) xs
    → All (λ a. pk a < n + 1) xs
below-suc pk n xs h = All-mono _ _ xs (λ a l. omega (arith, l)) h

module _ (env : Env) (user : ℕ) (key : String) (items : List CartItem) (cart_fingerprint : String)
    (j : Journal) (s : IsSafe j) (absent : find (has_key key) j.db.attempts ≡ none) where
  abbrev pub fresh : CheckoutAttempt
  fresh = fresh_attempt env user key items cart_fingerprint j.db.next_pk

  pub insert_attempt-IsSafe : IsSafe (insert_attempt env user key items cart_fingerprint j)
  unfolding insert_attempt fresh_attempt
  insert_attempt-IsSafe = record {
    valid = record {
      order_pk = s.valid.order_pk;
      order_saleor_id = s.valid.order_saleor_id;
      order_below = below-suc _ _ j.db.orders s.valid.order_below;
      attempt_pk =
          Unique-append _ j.db.attempts fresh s.valid.attempt_pk
            (below-Fresh _ _ j.db.attempts s.valid.attempt_below);
      attempt_key = Unique-append _ j.db.attempts fresh s.valid.attempt_key (
          Fresh-find-none (λ (a : CheckoutAttempt). a.idempotency_key) str_eq eq_iff key
            j.db.attempts absent);
      attempt_below =
          All-append _ j.db.attempts (fresh ∷ [])
            (below-suc _ _ j.db.attempts s.valid.attempt_below) (omega arith, tt);
      event_pk = s.valid.event_pk;
      event_fingerprint = s.valid.event_fingerprint;
      event_below = below-suc _ _ j.db.events s.valid.event_below;
    };
    once = s.once;
    locked = λ k p.
        let (a, found, lock) = s.locked k p in
        (a, find-append (has_key k) j.db.attempts (fresh ∷ []) ∙ rw found refl, lock);
  }

  pub insert_attempt-At : At fresh key fresh (insert_attempt env user key items cart_fingerprint j)
  unfolding insert_attempt fresh_attempt find
  insert_attempt-At =
      (find-append (has_key key) j.db.attempts (fresh ∷ []) ∙ rw absent (rw (eq_refl key)), refl)

inserted-IsValid :
    (p q : Option Order) (o : Order) (db db' : Db)
    → find (λ (r : Order). str_eq r.saleor_order_id o.saleor_order_id) db.orders ≡ p
    → o.pk ≡ db.next_pk
    → IsValid db
    → insert_if_free p q o db ≡ some db'
    → IsValid db' × (db'.attempts ≡ db.attempts)
unfolding insert_if_free
inserted-IsValid (some _) none o db db' at pk v h = cc
inserted-IsValid (some _) (some _) o db db' at pk v h = cc
inserted-IsValid none none o db db' at pk v h =
    subst (λ (d : Db). IsValid d × (d.attempts ≡ db.attempts)) (some-injective _ _ h)
      (
        record {
          order_pk =
              Unique-append _ db.orders o v.order_pk
                (rw pk (below-Fresh _ _ db.orders v.order_below));
          order_saleor_id = Unique-append _ db.orders o v.order_saleor_id (
              Fresh-find-none (λ (r : Order). r.saleor_order_id) str_eq eq_iff o.saleor_order_id
                db.orders at);
          order_below =
              All-append _ db.orders (o ∷ []) (below-suc _ _ db.orders v.order_below)
                (omega (arith, pk), tt);
          attempt_pk = v.attempt_pk;
          attempt_key = v.attempt_key;
          attempt_below = below-suc _ _ db.attempts v.attempt_below;
          event_pk = v.event_pk;
          event_fingerprint = v.event_fingerprint;
          event_below = below-suc _ _ db.events v.event_below;
        },
        refl,
      )
inserted-IsValid none (some _) o db db' at pk v h = cc

-- A new order keeps the constraints and touches no journal row.
pub insert_order-IsValid :
    (row : ℕ → Order) (db db' : Db)
    → ((n : ℕ) → (row n).pk ≡ n)
    → IsValid db
    → insert_order row db ≡ some db'
    → IsValid db' × (db'.attempts ≡ db.attempts)
unfolding insert_order
insert_order-IsValid row db db' pk v h =
    inserted-IsValid _ _ (row db.next_pk) db db' refl (pk db.next_pk) v h

-- The tables change, but not the journal rows.
pub transfer-IsSafe :
    (j : Journal) (db : Db)
    → IsSafe j
    → IsValid db
    → db.attempts ≡ j.db.attempts
    → IsSafe (record j { db = db })
transfer-IsSafe j db s v same = record {
  valid = v;
  once = s.once;
  locked = λ k p. subst (Locked k) (sym same) (s.locked k p);
}
