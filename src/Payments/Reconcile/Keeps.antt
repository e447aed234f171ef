-- ===== src/Payments/Reconcile/Keeps.antt =====
-- The reconciliation (Eve/payments/management/commands/reconcile_orders.py), the constraints of the
-- tables and the invariant of Checkout/Safe.
use mathlib.Core.Option.{some-injective}
use mathlib.Core.Path.{subst}
use django_app_eve.Prelude.{
  ℕ, ◌≡◌, refl, ◌∙◌, inl, inr, String, Option, none, some, Option-cases, Bool, true, false, List,
  [], ◌∷◌, find-update_where, update_where, All-update_where, if◌then◌else◌, if-both,
}
use django_app_eve.Prelude.Unique.{Unique-update_where}
use django_app_eve.Payments.Models.{CheckoutAttempt}
use django_app_eve.Payments.Db.{Db}
use django_app_eve.Payments.Rows.{Journal, has_key, insert_order, mark_completed}
use django_app_eve.Payments.Checkout.Safe.{IsLocked, IsSafe, KeepsKeys}
use django_app_eve.Payments.Checkout.Steps.{insert_order-IsValid, transfer-IsSafe}
use django_app_eve.Payments.Reconcile.{
  User, Node, missing, mark_unknown, mark_uncertain, recreated_order, complete_attempt,
  finish_repair, repair_for, repair, repair_all, reconcile,
}

abbrev pub with_db : Journal → Db → Journal
with_db j db = record j { db = db }

-- Writing a locked state into some journal rows keeps the invariant.
update_attempts-IsSafe :
    (p : CheckoutAttempt → Bool) (f : CheckoutAttempt → CheckoutAttempt) (j : Journal)
    → KeepsKeys f
    → ((a : CheckoutAttempt) → IsLocked (f a).state)
    → IsSafe j
    → IsSafe (with_db j (record j.db { attempts = update_where p f j.db.attempts }))
update_attempts-IsSafe p f j keeps locks s = record {
  valid = record {
    order_pk = s.valid.order_pk;
    order_saleor_id = s.valid.order_saleor_id;
    order_below = s.valid.order_below;
    attempt_pk = Unique-update_where _ p f j.db.attempts keeps.pk s.valid.attempt_pk;
    attempt_key = Unique-update_where _ p f j.db.attempts keeps.key s.valid.attempt_key;
    attempt_below =
        All-update_where _ p f j.db.attempts (λ r e h. rw (keeps.pk r) h) s.valid.attempt_below;
    event_pk = s.valid.event_pk;
    event_fingerprint = s.valid.event_fingerprint;
    event_below = s.valid.event_below;
  };
  once = s.once;
  locked = λ k sent.
      let (a, found, lock) = s.locked k sent in
      (
        (if p a then f a else a),
        find-update_where (has_key k) p f j.db.attempts (λ r e. rw (keeps.key r)) ∙ rw found refl,
        if-both (λ (x : CheckoutAttempt). IsLocked x.state) (p a) (f a) a (λ e. locks a)
            (λ e. lock),
      );
}

module _ (now : ℕ) (users : List User) where
  pub mark_uncertain-IsSafe :
      (cutoff : ℕ) (j : Journal) → IsSafe j → IsSafe (with_db j (mark_uncertain cutoff j.db))
  unfolding mark_uncertain mark_unknown
  mark_uncertain-IsSafe cutoff j s =
      update_attempts-IsSafe _ mark_unknown j (record { pk = λ r. refl; key = λ r. refl }) (λ a. tt)
        s

  complete_attempt-IsSafe :
      (id : String) (o : Option CheckoutAttempt) (j : Journal)
      → IsSafe j
      → IsSafe (with_db j (complete_attempt now id o j.db))
  unfolding complete_attempt mark_completed
  complete_attempt-IsSafe id none j s = s
  complete_attempt-IsSafe id (some a) j s =
      update_attempts-IsSafe _ (mark_completed now id) j
        (record { pk = λ r. refl; key = λ r. refl }) (λ a. tt) s

  pub repair_for-IsSafe :
      (n : Node) (attempt : Option CheckoutAttempt) (user : Option ℕ) (j : Journal) (db : Db)
      → IsSafe j
      → repair_for now n attempt user j.db ≡ some db
      → IsSafe (with_db j db)
  unfolding repair_for recreated_order finish_repair
  repair_for-IsSafe n attempt none j db s h =
      subst (λ (d : Db). IsSafe (with_db j d)) (some-injective _ _ h) s
  repair_for-IsSafe n attempt (some user) j db s h =
      elim (Option-cases (insert_order (recreated_order user n attempt) j.db)) [
        | inl e ↦ cc (rw (e, finish_repair) at h)
        | inr (db', e) ↦
            let (v, same) = insert_order-IsValid _ j.db db' (λ k. refl) s.valid e in
            subst (λ (d : Db). IsSafe (with_db j d))
              (some-injective _ _ (rw (e, finish_repair) at h))
              (complete_attempt-IsSafe n.id attempt (with_db j db')
                (transfer-IsSafe j db' s v same))
      ]

  repair_all-IsSafe :
      (nodes : List Node) (j : Journal)
      → IsSafe j
      → IsSafe (with_db j (repair_all now users nodes j.db).1)
  unfolding repair_all repair_for repair
  repair_all-IsSafe [] j s = s
  repair_all-IsSafe (n ∷ rest) j s = elim (Option-cases (repair now users n j.db)) [
    | inl e ↦ rw (e, repair_all) s
    | inr (db, e) ↦
        rw (e, repair_all)
          (repair_all-IsSafe rest (with_db j db) (repair_for-IsSafe n _ _ j db s e))
  ]

-- A reconciliation, with or without `--fix`, whatever Saleor reports and also where an IntegrityError
-- ends it early, keeps the constraints of the tables and the safety of the journal: still no key
-- has been completed twice, and no row of a key that was completed can be restarted.
pub reconcile-IsSafe :
    (now cutoff : ℕ) (fix : Bool) (users : List User) (nodes : List Node) (j : Journal)
    → IsSafe j
    → IsSafe (record j { db = (reconcile now cutoff fix users nodes j.db).1 })
unfolding reconcile
reconcile-IsSafe now cutoff false users nodes j s = mark_uncertain-IsSafe now users cutoff j s
reconcile-IsSafe now cutoff true users nodes j s =
    repair_all-IsSafe now users (missing nodes j.db) (with_db j (mark_uncertain cutoff j.db))
      (mark_uncertain-IsSafe now users cutoff j s)
