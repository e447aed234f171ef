-- ===== src/Payments/System/Served.antt =====
-- The completed rows of the journal and their orders, over every operation on the payments tables.
use mathlib.Core.Path.{subst}
use mathlib.Core.Option.{some-injective}
use django_app_eve.Prelude.{
  ℕ, ◌≡◌, refl, sym, inl, inr, String, Option, none, some, Option-cases, Bool, true, false,
  Bool-cases, List, [], ◌∷◌, ==_iff, ==_refl, eq_refl, str_eq, find, All, All-mono, All-both,
  All-rewritten, All-update_where,
}
use django_app_eve.Payments.Models.{Order, CheckoutAttempt, completed}
use django_app_eve.Payments.Db.{Db, IsValid}
use django_app_eve.Payments.Rows.{Journal, has_key, insert_order, mark_completed}
use django_app_eve.Payments.Checkout.{
  Digests, Env, placed, scoped_idempotency_key, place_order, unless_placed,
}
use django_app_eve.Payments.Checkout.Safe.{IsSafe}
use django_app_eve.Payments.SaleorCheckout.{CartItem}
use django_app_eve.Payments.Inbox.{Externals, saleor_webhook_view}
use django_app_eve.Payments.Inbox.Delivery.{saleor_webhook_view-Effect}
use django_app_eve.Payments.Tasks.{process_webhook_event, after}
use django_app_eve.Payments.Tasks.Moves.{process_webhook_event-Moved}
use django_app_eve.Payments.Reconcile.{
  User, Node, mark_unknown, mark_uncertain, missing, recreated_order, complete_attempt,
  finish_repair, repair_for, repair, repair_all, reconcile, attempt_of, user_of,
}
use django_app_eve.Payments.Reconcile.Keeps.{with_db, mark_uncertain-IsSafe, repair_for-IsSafe}
use django_app_eve.Payments.System.{
  Action, checkout, deliver, task, reconciliation, act, run_all, act-IsSafe, task-attempts,
  Effect-attempts,
}
use django_app_eve.Payments.System.Grown.{insert_order-Adds}
use django_app_eve.Payments.System.History.{Effect-orders}
use django_app_eve.Payments.System.Backed.{
  HasOrder, IsBacked, Backed, Keeps, Keeps-Adds, Keeps-Moved, Backed-Keeps, only_row,
  insert_order-found,
}
use django_app_eve.Payments.System.Writes.{insert_order-attempts}
use django_app_eve.Payments.System.Completed.{place_order-Backed}

-- Other orders, where lookups go on to succeed, and the same journal.
Backed-same :
    (db db' : Db) → Keeps db.orders db'.orders → db'.attempts ≡ db.attempts → Backed db → Backed db'
Backed-same db db' k same b =
    subst (λ l. All (IsBacked db'.orders) l) (sym same)
      (Backed-Keeps db.orders db'.orders db.attempts k b)

mark_uncertain-Backed : (cutoff : ℕ) (db : Db) → Backed db → Backed (mark_uncertain cutoff db)
unfolding mark_uncertain mark_unknown
mark_uncertain-Backed cutoff db b =
    All-update_where (IsBacked db.orders) _ mark_unknown db.attempts (λ r e h s. absurd (cc s)) b

attempt_of-found :
    (n : Node) (db : Db) (a : CheckoutAttempt)
    → attempt_of n db ≡ some a
    → find (has_key n.idempotency_key) db.attempts ≡ some a
unfolding attempt_of
attempt_of-found n db a h = elim (Bool-cases (str_eq n.idempotency_key "")) [
  | inl e ↦ cc (rw e at h)
  | inr e ↦ rw e at h
]

module _ (now : ℕ) (users : List User) where
  -- The row of an order that was just inserted for it is completed.
  complete_attempt-Backed :
      (id : String) (a : CheckoutAttempt) (db : Db)
      → All (λ (r : CheckoutAttempt). r.pk ≡ a.pk → r ≡ a) db.attempts
      → HasOrder db.orders a
      → Backed db
      → Backed (complete_attempt now id (some a) db)
  unfolding complete_attempt mark_completed
  complete_attempt-Backed id a db one has b =
      All-rewritten _ (IsBacked db.orders) _ _ db.attempts
        (λ r e both done. subst (HasOrder db.orders) (sym (both.1 ((==_iff r.pk a.pk).0 e))) has)
        (λ r e both. both.0) (All-both _ _ db.attempts b one)

  inserted-Backed :
      (user : ℕ) (n : Node) (attempt : Option CheckoutAttempt) (db d : Db)
      → insert_order (recreated_order user n attempt) db ≡ some d
      → Backed db
      → Backed d
  unfolding recreated_order
  inserted-Backed user n attempt db d e b =
      Backed-same db d
        (Keeps-Adds db.orders d.orders
          (insert_order-Adds (recreated_order user n attempt) db d (λ k. refl) e))
        (insert_order-attempts (recreated_order user n attempt) db d e) b

  -- The order of a row is found by the user and the key of that row.
  inserted-HasOrder :
      (n : Node) (a : CheckoutAttempt) (db d : Db)
      → insert_order (recreated_order a.user n (some a)) db ≡ some d
      → HasOrder d.orders a
  unfolding recreated_order
  inserted-HasOrder n a db d e =
      insert_order-found (recreated_order a.user n (some a)) db d a.user a.idempotency_key
        (λ k. rw (eq_refl a.idempotency_key) (==_refl a.user)) e

  repair_for-Backed :
      (n : Node) (user : Option ℕ) (db db' : Db)
      → repair_for now n none user db ≡ some db'
      → Backed db
      → Backed db'
  unfolding repair_for finish_repair complete_attempt
  repair_for-Backed n none db db' h b = subst Backed (some-injective db db' h) b
  repair_for-Backed n (some user) db db' h b =
      elim (Option-cases (insert_order (recreated_order user n none) db)) [
        | inl e ↦ cc (rw (e, finish_repair) at h)
        | inr (d, e) ↦
            subst Backed (some-injective d db' (rw (e, finish_repair) at h))
              (inserted-Backed user n none db d e b)
      ]

  repair_row-Backed :
      (n : Node) (a : CheckoutAttempt) (db db' : Db)
      → IsValid db
      → find (has_key n.idempotency_key) db.attempts ≡ some a
      → repair_for now n (some a) (some a.user) db ≡ some db'
      → Backed db
      → Backed db'
  unfolding repair_for finish_repair
  repair_row-Backed n a db db' v found h b =
      elim (Option-cases (insert_order (recreated_order a.user n (some a)) db)) [
        | inl e ↦ cc (rw (e, finish_repair) at h)
        | inr (d, e) ↦
            let rows = insert_order-attempts (recreated_order a.user n (some a)) db d e in
            let one = only_row db.attempts (has_key n.idempotency_key) a v.attempt_pk found in
            subst Backed (some-injective _ db' (rw (e, finish_repair) at h)) (
              complete_attempt-Backed n.id a d
                (subst (All (λ (r : CheckoutAttempt). r.pk ≡ a.pk → r ≡ a)) (sym rows) one)
                (inserted-HasOrder n a db d e) (inserted-Backed a.user n (some a) db d e b))
      ]

  repair-Backed :
      (n : Node) (attempt : Option CheckoutAttempt) (db db' : Db)
      → IsValid db
      → attempt_of n db ≡ attempt
      → repair_for now n attempt (user_of users n attempt) db ≡ some db'
      → Backed db
      → Backed db'
  unfolding user_of
  repair-Backed n none db db' v at h b = repair_for-Backed n _ db db' h b
  repair-Backed n (some a) db db' v at h b =
      repair_row-Backed n a db db' v (attempt_of-found n db a at) h b

  repair_all-Backed :
      (nodes : List Node) (j : Journal)
      → IsSafe j
      → Backed j.db
      → Backed (repair_all now users nodes j.db).1
  unfolding repair_all repair_for repair
  repair_all-Backed [] j s b = b
  repair_all-Backed (n ∷ rest) j s b = elim (Option-cases (repair now users n j.db)) [
    | inl e ↦ rw (e, repair_all) b
    | inr (d, e) ↦
        rw (e, repair_all)
          (repair_all-Backed rest (with_db j d)
            (repair_for-IsSafe now users n (attempt_of n j.db) _ j d s e)
            (repair-Backed n (attempt_of n j.db) j.db d s.valid refl e b))
  ]

reconcile-Backed :
    (now cutoff : ℕ) (fix : Bool) (users : List User) (nodes : List Node) (j : Journal)
    → IsSafe j
    → Backed j.db
    → Backed (reconcile now cutoff fix users nodes j.db).1
unfolding reconcile
reconcile-Backed now cutoff false users nodes j s b = mark_uncertain-Backed cutoff j.db b
reconcile-Backed now cutoff true users nodes j s b =
    repair_all-Backed now users (missing nodes j.db) (with_db j (mark_uncertain cutoff j.db))
      (mark_uncertain-IsSafe now users cutoff j s) (mark_uncertain-Backed cutoff j.db b)

module _ (digests : Digests) (ext : Externals) where
  act-Backed : (a : Action) (j : Journal) → IsSafe j → Backed j.db → Backed (act digests ext a j).db
  unfolding act
  act-Backed (checkout r) j s b =
      place_order-Backed digests r.env r.user (scoped_idempotency_key digests r.user r.raw_key)
        r.items j s.valid b r.owner
  act-Backed (deliver now r) j s b =
      let (e, v) = saleor_webhook_view-Effect ext now r j.db s.valid in
      let same = Effect-orders ext now r j.db _ e in
      Backed-same j.db (saleor_webhook_view ext now r j.db).2 (Keeps-Adds j.db.orders _ (inl same))
        (Effect-attempts ext now r j.db _ e) b
  act-Backed (task now event_id) j s b =
      Backed-same j.db (after (process_webhook_event now event_id j.db) j.db)
        (Keeps-Moved j.db.orders _ (process_webhook_event-Moved now event_id j.db s.valid).1)
        (task-attempts now event_id j.db) b
  act-Backed (reconciliation now cutoff fix users nodes) j s b =
      reconcile-Backed now cutoff fix users nodes j s b

  run_all-Backed :
      (actions : List Action) (j : Journal)
      → IsSafe j
      → Backed j.db
      → Backed (run_all digests ext actions j).db
  unfolding run_all
  run_all-Backed [] j s b = b
  run_all-Backed (a ∷ rest) j s b =
      run_all-Backed rest (act digests ext a j) (act-IsSafe digests ext a j s) (act-Backed a j s b)

  -- A request of the user of the row with its key gets an order, and changes nothing.
  abbrev pub IsServed : Journal → CheckoutAttempt → Type 0
  IsServed j a =
      a.state ≡ completed
      → (env : Env) (items : List CartItem)
      → (o : Order) × (place_order digests env a.user a.idempotency_key items true j
          ≡ (placed o, j))

  IsBacked-IsServed : (j : Journal) (a : CheckoutAttempt) → IsBacked j.db.orders a → IsServed j a
  unfolding place_order unless_placed
  IsBacked-IsServed j a b done env items = let (o, found) = b done in (o, rw found refl)

  -- Over any interleaving of checkouts, deliveries, webhook tasks and reconciliations, from a state with
  -- the invariant where every completed row of the journal has its order, and whatever Saleor answers: for
  -- every row of the journal that says "completed" at the end, a request by its user with its key that
  -- owns the lease returns an order, writes nothing and sends nothing to Saleor.
  pub run_all-IsServed :
      (actions : List Action) (j : Journal)
      → IsSafe j
      → Backed j.db
      → All (IsServed (run_all digests ext actions j)) (run_all digests ext actions j).db.attempts
  run_all-IsServed actions j s b =
      All-mono _ _ (run_all digests ext actions j).db.attempts
        (IsBacked-IsServed (run_all digests ext actions j)) (run_all-Backed actions j s b)
