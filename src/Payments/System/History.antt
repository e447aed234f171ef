-- ===== src/Payments/System/History.antt =====
-- What becomes of the orders while checkouts, deliveries, webhook tasks and reconciliations run in any order.
use mathlib.Core.Path.{subst}
use mathlib.Core.Option.{some-injective}
use django_app_eve.Prelude.{
  ℕ, ◌≡◌, refl, sym, ap, ◌∙◌, inl, inr, String, Option, none, some, Option-cases, Bool, true, false,
  List, [], ◌∷◌, ◌==◌, find, if-both,
}
use django_app_eve.Payments.Models.{Order, CheckoutAttempt}
use django_app_eve.Payments.Db.{Db}
use django_app_eve.Payments.Rows.{
  Journal, has_key, is_order_of, save_attempt, send, insert_order, new_order,
}
use django_app_eve.Payments.SaleorCheckout.{
  CartItem, Line, Result, ok, checkout_error, raised, build_lines, create_checkout, Completed,
  complete_checkout,
}
use django_app_eve.Payments.Checkout.{
  Digests, Env, Outcome, scoped_idempotency_key, commit_order, on_completed, on_created,
  run_attempt, is_completed, may_restart, resume_attempt, insert_attempt, get_or_create_attempt,
  with_lines, unless_placed, place_order,
}
use django_app_eve.Payments.Checkout.Safe.{IsSafe}
use django_app_eve.Payments.Inbox.{Externals, Response, saleor_webhook_view}
use django_app_eve.Payments.Inbox
use django_app_eve.Payments.Inbox.Delivery.{Effect, nothing, stored, saleor_webhook_view-Effect}
use django_app_eve.Payments.Tasks.Moves.{process_webhook_event-Moved}
use django_app_eve.Payments.Reconcile.{
  User, Node, mark_uncertain, missing, recreated_order, complete_attempt, finish_repair, repair_for,
  repair, repair_all, reconcile,
}
use django_app_eve.Payments.System.Grown.{
  Grown, Adds, Grown-refl, Grown-Adds, Grown-Moved, insert_order-Adds,
}
use django_app_eve.Payments.System.{
  Action, checkout, deliver, task, reconciliation, act, run_all, act-IsSafe,
}

-- A checkout.
module _ (env : Env) (user : ℕ) (key : String) (a : CheckoutAttempt) where
  abbrev Run : Journal → Outcome × Journal → Type 0
  Run j r = Adds j.db.orders r.1.db.orders

  commit_order-Adds :
      (o : Order) (d : Option Db) (c : Completed) (j : Journal)
      → ((db : Db) → d ≡ some db → Adds j.db.orders db.orders)
      → Run j (commit_order env user key a o d c j)
  unfolding commit_order save_attempt
  commit_order-Adds o none c j h = inl refl
  commit_order-Adds o (some db) c j h = h db refl

  on_completed-Adds :
      (id : String) (c : Result Completed) (j : Journal)
      → Run j (on_completed env user key a id c j)
  unfolding on_completed save_attempt new_order
  on_completed-Adds id (ok c) j =
      commit_order-Adds (new_order user key id c j.db.next_pk)
        (insert_order (new_order user key id c) j.db) c j
        (λ db e. insert_order-Adds (new_order user key id c) j.db db (λ n. refl) e)
  on_completed-Adds id checkout_error j = inl refl
  on_completed-Adds id raised j = inl refl

  on_created-Adds : (c : Result String) (j : Journal) → Run j (on_created env user key a c j)
  unfolding on_created send save_attempt
  on_created-Adds (ok id) j = on_completed-Adds id (complete_checkout env.answered) _
  on_created-Adds checkout_error j = inl refl
  on_created-Adds raised j = inl refl

  run_attempt-Adds :
      (items : List CartItem) (j : Journal) → Run j (run_attempt env user key a items j)
  unfolding run_attempt send
  run_attempt-Adds items j = on_created-Adds (create_checkout items env.created) _

module _ (env : Env) (user : ℕ) (key : String) (items : List CartItem) (cart_fingerprint : String)
    (j : Journal) where
  resume_attempt-Adds :
      (a : CheckoutAttempt)
      → Run env user key a j (resume_attempt env user key items cart_fingerprint a j)
  unfolding resume_attempt save_attempt
  resume_attempt-Adds a =
      if-both (Run env user key a j) (a.user == user) _ _
        (λ e.
          if-both (Run env user key a j) (is_completed a.state) _ _ (λ e. inl refl)
            (λ e.
              if-both (Run env user key a j) (may_restart a) _ _
                (λ may. run_attempt-Adds env user key a items _) (λ e. inl refl)))
        (λ e. inl refl)

  get_or_create-Adds :
      (o : Option CheckoutAttempt)
      → Adds j.db.orders (get_or_create_attempt env user key items cart_fingerprint o j).1.db.orders
  unfolding get_or_create_attempt insert_attempt
  get_or_create-Adds (some a) = resume_attempt-Adds a
  get_or_create-Adds none = run_attempt-Adds env user key _ items _

module _ (digests : Digests) (env : Env) (user : ℕ) (key : String) (items : List CartItem)
    (j : Journal) where
  with_lines-Adds :
      (l : Result (List Line))
      → Adds j.db.orders (with_lines digests env user key items l j).1.db.orders
  unfolding with_lines
  with_lines-Adds (ok lines) =
      get_or_create-Adds env user key items (digests.fingerprint lines) j
        (find (has_key key) j.db.attempts)
  with_lines-Adds checkout_error = inl refl
  with_lines-Adds raised = inl refl

  unless_placed-Adds :
      (o : Option Order)
      → Adds j.db.orders (unless_placed digests env user key items o j).1.db.orders
  unfolding unless_placed
  unless_placed-Adds (some o) = inl refl
  unless_placed-Adds none = with_lines-Adds (build_lines items)

  place_order-Adds :
      (owner : Bool) → Adds j.db.orders (place_order digests env user key items owner j).1.db.orders
  unfolding place_order
  place_order-Adds false = inl refl
  place_order-Adds true = unless_placed-Adds (find (is_order_of user key) j.db.orders)

-- A reconciliation.
module _ (now : ℕ) (users : List User) where
  complete_attempt-orders :
      (id : String) (o : Option CheckoutAttempt) (db : Db)
      → (complete_attempt now id o db).orders ≡ db.orders
  unfolding complete_attempt
  complete_attempt-orders id none db = refl
  complete_attempt-orders id (some a) db = refl

  repair_for-Adds :
      (n : Node) (attempt : Option CheckoutAttempt) (user : Option ℕ) (db db' : Db)
      → repair_for now n attempt user db ≡ some db'
      → Adds db.orders db'.orders
  unfolding repair_for finish_repair recreated_order
  repair_for-Adds n attempt none db db' h =
      inl (sym (ap (λ (d : Db). d.orders) (some-injective db db' h)))
  repair_for-Adds n attempt (some user) db db' h =
      elim (Option-cases (insert_order (recreated_order user n attempt) db)) [
        | inl e ↦ cc (rw (e, finish_repair) at h)
        | inr (d, e) ↦
            let same =
              ap (λ (x : Db). x.orders) (some-injective _ db' (rw (e, finish_repair) at h)) in
            subst (Adds db.orders) (sym (complete_attempt-orders n.id attempt d) ∙ same)
              (insert_order-Adds (recreated_order user n attempt) db d (λ k. refl) e)
      ]

  repair_all-Grown :
      (nodes : List Node) (db : Db) (zs : List Order)
      → Grown (repair_all now users nodes db).1.orders zs
      → Grown db.orders zs
  unfolding repair_all repair_for repair
  repair_all-Grown [] db zs g = g
  repair_all-Grown (n ∷ rest) db zs g = elim (Option-cases (repair now users n db)) [
    | inl e ↦ rw (e, repair_all) at g
    | inr (d, e) ↦
        Grown-Adds db.orders d.orders zs (repair_for-Adds n _ _ db d e)
          (repair_all-Grown rest d zs (rw (e, repair_all) at g))
  ]

  reconcile-Grown :
      (cutoff : ℕ) (fix : Bool) (nodes : List Node) (db : Db) (zs : List Order)
      → Grown (reconcile now cutoff fix users nodes db).1.orders zs
      → Grown db.orders zs
  unfolding reconcile mark_uncertain
  reconcile-Grown cutoff false nodes db zs g = g
  reconcile-Grown cutoff true nodes db zs g =
      repair_all-Grown (missing nodes db) (mark_uncertain cutoff db) zs g

pub Effect-orders :
    (ext : Externals) (now : ℕ) (r : Inbox.Request) (db : Db) (x : Response)
    → Effect ext now r db x
    → x.2.orders ≡ db.orders
Effect-orders ext now r db x (nothing reply e) = refl
Effect-orders ext now r db x (stored order_id event_type signed payload fresh) = refl

module _ (digests : Digests) (ext : Externals) where
  act-Grown :
      (a : Action) (j : Journal) (zs : List Order)
      → IsSafe j
      → Grown (act digests ext a j).db.orders zs
      → Grown j.db.orders zs
  unfolding act
  act-Grown (checkout r) j zs s g =
      Grown-Adds j.db.orders _ zs
        (place_order-Adds digests r.env r.user (scoped_idempotency_key digests r.user r.raw_key)
          r.items j r.owner)
        g
  act-Grown (deliver now r) j zs s g =
      let (e, v) = saleor_webhook_view-Effect ext now r j.db s.valid in
      subst (λ l. Grown l zs) (Effect-orders ext now r j.db _ e) g
  act-Grown (task now event_id) j zs s g =
      Grown-Moved j.db.orders _ zs (process_webhook_event-Moved now event_id j.db s.valid).1 g
  act-Grown (reconciliation now cutoff fix users nodes) j zs s g =
      reconcile-Grown now users cutoff fix nodes j.db zs g

  -- Over any interleaving of checkouts, deliveries, webhook tasks and reconciliations, from a state with
  -- the invariant and whatever Saleor answers: no order is lost or changes its user, its ids, its key or
  -- its amount. Its status is as it was, or went from pending to paid, cancelled or refunded, from paid
  -- to refunded or cancelled, or from failed to cancelled. An order that was added has the status
  -- pending or one that these ways lead to from there.
  pub run_all-Grown :
      (actions : List Action) (j : Journal)
      → IsSafe j
      → Grown j.db.orders (run_all digests ext actions j).db.orders
  unfolding run_all
  run_all-Grown [] j s = Grown-refl j.db.orders
  run_all-Grown (a ∷ rest) j s =
      act-Grown a j _ s (run_all-Grown rest (act digests ext a j) (act-IsSafe digests ext a j s))
