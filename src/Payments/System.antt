-- ===== src/Payments/System.antt =====
-- The payments app as a whole: checkouts (Eve/payments/services/checkout.py), deliveries of webhooks
-- (Eve/payments/views.py), the tasks that apply them (Eve/payments/tasks.py) and reconciliations
-- (Eve/payments/management/commands/reconcile_orders.py), in any order.
pub mod Grown
pub mod History
pub mod Backed
pub mod Writes
pub mod Completed
pub mod Served
pub mod Replay
pub mod Events
pub mod Changes
pub mod Redelivery
use django_app_eve.Prelude.{
  ℕ, ◌≤◌, ◌≡◌, refl, String, Option, none, some, Bool, List, [], ◌∷◌, find, str_eq, if-both,
}
use django_app_eve.Payments.Models.{
  Status, value, can_transition_to, Order, EventStatus, processed, ignored, rejected, WebhookEvent,
}
use django_app_eve.Payments.Db.{Db, IsValid}
use django_app_eve.Payments.Rows.{Journal}
use django_app_eve.Payments.Checkout.{Digests, scoped_idempotency_key, place_order}
use django_app_eve.Payments.Checkout.Safe.{completes, IsSafe}
use django_app_eve.Payments.Checkout.Steps.{transfer-IsSafe}
use django_app_eve.Payments.Checkout.AtMostOnce.{Request, place_order-IsSafe}
use django_app_eve.Payments.Inbox
use django_app_eve.Payments.Inbox.{Externals, Response, saleor_webhook_view}
use django_app_eve.Payments.Inbox.Delivery.{Effect, nothing, stored, saleor_webhook_view-Effect}
use django_app_eve.Payments.Tasks.{
  save_event, save_status, settle, apply_status, apply_event, apply_if_pending, process_found,
  process_webhook_event, after,
}
use django_app_eve.Payments.Tasks.Moves.{process_webhook_event-Moved}
use django_app_eve.Payments.Reconcile.{User, Node, reconcile}
use django_app_eve.Payments.Reconcile.Keeps.{reconcile-IsSafe}

-- One step of the app: a checkout, a delivery, a task at a time for an event, or a reconciliation at a
-- time, with its cutoff, the users and what Saleor reports.
pub data Action : Type 0 where
  checkout : Request → Action
  deliver : ℕ → Inbox.Request → Action
  task : ℕ → ℕ → Action
  reconciliation : (now cutoff : ℕ) → Bool → List User → List Node → Action

module _ (digests : Digests) (ext : Externals) where
  unfoldable pub act : Action → Journal → Journal
  act (checkout r) j =
      (place_order digests r.env r.user (scoped_idempotency_key digests r.user r.raw_key) r.items
        r.owner j).1
  act (deliver now r) j = record j { db = (saleor_webhook_view ext now r j.db).2 }
  act (task now event_id) j = record j { db = after (process_webhook_event now event_id j.db) j.db }
  act (reconciliation now cutoff fix users nodes) j = record j {
    db = (reconcile now cutoff fix users nodes j.db).1;
  }

  unfoldable pub run_all : List Action → Journal → Journal
  run_all [] j = j
  run_all (a ∷ rest) j = run_all rest (act a j)

-- A task writes no journal row.
module _ (now : ℕ) (event : WebhookEvent) (db : Db) where
  abbrev Untouched : EventStatus × Db → Type 0
  Untouched r = r.1.attempts ≡ db.attempts

  settle-attempts : (s : Status) (o : Order) → Untouched (settle now event s o db)
  unfolding settle save_event save_status
  settle-attempts s o =
      if-both Untouched (str_eq o.status (value s)) _ _ (λ e. refl)
        (λ e. if-both Untouched (can_transition_to o (value s)) _ _ (λ e. refl) (λ e. refl))

  apply_event-attempts : (s : Option Status) → Untouched (apply_event now event s db)
  unfolding apply_event apply_status save_event
  apply_event-attempts none = refl
  apply_event-attempts (some s) =
      by_order (find (λ (o : Order). str_eq o.saleor_order_id event.saleor_order_id) db.orders)
    where
      by_order : (o : Option Order) → Untouched (apply_status now event s o db)
      by_order none = refl
      by_order (some o) = settle-attempts s o

  apply_if_pending-attempts : (st : EventStatus) → Untouched (apply_if_pending now event st db)
  unfolding apply_if_pending
  apply_if_pending-attempts EventStatus.pending = apply_event-attempts _
  apply_if_pending-attempts processed = refl
  apply_if_pending-attempts ignored = refl
  apply_if_pending-attempts rejected = refl

task-attempts :
    (now event_id : ℕ) (db : Db)
    → (after (process_webhook_event now event_id db) db).attempts ≡ db.attempts
unfolding process_webhook_event process_found after
task-attempts now event_id db = by_event (find _ db.events)
  where
    by_event :
        (o : Option WebhookEvent) → (after (process_found now o db) db).attempts ≡ db.attempts
    by_event none = refl
    by_event (some e) = apply_if_pending-attempts now e db e.status

Effect-attempts :
    (ext : Externals) (now : ℕ) (r : Inbox.Request) (db : Db) (x : Response)
    → Effect ext now r db x
    → x.2.attempts ≡ db.attempts
Effect-attempts ext now r db x (nothing reply e) = refl
Effect-attempts ext now r db x (stored order_id event_type signed payload fresh) = refl

pub act-IsSafe :
    (digests : Digests) (ext : Externals) (a : Action) (j : Journal)
    → IsSafe j
    → IsSafe (act digests ext a j)
unfolding act
act-IsSafe digests ext (checkout r) j s =
    place_order-IsSafe digests r.env r.user (scoped_idempotency_key digests r.user r.raw_key)
      r.items r.owner j s
act-IsSafe digests ext (deliver now r) j s =
    let (e, v) = saleor_webhook_view-Effect ext now r j.db s.valid in
    transfer-IsSafe j _ s v (Effect-attempts ext now r j.db _ e)
act-IsSafe digests ext (task now event_id) j s =
    transfer-IsSafe j _ s (process_webhook_event-Moved now event_id j.db s.valid).0
      (task-attempts now event_id j.db)
act-IsSafe digests ext (reconciliation now cutoff fix users nodes) j s =
    reconcile-IsSafe now cutoff fix users nodes j s

-- From tables and a log of mutations that satisfy the invariant (as the empty ones do), over any
-- interleaving of checkouts, deliveries, webhook tasks and reconciliations, whatever Saleor answers:
-- `checkoutComplete` is sent at most once for each idempotency key, and every primary key, the orders'
-- Saleor ids, the journal's idempotency keys and the inbox's fingerprints stay unique.
pub run_all-once :
    (digests : Digests) (ext : Externals) (actions : List Action) (j : Journal)
    → IsSafe j
    → ((k : String) → completes k (run_all digests ext actions j).calls ≤ 1)
      × IsValid (run_all digests ext actions j).db
unfolding run_all
run_all-once digests ext actions j s = let end = all_safe actions j s in (end.once, end.valid)
  where
    all_safe : (l : List Action) (i : Journal) → IsSafe i → IsSafe (run_all digests ext l i)
    all_safe [] i s = s
    all_safe (a ∷ rest) i s = all_safe rest _ (act-IsSafe digests ext a i s)
