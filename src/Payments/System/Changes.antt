-- ===== src/Payments/System/Changes.antt =====
-- What each step of the app does to the inbox of webhooks (Eve/payments/tasks.py, Eve/payments/views.py).
use django_app_eve.Prelude.{
  ℕ, ◌≡◌, refl, Option, none, some, List, [], ◌∷◌, ◌++◌, ◌==◌, find, update_where, str_eq, if-both,
}
use django_app_eve.Payments.Models.{
  Status, value, can_transition_to, Order, EventStatus, processed, ignored, rejected, WebhookEvent,
}
use django_app_eve.Payments.Db.{Db}
use django_app_eve.Payments.Rows.{Journal}
use django_app_eve.Payments.Checkout.{Digests, scoped_idempotency_key}
use django_app_eve.Payments.Checkout.Safe.{IsSafe}
use django_app_eve.Payments.Inbox
use django_app_eve.Payments.Inbox.{Externals, Response, saleor_webhook_view}
use django_app_eve.Payments.Inbox.Delivery.{Effect, nothing, stored, saleor_webhook_view-Effect}
use django_app_eve.Payments.Tasks.{
  save_event, save_status, mark_processed, mark_ignored, mark_rejected, mark_unknown_order, settle,
  apply_status, apply_event, apply_if_pending, process_found, process_webhook_event, after,
}
use django_app_eve.Payments.System.{Action, checkout, deliver, task, reconciliation, act}
use django_app_eve.Payments.System.Events.{place_order-events, reconcile-events}

-- A row after a task wrote its status, its attempts and its texts.
pub record KeepsEvent (f : WebhookEvent → WebhookEvent) : Type 0 where
  pub pk : (r : WebhookEvent) → (f r).pk ≡ r.pk
  pub fingerprint : (r : WebhookEvent) → (f r).fingerprint ≡ r.fingerprint

-- The inbox before and after: as it was, with a new row behind, or with the row of one event that was
-- pending written.
pub data Change (xs ys : List WebhookEvent) : Type 0 where
  kept : ys ≡ xs → Change xs ys
  appended : (e : WebhookEvent) → ys ≡ xs ++ e ∷ [] → Change xs ys
  saved :
      (id : ℕ) (e : WebhookEvent) (f : WebhookEvent → WebhookEvent)
      → find (λ (r : WebhookEvent). r.pk == id) xs ≡ some e
      → e.status ≡ EventStatus.pending
      → KeepsEvent f
      → ys ≡ update_where (λ (r : WebhookEvent). r.pk == e.pk) f xs
      → Change xs ys

-- A task.
module _ (now id : ℕ) (event : WebhookEvent) (db : Db)
    (found : find (λ (r : WebhookEvent). r.pk == id) db.events ≡ some event) where
  abbrev Changed : EventStatus × Db → Type 0
  Changed r = Change db.events r.1.events

  module _ (open_event : event.status ≡ EventStatus.pending) where
    settle-Change : (s : Status) (o : Order) → Changed (settle now event s o db)
    unfolding settle save_event save_status mark_processed mark_rejected
    settle-Change s o =
        let done =
          saved id event (mark_processed now event) found open_event
            (record { pk = λ r. refl; fingerprint = λ r. refl }) refl in
        if-both Changed (str_eq o.status (value s)) _ _ (λ e. done)
          (λ e.
            if-both Changed (can_transition_to o (value s)) _ _ (λ e. done)
              (λ e.
                saved id event (mark_rejected now event) found open_event
                  (record { pk = λ r. refl; fingerprint = λ r. refl }) refl))

    apply_status-Change : (s : Status) (o : Option Order) → Changed (apply_status now event s o db)
    unfolding apply_status save_event mark_unknown_order
    apply_status-Change s none =
        saved id event (mark_unknown_order event) found open_event
          (record { pk = λ r. refl; fingerprint = λ r. refl }) refl
    apply_status-Change s (some o) = settle-Change s o

    apply_event-Change : (s : Option Status) → Changed (apply_event now event s db)
    unfolding apply_event save_event mark_ignored
    apply_event-Change none =
        saved id event (mark_ignored now event) found open_event
          (record { pk = λ r. refl; fingerprint = λ r. refl }) refl
    apply_event-Change (some s) = apply_status-Change s _

  apply_if_pending-Change :
      (st : EventStatus) → event.status ≡ st → Changed (apply_if_pending now event st db)
  unfolding apply_if_pending
  apply_if_pending-Change EventStatus.pending e = apply_event-Change e _
  apply_if_pending-Change processed e = kept refl
  apply_if_pending-Change ignored e = kept refl
  apply_if_pending-Change rejected e = kept refl

task-Change :
    (now id : ℕ) (db : Db) → Change db.events (after (process_webhook_event now id db) db).events
unfolding process_webhook_event process_found after
task-Change now id db = by_event (find _ db.events) refl
  where
    by_event :
        (o : Option WebhookEvent)
        → find (λ (r : WebhookEvent). r.pk == id) db.events ≡ o
        → Change db.events (after (process_found now o db) db).events
    by_event none e = kept refl
    by_event (some event) e = apply_if_pending-Change now id event db e event.status refl

Effect-Change :
    (ext : Externals) (now : ℕ) (r : Inbox.Request) (db : Db) (x : Response)
    → Effect ext now r db x
    → Change db.events x.2.events
Effect-Change ext now r db x (nothing reply e) = kept refl
Effect-Change ext now r db x (stored order_id event_type signed payload fresh) = appended _ refl

pub act-Change :
    (digests : Digests) (ext : Externals) (a : Action) (j : Journal)
    → IsSafe j
    → Change j.db.events (act digests ext a j).db.events
unfolding act
act-Change digests ext (checkout r) j s = kept (
    place_order-events digests r.env r.user (scoped_idempotency_key digests r.user r.raw_key)
      r.items j r.owner)
act-Change digests ext (deliver now r) j s =
    Effect-Change ext now r j.db _ (saleor_webhook_view-Effect ext now r j.db s.valid).0
act-Change digests ext (task now event_id) j s = task-Change now event_id j.db
act-Change digests ext (reconciliation now cutoff fix users nodes) j s =
    kept (reconcile-events now users cutoff fix nodes j.db)
