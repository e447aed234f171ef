-- ===== src/Payments/Tasks.antt =====
-- Eve/payments/tasks.py: the Celery tasks that apply the webhook inbox to the orders.
-- A task is a function of the time, its argument and the tables. It runs in one transaction that
-- locks the rows it reads, so a run is one step; an exception (`none`) rolls everything back.
pub mod Once
pub mod Moves
pub mod Walks
pub mod Outcome
pub mod Recovery
pub mod Steps
pub mod Settling
use django_app_eve.Prelude.{
  ℕ, ◌+◌, String, Bool, true, false, Option, none, some, List, [], ◌∷◌, find, update_where, select,
  take, map, order_by, str_eq, ◌==◌, if◌then◌else◌,
}
use django_app_eve.Payments.Models.{
  Status, paid, refunded, cancelled, value, can_transition_to, Order, EventStatus, processed,
  ignored, rejected, WebhookEvent,
}
use django_app_eve.Payments.Db.{Db}

-- `EVENT_TO_STATUS.get(event_type)`
unfoldable pub event_to_status : String → Option Status
event_to_status t =
    if str_eq t "OrderFullyPaid"
    then some paid
    else if str_eq t "OrderRefunded"
    then some refunded
    else if str_eq t "OrderFullyRefunded"
    then some refunded
    else if str_eq t "OrderCancelled"
    then some cancelled
    else none

-- `event.save(update_fields=…)`: `f` writes the named fields of the row.
unfoldable pub save_event : WebhookEvent → (WebhookEvent → WebhookEvent) → Db → Db
save_event event f db = record db { events = update_where (λ r. r.pk == event.pk) f db.events }

-- `order.save(update_fields=["status", …])`
unfoldable pub save_status : Order → Status → Db → Db
save_status order new_status db = record db {
  orders =
      update_where (λ r. r.pk == order.pk) (λ r. record r { status = value new_status }) db.orders;
}

-- The last lines of the transaction: the event is marked as processed.
unfoldable pub mark_processed : ℕ → WebhookEvent → WebhookEvent → WebhookEvent
mark_processed now event r = record r {
  attempts = event.attempts + 1;
  status = processed;
  processed_at = some now;
}

unfoldable pub mark_ignored : ℕ → WebhookEvent → WebhookEvent → WebhookEvent
mark_ignored now event r = record r {
  attempts = event.attempts + 1;
  status = ignored;
  processed_at = some now;
}

unfoldable pub mark_rejected : ℕ → WebhookEvent → WebhookEvent → WebhookEvent
mark_rejected now event r = record r {
  attempts = event.attempts + 1;
  status = rejected;
  last_error = "invalid_transition";
  processed_at = some now;
}

unfoldable pub mark_unknown_order : WebhookEvent → WebhookEvent → WebhookEvent
mark_unknown_order event r = record r {
  attempts = event.attempts + 1;
  last_error = "unknown_order";
}

-- The branch with a known status and the order found by its Saleor id.
unfoldable pub settle : ℕ → WebhookEvent → Status → Order → Db → EventStatus × Db
settle now event new_status order db =
    if str_eq order.status (value new_status)
    then (processed, save_event event (mark_processed now event) db)
    else if can_transition_to order (value new_status)
    then (processed, save_event event (mark_processed now event) (save_status order new_status db))
    else (rejected, save_event event (mark_rejected now event) db)

unfoldable pub apply_status : ℕ → WebhookEvent → Status → Option Order → Db → EventStatus × Db
apply_status now event new_status none db =
    (EventStatus.pending, save_event event (mark_unknown_order event) db)
apply_status now event new_status (some order) db = settle now event new_status order db

unfoldable pub apply_event : ℕ → WebhookEvent → Option Status → Db → EventStatus × Db
apply_event now event none db = (ignored, save_event event (mark_ignored now event) db)
apply_event now event (some new_status) db =
    apply_status now event new_status
      (find (λ (o : Order). str_eq o.saleor_order_id event.saleor_order_id) db.orders) db

-- Only a pending event is applied.
unfoldable pub apply_if_pending : ℕ → WebhookEvent → EventStatus → Db → EventStatus × Db
apply_if_pending now event EventStatus.pending db =
    apply_event now event (event_to_status event.event_type) db
apply_if_pending now event status db = (status, db)

unfoldable pub process_found : ℕ → Option WebhookEvent → Db → Option (EventStatus × Db)
process_found now none db = none
process_found now (some event) db = some (apply_if_pending now event event.status db)

-- `none` is `WebhookEvent.DoesNotExist`, raised by the `get`.
unfoldable pub process_webhook_event : ℕ → ℕ → Db → Option (EventStatus × Db)
process_webhook_event now event_id db =
    process_found now (find (λ (e : WebhookEvent). e.pk == event_id) db.events) db

-- A worker that runs the tasks of a queue; a task that raises changes nothing.
unfoldable pub after : Option (EventStatus × Db) → Db → Db
after none db = db
after (some (status, db')) db = db'

unfoldable pub run_tasks : List (ℕ × ℕ) → Db → Db
run_tasks [] db = db
run_tasks ((now, event_id) ∷ rest) db =
    run_tasks rest (after (process_webhook_event now event_id db) db)

-- The ids that `recover_pending_webhooks` hands to `process_webhook_event.delay`, in order.
abbrev pub is_pending : EventStatus → Bool
is_pending EventStatus.pending = true
is_pending _ = false

unfoldable pub recover_pending_webhooks : ℕ → Db → List ℕ
recover_pending_webhooks batch_size db = take batch_size (
    map (λ (e : WebhookEvent). e.pk)
      (order_by (λ (e : WebhookEvent). e.received_at)
        (select (λ (e : WebhookEvent). is_pending e.status) db.events)))
