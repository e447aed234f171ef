-- ===== src/Payments/Tasks/Outcome.antt =====
-- What the status that `process_webhook_event` (Eve/payments/tasks.py) returns says.
use django_app_eve.Prelude.{
  ℕ, ◌≡◌, ◌≢◌, refl, ◌∙◌, inl, inr, ap, false, Bool-cases, Option, none, some, find,
  find-update_where, arith, str_eq, eq_iff, ◌==◌,
}
use django_app_eve.Payments.Models.{
  Status, value, can_transition_to, Order, EventStatus, processed, ignored, rejected, WebhookEvent,
}
use django_app_eve.Payments.Db.{Db}
use django_app_eve.Payments.Tasks.{
  event_to_status, save_event, save_status, settle, apply_status, apply_event, apply_if_pending,
  process_found, process_webhook_event,
}

abbrev order_of : WebhookEvent → Db → Option Order
order_of event db = find (λ (o : Order). str_eq o.saleor_order_id event.saleor_order_id) db.orders

-- The order named by the event has the status that the event's type asks for.
abbrev pub Applied : WebhookEvent → Db → Type 0
Applied event db =
    (s : Status) × (o : Order) × (event_to_status event.event_type ≡ some s)
    × (find (λ (o : Order). str_eq o.saleor_order_id event.saleor_order_id) db.orders ≡ some o)
    × (o.status ≡ value s)

-- The event asks for a known status of an order that is not in the table.
abbrev pub IsOrphan : WebhookEvent → Db → Type 0
IsOrphan event db =
    (s : Status) × (event_to_status event.event_type ≡ some s)
    × (find (λ (o : Order). str_eq o.saleor_order_id event.saleor_order_id) db.orders ≡ none)

-- The event asks for a status that its order neither has nor may move to.
abbrev pub IsForbidden : WebhookEvent → Db → Type 0
IsForbidden event db =
    (s : Status) × (o : Order) × (event_to_status event.event_type ≡ some s)
    × (find (λ (o : Order). str_eq o.saleor_order_id event.saleor_order_id) db.orders ≡ some o)
    × (o.status ≢ value s)
    × (can_transition_to o (value s) ≡ false)

-- The meaning of a returned status, for an event that was pending.
abbrev pub Outcome : WebhookEvent → Db → EventStatus × Db → Type 0
Outcome event db (processed, db') = Applied event db'
Outcome event db (ignored, db') = event_to_status event.event_type ≡ none
Outcome event db (rejected, db') = IsForbidden event db × (db'.orders ≡ db.orders)
Outcome event db (EventStatus.pending, db') = IsOrphan event db × (db'.orders ≡ db.orders)

module _ (now : ℕ) (event : WebhookEvent) (db : Db) where
  settle-Outcome :
      (s : Status) (o : Order)
      → event_to_status event.event_type ≡ some s
      → order_of event db ≡ some o
      → Outcome event db (settle now event s o db)
  unfolding settle save_event save_status
  settle-Outcome s o known found = elim (Bool-cases (str_eq o.status (value s))) [
    | inl e ↦ rw e (s, o, known, found, (eq_iff o.status (value s)).0 e)
    | inr ne ↦ elim (Bool-cases (can_transition_to o (value s))) [
      | inl may ↦
          rw (ne, may)
            (
              s,
              record o { status = value s },
              known,
              find-update_where _ _ _ db.orders (λ a e. refl) ∙ rw found (ground arith),
              refl,
            )
      | inr not ↦
          rw (ne, not)
            ((s, o, known, found, (λ q. cc ((eq_iff o.status (value s)).1 q, ne)), not), refl)
    ]
  ]

  apply_status-Outcome :
      (s : Status) (o : Option Order)
      → event_to_status event.event_type ≡ some s
      → order_of event db ≡ o
      → Outcome event db (apply_status now event s o db)
  unfolding apply_status save_event
  apply_status-Outcome s none known found = ((s, known, found), refl)
  apply_status-Outcome s (some o) known found = settle-Outcome s o known found

  apply_event-Outcome :
      (s : Option Status)
      → event_to_status event.event_type ≡ s
      → Outcome event db (apply_event now event s db)
  unfolding apply_event
  apply_event-Outcome none known = known
  apply_event-Outcome (some s) known = apply_status-Outcome s (order_of event db) known refl

-- A run over a pending event ends in one of four ways. `processed`: the order that the event names
-- now has the status that its type asks for. `ignored`: its type asks for none. `rejected`: the
-- order neither has that status nor may move to it, and no order changed. `pending`: there is no
-- such order, and none changed.
pub process_webhook_event-Outcome :
    (now event_id : ℕ) (db : Db) (event : WebhookEvent)
    → find (λ (e : WebhookEvent). e.pk == event_id) db.events ≡ some event
    → event.status ≡ EventStatus.pending
    → (r : EventStatus × Db) × (process_webhook_event now event_id db ≡ some r) × Outcome event db r
unfolding process_webhook_event process_found apply_if_pending
process_webhook_event-Outcome now event_id db event found pending =
    let s = event_to_status event.event_type in
    (
      apply_event now event s db,
      rw found (
          ap {B = Option (EventStatus × Db)} (λ st. some (apply_if_pending now event st db))
            pending),
      apply_event-Outcome now event db s refl,
    )
