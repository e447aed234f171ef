-- ===== src/Payments/Tasks/Once.antt =====
-- Delivering an event again (`process_webhook_event` of Eve/payments/tasks.py).
use mathlib.Core.Option.{some-injective}
use mathlib.Core.Path.{subst}
use django_app_eve.Prelude.{
  ℕ, ◌≡◌, ◌≢◌, refl, sym, ◌∙◌, ◌⊎◌, inl, inr, ap, Bool, Option, none, some, Option-cases, find,
  find-update_where, arith, str_eq, ◌==◌, if-both,
}
use django_app_eve.Payments.Models.{
  Status, value, can_transition_to, Order, EventStatus, processed, ignored, rejected, WebhookEvent,
}
use django_app_eve.Payments.Db.{Db}
use django_app_eve.Payments.Tasks.{
  event_to_status, save_event, save_status, mark_processed, mark_ignored, mark_rejected, settle,
  apply_status, apply_event, apply_if_pending, process_found, process_webhook_event,
}

abbrev pub has_pk : ℕ → WebhookEvent → Bool
has_pk id e = e.pk == id

-- The row of the inbox reads back the returned status, unless that is `pending`.
abbrev Recorded : ℕ → EventStatus × Db → Type 0
Recorded id r =
    (r.0 ≡ EventStatus.pending)
    ⊎ ((e : WebhookEvent) × (find (has_pk id) r.1.events ≡ some e) × (e.status ≡ r.0))

module _ (id : ℕ) (event : WebhookEvent) where
  find-save_event :
      (f : WebhookEvent → WebhookEvent) (db : Db)
      → ((r : WebhookEvent) → (f r).pk ≡ r.pk)
      → find (has_pk id) db.events ≡ some event
      → find (has_pk id) (save_event event f db).events ≡ some (f event)
  unfolding save_event
  find-save_event f db same found =
      find-update_where (has_pk id) (λ r. r.pk == event.pk) f db.events (λ a e. rw (same a))
      ∙ rw found (ground arith)

  module _ (now : ℕ) (db : Db) (found : find (has_pk id) db.events ≡ some event) where
    settle-Recorded :
        (new_status : Status) (order : Order) → Recorded id (settle now event new_status order db)
    unfolding settle mark_processed mark_rejected save_status
    settle-Recorded new_status order =
        if-both (Recorded id) (str_eq order.status (value new_status)) _ _
          (λ e. inr (_, find-save_event (mark_processed now event) db (λ r. refl) found, refl))
          (λ e.
            if-both (Recorded id) (can_transition_to order (value new_status)) _ _
              (λ e. inr (
                _,
                find-save_event (mark_processed now event) (save_status order new_status db)
                    (λ r. refl) found,
                refl,
              ))
              (λ e. inr (_, find-save_event (mark_rejected now event) db (λ r. refl) found, refl)))

    apply_status-Recorded :
        (new_status : Status) (order : Option Order)
        → Recorded id (apply_status now event new_status order db)
    unfolding apply_status
    apply_status-Recorded new_status none = inl refl
    apply_status-Recorded new_status (some order) = settle-Recorded new_status order

    apply_event-Recorded :
        (new_status : Option Status) → Recorded id (apply_event now event new_status db)
    unfolding apply_event mark_ignored
    apply_event-Recorded none =
        inr (_, find-save_event (mark_ignored now event) db (λ r. refl) found, refl)
    apply_event-Recorded (some new_status) =
        apply_status-Recorded new_status
          (find (λ (o : Order). str_eq o.saleor_order_id event.saleor_order_id) db.orders)

    apply_if_pending-Recorded :
        (status : EventStatus)
        → event.status ≡ status
        → Recorded id (apply_if_pending now event status db)
    unfolding apply_if_pending
    apply_if_pending-Recorded EventStatus.pending e =
        apply_event-Recorded (event_to_status event.event_type)
    apply_if_pending-Recorded processed e = inr (event, found, e)
    apply_if_pending-Recorded ignored e = inr (event, found, e)
    apply_if_pending-Recorded rejected e = inr (event, found, e)

not_pending :
    (now : ℕ) (e : WebhookEvent) (st : EventStatus) (db : Db)
    → st ≢ EventStatus.pending
    → apply_if_pending now e st db ≡ (st, db)
unfolding apply_if_pending
not_pending now e EventStatus.pending db h = absurd (h refl)
not_pending now e processed db h = refl
not_pending now e ignored db h = refl
not_pending now e rejected db h = refl

-- The row of an event whose run returned a status other than `pending` reads back that status.
pub process_webhook_event-recorded :
    (now event_id : ℕ) (db db' : Db) (status : EventStatus)
    → process_webhook_event now event_id db ≡ some (status, db')
    → status ≢ EventStatus.pending
    → (e : WebhookEvent) × (find (has_pk event_id) db'.events ≡ some e) × (e.status ≡ status)
unfolding process_webhook_event process_found
process_webhook_event-recorded now event_id db db' status ran settled =
    elim (Option-cases (find (has_pk event_id) db.events)) [
      | inl e ↦ cc (rw e at ran)
      | inr (event, e) ↦ unless_pending (
          subst (Recorded event_id) (some-injective _ _ (rw e at ran))
            (apply_if_pending-Recorded event_id event now db e event.status refl))
    ]
  where
    unless_pending :
        Recorded event_id (status, db')
        → (e : WebhookEvent) × (find (has_pk event_id) db'.events ≡ some e) × (e.status ≡ status)
    unless_pending (inl p) = absurd (settled p)
    unless_pending (inr row) = row

-- A run for such a row returns its status again, and changes no table.
pub process_webhook_event-again :
    (later event_id : ℕ) (db : Db) (status : EventStatus) (row : WebhookEvent)
    → find (has_pk event_id) db.events ≡ some row
    → row.status ≡ status
    → status ≢ EventStatus.pending
    → process_webhook_event later event_id db ≡ some (status, db)
unfolding process_webhook_event process_found
process_webhook_event-again later event_id db status row found q settled = rw found (
    ap {B = Option (EventStatus × Db)} some (
      subst (λ st. apply_if_pending later row row.status db ≡ (st, db)) q
        (not_pending later row row.status db (λ z. settled (sym q ∙ z)))))
