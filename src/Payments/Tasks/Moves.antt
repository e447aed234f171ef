-- ===== src/Payments/Tasks/Moves.antt =====
-- What the webhook tasks of Eve/payments/tasks.py may do to the orders.
use mathlib.Core.Option.{some-injective}
use mathlib.Core.Path.{subst}
use django_app_eve.Prelude.{
  ℕ, ◌≡◌, refl, sym, ◌∙◌, ◌⊎◌, inl, inr, ap, String, Bool, true, Option, none, some, find,
  All-update_where, Pointwise, Pointwise-refl, arith, str_eq, ◌==◌, ==_iff, if-both,
}
use django_app_eve.Prelude.Unique.{Unique-update_where, Pointwise-update_found}
use django_app_eve.Payments.Models.{
  Status, parse_status, paid, refunded, cancelled, value, can_transition_to, Order, EventStatus,
  processed, ignored, rejected, WebhookEvent,
}
use django_app_eve.Payments.Models.Transitions.{Edge, parse_status-value, can_transition_to_iff}
use django_app_eve.Payments.Db.{Db, IsValid}
use django_app_eve.Payments.Tasks.{
  event_to_status, save_event, save_status, mark_processed, mark_ignored, mark_rejected,
  mark_unknown_order, settle, apply_status, apply_event, apply_if_pending, process_found,
  process_webhook_event, after,
}

-- The statuses that a webhook may ask for.
pub data IsTarget : Status → Type 0 where
  paid_target : IsTarget paid
  refunded_target : IsTarget refunded
  cancelled_target : IsTarget cancelled

event_to_status-IsTarget : (t : String) (s : Status) → event_to_status t ≡ some s → IsTarget s
unfolding event_to_status
event_to_status-IsTarget t s h = grind (arith, paid_target, refunded_target, cancelled_target)

-- An order before and after a task: untouched, or moved along one edge of the diagram, to a status
-- that a webhook may ask for, with no other column changed.
abbrev pub Moved : Order → Order → Type 0
Moved o o' =
    (o' ≡ o)
    ⊎ ((a : Status) × (b : Status) × (o.status ≡ value a)
        × (o' ≡ record o { status = value b })
        × Edge a b
        × IsTarget b)

pub value-injective : (a b : Status) → value a ≡ value b → a ≡ b
value-injective a b h =
    some-injective a b (sym (parse_status-value a) ∙ ap parse_status h ∙ parse_status-value b)

module _ (db : Db) (valid : IsValid db) where
  save_event-IsValid :
      (event : WebhookEvent) (f : WebhookEvent → WebhookEvent)
      → ((r : WebhookEvent) → (f r).pk ≡ r.pk)
      → ((r : WebhookEvent) → (f r).fingerprint ≡ r.fingerprint)
      → IsValid (save_event event f db)
  unfolding save_event
  save_event-IsValid event f same same' = record {
    order_pk = valid.order_pk;
    order_saleor_id = valid.order_saleor_id;
    order_below = valid.order_below;
    attempt_pk = valid.attempt_pk;
    attempt_key = valid.attempt_key;
    attempt_below = valid.attempt_below;
    event_pk = Unique-update_where _ _ f db.events same valid.event_pk;
    event_fingerprint = Unique-update_where _ _ f db.events same' valid.event_fingerprint;
    event_below = All-update_where _ _ f db.events (λ a e h. rw (same a) h) valid.event_below;
  }

  save_status-IsValid : (order : Order) (s : Status) → IsValid (save_status order s db)
  unfolding save_status
  save_status-IsValid order s = record {
    order_pk = Unique-update_where _ _ _ db.orders (λ a. refl) valid.order_pk;
    order_saleor_id = Unique-update_where _ _ _ db.orders (λ a. refl) valid.order_saleor_id;
    order_below = All-update_where _ _ _ db.orders (λ a e h. h) valid.order_below;
    attempt_pk = valid.attempt_pk;
    attempt_key = valid.attempt_key;
    attempt_below = valid.attempt_below;
    event_pk = valid.event_pk;
    event_fingerprint = valid.event_fingerprint;
    event_below = valid.event_below;
  }

  save_status-Moved :
      (q : Order → Bool) (order : Order) (s : Status)
      → find q db.orders ≡ some order
      → can_transition_to order (value s) ≡ true
      → IsTarget s
      → Pointwise Moved db.orders (save_status order s db).orders
  unfolding save_status
  save_status-Moved q order s found may target =
      let (a, b, p, r, e) = (can_transition_to_iff order (value s)).0 may in
      Pointwise-update_found (λ (o : Order). o.pk) ◌==◌ ==_iff Moved q _ db.orders order
        (λ o. inl refl) valid.order_pk found
        (inr (a, s, p, refl, subst (Edge a) (sym (value-injective s b r)) e, target))

-- What every branch of a task keeps: the constraints, and orders that only move as described.
record Kept (db : Db) (r : EventStatus × Db) : Type 0 where
  valid : IsValid r.1
  moved : Pointwise Moved db.orders r.1.orders

module _ (now : ℕ) (event : WebhookEvent) (db : Db) (valid : IsValid db) where
  unmoved : Pointwise Moved db.orders db.orders
  unmoved = Pointwise-refl Moved (λ o. inl refl) db.orders

  settle-Kept :
      (s : Status) (q : Order → Bool) (order : Order)
      → find q db.orders ≡ some order
      → IsTarget s
      → Kept db (settle now event s order db)
  unfolding settle save_event mark_processed mark_rejected
  settle-Kept s q order found target =
      if-both (Kept db) (str_eq order.status (value s)) _ _
        (λ e. record {
          valid =
              save_event-IsValid db valid event (mark_processed now event) (λ r. refl) (λ r. refl);
          moved = unmoved;
        })
        (λ e.
          if-both (Kept db) (can_transition_to order (value s)) _ _
            (λ may. record {
              valid =
                  save_event-IsValid (save_status order s db) (save_status-IsValid db valid order s)
                    event (mark_processed now event) (λ r. refl) (λ r. refl);
              moved = save_status-Moved db valid q order s found may target;
            })
            (λ may. record {
              valid =
                  save_event-IsValid db valid event (mark_rejected now event) (λ r. refl)
                    (λ r. refl);
              moved = unmoved;
            }))

  apply_status-Kept :
      (s : Status) (q : Order → Bool) (order : Option Order)
      → find q db.orders ≡ order
      → IsTarget s
      → Kept db (apply_status now event s order db)
  unfolding apply_status save_event mark_unknown_order
  apply_status-Kept s q none found target = record {
    valid = save_event-IsValid db valid event (mark_unknown_order event) (λ r. refl) (λ r. refl);
    moved = unmoved;
  }
  apply_status-Kept s q (some order) found target = settle-Kept s q order found target

  apply_event-Kept :
      (o : Option Status)
      → ((s : Status) → o ≡ some s → IsTarget s)
      → Kept db (apply_event now event o db)
  unfolding apply_event save_event mark_ignored
  apply_event-Kept none target = record {
    valid = save_event-IsValid db valid event (mark_ignored now event) (λ r. refl) (λ r. refl);
    moved = unmoved;
  }
  apply_event-Kept (some s) target = apply_status-Kept s _ _ refl (target s refl)

  apply_if_pending-Kept : (st : EventStatus) → Kept db (apply_if_pending now event st db)
  unfolding apply_if_pending
  apply_if_pending-Kept EventStatus.pending =
      apply_event-Kept (event_to_status event.event_type)
        (event_to_status-IsTarget event.event_type)
  apply_if_pending-Kept processed = record { valid = valid; moved = unmoved }
  apply_if_pending-Kept ignored = record { valid = valid; moved = unmoved }
  apply_if_pending-Kept rejected = record { valid = valid; moved = unmoved }

-- A task keeps every constraint of the tables, and whatever the event, each order is left as it was
-- or makes one move of the diagram, to paid, refunded or cancelled.
pub process_webhook_event-Moved :
    (now event_id : ℕ) (db : Db)
    → IsValid db
    → IsValid (after (process_webhook_event now event_id db) db)
      × Pointwise Moved db.orders (after (process_webhook_event now event_id db) db).orders
unfolding after process_found process_webhook_event
process_webhook_event-Moved now event_id db valid =
    found (find (λ (e : WebhookEvent). e.pk == event_id) db.events)
  where
    found :
        (o : Option WebhookEvent)
        → IsValid (after (process_found now o db) db)
          × Pointwise Moved db.orders (after (process_found now o db) db).orders
    found none = (valid, Pointwise-refl Moved (λ o. inl refl) db.orders)
    found (some e) = let k = apply_if_pending-Kept now e db valid e.status in (k.valid, k.moved)
