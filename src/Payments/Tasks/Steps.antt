-- ===== src/Payments/Tasks/Steps.antt =====
-- What one run of `process_webhook_event` (Eve/payments/tasks.py) does to the rows of the inbox.
use mathlib.Core.Option
use mathlib.Core.Option.{some-injective}
use mathlib.Core.Path.{subst}
use django_app_eve.Prelude.{
  ℕ, ◌≡◌, ◌≢◌, refl, sym, ◌∙◌, ap, ◌⊎◌, inl, inr, String, Option, none, some, Option-cases, false,
  Bool-cases, find, find_sound, find-update_where, ◌==◌, ==_iff, ==_refl, str_eq, if◌then◌else◌,
  if-both,
}
use django_app_eve.Payments.Models.{
  Status, value, can_transition_to, Order, EventStatus, processed, ignored, rejected, WebhookEvent,
}
use django_app_eve.Payments.Db.{Db}
use django_app_eve.Payments.Tasks.{
  event_to_status, save_event, save_status, mark_processed, mark_ignored, mark_rejected,
  mark_unknown_order, settle, apply_status, apply_event, apply_if_pending, process_found,
  process_webhook_event, after,
}
use django_app_eve.Payments.Tasks.Outcome.{IsOrphan}

abbrev pub event_at : ℕ → Db → Option WebhookEvent
event_at id db = find (λ (e : WebhookEvent). e.pk == id) db.events

abbrev order_named : String → Db → Option Order
order_named name db = find (λ (o : Order). str_eq o.saleor_order_id name) db.orders

-- The event with this id, if it still waits, waits for an order that is not in the table.
abbrev pub Resolved : ℕ → Db → Type 0
Resolved id db =
    (e : WebhookEvent) → event_at id db ≡ some e → e.status ≡ EventStatus.pending → IsOrphan e db

-- A step that works on the event `id`.
pub record Step (id : ℕ) (db db' : Db) : Type 0 where
  pub missing : (name : String) → order_named name db ≡ none → order_named name db' ≡ none
  pub others : (j : ℕ) → (j == id) ≡ false → event_at j db' ≡ event_at j db
  pub own : Resolved id db'

-- Other events stay resolved.
pub Step-Resolved : (id j : ℕ) (db db' : Db) → Step id db db' → Resolved j db → Resolved j db'
Step-Resolved id j db db' step r = elim (Bool-cases (j == id)) [
  | inl same ↦ subst (λ k. Resolved k db') (sym ((==_iff j id).0 same)) step.own
  | inr other ↦ λ e found waits.
      let (s, known, absent) = r e (sym (step.others j other) ∙ found) waits in
      (s, known, step.missing e.saleor_order_id absent)
]

-- Nothing happens to an event that does not wait.
idle-Step :
    (id : ℕ) (db : Db)
    → ((e : WebhookEvent) → event_at id db ≡ some e → e.status ≢ EventStatus.pending)
    → Step id db db
idle-Step id db h = record {
  missing = λ name e. e;
  others = λ j e. refl;
  own = λ e found waits. absurd (h e found waits);
}

module _ (event : WebhookEvent) (id : ℕ) (db : Db) (found : event_at id db ≡ some event) where
  own_pk : event.pk ≡ id
  own_pk =
      (==_iff event.pk id).0
        (find_sound (λ (e : WebhookEvent). e.pk == id) db.events {a = event} found)

  -- A write to the row of the event.
  saved :
      (f : WebhookEvent → WebhookEvent)
      → ((e : WebhookEvent) → (f e).pk ≡ e.pk)
      → event_at id (save_event event f db) ≡ some (f event)
  unfolding save_event
  saved f same =
      find-update_where (λ (e : WebhookEvent). e.pk == id) (λ (r : WebhookEvent). r.pk == event.pk)
        f db.events (λ a e. ap (λ k. k == id) (same a))
      ∙ rw found (rw (==_refl event.pk))

  saved_others :
      (f : WebhookEvent → WebhookEvent)
      → ((e : WebhookEvent) → (f e).pk ≡ e.pk)
      → (j : ℕ) → (j == id) ≡ false
      → event_at j (save_event event f db) ≡ event_at j db
  unfolding save_event
  saved_others f same j other =
      find-update_where (λ (e : WebhookEvent). e.pk == j) (λ (r : WebhookEvent). r.pk == event.pk) f
        db.events (λ a e. ap (λ k. k == j) (same a))
      ∙ unchanged (Option-cases (event_at j db))
    where
      unchanged :
          (event_at j db ≡ none) ⊎ ((a : WebhookEvent) × (event_at j db ≡ some a))
          → Option.map (λ (a : WebhookEvent). if a.pk == event.pk then f a else a) (event_at j db)
            ≡ event_at j db
      unchanged (inl e) = rw e
      unchanged (inr (a, e)) =
          let at_j : a.pk ≡ j =
            (==_iff a.pk j).0 (find_sound (λ (r : WebhookEvent). r.pk == j) db.events {a = a} e) in
          rw e (rw (own_pk, at_j, other))

  -- A write that leaves the event settled.
  settled-Step :
      (f : WebhookEvent → WebhookEvent)
      → ((e : WebhookEvent) → (f e).pk ≡ e.pk)
      → (f event).status ≢ EventStatus.pending
      → Step id db (save_event event f db)
  unfolding save_event
  settled-Step f same done = record {
    missing = λ name e. e;
    others = saved_others f same;
    own = λ e at waits. absurd (
        done (
          subst (λ (x : WebhookEvent). x.status ≡ EventStatus.pending)
            (some-injective e (f event) (sym at ∙ saved f same)) waits));
  }

-- A new status of an order moves no order in or out of the table.
status_first :
    (id : ℕ) (order : Order) (s : Status) (db db' : Db)
    → Step id (save_status order s db) db'
    → Step id db db'
unfolding save_status
status_first id order s db db' step = record {
  missing = λ name e. step.missing name (
      find-update_where (λ (o : Order). str_eq o.saleor_order_id name)
        (λ (r : Order). r.pk == order.pk) (λ r. record r { status = value s }) db.orders
        (λ a e. refl)
      ∙ rw e);
  others = step.others;
  own = step.own;
}

module _ (now : ℕ) (event : WebhookEvent) (id : ℕ) where
  settle-Step :
      (s : Status) (order : Order) (db : Db)
      → event_at id db ≡ some event
      → Step id db (settle now event s order db).1
  unfolding settle mark_processed mark_rejected save_status
  settle-Step s order db found =
      if-both Good (str_eq order.status (value s)) _ _
        (λ e. settled-Step event id db found (mark_processed now event) (λ r. refl) (λ q. cc))
        (λ e.
          if-both Good (can_transition_to order (value s)) _ _
            (λ e. status_first id order s db _ (
              settled-Step event id (save_status order s db) found (mark_processed now event)
                (λ r. refl) (λ q. cc)))
            (λ e. settled-Step event id db found (mark_rejected now event) (λ r. refl) (λ q. cc)))
    where
      Good : EventStatus × Db → Type 0
      Good r = Step id db r.1

  apply_status-Step :
      (s : Status) (o : Option Order) (db : Db)
      → event_at id db ≡ some event
      → event_to_status event.event_type ≡ some s
      → order_named event.saleor_order_id db ≡ o
      → Step id db (apply_status now event s o db).1
  unfolding apply_status mark_unknown_order save_event
  apply_status-Step s (some order) db found known named = settle-Step s order db found
  apply_status-Step s none db found known named = record {
    missing = λ name e. e;
    others = saved_others event id db found (mark_unknown_order event) (λ r. refl);
    own = λ e at waits.
        subst (λ (x : WebhookEvent). IsOrphan x (save_event event (mark_unknown_order event) db))
          (some-injective (mark_unknown_order event event) e
            (sym (saved event id db found (mark_unknown_order event) (λ r. refl)) ∙ at))
          (s, known, named);
  }

  apply_event-Step :
      (s : Option Status) (db : Db)
      → event_at id db ≡ some event
      → event_to_status event.event_type ≡ s
      → Step id db (apply_event now event s db).1
  unfolding apply_event mark_ignored
  apply_event-Step none db found known =
      settled-Step event id db found (mark_ignored now event) (λ r. refl) (λ q. cc)
  apply_event-Step (some s) db found known = apply_status-Step s _ db found known refl

  only_row :
      (db : Db) (st : EventStatus)
      → event_at id db ≡ some event
      → event.status ≡ st
      → st ≢ EventStatus.pending
      → Step id db db
  only_row db st found is done = idle-Step id db (λ e at q.
      done (
        sym is ∙ ap (λ (x : WebhookEvent). x.status) (some-injective event e (sym found ∙ at)) ∙ q))

  apply_if_pending-Step :
      (st : EventStatus) (db : Db)
      → event_at id db ≡ some event
      → event.status ≡ st
      → Step id db (apply_if_pending now event st db).1
  unfolding apply_if_pending
  apply_if_pending-Step EventStatus.pending db found is = apply_event-Step _ db found refl
  apply_if_pending-Step processed db found is = only_row db processed found is (λ q. cc)
  apply_if_pending-Step ignored db found is = only_row db ignored found is (λ q. cc)
  apply_if_pending-Step rejected db found is = only_row db rejected found is (λ q. cc)

-- A run of the task, whether it raises or not, is such a step.
pub process-Step : (now id : ℕ) (db : Db) → Step id db (after (process_webhook_event now id db) db)
unfolding process_webhook_event process_found after
process-Step now id db = elim (Option-cases (event_at id db)) [
  | inl e ↦ rw e (idle-Step id db (λ x at q. cc (sym e ∙ at)))
  | inr (event, e) ↦ rw e (apply_if_pending-Step now event id event.status db e refl)
]
