-- ===== src/Tests/Payments.antt =====
-- The theorems about orders, webhooks and checkouts, at small tables.
use mathlib.Core.Bool.{false≢true}
use django_app_eve.Prelude.{
  ℕ, String, ◌≡◌, refl, sym, none, some, List, [], ◌∷◌, find, eq_iff, arith,
}
use django_app_eve.Payments.Models.{Order, EventStatus, WebhookEvent}
use django_app_eve.Payments.Db.{Db, IsValid}
use django_app_eve.Payments.Tasks.{process_webhook_event}
use django_app_eve.Payments.Tasks.Outcome.{Outcome, process_webhook_event-Outcome}

abbrev order : Order
order = record {
  pk = 1;
  user = 7;
  saleor_order_id = "T3JkZXI6MQ==";
  saleor_checkout_id = "c1";
  idempotency_key = some "k1";
  total_amount = "12.00";
  currency = "EUR";
  status = "pending";
}

abbrev event : ℕ → String → WebhookEvent
event pk kind = record {
  pk = pk;
  fingerprint = kind;
  event_type = kind;
  saleor_order_id = "T3JkZXI6MQ==";
  payload = (kind, "T3JkZXI6MQ==");
  status = EventStatus.pending;
  attempts = 0;
  last_error = "";
  received_at = 100;
  processed_at = none;
}

-- One pending order, and the events that pay and refund it.
abbrev db : Db
db = record {
  orders = order ∷ [];
  attempts = [];
  events = event 2 "OrderFullyPaid" ∷ event 3 "OrderFullyRefunded" ∷ [];
  next_pk = 4;
}

db-IsValid : IsValid db
db-IsValid = record {
  order_pk = (tt, tt);
  order_saleor_id = (tt, tt);
  order_below = (omega arith, tt);
  attempt_pk = tt;
  attempt_key = tt;
  attempt_below = tt;
  event_pk = (((λ e. omega (arith, e)), tt), (tt, tt));
  event_fingerprint = (((λ e. false≢true ((eq_iff _ _).1 (sym e))), tt), (tt, tt));
  event_below = (omega arith, (omega arith, tt));
}

process_webhook_event-Outcome_example :
    (r : EventStatus × Db) × (process_webhook_event 200 3 db ≡ some r)
    × Outcome (event 3 "OrderFullyRefunded") db r
unfolding find
process_webhook_event-Outcome_example =
    process_webhook_event-Outcome 200 3 db (event 3 "OrderFullyRefunded") refl refl

abbrev queue : List (ℕ × ℕ)
queue = (200, 2) ∷ (201, 3) ∷ (202, 2) ∷ []
