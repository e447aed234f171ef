-- ===== src/Payments/Db.antt =====
-- The tables of the payments app as one value (Eve/payments/models.py), with the constraints which
-- PostgreSQL keeps on them: primary keys and the columns declared `unique=True`.
use django_app_eve.Prelude.{ℕ, ◌<◌, List, All}
use django_app_eve.Prelude.Unique.{Unique}
use django_app_eve.Payments.Models.{Order, CheckoutAttempt, WebhookEvent}

-- `next_pk` is above every primary key that was handed out.
pub record Db : Type 0 where
  pub orders : List Order
  pub attempts : List CheckoutAttempt
  pub events : List WebhookEvent
  pub next_pk : ℕ

pub record IsValid (db : Db) : Type 0 where
  pub order_pk : Unique (λ (o : Order). o.pk) db.orders
  pub order_saleor_id : Unique (λ (o : Order). o.saleor_order_id) db.orders
  pub order_below : All (λ (o : Order). o.pk < db.next_pk) db.orders
  pub attempt_pk : Unique (λ (a : CheckoutAttempt). a.pk) db.attempts
  pub attempt_key : Unique (λ (a : CheckoutAttempt). a.idempotency_key) db.attempts
  pub attempt_below : All (λ (a : CheckoutAttempt). a.pk < db.next_pk) db.attempts
  pub event_pk : Unique (λ (e : WebhookEvent). e.pk) db.events
  pub event_fingerprint : Unique (λ (e : WebhookEvent). e.fingerprint) db.events
  pub event_below : All (λ (e : WebhookEvent). e.pk < db.next_pk) db.events
