-- ===== src/Payments/Tasks/Recovery.antt =====
-- The periodic `recover_pending_webhooks` of Eve/payments/tasks.py.
use django_app_eve.Prelude.{
  ℕ, min, ◌≡◌, true, some, length, count, All, All-select, All-mono, All-order_by, All-map,
  All-take, length-select, length-order_by, length-map, length-take, find, ◌==◌, ==_iff, arith, ◌∙◌,
  ap,
}
use django_app_eve.Prelude.Unique.{find_self}
use django_app_eve.Payments.Models.{EventStatus, WebhookEvent}
use django_app_eve.Payments.Db.{Db, IsValid}
use django_app_eve.Payments.Tasks.{is_pending, recover_pending_webhooks}

-- The queue holds as many ids as there are pending events, or the batch size where that is smaller.
pub length-recover_pending_webhooks :
    (batch_size : ℕ) (db : Db)
    → length (recover_pending_webhooks batch_size db)
      ≡ min batch_size (count (λ (e : WebhookEvent). is_pending e.status) db.events)
unfolding recover_pending_webhooks
length-recover_pending_webhooks batch_size db =
    length-take batch_size _
    ∙ ap (min batch_size) (length-map _ _ ∙ length-order_by _ _ ∙ length-select _ db.events)

is_pending_sound : (s : EventStatus) → is_pending s ≡ true → s ≡ EventStatus.pending
is_pending_sound s h = ground arith

-- Each id of the queue is the primary key of a row of the inbox that is still pending.
pub recover_pending_webhooks-pending :
    (batch_size : ℕ) (db : Db)
    → IsValid db
    → All
        (λ id.
          (e : WebhookEvent) × (find (λ (r : WebhookEvent). r.pk == id) db.events ≡ some e)
          × (e.status ≡ EventStatus.pending))
        (recover_pending_webhooks batch_size db)
unfolding recover_pending_webhooks
recover_pending_webhooks-pending batch_size db valid = All-take _ batch_size _ (
    All-map _ _ _ (
      All-order_by _ _ _ (
        All-mono _ _ _ (λ e h. (e, h.0, is_pending_sound e.status h.1))
          (All-select _ _ db.events
            (find_self (λ (r : WebhookEvent). r.pk) ◌==◌ ==_iff db.events valid.event_pk)))))
