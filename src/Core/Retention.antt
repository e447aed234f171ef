-- ===== src/Core/Retention.antt =====
-- Eve/core/management/commands/purge_expired_data.py: the daily deletion of what is past its retention.
pub mod Keeps
use django_app_eve.Prelude.{ℕ, ◌-◌, ◌*◌, Bool, true, false, List, select, count, not, ◌&&◌, ltb}
use django_app_eve.Accounts.Privacy.{ContactMessage}
use django_app_eve.Ecommerce.Cart.{Cart}
use django_app_eve.Payments.Models.{EventStatus, WebhookEvent}
use django_app_eve.Payments.Db.{Db}
use django_app_eve.Payments.Tasks.{is_pending}

-- CONTACT_MESSAGE_RETENTION_DAYS, ABANDONED_CART_RETENTION_DAYS and WEBHOOK_EVENT_RETENTION_DAYS.
pub record Settings : Type 0 where
  pub contact_message_days : ℕ
  pub abandoned_cart_days : ℕ
  pub webhook_event_days : ℕ

pub record Held : Type 0 where
  pub messages : List ContactMessage
  pub carts : List Cart
  pub db : Db

-- `now - timedelta(days=…)`, in seconds.
unfoldable pub cutoff : ℕ → ℕ → ℕ
cutoff now days = now - days * 86400

unfoldable pub expired_message : ℕ → ContactMessage → Bool
expired_message before m = ltb m.created_at before

unfoldable pub expired_cart : ℕ → Cart → Bool
expired_cart before c = ltb c.updated_at before

-- `exclude(status=PENDING).filter(received_at__lt=…)`
unfoldable pub expired_event : ℕ → WebhookEvent → Bool
expired_event before e = not (is_pending e.status) && ltb e.received_at before

-- How many messages, carts and events were deleted, and what is left.
unfoldable pub purge_expired_data : Settings → ℕ → Held → (ℕ × ℕ × ℕ) × Held
unfolding cutoff expired_message expired_cart expired_event
purge_expired_data settings now h =
    let old_message = expired_message (cutoff now settings.contact_message_days) in
    let old_cart = expired_cart (cutoff now settings.abandoned_cart_days) in
    let old_event = expired_event (cutoff now settings.webhook_event_days) in
    (
      (count old_message h.messages, count old_cart h.carts, count old_event h.db.events),
      record {
        messages = select (λ m. not (old_message m)) h.messages;
        carts = select (λ c. not (old_cart c)) h.carts;
        db = record h.db { events = select (λ e. not (old_event e)) h.db.events };
      },
    )
