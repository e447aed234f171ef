-- ===== src/Core/Retention/Keeps.antt =====
-- What a retention pass (Eve/core/management/commands/purge_expired_data.py) leaves.
use django_app_eve.Prelude.{
  ℕ, ◌+◌, ◌≤◌, ◌≡◌, refl, ap, Bool, true, List, [], ◌∷◌, All, All-mono, All-select, All-everything,
  map, take, order_by, select, select-select, select-idempotent, count, length, not, ◌&&◌, ltb,
  arith,
}
use django_app_eve.Accounts.Privacy.{ContactMessage}
use django_app_eve.Ecommerce.Cart.{Cart}
use django_app_eve.Payments.Models.{WebhookEvent}
use django_app_eve.Payments.Tasks.{is_pending, recover_pending_webhooks}
use django_app_eve.Core.Retention.{Settings, Held, cutoff, purge_expired_data}

-- A pass over one table, with the time of each row and whether the row may go at all.
module _ {A : Type 0} (time : A → ℕ) (may_go : A → Bool) (before : ℕ) where
  abbrev pub kept : A → Bool
  kept a = not (may_go a && ltb (time a) before)

  -- What is gone and what stays, by the rows' own columns.
  pub record Pruned (old new : List A) (deleted : ℕ) : Type 0 where
    pub none_expired : All (λ a. may_go a ≡ true → before ≤ time a) new
    pub recent :
        select (λ a. not (ltb (time a) before)) new ≡ select (λ a. not (ltb (time a) before)) old
    pub protected : select (λ a. not (may_go a)) new ≡ select (λ a. not (may_go a)) old
    pub counted : deleted + length new ≡ length old

  pruned_count :
      (l : List A)
      → count (λ a. may_go a && ltb (time a) before) l + length (select kept l) ≡ length l
  unfolding select
  pruned_count [] = refl
  pruned_count (x ∷ l) = ground (arith, pruned_count l)

  select-Pruned :
      (l : List A) → Pruned l (select kept l) (count (λ a. may_go a && ltb (time a) before) l)
  select-Pruned l = record {
    none_expired =
        All-mono _ _ _ (λ a h e. ground (arith, h.1, e))
          (All-select (λ a. Unit {0}) kept l (All-everything l));
    recent = select-select (λ a. not (ltb (time a) before)) kept l (λ a e. ground (arith, e));
    protected = select-select (λ a. not (may_go a)) kept l (λ a e. ground (arith, e));
    counted = pruned_count l;
  }

abbrev pub settled : WebhookEvent → Bool
settled e = not (is_pending e.status)

abbrev pub always : {A : Type 0} → A → Bool
always a = true

-- What a pass at a time does to the three tables.
pub record Retained (settings : Settings) (now : ℕ) (h h' : Held) (n : ℕ × ℕ × ℕ) : Type 0 where
  pub messages :
      Pruned
        (λ (m : ContactMessage). m.created_at)
        always
        (cutoff now settings.contact_message_days)
        h.messages
        h'.messages
        n.0
  pub carts :
      Pruned
        (λ (c : Cart). c.updated_at)
        always
        (cutoff now settings.abandoned_cart_days)
        h.carts
        h'.carts
        n.1
  pub events :
      Pruned
        (λ (e : WebhookEvent). e.received_at)
        settled
        (cutoff now settings.webhook_event_days)
        h.db.events
        h'.db.events
        n.2
  pub orders : h'.db.orders ≡ h.db.orders
  pub attempts : h'.db.attempts ≡ h.db.attempts

-- A retention pass deletes exactly what is past its time: of the contact messages and carts no row
-- before the cutoff is left, of the webhook events none that is settled; every later row is kept,
-- in order, and so is every pending event, however old; the numbers it reports are those of the
-- deleted rows. Orders and checkout attempts stay. The queue of `recover_pending_webhooks` is the
-- same before and after, and a second pass at that time changes nothing.
pub purge_expired_data-Retained :
    (settings : Settings) (now batch_size : ℕ) (h : Held)
    → let r = purge_expired_data settings now h in
      Retained settings now h r.1 r.0
      × (recover_pending_webhooks batch_size r.1.db ≡ recover_pending_webhooks batch_size h.db)
      × ((purge_expired_data settings now r.1).1 ≡ r.1)
unfolding purge_expired_data recover_pending_webhooks
purge_expired_data-Retained settings now batch_size h = (
  record {
    messages =
        select-Pruned (λ (m : ContactMessage). m.created_at) always
          (cutoff now settings.contact_message_days) h.messages;
    carts =
        select-Pruned (λ (c : Cart). c.updated_at) always (cutoff now settings.abandoned_cart_days)
          h.carts;
    events =
        select-Pruned (λ (e : WebhookEvent). e.received_at) settled
          (cutoff now settings.webhook_event_days) h.db.events;
    orders = refl;
    attempts = refl;
  },
  ap
      (λ (l : List WebhookEvent).
        take batch_size
          (map (λ (e : WebhookEvent). e.pk) (order_by (λ (e : WebhookEvent). e.received_at) l)))
      (select-select (λ (e : WebhookEvent). is_pending e.status) _ h.db.events
        (λ e p. ground (arith, p))),
  again,
)
  where
    again :
        (purge_expired_data settings now (purge_expired_data settings now h).1).1
        ≡ (purge_expired_data settings now h).1
    again =
        rw
          (
            select-idempotent _ _ h.messages (λ a e. e),
            select-idempotent _ _ h.carts (λ a e. e),
            select-idempotent _ _ h.db.events (λ a e. e),
          )
          refl
