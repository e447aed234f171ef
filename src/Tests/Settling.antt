-- ===== src/Tests/Settling.antt =====
-- The recovery of the inbox, the retention pass and the erasure of a user, at small tables.
use django_app_eve.Prelude.{
  ℕ, String, ◌≡◌, refl, true, false, none, some, [], ◌∷◌, find, select, update_where, order_by,
  ◌==◌, str_eq, arith,
}
use django_app_eve.Payments.Models.{
  value, can_transition_to, may_move, parse_status, allowed, Order, EventStatus, WebhookEvent,
}
use django_app_eve.Payments.Db.{Db}
use django_app_eve.Payments.Tasks.{
  event_to_status, save_event, save_status, mark_processed, mark_unknown_order, settle,
  apply_status, apply_event, apply_if_pending, process_found, process_webhook_event, after,
  run_tasks, recover_pending_webhooks,
}
use django_app_eve.Payments.Tasks.Outcome.{IsOrphan}
use django_app_eve.Payments.Tasks.Settling.{at_times, recover_pending_webhooks-settles}
use django_app_eve.Accounts.Privacy.{
  Account, Records, command_error, user_named, purge_user, export_user,
}
use django_app_eve.Accounts.Privacy.Erasure.{Erased, purge_user-Erased}
use django_app_eve.Core.Retention.{Settings, Held, purge_expired_data}
use django_app_eve.Core.Retention.Keeps.{Retained, purge_expired_data-Retained}

abbrev order : Order
order = record {
  pk = 1;
  user = 7;
  saleor_order_id = "T1";
  saleor_checkout_id = "c1";
  idempotency_key = some "k1";
  total_amount = "12.00";
  currency = "EUR";
  status = "pending";
}

abbrev event : ℕ → String → String → WebhookEvent
event pk kind order_id = record {
  pk = pk;
  fingerprint = kind;
  event_type = kind;
  saleor_order_id = order_id;
  payload = (kind, order_id);
  status = EventStatus.pending;
  attempts = 0;
  last_error = "";
  received_at = 100;
  processed_at = none;
}

-- A payment of the order, and one of an order that is not there.
abbrev db : Db
db = record {
  orders = order ∷ [];
  attempts = [];
  events = event 2 "OrderFullyPaid" "T1" ∷ event 3 "OrderCancelled" "T2" ∷ [];
  next_pk = 4;
}

abbrev waiting : WebhookEvent
waiting = record (event 3 "OrderCancelled" "T2") { attempts = 1; last_error = "unknown_order" }

abbrev settled_db : Db
settled_db = run_tasks (at_times (λ id. 500) (recover_pending_webhooks 100 db)) db

waits : find (λ (e : WebhookEvent). e.pk == 3) settled_db.events ≡ some waiting
unfolding recover_pending_webhooks run_tasks after process_webhook_event process_found
    apply_if_pending apply_event apply_status settle event_to_status save_event mark_unknown_order
    find update_where select order_by value can_transition_to may_move parse_status allowed
    save_status mark_processed
waits = refl

recover_pending_webhooks-settles_example : IsOrphan waiting settled_db
recover_pending_webhooks-settles_example =
    recover_pending_webhooks-settles (λ id. 500) 100 3 db waiting (omega arith) waits refl

abbrev account : ℕ → String → Account
account pk name = record {
  pk = pk;
  username = name;
  email = "a@example.org";
  date_joined = 3;
  last_login = none;
}

abbrev records : Records
records = record {
  accounts = account 7 "ann" ∷ [];
  profiles =
      record {
        user = 7;
        email_verified = true;
        is_long_term_patient = false;
        hospital_name = "";
        room_number = "";
        preferred_vr_mode = "";
      }
      ∷ [];
  orders = order ∷ [];
  attempts = [];
  tokens = [];
  messages = [];
  log = [];
  carts = [];
}

purge_user-Erased_example :
    let s' = (purge_user true "ann" "op" 90 records).1 in
    Erased (account 7 "ann") "op" 90 records s'
    × ((who : String) (later : ℕ)
        → (export_user str_eq "ann" who later s' ≡ (command_error, s'))
          × (purge_user true "ann" who later s' ≡ (command_error, s')))
unfolding user_named find
purge_user-Erased_example =
    purge_user-Erased str_eq "ann" "op" 90 (account 7 "ann") records (tt, tt) named
  where
    named : user_named "ann" records ≡ some (account 7 "ann")
    named = refl

abbrev held : Held
held = record {
  messages = record { name = "n"; email = "e"; subject = "s"; message = "m"; created_at = 5 } ∷ [];
  carts = [];
  db = db;
}

abbrev settings : Settings
settings = record { contact_message_days = 365; abandoned_cart_days = 365; webhook_event_days = 90 }

purge_expired_data-Retained_example :
    let r = purge_expired_data settings 40000000 held in
    Retained settings 40000000 held r.1 r.0
    × (recover_pending_webhooks 100 r.1.db ≡ recover_pending_webhooks 100 held.db)
    × ((purge_expired_data settings 40000000 r.1).1 ≡ r.1)
purge_expired_data-Retained_example = purge_expired_data-Retained settings 40000000 100 held
