-- ===== src/Tests/Webhooks.antt =====
-- The theorems about deliveries, reconciliations and the payments app as a whole.
use mathlib.Core.Path.{subst}
use django_app_eve.Prelude.{
  ◌≤◌, String, ◌≡◌, refl, true, false, none, some, List, [], ◌∷◌, find, All,
}
use django_app_eve.Payments.Db.{Db, IsValid}
use django_app_eve.Payments.Checkout.Safe.{completes, IsSafe}
use django_app_eve.Payments.Inbox.{
  absent, Request, Externals, accepted, store_event, get_or_create_event, insert_event,
  valid_payload, is_allowed_event, receive, check_length, saleor_webhook_view,
}
use django_app_eve.Payments.Inbox.Delivery.{Effect, saleor_webhook_view-Effect}
use django_app_eve.Payments.System.Redelivery.{
  process_webhook_event_once, saleor_webhook_view-redelivery,
}
use django_app_eve.Payments.System.Replay.{place_order-replay}
use django_app_eve.Payments.Tasks.Walks.{Walked}
use django_app_eve.Payments.Models.{
  Order, processed, value, can_transition_to, may_move, parse_status, allowed,
}
use django_app_eve.Payments.Rows.{
  Journal, send, save_attempt, insert_order, insert_if_free, new_order,
}
use django_app_eve.Payments.SaleorCheckout.{build_lines, create_checkout, complete_checkout}
use django_app_eve.Payments.Checkout.{
  Outcome, placed, place_order, unless_placed, with_lines, get_or_create_attempt, run_attempt,
  on_created, on_completed, commit_order, insert_attempt,
}
use django_app_eve.Payments.Checkout.AtMostOnce.{place_order-IsSafe}
use django_app_eve.Payments.Tasks.{
  event_to_status, settle, apply_status, apply_event, apply_if_pending, process_found,
  process_webhook_event, after,
}
use django_app_eve.Payments.Reconcile.{User, Node}
use django_app_eve.Payments.System.Served.{IsServed, run_all-IsServed}
use django_app_eve.Payments.System.Grown.{Grown}
use django_app_eve.Payments.System.History.{run_all-Grown}
use django_app_eve.Payments.System.{
  Action, checkout, deliver, task, reconciliation, act, act-IsSafe, run_all, run_all-once,
}
use django_app_eve.Tests.Checkouts.{
  digests, items, answering, silent, empty, empty-IsSafe, made, after_order, orders,
}

-- A body that is its own digest, and says that the order "o1" was paid.
abbrev pub externals : Externals
externals = record {
  sha256 = λ s. s;
  decode = λ s. some (some "o1", some "OrderFullyPaid");
  verify = λ body signature. true;
}

abbrev delivery : Request
delivery = record {
  content_length = absent;
  content_type = "application/json";
  raw_body = "{}";
  body_bytes = 2;
  signature = "a..b";
}

abbrev delivered : Db
delivered = (saleor_webhook_view externals 10 delivery empty.db).2

saleor_webhook_view-Effect_example :
    Effect externals 10 delivery empty.db (saleor_webhook_view externals 10 delivery empty.db)
    × IsValid (saleor_webhook_view externals 10 delivery empty.db).2
saleor_webhook_view-Effect_example =
    saleor_webhook_view-Effect externals 10 delivery empty.db empty-IsSafe.valid

arrives : saleor_webhook_view externals 10 delivery empty.db ≡ (accepted false, some 1, delivered)
unfolding saleor_webhook_view receive check_length store_event get_or_create_event insert_event
    valid_payload is_allowed_event find
arrives = refl

abbrev users : List User
users = record { pk = 7; email = "b@x" } ∷ []

-- Two orders of Saleor: one of the checkout with the key "k1", one that only names an address.
abbrev nodes : List Node
nodes =
    record {
      id = "o1";
      user_email = "";
      idempotency_key = "k1";
      amount = "12.00";
      currency = "EUR";
    }
    ∷ record { id = "o2"; user_email = "b@x"; idempotency_key = ""; amount = "0"; currency = "EUR" }
    ∷ []

-- A checkout whose completion is not answered, a webhook for its order, a reconciliation, the task
-- of the webhook, and the same checkout once more.
abbrev actions : List Action
actions =
    checkout (record { env = silent; user = 7; raw_key = "k1"; items = items; owner = true })
    ∷ deliver 60 delivery
    ∷ reconciliation 100 90 true users nodes
    ∷ task 110 2
    ∷ checkout (record { env = answering; user = 7; raw_key = "k1"; items = items; owner = true })
    ∷ []

-- What comes between a request and its repetition.
abbrev pub between : List Action
between =
    deliver 60 delivery
    ∷ reconciliation 100 90 true users nodes
    ∷ task 110 1
    ∷ task 111 3
    ∷ checkout (record { env = answering; user = 8; raw_key = "k2"; items = items; owner = true })
    ∷ []

place_order-replay_example :
    let j'' = run_all digests externals between after_order in
    (o' : Order) × Walked made o'
    × (place_order digests silent 7 "k1" [] true j'' ≡ (placed o', j''))
place_order-replay_example =
    place_order-replay digests externals between answering silent 7 "k1" items [] empty after_order
      made empty-IsSafe orders

saleor_webhook_view-redelivery_example :
    let t = (run_all digests externals between (record empty { db = delivered })).db in
    saleor_webhook_view externals 99 delivery t ≡ (accepted true, none, t)
saleor_webhook_view-redelivery_example =
    saleor_webhook_view-redelivery digests externals between 10 99 delivery empty delivered (some 1)
      empty-IsSafe arrives

-- The order, and the event that pays it.
abbrev with_event : Journal
with_event = act digests externals (deliver 60 delivery) after_order

with_event-IsSafe : IsSafe with_event
with_event-IsSafe = act-IsSafe digests externals (deliver 60 delivery) after_order (
    subst (λ (r : Outcome × Journal). IsSafe r.1) orders
      (place_order-IsSafe digests answering 7 "k1" items true empty empty-IsSafe))

abbrev paid_db : Db
paid_db = after (process_webhook_event 70 3 with_event.db) with_event.db

pays : process_webhook_event 70 3 with_event.db ≡ some (processed, paid_db)
unfolding process_webhook_event process_found apply_if_pending apply_event apply_status settle after
    find event_to_status can_transition_to value may_move parse_status allowed act
    saleor_webhook_view receive check_length store_event get_or_create_event insert_event
    valid_payload is_allowed_event place_order unless_placed with_lines build_lines
    get_or_create_attempt run_attempt on_created create_checkout on_completed complete_checkout
    commit_order insert_order insert_if_free send save_attempt insert_attempt new_order
pays = refl

process_webhook_event_once_example :
    let t = (run_all digests externals between (record with_event { db = paid_db })).db in
    process_webhook_event 900 3 t ≡ some (processed, t)
process_webhook_event_once_example =
    process_webhook_event_once digests externals between 70 900 3 with_event paid_db processed
      with_event-IsSafe pays (λ e. cc)

run_all-once_example :
    ((k : String) → completes k (run_all digests externals actions empty).calls ≤ 1)
    × IsValid (run_all digests externals actions empty).db
run_all-once_example = run_all-once digests externals actions empty empty-IsSafe

run_all-Grown_example : Grown empty.db.orders (run_all digests externals actions empty).db.orders
run_all-Grown_example = run_all-Grown digests externals actions empty empty-IsSafe

run_all-IsServed_example :
    All
      (IsServed digests externals (run_all digests externals actions empty))
      (run_all digests externals actions empty).db.attempts
run_all-IsServed_example = run_all-IsServed digests externals actions empty empty-IsSafe tt
