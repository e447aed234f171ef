-- ===== src/Payments/Models.antt =====
-- Eve/payments/models.py: the rows of the three tables, and the state machine of an order.
-- Columns that the program writes and never tests (the creation times, `Order.updated_at`) are
-- left out.
pub mod Transitions
use django_app_eve.Prelude.{
  ℕ, String, Option, none, some, Bool, true, false, List, str_eq, if◌then◌else◌,
}

-- `Order.Status`; the column holds the member's value.
pub data Status : Type 0 where
  pending paid failed refunded cancelled : Status

unfoldable pub value : Status → String
value pending = "pending"
value paid = "paid"
value failed = "failed"
value refunded = "refunded"
value cancelled = "cancelled"

-- `Order.Status(text)`, which raises ValueError for any other text.
unfoldable pub parse_status : String → Option Status
parse_status s =
    if str_eq s "pending"
    then some pending
    else if str_eq s "paid"
    then some paid
    else if str_eq s "failed"
    then some failed
    else if str_eq s "refunded"
    then some refunded
    else if str_eq s "cancelled"
    then some cancelled
    else none

-- Membership in `Order.ALLOWED_TRANSITIONS[from]`.
unfoldable pub allowed : Status → Status → Bool
allowed pending paid = true
allowed pending failed = true
allowed pending cancelled = true
allowed paid refunded = true
allowed paid cancelled = true
allowed failed pending = true
allowed failed cancelled = true
allowed _ _ = false

-- `total_amount` and `currency` are kept as the texts of the upstream's answer.
pub record Order : Type 0 where
  pub pk : ℕ
  pub user : ℕ
  pub saleor_order_id : String
  pub saleor_checkout_id : String
  pub idempotency_key : Option String
  pub total_amount : String
  pub currency : String
  pub status : String

-- The lookup of the table; a text that is no status (the `ValueError`) gives False.
unfoldable pub may_move : Option Status → Option Status → Bool
may_move (some a) (some b) = allowed a b
may_move _ _ = false

unfoldable pub can_transition_to : Order → String → Bool
can_transition_to o new_status = may_move (parse_status o.status) (parse_status new_status)

-- `CheckoutAttempt.State`
pub data AttemptState : Type 0 where
  started checkout_created completing completed failed unknown : AttemptState

pub record CheckoutAttempt : Type 0 where
  pub pk : ℕ
  pub user : ℕ
  pub idempotency_key : String
  pub cart_fingerprint : String
  pub state : AttemptState
  pub saleor_checkout_id : String
  pub saleor_order_id : String
  pub last_error : String
  pub updated_at : ℕ
  pub completed_at : Option ℕ

-- `WebhookEvent.Status`
pub data EventStatus : Type 0 where
  pending processed ignored rejected : EventStatus

pub record WebhookEvent : Type 0 where
  pub pk : ℕ
  pub fingerprint : String
  pub event_type : String
  pub saleor_order_id : String
  -- the stored JSON object: its `__typename`, and the `id` of its `order`
  pub payload : String × String
  pub status : EventStatus
  pub attempts : ℕ
  pub last_error : String
  pub received_at : ℕ
  pub processed_at : Option ℕ
