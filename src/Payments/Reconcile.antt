-- ===== src/Payments/Reconcile.antt =====
-- Eve/payments/management/commands/reconcile_orders.py: the daily comparison of Saleor's recent orders
-- with the table of orders, and the repair of both the orders and the journal of checkouts.
-- The nodes that Saleor answered are an argument; its failure ends the command before any write.
pub mod Keeps
use django_app_eve.Prelude.{
  ℕ, String, Option, none, some, Bool, true, false, List, [], ◌∷◌, ◌&&◌, find, update_where, select,
  count, not, ltb, str_eq, ◌==◌, if◌then◌else◌,
}
use django_app_eve.Payments.Models
use django_app_eve.Payments.Models.{
  value, Order, CheckoutAttempt, AttemptState, started, checkout_created, completing, completed,
  unknown,
}
use django_app_eve.Payments.Db.{Db}
use django_app_eve.Payments.Rows.{has_key, insert_order, mark_completed}

-- A user, with the address in lower case (the lookup is `email__iexact`).
pub record User : Type 0 where
  pub pk : ℕ
  pub email : String

-- An order of the answer that has an id. A missing text counts as the empty one, a missing amount as
-- "0" and a missing currency as "EUR".
pub record Node : Type 0 where
  pub id : String
  pub user_email : String
  pub idempotency_key : String
  pub amount : String
  pub currency : String

unfoldable pub is_known : List Order → Node → Bool
is_known orders n = elim (find (λ (o : Order). str_eq o.saleor_order_id n.id) orders) [
  | none ↦ false
  | some _ ↦ true
]

unfoldable pub missing : List Node → Db → List Node
unfolding is_known
missing nodes db = select (λ n. not (is_known db.orders n)) nodes

-- `state__in=[STARTED, CHECKOUT_CREATED, COMPLETING, UNKNOWN]`
unfoldable pub is_uncertain_state : AttemptState → Bool
is_uncertain_state started = true
is_uncertain_state checkout_created = true
is_uncertain_state completing = true
is_uncertain_state unknown = true
is_uncertain_state _ = false

abbrev pub is_unknown : AttemptState → Bool
is_unknown unknown = true
is_unknown _ = false

unfoldable pub is_uncertain : ℕ → CheckoutAttempt → Bool
is_uncertain cutoff a = is_uncertain_state a.state && ltb a.updated_at cutoff

-- `.update(state=UNKNOWN, last_error=…)`
unfoldable pub mark_unknown : CheckoutAttempt → CheckoutAttempt
mark_unknown a = record a { state = unknown; last_error = "reconciliation_required" }

unfoldable pub mark_uncertain : ℕ → Db → Db
mark_uncertain cutoff db = record db {
  attempts =
      update_where (λ a. is_uncertain cutoff a && not (is_unknown a.state)) mark_unknown
        db.attempts;
}

-- The count that is reported: an attempt that was just marked is unknown, and still counted.
unfoldable pub uncertain_count : ℕ → Db → ℕ
uncertain_count cutoff db = count (is_uncertain cutoff) db.attempts

unfoldable pub attempt_of : Node → Db → Option CheckoutAttempt
attempt_of n db =
    if str_eq n.idempotency_key "" then none else find (has_key n.idempotency_key) db.attempts

abbrev pub pk_of : Option User → Option ℕ
pk_of none = none
pk_of (some u) = some u.pk

unfoldable pub user_of : List User → Node → Option CheckoutAttempt → Option ℕ
user_of users n (some a) = some a.user
user_of users n none =
    if str_eq n.user_email ""
    then none
    else pk_of (find (λ (u : User). str_eq u.email n.user_email) users)

abbrev pub checkout_id_of : Option CheckoutAttempt → String
checkout_id_of none = ""
checkout_id_of (some a) = a.saleor_checkout_id

abbrev pub key_of : Option CheckoutAttempt → Option String
key_of none = none
key_of (some a) = some a.idempotency_key

unfoldable pub recreated_order : ℕ → Node → Option CheckoutAttempt → ℕ → Order
recreated_order user n attempt pk = record {
  pk = pk;
  user = user;
  saleor_order_id = n.id;
  saleor_checkout_id = checkout_id_of attempt;
  idempotency_key = key_of attempt;
  total_amount = n.amount;
  currency = n.currency;
  status = value Models.Status.pending;
}

unfoldable pub complete_attempt : ℕ → String → Option CheckoutAttempt → Db → Db
complete_attempt now order_id none db = db
complete_attempt now order_id (some a) db = record db {
  attempts = update_where (λ r. r.pk == a.pk) (mark_completed now order_id) db.attempts;
}

-- The transaction of one node; `none` is the IntegrityError, which ends the command.
unfoldable pub finish_repair : ℕ → Node → Option CheckoutAttempt → Option Db → Option Db
finish_repair now n attempt none = none
finish_repair now n attempt (some db) = some (complete_attempt now n.id attempt db)

unfoldable pub repair_for : ℕ → Node → Option CheckoutAttempt → Option ℕ → Db → Option Db
repair_for now n attempt none db = some db
repair_for now n attempt (some user) db =
    finish_repair now n attempt (insert_order (recreated_order user n attempt) db)

unfoldable pub repair : ℕ → List User → Node → Db → Option Db
repair now users n db = repair_for now n (attempt_of n db) (user_of users n (attempt_of n db)) db

-- The loop, with whether it came to its end; what was committed before a failure stays.
unfoldable pub repair_all : ℕ → List User → List Node → Db → Bool × Db
repair_all now users [] db = (true, db)
repair_all now users (n ∷ rest) db = elim (repair now users n db) [
  | none ↦ (false, db)
  | some db' ↦ repair_all now users rest db'
]

-- `handle`: the missing orders are determined first, then the journal is marked, then, with `--fix`,
-- the orders are repaired.
unfoldable pub reconcile : ℕ → ℕ → Bool → List User → List Node → Db → Bool × Db
reconcile now cutoff false users nodes db = (true, mark_uncertain cutoff db)
reconcile now cutoff true users nodes db =
    repair_all now users (missing nodes db) (mark_uncertain cutoff db)
