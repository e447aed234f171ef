-- ===== src/Payments/Rows.antt =====
-- The writes of Eve/payments/services/checkout.py: the mutations sent to Saleor, the rows of the journal
-- and the new order.
use django_app_eve.Prelude.{
  ℕ, ◌+◌, String, Option, none, some, Bool, false, List, [], ◌∷◌, ◌++◌, ◌&&◌, find, update_where,
  str_eq, ◌==◌,
}
use django_app_eve.Payments.Models.{
  value, Order, CheckoutAttempt, AttemptState, started, checkout_created, completing, completed,
  unknown,
}
use django_app_eve.Payments.Models
use django_app_eve.Payments.Db.{Db}
use django_app_eve.Payments.SaleorCheckout.{Completed}

pub data Call : Type 0 where
  create_call : String → Call
  complete_call : String → String → Call

-- What a run leaves behind: the tables and the mutations sent.
pub record Journal : Type 0 where
  pub db : Db
  pub calls : List Call

abbrev pub has_key : String → CheckoutAttempt → Bool
has_key key a = str_eq a.idempotency_key key

-- `Order.objects.filter(idempotency_key=…, user=…)`
abbrev pub is_order_of : ℕ → String → Order → Bool
is_order_of user key o = elim o.idempotency_key [
  | none ↦ false
  | some k ↦ str_eq k key && o.user == user
]

-- `attempt.save(update_fields=…)`
unfoldable pub save_attempt :
    CheckoutAttempt → (CheckoutAttempt → CheckoutAttempt) → Journal → Journal
save_attempt a f j = record j {
  db = record j.db { attempts = update_where (λ r. r.pk == a.pk) f j.db.attempts };
}

unfoldable pub send : Call → Journal → Journal
send call j = record j { calls = j.calls ++ call ∷ [] }

-- `Order.objects.create`; `none` is the IntegrityError of a unique column.
unfoldable pub same_key : Option String → Order → Bool
same_key none o = false
same_key (some key) o = elim o.idempotency_key [ none ↦ false | some k ↦ str_eq k key ]

-- The insertion, given the rows that already hold the order's Saleor id and its key.
unfoldable pub insert_if_free : Option Order → Option Order → Order → Db → Option Db
insert_if_free none none o db =
    some (record db { orders = db.orders ++ o ∷ []; next_pk = db.next_pk + 1 })
insert_if_free _ _ o db = none

unfoldable pub insert_order : (ℕ → Order) → Db → Option Db
insert_order row db =
    let o = row db.next_pk in
    insert_if_free (find (λ (r : Order). str_eq r.saleor_order_id o.saleor_order_id) db.orders)
      (find (same_key o.idempotency_key) db.orders) o db

-- The row that a completed checkout writes.
unfoldable pub new_order : ℕ → String → String → Completed → ℕ → Order
new_order user key checkout_id r pk = record {
  pk = pk;
  user = user;
  saleor_order_id = r.order_id;
  saleor_checkout_id = checkout_id;
  idempotency_key = some key;
  total_amount = r.total_amount;
  currency = r.total_currency;
  status = value Models.Status.pending;
}

unfoldable pub mark_completed : ℕ → String → CheckoutAttempt → CheckoutAttempt
mark_completed now order_id r = record r {
  saleor_order_id = order_id;
  state = completed;
  completed_at = some now;
  last_error = "";
  updated_at = now;
}

unfoldable pub mark_state : ℕ → AttemptState → CheckoutAttempt → CheckoutAttempt
mark_state now st r = record r { state = st; updated_at = now }

unfoldable pub mark_error : ℕ → AttemptState → String → CheckoutAttempt → CheckoutAttempt
mark_error now st e r = record r { state = st; last_error = e; updated_at = now }

unfoldable pub mark_created : ℕ → String → CheckoutAttempt → CheckoutAttempt
mark_created now checkout_id r = record r {
  saleor_checkout_id = checkout_id;
  state = checkout_created;
  updated_at = now;
}

unfoldable pub mark_restarted : ℕ → String → CheckoutAttempt → CheckoutAttempt
mark_restarted now cart_fingerprint r = record r {
  state = started;
  last_error = "";
  cart_fingerprint = cart_fingerprint;
  updated_at = now;
}
