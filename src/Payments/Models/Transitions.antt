-- ===== src/Payments/Models/Transitions.antt =====
-- What the state machine of an order permits (`Order` of Eve/payments/models.py).
use django_app_eve.Prelude.{String, ◌≡◌, refl, ◌↔◌, Option, none, some, true, arith, eq_iff}
use django_app_eve.Payments.Models.{
  Status, paid, failed, refunded, cancelled, value, parse_status, allowed, may_move, Order,
  can_transition_to,
}

-- The value of a status, and no other text, is read back as that status.
pub parse_status-value : (s : Status) → parse_status (value s) ≡ some s
unfolding parse_status value
parse_status-value Status.pending = refl
parse_status-value _ = refl

pub value-parse_status : (t : String) (s : Status) → parse_status t ≡ some s → t ≡ value s
unfolding parse_status value
value-parse_status t s h = ground (
  arith,
  eq_iff t "pending",
  eq_iff t "paid",
  eq_iff t "failed",
  eq_iff t "refunded",
  eq_iff t "cancelled",
)

-- The diagram of the moves that an order may make.
pub data Edge : Status → Status → Type 0 where
  pay : Edge Status.pending paid
  fail : Edge Status.pending failed
  drop : Edge Status.pending cancelled
  refund : Edge paid refunded
  revoke : Edge paid cancelled
  reopen : Edge failed Status.pending
  abandon : Edge failed cancelled

allowed-Edge : (a b : Status) → allowed a b ≡ true → Edge a b
unfolding allowed
allowed-Edge a b h = grind (arith, pay, fail, drop, refund, revoke, reopen, abandon)

Edge-allowed : {a b : Status} → Edge a b → allowed a b ≡ true
unfolding allowed
Edge-allowed pay = refl
Edge-allowed fail = refl
Edge-allowed drop = refl
Edge-allowed refund = refl
Edge-allowed revoke = refl
Edge-allowed reopen = refl
Edge-allowed abandon = refl

may_move_sound :
    (m n : Option Status)
    → may_move m n ≡ true
    → (a : Status) × (b : Status) × (m ≡ some a) × (n ≡ some b) × Edge a b
unfolding may_move
may_move_sound (some a) (some b) h = (a, b, refl, refl, allowed-Edge a b h)
may_move_sound none _ h = cc
may_move_sound (some a) none h = cc

-- `can_transition_to` accepts a text exactly when the order's text and it are the values of two
-- statuses which the diagram joins.
pub can_transition_to_iff :
    (o : Order) (t : String)
    → (can_transition_to o t ≡ true)
      ↔ ((a : Status) × (b : Status) × (o.status ≡ value a) × (t ≡ value b) × Edge a b)
unfolding can_transition_to may_move
can_transition_to_iff o t = (
  λ h.
      let (a, b, p, q, e) = may_move_sound (parse_status o.status) (parse_status t) h in
      (a, b, value-parse_status o.status a p, value-parse_status t b q, e),
  λ m.
      let (a, b, p, q, e) = m in
      rw p (rw q (rw (parse_status-value a, parse_status-value b) (Edge-allowed e))),
)
