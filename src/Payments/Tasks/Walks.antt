-- ===== src/Payments/Tasks/Walks.antt =====
-- What a run of webhook tasks (Eve/payments/tasks.py) may do to the orders.
use mathlib.Core.Path.{subst}
use django_app_eve.Prelude.{
  ℕ, ◌≡◌, refl, sym, ◌∙◌, ◌⊎◌, inl, inr, ap, List, [], ◌∷◌, Pointwise, Pointwise-refl,
  Pointwise-trans,
}
use django_app_eve.Payments.Models.{Status, paid, failed, refunded, cancelled, value, Order}
use django_app_eve.Payments.Models.Transitions.{
  Edge, pay, fail, drop, refund, revoke, reopen, abandon,
}
use django_app_eve.Payments.Db.{Db, IsValid}
use django_app_eve.Payments.Tasks.{process_webhook_event, after, run_tasks}
use django_app_eve.Payments.Tasks.Moves.{
  IsTarget, Moved, value-injective, process_webhook_event-Moved,
}

-- The moves that a run of webhooks can string together.
pub data Walk : Status → Status → Type 0 where
  stay : {a : Status} → Walk a a
  pay_walk : Walk Status.pending paid
  cancel_walk : Walk Status.pending cancelled
  pay_refund_walk : Walk Status.pending refunded
  refund_walk : Walk paid refunded
  revoke_walk : Walk paid cancelled
  abandon_walk : Walk failed cancelled

Edge-Walk : {a b c : Status} → Edge a b → IsTarget b → Walk b c → Walk a c
Edge-Walk pay t stay = pay_walk
Edge-Walk pay t refund_walk = pay_refund_walk
Edge-Walk pay t revoke_walk = cancel_walk
Edge-Walk fail t w = elim t [ ]
Edge-Walk reopen t w = elim t [ ]
Edge-Walk drop t stay = cancel_walk
Edge-Walk refund t stay = refund_walk
Edge-Walk revoke t stay = revoke_walk
Edge-Walk abandon t stay = abandon_walk

-- An order before and after a whole run.
abbrev pub Walked : Order → Order → Type 0
Walked o o' =
    (o' ≡ o)
    ⊎ ((a : Status) × (b : Status) × (o.status ≡ value a)
        × (o' ≡ record o { status = value b })
        × Walk a b)

pub Walked-Moved : (o p q : Order) → Moved o p → Walked p q → Walked o q
Walked-Moved o p q (inl m) w = subst (λ x. Walked x q) m w
Walked-Moved o p q (inr (a, b, at_a, at_b, e, t)) (inl w) =
    inr (a, b, at_a, w ∙ at_b, Edge-Walk e t stay)
Walked-Moved o p q (inr (a, b, at_a, at_b, e, t)) (inr (b', c, from_b, at_c, w)) =
    let same : b' ≡ b = value-injective b' b (sym from_b ∙ ap (λ (x : Order). x.status) at_b) in
    inr (
      a,
      c,
      at_a,
      at_c ∙ ap (λ (x : Order). let y : Order = record x { status = value c } in y) at_b,
      Edge-Walk e t (subst (λ x. Walk x c) same w),
    )

-- Over any sequence of tasks each order keeps its other columns, and its status is unchanged or has
-- gone along one of six ways: pending to paid, cancelled or (through paid) refunded; paid to
-- refunded or cancelled; failed to cancelled.
pub run_tasks-Walked :
    (tasks : List (ℕ × ℕ)) (db : Db)
    → IsValid db
    → IsValid (run_tasks tasks db) × Pointwise Walked db.orders (run_tasks tasks db).orders
unfolding run_tasks
run_tasks-Walked [] db valid = (valid, Pointwise-refl Walked (λ o. inl refl) db.orders)
run_tasks-Walked ((now, id) ∷ rest) db valid =
    let db' : Db = after (process_webhook_event now id db) db in
    let first = process_webhook_event-Moved now id db valid in
    let later = run_tasks-Walked rest db' first.0 in
    (
      later.0,
      Pointwise-trans Moved Walked Walked Walked-Moved db.orders db'.orders
          (run_tasks rest db').orders first.1 later.1,
    )
