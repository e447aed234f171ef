-- ===== src/Payments/System/Events.antt =====
-- The checkout (Eve/payments/services/checkout.py) and the reconciliation
-- (Eve/payments/management/commands/reconcile_orders.py) leave the inbox of webhooks alone.
use mathlib.Core.Option.{some-injective}
use django_app_eve.Prelude.{
  ℕ, ◌≡◌, refl, sym, ap, ◌∙◌, String, Option, none, some, Option-cases, inl, inr, Bool, true, false,
  List, [], ◌∷◌, ◌==◌, find, if-both,
}
use django_app_eve.Payments.Models.{Order, CheckoutAttempt}
use django_app_eve.Payments.Db.{Db}
use django_app_eve.Payments.Rows.{
  Journal, has_key, is_order_of, save_attempt, send, insert_if_free, insert_order, new_order,
}
use django_app_eve.Payments.SaleorCheckout.{
  CartItem, Line, Result, ok, checkout_error, raised, build_lines, create_checkout, Completed,
  complete_checkout,
}
use django_app_eve.Payments.Checkout.{
  Digests, Env, Outcome, commit_order, on_completed, on_created, run_attempt, is_completed,
  may_restart, resume_attempt, insert_attempt, get_or_create_attempt, with_lines, unless_placed,
  place_order,
}
use django_app_eve.Payments.Reconcile.{
  User, Node, mark_uncertain, missing, recreated_order, complete_attempt, finish_repair, repair_for,
  repair, repair_all, reconcile,
}

insert_order-events :
    (row : ℕ → Order) (db db' : Db) → insert_order row db ≡ some db' → db'.events ≡ db.events
unfolding insert_order insert_if_free
insert_order-events row db db' h = free (find _ db.orders) (find _ db.orders) h
  where
    free :
        (a b : Option Order)
        → insert_if_free a b (row db.next_pk) db ≡ some db'
        → db'.events ≡ db.events
    free (some _) none e = cc e
    free (some _) (some _) e = cc e
    free none (some _) e = cc e
    free none none e = sym (ap (λ (d : Db). d.events) (some-injective _ db' e))

abbrev SameEvents : Journal → Outcome × Journal → Type 0
SameEvents j r = r.1.db.events ≡ j.db.events

module _ (env : Env) (user : ℕ) (key : String) (a : CheckoutAttempt) where
  commit_order-events :
      (o : Order) (d : Option Db) (c : Completed) (j : Journal)
      → ((db : Db) → d ≡ some db → db.events ≡ j.db.events)
      → SameEvents j (commit_order env user key a o d c j)
  unfolding commit_order save_attempt
  commit_order-events o none c j h = refl
  commit_order-events o (some db) c j h = h db refl

  on_completed-events :
      (id : String) (c : Result Completed) (j : Journal)
      → SameEvents j (on_completed env user key a id c j)
  unfolding on_completed save_attempt new_order
  on_completed-events id (ok c) j =
      commit_order-events (new_order user key id c j.db.next_pk)
        (insert_order (new_order user key id c) j.db) c j
        (λ db e. insert_order-events (new_order user key id c) j.db db e)
  on_completed-events id checkout_error j = refl
  on_completed-events id raised j = refl

  on_created-events :
      (c : Result String) (j : Journal) → SameEvents j (on_created env user key a c j)
  unfolding on_created send save_attempt
  on_created-events (ok id) j = on_completed-events id (complete_checkout env.answered) _
  on_created-events checkout_error j = refl
  on_created-events raised j = refl

  run_attempt-events :
      (items : List CartItem) (j : Journal) → SameEvents j (run_attempt env user key a items j)
  unfolding run_attempt send
  run_attempt-events items j = on_created-events (create_checkout items env.created) _

module _ (env : Env) (user : ℕ) (key : String) (items : List CartItem) (cart_fingerprint : String)
    (j : Journal) where
  resume_attempt-events :
      (a : CheckoutAttempt) → SameEvents j (resume_attempt env user key items cart_fingerprint a j)
  unfolding resume_attempt save_attempt
  resume_attempt-events a =
      if-both (SameEvents j) (a.user == user) _ _
        (λ e.
          if-both (SameEvents j) (is_completed a.state) _ _ (λ e. refl)
            (λ e.
              if-both (SameEvents j) (may_restart a) _ _
                (λ may. run_attempt-events env user key a items _) (λ e. refl)))
        (λ e. refl)

  get_or_create-events :
      (o : Option CheckoutAttempt)
      → SameEvents j (get_or_create_attempt env user key items cart_fingerprint o j)
  unfolding get_or_create_attempt insert_attempt
  get_or_create-events (some a) = resume_attempt-events a
  get_or_create-events none = run_attempt-events env user key _ items _

module _ (digests : Digests) (env : Env) (user : ℕ) (key : String) (items : List CartItem)
    (j : Journal) where
  with_lines-events :
      (l : Result (List Line)) → SameEvents j (with_lines digests env user key items l j)
  unfolding with_lines
  with_lines-events (ok lines) =
      get_or_create-events env user key items (digests.fingerprint lines) j
        (find (has_key key) j.db.attempts)
  with_lines-events checkout_error = refl
  with_lines-events raised = refl

  unless_placed-events :
      (o : Option Order) → SameEvents j (unless_placed digests env user key items o j)
  unfolding unless_placed
  unless_placed-events (some o) = refl
  unless_placed-events none = with_lines-events (build_lines items)

  pub place_order-events :
      (owner : Bool) → SameEvents j (place_order digests env user key items owner j)
  unfolding place_order
  place_order-events false = refl
  place_order-events true = unless_placed-events (find (is_order_of user key) j.db.orders)

module _ (now : ℕ) (users : List User) where
  complete_attempt-events :
      (id : String) (o : Option CheckoutAttempt) (db : Db)
      → (complete_attempt now id o db).events ≡ db.events
  unfolding complete_attempt
  complete_attempt-events id none db = refl
  complete_attempt-events id (some a) db = refl

  repair_for-events :
      (n : Node) (attempt : Option CheckoutAttempt) (user : Option ℕ) (db db' : Db)
      → repair_for now n attempt user db ≡ some db'
      → db'.events ≡ db.events
  unfolding repair_for finish_repair
  repair_for-events n attempt none db db' h =
      sym (ap (λ (d : Db). d.events) (some-injective db db' h))
  repair_for-events n attempt (some user) db db' h =
      elim (Option-cases (insert_order (recreated_order user n attempt) db)) [
        | inl e ↦ cc (rw (e, finish_repair) at h)
        | inr (d, e) ↦
            sym (ap (λ (x : Db). x.events) (some-injective _ db' (rw (e, finish_repair) at h)))
            ∙ complete_attempt-events n.id attempt d
            ∙ insert_order-events (recreated_order user n attempt) db d e
      ]

  repair_all-events :
      (nodes : List Node) (db : Db) → (repair_all now users nodes db).1.events ≡ db.events
  unfolding repair_all repair_for repair
  repair_all-events [] db = refl
  repair_all-events (n ∷ rest) db = elim (Option-cases (repair now users n db)) [
    | inl e ↦ rw (e, repair_all) refl
    | inr (d, e) ↦ rw (e, repair_all) (repair_all-events rest d ∙ repair_for-events n _ _ db d e)
  ]

  pub reconcile-events :
      (cutoff : ℕ) (fix : Bool) (nodes : List Node) (db : Db)
      → (reconcile now cutoff fix users nodes db).1.events ≡ db.events
  unfolding reconcile mark_uncertain
  reconcile-events cutoff false nodes db = refl
  reconcile-events cutoff true nodes db =
      repair_all-events (missing nodes db) (mark_uncertain cutoff db)
