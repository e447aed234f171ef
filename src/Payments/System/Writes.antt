-- ===== src/Payments/System/Writes.antt =====
-- The writes of one checkout keep the completed rows of the journal with their orders.
use mathlib.Core.Path.{subst}
use mathlib.Core.Option.{some-injective}
use django_app_eve.Prelude.{
  ℕ, ◌≡◌, ◌≢◌, refl, sym, ap, ◌∙◌, String, Option, none, some, true, List, ==_iff, ==_refl, eq_refl,
  find, All, All-both, All-rewritten, All-update_where,
}
use django_app_eve.Payments.Models.{
  Status, value, Order, CheckoutAttempt, AttemptState, completed, completing, unknown,
}
use django_app_eve.Payments.Db.{Db}
use django_app_eve.Payments.Rows.{
  Journal, is_order_of, save_attempt, send, insert_if_free, insert_order, new_order, mark_completed,
  mark_state, mark_error, mark_created,
}
use django_app_eve.Payments.SaleorCheckout.{
  CartItem, Result, ok, checkout_error, raised, create_checkout, Completed, complete_checkout,
}
use django_app_eve.Payments.Checkout.{Env, commit_order, on_completed, on_created, run_attempt}
use django_app_eve.Payments.System.Grown.{insert_order-Adds}
use django_app_eve.Payments.System.Backed.{
  IsBacked, Backed, Keeps-Adds, Backed-Keeps, insert_order-found,
}

pub insert_order-attempts :
    (row : ℕ → Order) (db db' : Db) → insert_order row db ≡ some db' → db'.attempts ≡ db.attempts
unfolding insert_order insert_if_free
insert_order-attempts row db db' h = free (find _ db.orders) (find _ db.orders) h
  where
    free :
        (a b : Option Order)
        → insert_if_free a b (row db.next_pk) db ≡ some db'
        → db'.attempts ≡ db.attempts
    free (some _) none e = cc e
    free (some _) (some _) e = cc e
    free none (some _) e = cc e
    free none none e = sym (ap (λ (d : Db). d.attempts) (some-injective _ db' e))

module _ (env : Env) (user : ℕ) (key : String) (a : CheckoutAttempt) where
  -- The rows that the run writes are of its user and key.
  abbrev pub Owned : List CheckoutAttempt → Type 0
  Owned rows =
      All (λ (r : CheckoutAttempt). r.pk ≡ a.pk → (r.user ≡ user) × (r.idempotency_key ≡ key)) rows

  -- A write that leaves the keys, and a state other than completed.
  pub record Reopens (f : CheckoutAttempt → CheckoutAttempt) : Type 0 where
    pub same_pk : (r : CheckoutAttempt) → (f r).pk ≡ r.pk
    pub same_user : (r : CheckoutAttempt) → (f r).user ≡ r.user
    pub same_key : (r : CheckoutAttempt) → (f r).idempotency_key ≡ r.idempotency_key
    pub unfinished : (r : CheckoutAttempt) → (f r).state ≢ completed

  pub save-Owned :
      (f : CheckoutAttempt → CheckoutAttempt) (j : Journal)
      → Reopens f
      → Owned j.db.attempts
      → Owned (save_attempt a f j).db.attempts
  unfolding save_attempt
  save-Owned f j p o =
      All-update_where _ _ f j.db.attempts
        (λ r e h q. let (u, k) = h (sym (p.same_pk r) ∙ q) in (p.same_user r ∙ u, p.same_key r ∙ k))
        o

  pub save-Backed :
      (f : CheckoutAttempt → CheckoutAttempt) (j : Journal)
      → Reopens f
      → Backed j.db
      → Backed (save_attempt a f j).db
  unfolding save_attempt
  save-Backed f j p b =
      All-update_where (IsBacked j.db.orders) _ f j.db.attempts
        (λ r e h done. absurd (p.unfinished r done)) b

  -- What a table is after an order of the run was added.
  pub record HasNew (db : Db) : Type 0 where
    pub backed : Backed db
    pub owned : Owned db.attempts
    pub order : (o : Order) × (find (is_order_of user key) db.orders ≡ some o)

  commit_order-Backed :
      (o : Order) (d : Option Db) (c : Completed) (j : Journal)
      → ((db : Db) → d ≡ some db → HasNew db)
      → Backed j.db
      → Backed (commit_order env user key a o d c j).1.db
  unfolding commit_order save_attempt mark_completed
  commit_order-Backed o none c j h b = b
  commit_order-Backed o (some db) c j h b =
      let new = h db refl in
      let (o', found) = new.order in
      All-rewritten _ (IsBacked db.orders) _ _ db.attempts
        (λ r e both done.
          let (u, k) = both.1 ((==_iff r.pk a.pk).0 e) in
          (
            o',
            subst (λ x. find (is_order_of x r.idempotency_key) db.orders ≡ some o') (sym u)
                (subst (λ x. find (is_order_of user x) db.orders ≡ some o') (sym k) found),
          ))
        (λ r e both. both.0) (All-both _ _ db.attempts new.backed new.owned)

  mark_error-Reopens :
      (st : AttemptState) (e : String) → st ≢ completed → Reopens (mark_error env.now st e)
  unfolding mark_error
  mark_error-Reopens st e ne = record {
    same_pk = λ r. refl;
    same_user = λ r. refl;
    same_key = λ r. refl;
    unfinished = λ r. ne;
  }

  mark_created-Reopens : (id : String) → Reopens (mark_created env.now id)
  unfolding mark_created
  mark_created-Reopens id = record {
    same_pk = λ r. refl;
    same_user = λ r. refl;
    same_key = λ r. refl;
    unfinished = λ r s. cc s;
  }

  mark_state-Reopens : Reopens (mark_state env.now completing)
  unfolding mark_state
  mark_state-Reopens = record {
    same_pk = λ r. refl;
    same_user = λ r. refl;
    same_key = λ r. refl;
    unfinished = λ r s. cc s;
  }

  new-pending :
      (id : String) (c : Completed) (n : ℕ)
      → (new_order user key id c n).status ≡ value Status.pending
  unfolding new_order
  new-pending id c n = refl

  new-own :
      (id : String) (c : Completed) (n : ℕ)
      → is_order_of user key (new_order user key id c n) ≡ true
  unfolding new_order
  new-own id c n = rw (eq_refl key) (==_refl user)

  insert_order-HasNew :
      (row : ℕ → Order) (j : Journal)
      → ((n : ℕ) → (row n).status ≡ value Status.pending)
      → ((n : ℕ) → is_order_of user key (row n) ≡ true)
      → Backed j.db
      → Owned j.db.attempts
      → (db : Db) → insert_order row j.db ≡ some db
      → HasNew db
  insert_order-HasNew row j p q b o db e =
      let same = insert_order-attempts row j.db db e in
      record {
        backed =
            subst (λ l. All (IsBacked db.orders) l) (sym same)
              (Backed-Keeps j.db.orders db.orders j.db.attempts
                (Keeps-Adds j.db.orders db.orders (insert_order-Adds row j.db db p e)) b);
        owned = subst Owned (sym same) o;
        order = insert_order-found row j.db db user key q e;
      }

  on_completed-Backed :
      (id : String) (c : Result Completed) (j : Journal)
      → Owned j.db.attempts
      → Backed j.db
      → Backed (on_completed env user key a id c j).1.db
  unfolding on_completed
  on_completed-Backed id (ok c) j o b =
      commit_order-Backed (new_order user key id c j.db.next_pk)
        (insert_order (new_order user key id c) j.db) c j
        (insert_order-HasNew (new_order user key id c) j (new-pending id c) (new-own id c) b o) b
  on_completed-Backed id checkout_error j o b =
      save-Backed _ j (mark_error-Reopens unknown "checkout_complete_unknown" (λ s. cc s)) b
  on_completed-Backed id raised j o b = b

  on_created-Backed :
      (c : Result String) (j : Journal)
      → Owned j.db.attempts
      → Backed j.db
      → Backed (on_created env user key a c j).1.db
  unfolding on_created send
  on_created-Backed (ok id) j o b =
      let f = mark_created env.now id in
      let g = mark_state env.now completing in
      let j1 = save_attempt a f j in
      let j2 = save_attempt a g j1 in
      on_completed-Backed id (complete_checkout env.answered) (send _ j2)
        (save-Owned g j1 mark_state-Reopens (save-Owned f j (mark_created-Reopens id) o))
        (save-Backed g j1 mark_state-Reopens (save-Backed f j (mark_created-Reopens id) b))
  on_created-Backed checkout_error j o b =
      save-Backed _ j (mark_error-Reopens AttemptState.failed "checkout_create_failed" (λ s. cc s))
        b
  on_created-Backed raised j o b = b

  pub run_attempt-Backed :
      (items : List CartItem) (j : Journal)
      → Owned j.db.attempts
      → Backed j.db
      → Backed (run_attempt env user key a items j).1.db
  unfolding run_attempt send
  run_attempt-Backed items j o b = on_created-Backed (create_checkout items env.created) _ o b
