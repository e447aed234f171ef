-- ===== src/Payments/Checkout/AtMostOnce.antt =====
-- The runs of `place_order_once` (Eve/payments/services/checkout.py) and the invariant of Safe.
use mathlib.Core.Path.{subst}
use django_app_eve.Prelude.{
  ℕ, ◌≤◌, ◌≡◌, refl, sym, ◌∙◌, inl, inr, String, Bool, true, false, Option, none, some, List, [],
  ◌∷◌, find, ◌==◌, if-both, &&-left,
}
use django_app_eve.Payments.Models.{
  Order, CheckoutAttempt, AttemptState, completing, completed, unknown,
}
use django_app_eve.Payments.Db.{Db, IsValid}
use django_app_eve.Payments.SaleorCheckout.{
  CartItem, Line, Result, ok, checkout_error, raised, build_lines, create_checkout, Completed,
  complete_checkout,
}
use django_app_eve.Payments.Rows.{
  create_call, complete_call, Journal, has_key, is_order_of, save_attempt, send, insert_order,
  new_order, mark_completed, mark_state, mark_error, mark_created, mark_restarted,
}
use django_app_eve.Payments.Checkout.{
  Outcome, Digests, Env, commit_order, on_completed, on_created, run_attempt, is_failed,
  is_completed, may_restart, resume_attempt, insert_attempt, scoped_idempotency_key,
  get_or_create_attempt, with_lines, unless_placed, place_order,
}
use django_app_eve.Payments.Checkout.Safe.{
  completes, IsLocked, IsSafe, At, KeepsKeys, At-save_attempt, save_attempt-IsSafe,
}
use django_app_eve.Payments.Checkout.Steps.{
  completes-none, completes-open, completes-send_create, send_create-IsSafe, send_complete-IsSafe,
  insert_attempt-IsSafe, insert_attempt-At, insert_order-IsValid, transfer-IsSafe,
}

module _ (now : ℕ) where
  keeps_completed : (id : String) → KeepsKeys (mark_completed now id)
  unfolding mark_completed
  keeps_completed id = record { pk = λ r. refl; key = λ r. refl }

  keeps_state : (st : AttemptState) → KeepsKeys (mark_state now st)
  unfolding mark_state
  keeps_state st = record { pk = λ r. refl; key = λ r. refl }

  keeps_error : (st : AttemptState) (e : String) → KeepsKeys (mark_error now st e)
  unfolding mark_error
  keeps_error st e = record { pk = λ r. refl; key = λ r. refl }

  keeps_created : (id : String) → KeepsKeys (mark_created now id)
  unfolding mark_created
  keeps_created id = record { pk = λ r. refl; key = λ r. refl }

  keeps_restarted : (id : String) → KeepsKeys (mark_restarted now id)
  unfolding mark_restarted
  keeps_restarted id = record { pk = λ r. refl; key = λ r. refl }

module _ (env : Env) (user : ℕ) (key : String) (a : CheckoutAttempt) where
  commit_order-IsSafe :
      (o : Order) (d : Option Db) (c : Completed) (r : CheckoutAttempt) (j : Journal)
      → ((db : Db) → d ≡ some db → IsValid db × (db.attempts ≡ j.db.attempts))
      → At a key r j
      → IsSafe j
      → IsSafe (commit_order env user key a o d c j).1
  unfolding commit_order mark_completed
  commit_order-IsSafe o none c r j h at s = s
  commit_order-IsSafe o (some db) c r j h at s =
      let (v, same) = h db refl in
      save_attempt-IsSafe a (mark_completed env.now c.order_id) (keeps_completed env.now c.order_id)
        (record j { db = db }) key r
        (subst (λ l. find (has_key key) l ≡ some r) (sym same) at.0, at.1)
        (transfer-IsSafe j db s v same) (inl tt)

  on_completed-IsSafe :
      (id : String) (c : Result Completed) (r : CheckoutAttempt) (j : Journal)
      → At a key r j
      → IsSafe j
      → IsSafe (on_completed env user key a id c j).1
  unfolding on_completed mark_error new_order
  on_completed-IsSafe id (ok c) r j at s =
      commit_order-IsSafe (new_order user key id c j.db.next_pk)
        (insert_order (new_order user key id c) j.db) c r j
        (λ db e. insert_order-IsValid (new_order user key id c) j.db db (λ n. refl) s.valid e) at s
  on_completed-IsSafe id checkout_error r j at s =
      save_attempt-IsSafe a _ (keeps_error env.now unknown "checkout_complete_unknown") j key r at s
        (inl tt)
  on_completed-IsSafe id raised r j at s = s

  on_created-IsSafe :
      (c : Result String) (r : CheckoutAttempt) (j : Journal)
      → At a key r j
      → IsSafe j
      → completes key j.calls ≡ 0
      → IsSafe (on_created env user key a c j).1
  unfolding on_created mark_state mark_created mark_error send save_attempt
  on_created-IsSafe (ok id) r j at s zero =
      let f = mark_created env.now id in
      let g = mark_state env.now completing in
      let kf = keeps_created env.now id in
      let kg = keeps_state env.now completing in
      let j1 = save_attempt a f j in
      let s1 = save_attempt-IsSafe a f kf j key r at s (inr zero) in
      let at1 = At-save_attempt a f kf j key r at in
      let j2 = save_attempt a g j1 in
      let s2 = save_attempt-IsSafe a g kg j1 key (f r) at1 s1 (inl tt) in
      let at2 = At-save_attempt a g kg j1 key (f r) at1 in
      on_completed-IsSafe id (complete_checkout env.answered) (g (f r))
        (send (complete_call key id) j2) at2
        (send_complete-IsSafe j2 key id s2 zero (g (f r), at2.0, tt))
  on_created-IsSafe checkout_error r j at s zero =
      save_attempt-IsSafe a _ (keeps_error env.now AttemptState.failed "checkout_create_failed") j
        key r at s (inr zero)
  on_created-IsSafe raised r j at s zero = s

  run_attempt-IsSafe :
      (items : List CartItem) (r : CheckoutAttempt) (j : Journal)
      → At a key r j
      → IsSafe j
      → completes key j.calls ≡ 0
      → IsSafe (run_attempt env user key a items j).1
  unfolding run_attempt send
  run_attempt-IsSafe items r j at s zero =
      on_created-IsSafe (create_checkout items env.created) r (send (create_call key) j) at
        (send_create-IsSafe j key s) (completes-send_create j key key ∙ zero)

module _ (env : Env) (user : ℕ) (key : String) (items : List CartItem)
    (cart_fingerprint : String) where
  not-IsLocked : (st : AttemptState) → is_failed st ≡ true → ¬ IsLocked st
  not-IsLocked AttemptState.failed e l = l
  not-IsLocked completing e l = cc
  not-IsLocked completed e l = cc
  not-IsLocked unknown e l = cc
  not-IsLocked _ e l = l

  resume_attempt-IsSafe :
      (a : CheckoutAttempt) (j : Journal)
      → find (has_key key) j.db.attempts ≡ some a
      → IsSafe j
      → IsSafe (resume_attempt env user key items cart_fingerprint a j).1
  unfolding resume_attempt may_restart save_attempt
  resume_attempt-IsSafe a j found s =
      if-both Fine (a.user == user) _ _
        (λ e.
          if-both Fine (is_completed a.state) _ _ (λ e. s)
            (λ e. if-both Fine (may_restart a) _ _ (λ may. restarted may) (λ e. s)))
        (λ e. s)
    where
      Fine : Outcome × Journal → Type 0
      Fine r = IsSafe r.1

      restarted :
          may_restart a ≡ true
          → IsSafe
              (run_attempt env user key a items
                (save_attempt a (mark_restarted env.now cart_fingerprint) j)).1
      restarted may =
          let zero =
            completes-open j key a s found
              (not-IsLocked a.state (&&-left (is_failed a.state) _ may)) in
          run_attempt-IsSafe env user key a items _ _
            (At-save_attempt a _ (keeps_restarted env.now cart_fingerprint) j key a (found, refl))
            (save_attempt-IsSafe a _ (keeps_restarted env.now cart_fingerprint) j key a
              (found, refl) s (inr zero))
            zero

  get_or_create-IsSafe :
      (o : Option CheckoutAttempt) (j : Journal)
      → find (has_key key) j.db.attempts ≡ o
      → IsSafe j
      → IsSafe (get_or_create_attempt env user key items cart_fingerprint o j).1
  unfolding get_or_create_attempt insert_attempt
  get_or_create-IsSafe (some a) j found s = resume_attempt-IsSafe a j found s
  get_or_create-IsSafe none j absent s =
      run_attempt-IsSafe env user key _ items _ _
        (insert_attempt-At env user key items cart_fingerprint j s absent)
        (insert_attempt-IsSafe env user key items cart_fingerprint j s absent)
        (completes-none j key s absent)

module _ (digests : Digests) (env : Env) (user : ℕ) (key : String) (items : List CartItem) where
  with_lines-IsSafe :
      (l : Result (List Line)) (j : Journal)
      → IsSafe j
      → IsSafe (with_lines digests env user key items l j).1
  unfolding with_lines
  with_lines-IsSafe (ok lines) j s =
      get_or_create-IsSafe env user key items (digests.fingerprint lines)
        (find (has_key key) j.db.attempts) j refl s
  with_lines-IsSafe checkout_error j s = s
  with_lines-IsSafe raised j s = s

  unless_placed-IsSafe :
      (o : Option Order) (j : Journal)
      → IsSafe j
      → IsSafe (unless_placed digests env user key items o j).1
  unfolding unless_placed
  unless_placed-IsSafe (some o) j s = s
  unless_placed-IsSafe none j s = with_lines-IsSafe (build_lines items) j s

  -- A run keeps the invariant, whether or not it owns the lease, whatever Saleor answers.
  pub place_order-IsSafe :
      (owner : Bool) (j : Journal)
      → IsSafe j
      → IsSafe (place_order digests env user key items owner j).1
  unfolding place_order
  place_order-IsSafe false j s = s
  place_order-IsSafe true j s = unless_placed-IsSafe (find (is_order_of user key) j.db.orders) j s

-- One request to place an order, with what the environment answers during it.
pub record Request : Type 0 where
  pub env : Env
  pub user : ℕ
  pub raw_key : String
  pub items : List CartItem
  pub owner : Bool

pub place_all : Digests → List Request → Journal → Journal
place_all d [] j = j
place_all d (r ∷ rest) j =
    place_all d rest
      (place_order d r.env r.user (scoped_idempotency_key d r.user r.raw_key) r.items r.owner j).1

-- From tables and a log of mutations that satisfy the invariant (as the empty ones do), over any
-- sequence of requests, by any users and with any answers of Saleor, `checkoutComplete` is sent at
-- most once for each idempotency key, and the constraints of the tables hold.
pub place_all-once :
    (d : Digests) (requests : List Request) (j : Journal)
    → IsSafe j
    → ((k : String) → completes k (place_all d requests j).calls ≤ 1)
      × IsValid (place_all d requests j).db
unfolding place_all
place_all-once d requests j s = let end = all_safe requests j s in (end.once, end.valid)
  where
    all_safe : (l : List Request) (i : Journal) → IsSafe i → IsSafe (place_all d l i)
    all_safe [] i s = s
    all_safe (r ∷ rest) i s =
        all_safe rest _ (place_order-IsSafe d r.env r.user _ r.items r.owner i s)
