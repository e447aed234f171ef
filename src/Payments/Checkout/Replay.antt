-- ===== src/Payments/Checkout/Replay.antt =====
-- Repeating a request that returned an order (Eve/payments/services/checkout.py).
use mathlib.Core.Path.{subst}
use django_app_eve.Prelude.{
  ℕ, ◌≡◌, refl, sym, ◌∙◌, ap, String, Bool, true, false, Option, none, some, List, [], ◌∷◌, find,
  find-append, eq_refl, ◌==◌, ==_refl, if-both,
}
use django_app_eve.Payments.Models.{Order, CheckoutAttempt}
use django_app_eve.Payments.SaleorCheckout.{
  CartItem, Line, Result, ok, checkout_error, raised, build_lines, create_checkout, Completed,
  complete_checkout,
}
use django_app_eve.Payments.Rows.{
  Journal, is_order_of, save_attempt, send, insert_if_free, insert_order, new_order,
}
use django_app_eve.Payments.Checkout.{
  Outcome, placed, refused, failed_checkout, crashed, Digests, Env, commit_order, on_completed,
  on_created, run_attempt, is_completed, may_restart, returned, resume_attempt, insert_attempt,
  get_or_create_attempt, with_lines, unless_placed, place_order,
}

placed-injective : (o p : Order) → placed o ≡ placed p → o ≡ p
placed-injective o p h = cc

module _ (user : ℕ) (key : String) where
  abbrev Absent : Journal → Type 0
  Absent j = find (is_order_of user key) j.db.orders ≡ none

  -- An order that is returned is the one that the lookup by key and user finds afterwards.
  record Found (r : Outcome × Journal) : Type 0 where
    at : (o : Order) → r.0 ≡ placed o → find (is_order_of user key) r.1.db.orders ≡ some o

  refused-Found : (j : Journal) → Found (refused, j)
  refused-Found j = record { at = λ o h. cc }

  failed-Found : (j : Journal) → Found (failed_checkout, j)
  failed-Found j = record { at = λ o h. cc }

  crashed-Found : (j : Journal) → Found (crashed, j)
  crashed-Found j = record { at = λ o h. cc }

module _ (env : Env) (user : ℕ) (key : String) where
  module _ (a : CheckoutAttempt) where
    commit_order-Found :
        (p q : Option Order) (id : String) (c : Completed) (j : Journal)
        → Absent user key j
        → Found user key (
            commit_order env user key a
              (new_order user key id c j.db.next_pk)
              (insert_if_free p q (new_order user key id c j.db.next_pk) j.db)
              c
              j)
    unfolding commit_order insert_if_free new_order save_attempt find
    commit_order-Found none none id c j absent = record {
      at = λ o h.
          find-append (is_order_of user key) j.db.orders (new_order user key id c j.db.next_pk ∷ [])
          ∙ rw absent (rw (eq_refl key, ==_refl user) (ap some (placed-injective _ o h)));
    }
    commit_order-Found none (some _) id c j absent = crashed-Found user key j
    commit_order-Found (some _) none id c j absent = crashed-Found user key j
    commit_order-Found (some _) (some _) id c j absent = crashed-Found user key j

    on_completed-Found :
        (id : String) (c : Result Completed) (j : Journal)
        → Absent user key j
        → Found user key (on_completed env user key a id c j)
    unfolding on_completed insert_order
    on_completed-Found id (ok c) j absent = commit_order-Found _ _ id c j absent
    on_completed-Found id checkout_error j absent = failed-Found user key _
    on_completed-Found id raised j absent = crashed-Found user key j

    on_created-Found :
        (c : Result String) (j : Journal)
        → Absent user key j
        → Found user key (on_created env user key a c j)
    unfolding on_created send save_attempt
    on_created-Found (ok id) j absent =
        on_completed-Found id (complete_checkout env.answered) _ absent
    on_created-Found checkout_error j absent = failed-Found user key _
    on_created-Found raised j absent = crashed-Found user key j

    run_attempt-Found :
        (items : List CartItem) (j : Journal)
        → Absent user key j
        → Found user key (run_attempt env user key a items j)
    unfolding run_attempt send
    run_attempt-Found items j absent = on_created-Found (create_checkout items env.created) _ absent

  module _ (items : List CartItem) (cart_fingerprint : String) where
    get_or_create-Found :
        (o : Option CheckoutAttempt) (j : Journal)
        → Absent user key j
        → Found user key (get_or_create_attempt env user key items cart_fingerprint o j)
    unfolding get_or_create_attempt insert_attempt resume_attempt save_attempt returned
    get_or_create-Found none j absent = run_attempt-Found _ items _ absent
    get_or_create-Found (some a) j absent =
        if-both (Found user key) (a.user == user) _ _
          (λ e.
            if-both (Found user key) (is_completed a.state) _ _
              (λ e.
                subst (λ x. Found user key (returned x, j)) (sym absent) (refused-Found user key j))
              (λ e.
                if-both (Found user key) (may_restart a) _ _
                  (λ e. run_attempt-Found a items _ absent) (λ e. refused-Found user key j)))
          (λ e. refused-Found user key j)

module _ (d : Digests) (env : Env) (user : ℕ) (key : String) (items : List CartItem) where
  with_lines-Found :
      (l : Result (List Line)) (j : Journal)
      → Absent user key j
      → Found user key (with_lines d env user key items l j)
  unfolding with_lines
  with_lines-Found (ok lines) j absent = get_or_create-Found env user key items _ _ j absent
  with_lines-Found checkout_error j absent = failed-Found user key j
  with_lines-Found raised j absent = crashed-Found user key j

  unless_placed-Found :
      (o : Option Order) (j : Journal)
      → find (is_order_of user key) j.db.orders ≡ o
      → Found user key (unless_placed d env user key items o j)
  unfolding unless_placed
  unless_placed-Found none j e = with_lines-Found (build_lines items) j e
  unless_placed-Found (some x) j e = record { at = λ o h. e ∙ ap some (placed-injective x o h) }

-- A request whose order is found is served with it: nothing is sent and no table changes.
pub place_order-served :
    (d : Digests) (env : Env) (user : ℕ) (key : String) (items : List CartItem) (j : Journal)
    (o : Order)
    → find (is_order_of user key) j.db.orders ≡ some o
    → place_order d env user key items true j ≡ (placed o, j)
unfolding place_order unless_placed
place_order-served d env user key items j o found = rw found refl

-- The order that a run returns is the one that a lookup by its key and user finds afterwards.
pub place_order-found :
    (d : Digests) (env : Env) (user : ℕ) (key : String) (items : List CartItem) (owner : Bool)
    (j : Journal) (o : Order)
    → (place_order d env user key items owner j).0 ≡ placed o
    → find (is_order_of user key) (place_order d env user key items owner j).1.db.orders ≡ some o
unfolding place_order
place_order-found d env user key items false j o ran = cc
place_order-found d env user key items true j o ran =
    (unless_placed-Found d env user key items _ j refl).at o ran
