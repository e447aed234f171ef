-- ===== src/Payments/System/Completed.antt =====
-- A checkout keeps the completed rows of the journal with their orders.
use django_app_eve.Prelude.{
  ℕ, ◌≡◌, refl, ap, ◌∙◌, String, Option, none, some, Bool, true, false, List, ◌==◌, ==_iff, eq_iff,
  find, find_sound, All-mono, All-append, if-both, arith,
}
use django_app_eve.Payments.Models.{Order, CheckoutAttempt}
use django_app_eve.Payments.Db.{IsValid}
use django_app_eve.Payments.Rows.{Journal, has_key, is_order_of, save_attempt, mark_restarted}
use django_app_eve.Payments.SaleorCheckout.{
  CartItem, Line, Result, ok, checkout_error, raised, build_lines,
}
use django_app_eve.Payments.Checkout.{
  Digests, Env, Outcome, run_attempt, is_completed, may_restart, resume_attempt, insert_attempt,
  fresh_attempt, get_or_create_attempt, with_lines, unless_placed, place_order,
}
use django_app_eve.Payments.System.Backed.{Backed, only_row}
use django_app_eve.Payments.System.Writes.{
  Owned, Reopens, save-Owned, save-Backed, run_attempt-Backed,
}

module _ (env : Env) (user : ℕ) (key : String) (items : List CartItem)
    (cart_fingerprint : String) where
  mark_restarted-Reopens :
      (a : CheckoutAttempt) → Reopens env user key a (mark_restarted env.now cart_fingerprint)
  unfolding mark_restarted
  mark_restarted-Reopens a = record {
    same_pk = λ r. refl;
    same_user = λ r. refl;
    same_key = λ r. refl;
    unfinished = λ r s. cc s;
  }

  found-Owned :
      (a : CheckoutAttempt) (j : Journal)
      → IsValid j.db
      → find (has_key key) j.db.attempts ≡ some a
      → a.user ≡ user
      → Owned env user key a j.db.attempts
  found-Owned a j v found own =
      let is_key =
        (eq_iff a.idempotency_key key).0 (find_sound (has_key key) j.db.attempts found) in
      All-mono _ _ j.db.attempts
        (λ r one p.
          let same = one p in
          (
            ap (λ (x : CheckoutAttempt). x.user) same ∙ own,
            ap (λ (x : CheckoutAttempt). x.idempotency_key) same ∙ is_key,
          ))
        (only_row j.db.attempts (has_key key) a v.attempt_pk found)

  resume_attempt-Backed :
      (a : CheckoutAttempt) (j : Journal)
      → IsValid j.db
      → find (has_key key) j.db.attempts ≡ some a
      → Backed j.db
      → Backed (resume_attempt env user key items cart_fingerprint a j).1.db
  unfolding resume_attempt
  resume_attempt-Backed a j v found b =
      if-both Kept (a.user == user) _ _
        (λ own.
          if-both Kept (is_completed a.state) _ _ (λ e. b)
            (λ e. if-both Kept (may_restart a) _ _ (λ may. restarted own) (λ e. b)))
        (λ e. b)
    where
      Kept : Outcome × Journal → Type 0
      Kept r = Backed r.1.db

      restarted :
          (a.user == user) ≡ true
          → Backed
              (run_attempt env user key a items
                (save_attempt a (mark_restarted env.now cart_fingerprint) j)).1.db
      restarted own =
          run_attempt-Backed env user key a items _
            (save-Owned env user key a _ j (mark_restarted-Reopens a)
              (found-Owned a j v found ((==_iff a.user user).0 own)))
            (save-Backed env user key a _ j (mark_restarted-Reopens a) b)

  fresh-Owned :
      (j : Journal)
      → IsValid j.db
      → Owned env user key
          (fresh_attempt env user key items cart_fingerprint j.db.next_pk)
          (insert_attempt env user key items cart_fingerprint j).db.attempts
  unfolding insert_attempt fresh_attempt
  fresh-Owned j v =
      All-append _ j.db.attempts _
        (All-mono _ _ j.db.attempts (λ r below same. absurd (omega (arith, below, same)))
          v.attempt_below)
        ((λ p. (refl, refl)), tt)

  fresh-Backed :
      (j : Journal) → Backed j.db → Backed (insert_attempt env user key items cart_fingerprint j).db
  unfolding insert_attempt fresh_attempt
  fresh-Backed j b = All-append _ j.db.attempts _ b ((λ s. absurd (cc s)), tt)

  get_or_create-Backed :
      (o : Option CheckoutAttempt) (j : Journal)
      → IsValid j.db
      → find (has_key key) j.db.attempts ≡ o
      → Backed j.db
      → Backed (get_or_create_attempt env user key items cart_fingerprint o j).1.db
  unfolding get_or_create_attempt
  get_or_create-Backed (some a) j v found b = resume_attempt-Backed a j v found b
  get_or_create-Backed none j v absent b =
      run_attempt-Backed env user key _ items _ (fresh-Owned j v) (fresh-Backed j b)

module _ (digests : Digests) (env : Env) (user : ℕ) (key : String) (items : List CartItem)
    (j : Journal) (v : IsValid j.db) (b : Backed j.db) where
  with_lines-Backed :
      (l : Result (List Line)) → Backed (with_lines digests env user key items l j).1.db
  unfolding with_lines
  with_lines-Backed (ok lines) =
      get_or_create-Backed env user key items (digests.fingerprint lines)
        (find (has_key key) j.db.attempts) j v refl b
  with_lines-Backed checkout_error = b
  with_lines-Backed raised = b

  unless_placed-Backed :
      (o : Option Order) → Backed (unless_placed digests env user key items o j).1.db
  unfolding unless_placed
  unless_placed-Backed (some o) = b
  unless_placed-Backed none = with_lines-Backed (build_lines items)

  pub place_order-Backed :
      (owner : Bool) → Backed (place_order digests env user key items owner j).1.db
  unfolding place_order
  place_order-Backed false = b
  place_order-Backed true = unless_placed-Backed (find (is_order_of user key) j.db.orders)
