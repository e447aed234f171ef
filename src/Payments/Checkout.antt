-- ===== src/Payments/Checkout.antt =====
-- Eve/payments/services/checkout.py: `place_order_once`, which wraps Saleor's mutations in a lease
-- of the user and in the journal of `CheckoutAttempt` rows.
-- Saleor's answers, the clock, the token of the lease and the digests are arguments. `calls` is the
-- list of the mutations that were sent, with the idempotency key of the run that sent them.
pub mod Safe
pub mod Steps
pub mod AtMostOnce
pub mod Replay
pub mod Exclusive
pub mod Leased
use django_app_eve.Prelude.{
  ℕ, ◌+◌, String, Option, none, some, Bool, true, false, List, [], ◌∷◌, ◌++◌, ◌&&◌, find,
  update_where, str_eq, ◌==◌, if◌then◌else◌,
}
use django_app_eve.Core.Cache.{Cache}
use django_app_eve.Core.Lease.{cache_lease}
use django_app_eve.Payments.Models.{
  value, Order, CheckoutAttempt, AttemptState, started, checkout_created, completing, completed,
  unknown,
}
use django_app_eve.Payments.Models
use django_app_eve.Payments.Db.{Db}
use django_app_eve.Payments.SaleorCheckout.{
  CartItem, Line, Result, ok, checkout_error, raised, build_lines, Answer, create_checkout,
  Completed, complete_checkout,
}
use django_app_eve.Payments.Rows.{
  Call, create_call, complete_call, Journal, has_key, is_order_of, save_attempt, send, same_key,
  insert_if_free, insert_order, new_order, mark_completed, mark_state, mark_error, mark_created,
  mark_restarted,
}

-- How `place_order_once` ends: it returns an order, returns None, raises CheckoutError or raises
-- another exception.
pub data Outcome : Type 0 where
  placed : Order → Outcome
  refused : Outcome
  failed_checkout : Outcome
  crashed : Outcome

-- The hexadecimal SHA-256 of a text, the text f"{user.pk}:{raw_key}", and the digest of the lines'
-- JSON: Python's `hashlib`, formatting and `json`.
pub record Digests : Type 0 where
  pub sha256 : String → String
  pub scope : ℕ → String → String
  pub fingerprint : List Line → String

unfoldable pub scoped_idempotency_key : Digests → ℕ → String → String
scoped_idempotency_key d user raw_key = d.sha256 (d.scope user raw_key)

-- What the environment supplies to a run.
pub record Env : Type 0 where
  pub now : ℕ
  pub created : Answer String
  pub answered : Answer Completed

module _ (env : Env) (user : ℕ) (key : String) (attempt : CheckoutAttempt) where
  -- The transaction at the end: the order and the journal row, or neither.
  unfoldable pub commit_order : Order → Option Db → Completed → Journal → Outcome × Journal
  commit_order o none r j = (crashed, j)
  commit_order o (some db) r j =
      (placed o, save_attempt attempt (mark_completed env.now r.order_id) (record j { db = db }))

  -- After `complete_checkout`.
  unfoldable pub on_completed : String → Result Completed → Journal → Outcome × Journal
  on_completed checkout_id (ok r) j =
      commit_order (new_order user key checkout_id r j.db.next_pk)
        (insert_order (new_order user key checkout_id r) j.db) r j
  on_completed checkout_id checkout_error j = (
    failed_checkout,
    save_attempt attempt (mark_error env.now unknown "checkout_complete_unknown") j,
  )
  on_completed checkout_id raised j = (crashed, j)

  -- After `create_checkout`: the id is saved, then the state, then the second mutation is sent.
  unfoldable pub on_created : Result String → Journal → Outcome × Journal
  on_created (ok checkout_id) j = on_completed checkout_id (complete_checkout env.answered) (
      send (complete_call key checkout_id) (
        save_attempt attempt (mark_state env.now completing)
          (save_attempt attempt (mark_created env.now checkout_id) j)))
  on_created checkout_error j = (
    failed_checkout,
    save_attempt attempt (mark_error env.now AttemptState.failed "checkout_create_failed") j,
  )
  on_created raised j = (crashed, j)

  -- `create_checkout` builds the lines once more, which succeeds as it did before.
  unfoldable pub run_attempt : List CartItem → Journal → Outcome × Journal
  run_attempt items j = on_created (create_checkout items env.created) (send (create_call key) j)

-- `state == FAILED and not saleor_checkout_id`
abbrev pub is_failed : AttemptState → Bool
is_failed AttemptState.failed = true
is_failed _ = false

abbrev pub is_completed : AttemptState → Bool
is_completed completed = true
is_completed _ = false

unfoldable pub may_restart : CheckoutAttempt → Bool
may_restart a = is_failed a.state && str_eq a.saleor_checkout_id ""

unfoldable pub returned : Option Order → Outcome
returned none = refused
returned (some o) = placed o

module _ (env : Env) (user : ℕ) (key : String) (items : List CartItem)
    (cart_fingerprint : String) where
  -- The row that `get_or_create` found.
  unfoldable pub resume_attempt : CheckoutAttempt → Journal → Outcome × Journal
  unfolding returned
  resume_attempt a j =
      if a.user == user
      then (if is_completed a.state
          then (returned (find (is_order_of user key) j.db.orders), j)
          else if may_restart a
          then run_attempt env user key a items
              (save_attempt a (mark_restarted env.now cart_fingerprint) j)
          else (refused, j))
      else (refused, j)

  unfoldable pub fresh_attempt : ℕ → CheckoutAttempt
  fresh_attempt pk = record {
    pk = pk;
    user = user;
    idempotency_key = key;
    cart_fingerprint = cart_fingerprint;
    state = started;
    saleor_checkout_id = "";
    saleor_order_id = "";
    last_error = "";
    updated_at = env.now;
    completed_at = none;
  }

  unfoldable pub insert_attempt : Journal → Journal
  insert_attempt j = record j {
    db = record j.db {
      attempts = j.db.attempts ++ fresh_attempt j.db.next_pk ∷ [];
      next_pk = j.db.next_pk + 1;
    };
  }

  -- `CheckoutAttempt.objects.get_or_create(idempotency_key=…)`
  unfoldable pub get_or_create_attempt : Option CheckoutAttempt → Journal → Outcome × Journal
  get_or_create_attempt none j =
      run_attempt env user key (fresh_attempt j.db.next_pk) items (insert_attempt j)
  get_or_create_attempt (some a) j = resume_attempt a j

module _ (digests : Digests) (env : Env) (user : ℕ) (key : String) (items : List CartItem) where
  unfoldable pub with_lines : Result (List Line) → Journal → Outcome × Journal
  with_lines (ok lines) j =
      get_or_create_attempt env user key items (digests.fingerprint lines)
        (find (has_key key) j.db.attempts) j
  with_lines checkout_error j = (failed_checkout, j)
  with_lines raised j = (crashed, j)

  unfoldable pub unless_placed : Option Order → Journal → Outcome × Journal
  unless_placed (some o) j = (placed o, j)
  unless_placed none j = with_lines (build_lines items) j

  -- What the owner of the lease does; any other caller is refused.
  unfoldable pub place_order : Bool → Journal → Outcome × Journal
  place_order false j = (refused, j)
  place_order true j = unless_placed (find (is_order_of user key) j.db.orders) j

-- `checkout:user:<pk>`, the key of the lease, is the argument `lease_key`.
module _ (c : Cache) where
  abbrev pub World : Type 0
  World = c.State × Journal

  -- The body of the `with`.
  unfoldable pub leased :
      Digests → Env → ℕ → String → List CartItem → Bool → World → Outcome × World
  leased digests env user key items owner (s, j) =
      let (r, j') = place_order digests env user key items owner j in (r, (s, j'))

  unfoldable pub place_order_once :
      Digests
      → Env
      → (lease_key token : String) → ℕ
      → String
      → List CartItem
      → World
      → Option Outcome × World
  place_order_once digests env lease_key token user raw_key items =
      cache_lease c (λ (w : World). w.0) (λ s w. (s, w.1)) lease_key token 60
        (leased digests env user (scoped_idempotency_key digests user raw_key) items)
