-- ===== src/Payments/Checkout/Safe.antt =====
-- An invariant of the journal of checkouts (Eve/payments/services/checkout.py), `IsSafe`: each
-- idempotency key with at most one `checkoutComplete`, and the row of a key that has one in a state
-- which is not restarted.
use mathlib.Core.Option
use mathlib.Core.Path.{subst}
use django_app_eve.Prelude.{
  ℕ, ◌≤◌, ◌<◌, ◌≡◌, sym, ◌∙◌, ap, ◌⊎◌, inl, inr, String, Bool, false, Bool-cases, some, List, count,
  find, find_sound, find-update_where, All-update_where, str_eq, eq_iff, ◌==◌, ==_iff,
  if◌then◌else◌, arith,
}
use django_app_eve.Prelude.Unique.{Unique-update_where, same_row}
use django_app_eve.Payments.Models.{CheckoutAttempt, AttemptState, completing, completed, unknown}
use django_app_eve.Payments.Db.{IsValid}
use django_app_eve.Payments.Rows.{Call, create_call, complete_call, Journal, has_key, save_attempt}

abbrev pub is_complete : String → Call → Bool
is_complete k (create_call key) = false
is_complete k (complete_call key checkout_id) = str_eq key k

-- How often `checkoutComplete` was sent for a key.
abbrev pub completes : String → List Call → ℕ
completes k calls = count (is_complete k) calls

abbrev pub IsLocked : AttemptState → Type 0
IsLocked completing = Unit
IsLocked completed = Unit
IsLocked unknown = Unit
IsLocked _ = ⊥

abbrev pub Locked : String → List CheckoutAttempt → Type 0
Locked k attempts = (a : CheckoutAttempt) × (find (has_key k) attempts ≡ some a) × IsLocked a.state

pub record IsSafe (j : Journal) : Type 0 where
  pub valid : IsValid j.db
  pub once : (k : String) → completes k j.calls ≤ 1
  pub locked : (k : String) → 0 < completes k j.calls → Locked k j.db.attempts

-- The row of `key` as it now stands, with the primary key of the attempt at hand.
abbrev pub At : CheckoutAttempt → String → CheckoutAttempt → Journal → Type 0
At a key r j = (find (has_key key) j.db.attempts ≡ some r) × (r.pk ≡ a.pk)

-- `f` writes neither the primary key nor the idempotency key.
pub record KeepsKeys (f : CheckoutAttempt → CheckoutAttempt) : Type 0 where
  pub pk : (r : CheckoutAttempt) → (f r).pk ≡ r.pk
  pub key : (r : CheckoutAttempt) → (f r).idempotency_key ≡ r.idempotency_key

module _ (a : CheckoutAttempt) (f : CheckoutAttempt → CheckoutAttempt) (keeps : KeepsKeys f)
    (j : Journal) where
  find-save_attempt :
      (k : String)
      → find (has_key k) (save_attempt a f j).db.attempts
        ≡ Option.map (λ x. if x.pk == a.pk then f x else x) (find (has_key k) j.db.attempts)
  unfolding save_attempt
  find-save_attempt k =
      find-update_where (has_key k) (λ r. r.pk == a.pk) f j.db.attempts (λ r e. rw (keeps.key r))

  pub At-save_attempt :
      (key : String) (r : CheckoutAttempt) → At a key r j → At a key (f r) (save_attempt a f j)
  At-save_attempt key r (found, same) =
      (find-save_attempt key ∙ rw found (ground (arith, same)), keeps.pk r ∙ same)

  pub save_attempt-IsValid : IsValid j.db → IsValid (save_attempt a f j).db
  unfolding save_attempt
  save_attempt-IsValid v = record {
    order_pk = v.order_pk;
    order_saleor_id = v.order_saleor_id;
    order_below = v.order_below;
    attempt_pk = Unique-update_where _ _ f j.db.attempts keeps.pk v.attempt_pk;
    attempt_key = Unique-update_where _ _ f j.db.attempts keeps.key v.attempt_key;
    attempt_below =
        All-update_where _ _ f j.db.attempts (λ r e h. rw (keeps.pk r) h) v.attempt_below;
    event_pk = v.event_pk;
    event_fingerprint = v.event_fingerprint;
    event_below = v.event_below;
  }

  module _ (key : String) (r : CheckoutAttempt) (at : At a key r j) (s : IsSafe j) where
    -- A row that is locked stays so, if the write locks, or nothing was sent for its key.
    Locked-save_attempt :
        IsLocked (f r).state ⊎ (completes key j.calls ≡ 0)
        → (k : String) → 0 < completes k j.calls
        → Locked k (save_attempt a f j).db.attempts
    Locked-save_attempt h k sent =
        let (b, found, lock) = s.locked k sent in
        elim (Bool-cases (b.pk == a.pk)) [
          | inl e ↦
              let one : b ≡ r =
                same_row (λ (x : CheckoutAttempt). x.pk) ◌==◌ ==_iff (has_key k) (has_key key)
                  j.db.attempts b r s.valid.attempt_pk found at.0
                  ((==_iff b.pk a.pk).0 e ∙ sym at.1) in
              (f b, find-save_attempt k ∙ rw found (ground arith), still h k sent b found one)
          | inr e ↦ (b, find-save_attempt k ∙ rw found (ground arith), lock)
        ]
      where
        still :
            IsLocked (f r).state ⊎ (completes key j.calls ≡ 0)
            → (k : String) → 0 < completes k j.calls
            → (b : CheckoutAttempt) → find (has_key k) j.db.attempts ≡ some b
            → b ≡ r
            → IsLocked (f b).state
        still (inl l) k sent b found one = subst (λ x. IsLocked (f x).state) (sym one) l
        still (inr z) k sent b found one =
            let of_b =
              (eq_iff b.idempotency_key k).0 (find_sound (has_key k) j.db.attempts found) in
            let of_r =
              (eq_iff r.idempotency_key key).0 (find_sound (has_key key) j.db.attempts at.0) in
            let same : k ≡ key =
              sym of_b ∙ ap (λ (x : CheckoutAttempt). x.idempotency_key) one ∙ of_r in
            absurd (omega (arith, z, subst (λ x. 0 < completes x j.calls) same sent))

    pub save_attempt-IsSafe :
        IsLocked (f r).state ⊎ (completes key j.calls ≡ 0) → IsSafe (save_attempt a f j)
    unfolding save_attempt
    save_attempt-IsSafe h = record {
      valid = save_attempt-IsValid s.valid;
      once = s.once;
      locked = Locked-save_attempt h;
    }
