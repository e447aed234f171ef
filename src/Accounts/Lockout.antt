-- ===== src/Accounts/Lockout.antt =====
-- Eve/accounts/services/lockout.py: the lockout of an account after repeated failures.
pub mod Window
use django_app_eve.Prelude.{
  ℕ, zero, suc, ◌+◌, String, Option, none, some, Bool, true, false, List, [], ◌∷◌, find, str_eq,
  leb, ◌==◌, not, ◌&&◌, if◌then◌else◌,
}
use django_app_eve.Core.Cache.{Cache, Value, num, text, flag, Reply, ok, value_error, unreachable}

abbrev pub lockout_threshold : ℕ
lockout_threshold = 10

abbrev pub lockout_window_seconds : ℕ
lockout_window_seconds = 900

-- The columns of a user that the notification reads.
pub record User : Type 0 where
  pub pk : ℕ
  pub username : String
  pub email : String

-- `(value or 0) >= LOCKOUT_THRESHOLD`. A text cannot be compared, which the handler catches.
unfoldable pub at_threshold : Reply (Option Value) → Bool
at_threshold (ok (some (num n))) = leb lockout_threshold n
at_threshold _ = false

-- The user whom `notify_lockout` mails: the first with exactly that name, if it has an address.
unfoldable pub mailable : Option User → Option ℕ
mailable none = none
mailable (some u) = if str_eq u.email "" then none else some u.pk

unfoldable pub notify_lockout : List User → String → Option ℕ
unfolding mailable
notify_lockout users username = mailable (find (λ (u : User). str_eq u.username username) users)

-- `lockout_key` is the key `lockout:<name>`, of the name stripped and in lower case.
module _ (c : Cache) (lockout_key : String → String) where
  open c use {State, get, add, incr, delete}

  unfoldable pub is_locked : String → State → Bool
  unfolding at_threshold
  is_locked username s = at_threshold (get (lockout_key username) s)

  unfoldable pub counted : Reply ℕ × State → ℕ × State
  counted (ok n, s) = (n, s)
  counted (_, s) = (0, s)

  unfoldable pub count_on : String → Reply Bool × State → ℕ × State
  unfolding counted
  count_on key (ok true, s) = (1, s)
  count_on key (ok false, s) = counted (incr key s)
  count_on key (_, s) = (0, s)

  unfoldable pub record_failure : String → State → ℕ × State
  unfolding count_on
  record_failure username s =
      count_on (lockout_key username) (add (lockout_key username) (num 1) lockout_window_seconds s)

  unfoldable pub clear_failures : String → State → State
  clear_failures username s = (delete (lockout_key username) s).1

  -- The count, and the user to whom a mail is queued.
  unfoldable pub register_failure : List User → String → State → (ℕ × Option ℕ) × State
  register_failure users username s =
      let (failures, s') = record_failure username s in
      (
        (failures, (if failures == lockout_threshold then notify_lockout users username else none)),
        s',
      )

  -- Repeated failures for one name; the result holds the mails that were queued.
  unfoldable pub fail_times : ℕ → List User → String → State → List (Option ℕ) × State
  fail_times zero users username s = ([], s)
  fail_times (suc n) users username s =
      let (mails, s') = fail_times n users username s in
      let (r, s'') = register_failure users username s' in (r.1 ∷ mails, s'')
