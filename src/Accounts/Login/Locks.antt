-- ===== src/Accounts/Login/Locks.antt =====
-- Guessing a password at `login_view` (Eve/accounts/views.py).
use mathlib.Core.Path.{subst}
use django_app_eve.Prelude.{
  ℕ, zero, suc, min, ◌≡◌, String, Bool, true, false, Bool-cases, inl, inr, List, leb, str_eq,
  if◌then◌else◌, arith,
}
use django_app_eve.Core.Cache.{Cache, Laws}
use django_app_eve.Accounts.Lockout.{User, lockout_threshold, register_failure, clear_failures}
use django_app_eve.Accounts.Lockout.Window.{Counts, record_failure-Counts, is_locked-Counts}
use django_app_eve.Accounts.Login.{locked, signed_in, Attempt, fail, check_password, login_view}

-- A POST of a visitor.
abbrev pub submit : String → String → Attempt
submit username password = record {
  is_authenticated = false;
  is_post = true;
  username = username;
  password = password;
}

module _ (c : Cache) (lockout_key : String → String) (users : List User)
    (is_valid : String → String → Bool) where
  open c use {State}

  -- The same wrong password, again and again.
  unfoldable pub guess_times : ℕ → String → String → State → State
  guess_times zero username wrong s = s
  guess_times (suc n) username wrong s =
      (login_view c lockout_key users is_valid (submit username wrong)
        (guess_times n username wrong s)).1

module _ (c : Cache) (laws : Laws c) (lockout_key : String → String) (users : List User)
    (is_valid : String → String → Bool) (username : String)
    (named : str_eq username "" ≡ false) where
  open c use {State}

  step-Counts :
      (wrong : String) (n : ℕ) (s : State)
      → is_valid username wrong ≡ false
      → Counts c laws lockout_key username (min n lockout_threshold) s
      → Counts c laws lockout_key username
          (min (suc n) lockout_threshold)
          (login_view c lockout_key users is_valid (submit username wrong) s).1
  unfolding login_view check_password fail register_failure
  step-Counts wrong n s bad h =
      elim (Bool-cases (leb lockout_threshold (min n lockout_threshold))) [
        | inl full ↦
            rw
              (
                named,
                is_locked-Counts c laws lockout_key username (min n lockout_threshold) s h,
                full,
              )
              (subst (λ k. Counts c laws lockout_key username k s) (stays full) h)
        | inr room ↦
            rw
              (
                named,
                is_locked-Counts c laws lockout_key username (min n lockout_threshold) s h,
                room,
                bad,
              )
              (subst
                (λ k.
                  Counts c laws lockout_key username k
                    (register_failure c lockout_key users username s).1)
                (grows room) (record_failure-Counts c laws lockout_key username _ s h).1)
      ]
    where
      stays :
          leb lockout_threshold (min n lockout_threshold) ≡ true
          → min n lockout_threshold ≡ min (suc n) lockout_threshold
      stays e = ground arith

      grows :
          leb lockout_threshold (min n lockout_threshold) ≡ false
          → suc (min n lockout_threshold) ≡ min (suc n) lockout_threshold
      grows e = ground arith

  guess_times-Counts :
      (wrong : String) (n : ℕ) (s : State)
      → is_valid username wrong ≡ false
      → Counts c laws lockout_key username 0 s
      → Counts c laws lockout_key username
          (min n lockout_threshold)
          (guess_times c lockout_key users is_valid n username wrong s)
  unfolding guess_times
  guess_times-Counts wrong zero s bad h = h
  guess_times-Counts wrong (suc n) s bad h =
      step-Counts wrong n _ bad (guess_times-Counts wrong n s bad h)

  -- While the cache can be reached and the window lasts: after `n` wrong passwords for a name, from a
  -- clear entry, even the right password signs in only if n < 10; otherwise the answer is 429, the
  -- password is not checked, and the entry is left as it is.
  pub login_view-locks :
      (right wrong : String) (n : ℕ) (s : State)
      → is_valid username right ≡ true
      → is_valid username wrong ≡ false
      → Counts c laws lockout_key username 0 s
      → let s' = guess_times c lockout_key users is_valid n username wrong s in
        login_view c lockout_key users is_valid (submit username right) s' ≡ (
          if leb lockout_threshold n
          then (locked, s')
          else (signed_in, clear_failures c lockout_key username s'))
  unfolding login_view check_password
  login_view-locks right wrong n s good bad h =
      rw
        (
          named,
          is_locked-Counts c laws lockout_key username (min n lockout_threshold) _
              (guess_times-Counts wrong n s bad h),
          good,
        )
        (elim (Bool-cases (leb lockout_threshold n)) [
          | inl e ↦ rw (same, e)
          | inr e ↦ rw (same, e)
        ])
    where
      same : leb lockout_threshold (min n lockout_threshold) ≡ leb lockout_threshold n
      same = ground arith
