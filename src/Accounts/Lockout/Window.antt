-- ===== src/Accounts/Lockout/Window.antt =====
-- What the lockout (Eve/accounts/services/lockout.py) does within one window.
use django_app_eve.Prelude.{
  ℕ, zero, suc, ◌≡◌, refl, ap, String, Option, Option-cases, none, some, inl, inr, Bool, true,
  false, List, count, leb, if◌then◌else◌, arith,
}
use django_app_eve.Core.Cache.{Cache, Laws, IsDown, Value, num, Reply, ok, value_error, unreachable}
use django_app_eve.Accounts.Lockout.{
  User, lockout_threshold, lockout_window_seconds, notify_lockout, is_locked, counted, count_on,
  record_failure, clear_failures, register_failure, fail_times,
}

abbrev pub is_mail : Option ℕ → Bool
is_mail none = false
is_mail (some _) = true

module _ (c : Cache) (laws : Laws c) (lockout_key : String → String) where
  open c use {State, get, add, incr, delete}

  -- The entry of a name after `n` failures.
  abbrev pub Counts : String → ℕ → State → Type 0
  Counts username zero s = get (lockout_key username) s ≡ ok none
  Counts username (suc n) s = get (lockout_key username) s ≡ ok (some (num (suc n)))

  count_on-added :
      (key : String) (r : Reply Bool × State)
      → r.0 ≡ ok true
      → count_on c lockout_key key r ≡ (1, r.1)
  unfolding count_on
  count_on-added key (ok true, s) e = refl
  count_on-added key (ok false, s) e = cc
  count_on-added key (value_error, s) e = cc
  count_on-added key (unreachable, s) e = cc

  counted-ok : (r : Reply ℕ × State) (n : ℕ) → r.0 ≡ ok n → counted c lockout_key r ≡ (n, r.1)
  unfolding counted
  counted-ok (ok m, s) n e = cc
  counted-ok (value_error, s) n e = cc
  counted-ok (unreachable, s) n e = cc

  count_on-present :
      (key : String) (r : Reply Bool × State)
      → r.0 ≡ ok false
      → count_on c lockout_key key r ≡ counted c lockout_key (incr key r.1)
  unfolding count_on
  count_on-present key (ok false, s) e = refl
  count_on-present key (ok true, s) e = cc
  count_on-present key (value_error, s) e = cc
  count_on-present key (unreachable, s) e = cc

  pub record_failure-Counts :
      (username : String) (n : ℕ) (s : State)
      → Counts username n s
      → ((record_failure c lockout_key username s).0 ≡ suc n)
        × Counts username (suc n) (record_failure c lockout_key username s).1
  unfolding record_failure
  record_failure-Counts username zero s h =
      let key = lockout_key username in
      let (added, held) = laws.add_missing key (num 1) lockout_window_seconds s h in
      rw (count_on-added key (add key (num 1) lockout_window_seconds s) added) (refl, held)
  record_failure-Counts username (suc n) s h =
      let key = lockout_key username in
      let (present, held) = laws.add_present key (num 1) (num (suc n)) lockout_window_seconds s h in
      let (more, held') =
        laws.incr_num key (suc n) (add key (num 1) lockout_window_seconds s).1 held in
      rw
        (
          count_on-present key (add key (num 1) lockout_window_seconds s) present,
          counted-ok (incr key (add key (num 1) lockout_window_seconds s).1) (suc (suc n)) more,
        )
        (refl, held')

  fail_times-Counts :
      (n : ℕ) (users : List User) (username : String) (s : State)
      → Counts username 0 s
      → Counts username n (fail_times c lockout_key n users username s).1
  unfolding fail_times register_failure
  fail_times-Counts zero users username s h = h
  fail_times-Counts (suc n) users username s h =
      (record_failure-Counts username n _ (fail_times-Counts n users username s h)).1

  pub is_locked-Counts :
      (username : String) (n : ℕ) (s : State)
      → Counts username n s
      → is_locked c lockout_key username s ≡ leb lockout_threshold n
  unfolding is_locked
  is_locked-Counts username zero s h = rw h
  is_locked-Counts username (suc n) s h = rw h

  -- The mails that `n` failures of a name queue: one from the tenth on, where `notify_lockout` finds a
  -- user with an address.
  abbrev pub mails_due : ℕ → Option ℕ → ℕ
  mails_due n none = 0
  mails_due n (some _) = if leb lockout_threshold n then 1 else 0

  mails_sent :
      (n : ℕ) (users : List User) (username : String) (s : State)
      → Counts username 0 s
      → count is_mail (fail_times c lockout_key n users username s).0
        ≡ mails_due n (notify_lockout users username)
  unfolding fail_times register_failure
  mails_sent zero users username s h = elim (Option-cases (notify_lockout users username)) [
    | inl e ↦ rw e refl
    | inr (pk, e) ↦ rw e refl
  ]
  mails_sent (suc n) users username s h =
      let counted_up =
        (record_failure-Counts username n _ (fail_times-Counts n users username s h)).0 in
      let before = mails_sent n users username s h in
      elim (Option-cases (notify_lockout users username)) [
        | inl e ↦ rw (counted_up, e) (let b = rw e at before in ground (arith, b))
        | inr (pk, e) ↦ rw (counted_up, e) (let b = rw e at before in ground (arith, b))
      ]

  -- While the cache can be reached and the window lasts, a name is locked after exactly ten failures,
  -- whether or not there is a user of that name: after `n` failures from a clear entry it is locked
  -- if and only if 10 ≤ n. If the name is exactly that of a user with an address, one mail has been
  -- queued from the tenth failure on and none before; for any other name none is queued.
  pub lockout_exact :
      (n : ℕ) (users : List User) (username : String) (s : State)
      → Counts username 0 s
      → (is_locked c lockout_key username (fail_times c lockout_key n users username s).1
          ≡ leb lockout_threshold n)
        × (count is_mail (fail_times c lockout_key n users username s).0
            ≡ mails_due n (notify_lockout users username))
  lockout_exact n users username s h = (
    is_locked-Counts username n _ (fail_times-Counts n users username s h),
    mails_sent n users username s h,
  )

  -- A successful sign-in clears the entry, whatever it held, and the account is not locked.
  pub clear_failures-unlocks :
      (username : String) (s : State) (o : Option Value)
      → get (lockout_key username) s ≡ ok o
      → is_locked c lockout_key username (clear_failures c lockout_key username s) ≡ false
  unfolding is_locked clear_failures
  clear_failures-unlocks username s o h = rw (laws.delete_lem (lockout_key username) s o h).1

-- Where the cache cannot be reached the lockout fails open: no account is locked, no failure is
-- counted and no mail is queued.
pub lockout_fails_open :
    (c : Cache) (lockout_key : String → String) (users : List User) (username : String)
    (s : c.State)
    → IsDown c s
    → (is_locked c lockout_key username s ≡ false)
      × (register_failure c lockout_key users username s ≡ ((0, none), s))
      × (clear_failures c lockout_key username s ≡ s)
unfolding is_locked register_failure record_failure clear_failures
lockout_fails_open c lockout_key users username s down = (
  rw (down.get_raises (lockout_key username)),
  rw (down.add_raises (lockout_key username) (num 1) lockout_window_seconds),
  ap (λ (r : Reply (Unit {0}) × c.State). r.1) (down.delete_raises (lockout_key username)),
)
