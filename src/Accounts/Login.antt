-- ===== src/Accounts/Login.antt =====
-- Eve/accounts/views.py: `login_view`, over the lockout. The form (Django's AuthenticationForm, which
-- checks the password) is an argument: whether a name and a password are valid.
pub mod Locks
use django_app_eve.Prelude.{
  ℕ, String, Option, Bool, true, false, List, ◌&&◌, not, str_eq, if◌then◌else◌,
}
use django_app_eve.Core.Cache.{Cache}
use django_app_eve.Core.Throttling.{Response, rate_limit}
use django_app_eve.Accounts.Lockout.{User, is_locked, clear_failures, register_failure}

-- The answers: a redirect of a user who is signed in already, the form, the form with status 429, and
-- the redirect of a user who has just signed in.
pub data Page : Type 0 where
  landing form locked signed_in : Page

pub record Attempt : Type 0 where
  pub is_authenticated : Bool
  pub is_post : Bool
  pub username : String
  pub password : String

module _ (c : Cache) (lockout_key : String → String) (users : List User)
    (is_valid : String → String → Bool) where
  open c use {State}

  unfoldable pub fail : String → State → Page × State
  fail username s =
      if str_eq username ""
      then (form, s)
      else (form, (register_failure c lockout_key users username s).1)

  -- Past the lockout: the password is checked.
  unfoldable pub check_password : Attempt → State → Page × State
  unfolding fail
  check_password a s =
      if is_valid a.username a.password
      then (signed_in, clear_failures c lockout_key a.username s)
      else fail a.username s

  -- `login_view` inside the limit.
  unfoldable pub login_view : Attempt → State → Page × State
  unfolding check_password
  login_view a s =
      if a.is_authenticated
      then (landing, s)
      else if not a.is_post
      then (form, s)
      else if not (str_eq a.username "") && is_locked c lockout_key a.username s
      then (locked, s)
      else check_password a s

  -- The whole of `login_view`, with the limit of the address; `limit_key` is the entry of the address
  -- and the window.
  unfoldable pub limited_login_view : (ℕ → ℕ) → String → Attempt → State → Response Page × State
  unfolding login_view
  limited_login_view scaled limit_key a s =
      rate_limit c scaled 5 300 a.is_post limit_key (login_view a) s
