-- ===== src/Accounts/Verification.antt =====
-- Eve/accounts/views.py (`register_view`, `verify_email_view`, `resend_verification_view`, `profile_view`),
-- Eve/accounts/forms.py and the mail of Eve/accounts/tasks.py. Signing is a parameter, as are the checks
-- that Django's UserCreationForm makes, and the comparison of addresses by `iexact`, which is
-- equality of a normal form.
pub mod Link
pub mod Traces
pub mod OneAccount
use django_app_eve.Prelude.{
  ℕ, ◌+◌, ◌*◌, String, Option, none, some, Bool, true, false, List, [], ◌∷◌, ◌++◌, find,
  update_where, not, ◌&&◌, ◌==◌, str_eq, if◌then◌else◌,
}
use django_app_eve.Core.Cache.{Cache}
use django_app_eve.Core.Throttling.{Response, rate_limit}
use django_app_eve.Accounts.Profiles.{Profile, is_profile_of, get_or_create}

pub record Member : Type 0 where
  pub pk : ℕ
  pub username : String
  pub email : String

-- `signing.loads` with EMAIL_TOKEN_SALT: the value at "uid", where there is one, or BadSignature,
-- which is also raised for a token that is too old.
pub data Loaded : Type 0 where
  uid : ℕ → Loaded
  no_uid bad_signature : Loaded

-- `dumps` at a time, and `loads` at a time with a `max_age`.
pub record MailSigner : Type 1 where
  pub Token : Type 0
  pub dumps : ℕ → ℕ → Token
  pub loads : ℕ → ℕ → Token → Loaded

-- EMAIL_TOKEN_MAX_AGE, in seconds.
abbrev pub email_token_max_age : ℕ
email_token_max_age = 60 * 60 * 24 * 3

pub data Page : Type 0 where
  landing register_form to_profile not_allowed : Page
  verification : (success : Bool) → Page
  profile_page : Profile → Page

pub record Members : Type 0 where
  pub users : List Member
  pub profiles : List Profile
  pub next_pk : ℕ

abbrev pub is_member : ℕ → Member → Bool
is_member pk u = u.pk == pk

-- What a POST to the registration brings; `is_acceptable` is what UserCreationForm finds.
pub record Registration : Type 0 where
  pub is_post : Bool
  pub username : String
  pub email : String
  pub is_acceptable : Bool

-- The mail of `send_verification_email`: to whom, and the token in its link. `none` is
-- User.DoesNotExist.
pub record Mail (T : Type 0) : Type 0 where
  pub to : String
  pub token : T

module _ (signer : MailSigner) where
  unfoldable pub mail_to : ℕ → Option Member → Option (Mail signer.Token)
  mail_to now none = none
  mail_to now (some u) = some (record { to = u.email; token = signer.dumps now u.pk })

  unfoldable pub send_verification_email : ℕ → ℕ → Members → Option (Mail signer.Token)
  unfolding mail_to
  send_verification_email now user s = mail_to now (find (is_member user) s.users)

  unfoldable pub confirm : Profile → Profile
  confirm p = record p { email_verified = true }

  unfoldable pub confirm_user : Option Member → Members → Page × Members
  unfolding confirm
  confirm_user none s = (verification false, s)
  confirm_user (some u) s =
      let (p, profiles) = get_or_create u.pk s.profiles in
      let s' = record s { profiles = profiles } in
      if not p.email_verified
      then (
        verification true,
        record s' { profiles = update_where (is_profile_of u.pk) confirm profiles },
      )
      else (verification true, s')

  unfoldable pub confirm_loaded : Loaded → Members → Page × Members
  unfolding confirm_user
  confirm_loaded (uid n) s = confirm_user (find (is_member n) s.users) s
  confirm_loaded no_uid s = (verification false, s)
  confirm_loaded bad_signature s = (verification false, s)

  unfoldable pub verify_email_view : ℕ → signer.Token → Members → Page × Members
  unfolding confirm_loaded
  verify_email_view now token s = confirm_loaded (signer.loads now email_token_max_age token) s

-- `User.objects.filter(email__iexact=email).exists()`
module _ (normal : String → String) where
  abbrev pub has_address : String → Member → Bool
  has_address email u = str_eq (normal u.email) (normal email)

  -- `RegistrationForm.is_valid`, with `clean_email`.
  unfoldable pub is_valid : Registration → Members → Bool
  is_valid r s =
      r.is_acceptable && elim (find (has_address r.email) s.users) [ none ↦ true | some u ↦ false ]

  -- The new user, and the profile.
  unfoldable pub save_user : Registration → Members → Members
  save_user r s =
      let user : Member = record { pk = s.next_pk; username = r.username; email = r.email } in
      record {
        users = s.users ++ user ∷ [];
        profiles = (get_or_create s.next_pk s.profiles).1;
        next_pk = s.next_pk + 1;
      }

  -- `register_view` inside its limit: the page, the user to whom a mail is queued (a queue that fails is only logged), and the state.
  unfoldable pub register_view : Registration → Members → (Page × Option ℕ) × Members
  unfolding is_valid save_user
  register_view r s =
      if r.is_post && is_valid r s
      then ((landing, some s.next_pk), save_user r s)
      else ((register_form, none), s)

-- `resend_verification_view` inside its limit: only a POST, of a user who is signed in; a mail is queued for an address that is not verified.
unfoldable pub resend_verification_view : Bool → ℕ → Members → (Page × Option ℕ) × Members
resend_verification_view is_post user s =
    if not is_post
    then ((not_allowed, none), s)
    else (let (p, profiles) = get_or_create user s.profiles in
        (
          (to_profile, (if not p.email_verified then some user else none)),
          record s { profiles = profiles },
        ))

unfoldable pub profile_view : ℕ → Members → Page × Members
profile_view user s =
    let (p, profiles) = get_or_create user s.profiles in
    (profile_page p, record s { profiles = profiles })

-- The limits of an address round the two views; `limit_key` is the entry of the address and the
-- window.
module _ (c : Cache) (scaled : ℕ → ℕ) (limit_key : String) where
  -- What a view that keeps nothing in the cache does inside a limit.
  abbrev beside : {A : Type 0} → A → c.State → A × c.State
  beside a cache = (a, cache)

  unfoldable pub limited_register_view :
      (String → String)
      → Registration
      → Members
      → c.State
      → Response ((Page × Option ℕ) × Members) × c.State
  unfolding register_view
  limited_register_view normal r s cache =
      rate_limit c scaled 5 3600 r.is_post limit_key (beside (register_view normal r s)) cache

  unfoldable pub limited_resend_verification_view :
      Bool → ℕ → Members → c.State → Response ((Page × Option ℕ) × Members) × c.State
  unfolding resend_verification_view
  limited_resend_verification_view is_post user s cache =
      rate_limit c scaled 3 3600 is_post limit_key
        (beside (resend_verification_view is_post user s)) cache
