-- ===== src/Accounts/Privacy.antt =====
-- Eve/accounts/management/commands/purge_user.py and export_user.py, over the tables that hold a
-- user's data (Eve/accounts/models.py, Eve/core/models.py, Eve/payments/models.py, Eve/api/models.py) and the
-- collection of carts.
pub mod Erasure
use django_app_eve.Prelude.{
  ℕ, String, Option, none, some, Bool, true, false, List, [], ◌∷◌, ◌++◌, map, find, select, count,
  not, ◌==◌, str_eq, if◌then◌else◌,
}
use django_app_eve.Accounts.Profiles.{Profile, is_profile_of}
use django_app_eve.Api.Tokens.{RefreshToken}
use django_app_eve.Ecommerce.Cart.{LineItem, Cart, find_cart}
use django_app_eve.Payments.Models.{Order, CheckoutAttempt}

-- The columns of Django's user that the commands read.
pub record Account : Type 0 where
  pub pk : ℕ
  pub username : String
  pub email : String
  pub date_joined : ℕ
  pub last_login : Option ℕ

pub record ContactMessage : Type 0 where
  pub name : String
  pub email : String
  pub subject : String
  pub message : String
  pub created_at : ℕ

pub data Action : Type 0 where
  export delete : Action

pub record PrivacyActionLog : Type 0 where
  pub action : Action
  pub username : String
  pub user_email : String
  pub performed_by : String
  pub details : String
  pub created_at : ℕ

-- Everything that the application stores about its users.
pub record Records : Type 0 where
  pub accounts : List Account
  pub profiles : List Profile
  pub orders : List Order
  pub attempts : List CheckoutAttempt
  pub tokens : List RefreshToken
  pub messages : List ContactMessage
  pub log : List PrivacyActionLog
  pub carts : List Cart

-- A command ends with its output or with CommandError.
pub data Result {ℓ} (A : Type ℓ) : Type ℓ where
  done : A → Result A
  command_error : Result A

abbrev pub has_username : String → Account → Bool
has_username username a = str_eq a.username username

-- `User.objects.get(username=…)`; the column is unique.
unfoldable pub user_named : String → Records → Option Account
user_named username s = find (has_username username) s.accounts

-- `user.delete()`: the row, and by `on_delete=CASCADE` the rows that refer to it.
unfoldable pub delete_user : ℕ → Records → Records
delete_user user s = record s {
  accounts = select (λ (a : Account). not (a.pk == user)) s.accounts;
  profiles = select (λ (p : Profile). not (p.user == user)) s.profiles;
  orders = select (λ (o : Order). not (o.user == user)) s.orders;
  attempts = select (λ (a : CheckoutAttempt). not (a.user == user)) s.attempts;
  tokens = select (λ (t : RefreshToken). not (t.user == user)) s.tokens;
}

unfoldable pub log_action : Action → String → String → ℕ → Account → Records → Records
log_action action details operator now a s = record s {
  log =
      s.log
      ++ record {
        action = action;
        username = a.username;
        user_email = a.email;
        performed_by = operator;
        details = details;
        created_at = now;
      }
        ∷ [];
}

-- `carts_collection.delete_many({"user_id": …})`
unfoldable pub delete_carts : ℕ → Records → Records
delete_carts user s = record s { carts = select (λ (c : Cart). not (c.user_id == user)) s.carts }

unfoldable pub purge : String → ℕ → Option Account → Records → Result ℕ × Records
unfolding delete_user log_action delete_carts
purge operator now none s = (command_error, s)
purge operator now (some a) s = (
  done (count (λ (c : Cart). c.user_id == a.pk) s.carts),
  delete_carts a.pk (
      log_action delete "User, profile, and orders deleted (FK cascade)" operator now a
        (delete_user a.pk s)),
)

-- `purge_user`; the result is the number of carts that were removed.
unfoldable pub purge_user : Bool → String → String → ℕ → Records → Result ℕ × Records
unfolding purge
purge_user confirmed username operator now s =
    if not confirmed then (command_error, s) else purge operator now (user_named username s) s

-- What an export holds of each table.
pub record Export : Type 0 where
  pub account : Account
  pub profile : Option Profile
  pub orders : List Order
  pub messages : List ContactMessage
  pub cart : Option Cart

-- `same_address` is the comparison `__iexact` of PostgreSQL.
module _ (same_address : String → String → Bool) where
  unfoldable pub export_of : Account → Records → Export
  export_of a s = record {
    account = a;
    profile = find (is_profile_of a.pk) s.profiles;
    orders = select (λ (o : Order). o.user == a.pk) s.orders;
    messages = select (λ (m : ContactMessage). same_address m.email a.email) s.messages;
    cart = find_cart a.pk s.carts;
  }

  unfoldable pub export_found : String → ℕ → Option Account → Records → Result Export × Records
  unfolding export_of log_action
  export_found operator now none s = (command_error, s)
  export_found operator now (some a) s = (
    done (export_of a s),
    log_action export "Full data export (account, profile, orders, contact, cart)" operator now a s,
  )

  -- `export_user`
  unfoldable pub export_user : String → String → ℕ → Records → Result Export × Records
  unfolding export_found
  export_user username operator now s = export_found operator now (user_named username s) s
