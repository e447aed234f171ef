-- ===== src/Accounts/Privacy/Erasure.antt =====
-- What is left of a user after `purge_user` (Eve/accounts/management/commands/purge_user.py).
use mathlib.Core.Option.{some-injective}
use mathlib.Core.Path.{subst}
use django_app_eve.Prelude.{
  ℕ, ◌≡◌, ◌≢◌, refl, sym, ◌∙◌, ap, String, none, some, Bool, true, List, [], ◌∷◌, ◌++◌, All,
  All-mono, All-select, All-everything, find, find-select-none, select, select-select, not, ◌==◌,
  str_eq, eq_iff, arith,
}
use django_app_eve.Prelude.Unique.{Unique, find_self}
use django_app_eve.Accounts.Profiles.{Profile}
use django_app_eve.Api.Tokens.{RefreshToken}
use django_app_eve.Ecommerce.Cart.{Cart}
use django_app_eve.Payments.Models.{Order, CheckoutAttempt}
use django_app_eve.Accounts.Privacy.{
  Account, Action, Records, command_error, has_username, user_named, delete_user, log_action,
  delete_carts, purge, purge_user, export_found, export_user,
}

-- A table from which the rows of a user are gone, and those of every other user are as before.
module _ {A : Type 0} (user_of : A → ℕ) (user : ℕ) where
  pub record Gone (old new : List A) : Type 0 where
    pub none_left : All (λ a. user_of a ≢ user) new
    pub others :
        (v : ℕ) → v ≢ user → select (λ a. user_of a == v) new ≡ select (λ a. user_of a == v) old

  deleted-Gone : (l : List A) → Gone l (select (λ a. not (user_of a == user)) l)
  deleted-Gone l = record {
    none_left =
        All-mono _ _ _ (λ a h e. ground (arith, h.1, e))
          (All-select (λ a. Unit {0}) (λ a. not (user_of a == user)) l (All-everything l));
    others = λ v ne.
        select-select (λ a. user_of a == v) (λ a. not (user_of a == user)) l
          (λ a e. ground (arith, e, ne));
  }

pub record Erased (a : Account) (operator : String) (now : ℕ) (s s' : Records) : Type 0 where
  pub accounts : Gone (λ (x : Account). x.pk) a.pk s.accounts s'.accounts
  pub profiles : Gone (λ (x : Profile). x.user) a.pk s.profiles s'.profiles
  pub orders : Gone (λ (x : Order). x.user) a.pk s.orders s'.orders
  pub attempts : Gone (λ (x : CheckoutAttempt). x.user) a.pk s.attempts s'.attempts
  pub tokens : Gone (λ (x : RefreshToken). x.user) a.pk s.tokens s'.tokens
  pub carts : Gone (λ (x : Cart). x.user_id) a.pk s.carts s'.carts
  pub messages : s'.messages ≡ s.messages
  pub logged :
      s'.log
      ≡ s.log
        ++ record {
          action = Action.delete;
          username = a.username;
          user_email = a.email;
          performed_by = operator;
          details = "User, profile, and orders deleted (FK cascade)";
          created_at = now;
        }
          ∷ []

purge-Erased :
    (operator : String) (now : ℕ) (a : Account) (s : Records)
    → Erased a operator now s (purge operator now (some a) s).1
unfolding purge delete_user log_action delete_carts
purge-Erased operator now a s = record {
  accounts = deleted-Gone (λ (x : Account). x.pk) a.pk s.accounts;
  profiles = deleted-Gone (λ (x : Profile). x.user) a.pk s.profiles;
  orders = deleted-Gone (λ (x : Order). x.user) a.pk s.orders;
  attempts = deleted-Gone (λ (x : CheckoutAttempt). x.user) a.pk s.attempts;
  tokens = deleted-Gone (λ (x : RefreshToken). x.user) a.pk s.tokens;
  carts = deleted-Gone (λ (x : Cart). x.user_id) a.pk s.carts;
  messages = refl;
  logged = refl;
}

-- The name of a deleted account names nobody.
name_free :
    (username : String) (a : Account) (l : List Account)
    → Unique (λ (x : Account). x.username) l
    → find (has_username username) l ≡ some a
    → find (has_username username) (select (λ (x : Account). not (x.pk == a.pk)) l) ≡ none
name_free username a l unique named =
    find-select-none (has_username username) (λ (x : Account). not (x.pk == a.pk)) l
      (All-mono _ _ l
        (λ x h e. ground (
          arith,
          ap (λ (y : Account). y.pk)
              (some-injective x a (
                sym h
                ∙ subst (λ k. find (has_username k) l ≡ some a)
                    (sym ((eq_iff x.username username).0 e)) named)),
        ))
        (find_self (λ (x : Account). x.username) str_eq eq_iff l unique))

-- A confirmed `purge_user` of an existing name leaves no row and no cart of that user in any table of
-- users, profiles, orders, checkout attempts and refresh tokens, leaves those of every other user as
-- they were, and appends one entry to the audit log that names the user, the address and the
-- operator. Messages sent by the contact form are untouched. Afterwards the name is unknown, so an
-- export or a second purge ends with CommandError and changes nothing.
pub purge_user-Erased :
    (same_address : String → String → Bool) (username operator : String) (now : ℕ) (a : Account)
    (s : Records)
    → Unique (λ (x : Account). x.username) s.accounts
    → user_named username s ≡ some a
    → let s' = (purge_user true username operator now s).1 in
      Erased a operator now s s'
      × ((who : String) (later : ℕ)
          → (export_user same_address username who later s' ≡ (command_error, s'))
            × (purge_user true username who later s' ≡ (command_error, s')))
unfolding purge_user user_named export_user export_found purge delete_user log_action delete_carts
purge_user-Erased same_address username operator now a s unique named = rw named (
  purge-Erased operator now a s,
  λ who later.
      let free = name_free username a s.accounts unique named in (rw free refl, rw free refl),
)
