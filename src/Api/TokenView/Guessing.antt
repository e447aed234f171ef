-- ===== src/Api/TokenView/Guessing.antt =====
-- Guessing at both doors: the sign-in page (`login_view` of Eve/accounts/views.py) and the tokens
-- (`TokenView.post` of Eve/api/v1/views.py), each behind the limit of the address.
pub mod Locks
use django_app_eve.Prelude.{
  ℕ, suc, ◌≡◌, String, Option, none, some, Bool, true, false, List, [], ◌∷◌, if◌then◌else◌,
}
use django_app_eve.Core.Throttling.{Response, too_many, served}
use django_app_eve.Accounts.Login.{Page, limited_login_view}
use django_app_eve.Accounts.Login.Locks.{submit}
use django_app_eve.Api.Tokens.{User}
use django_app_eve.Api.TokenView.{
  Deployment, Credentials, Draw, wrong, Site, Seen, second_factor, limited_token_post,
}

-- The form accepts what `authenticate` accepts for an active user.
abbrev pub is_accepted : Option User → Bool
is_accepted none = false
is_accepted (some u) = u.is_active

module _ (d : Deployment) where
  abbrev pub is_valid : String → String → Bool
  is_valid username password = is_accepted (d.authenticate username password)

  -- One guess: a password at the form, or a password and perhaps a code at the API. The first text is
  -- the entry of the limit, of the address that the guess comes from and the window.
  pub data Guess : Type 0 where
    form : String → String → Guess
    api : String → Draw → String → Option String → Guess

  abbrev pub limit_key_of : Guess → String
  limit_key_of (form limit_key password) = limit_key
  limit_key_of (api limit_key draw password code) = limit_key

  abbrev pub credentials : String → String → Option String → Credentials
  credentials username password code = record {
    username = username;
    password = password;
    code = code;
  }

  -- Whether the limit let the request through, and the site after it.
  abbrev pub after_page : Site d → Response Page × d.cache.State → Bool × Site d
  after_page s (served page, cache) = (true, record s { cache = cache })
  after_page s (too_many, cache) = (false, record s { cache = cache })

  abbrev pub after_answer : Site d → Response (Seen d) × d.cache.State → Bool × Site d
  after_answer s (served seen, cache) = (true, seen.1)
  after_answer s (too_many, cache) = (false, record s { cache = cache })

  unfoldable pub guess_once : (ℕ → ℕ) → String → Guess → Site d → Bool × Site d
  guess_once scaled username (form limit_key password) s = after_page s (
      limited_login_view d.cache d.lockout_key d.accounts is_valid scaled limit_key
        (submit username password) s.cache)
  guess_once scaled username (api limit_key draw password code) s =
      after_answer s
        (limited_token_post d scaled limit_key draw (some (credentials username password code)) s)

  -- The guesses one after another: how many of them the limits let through, and the site.
  unfoldable pub guess_all : (ℕ → ℕ) → String → List Guess → Site d → ℕ × Site d
  guess_all scaled username [] s = (0, s)
  guess_all scaled username (g ∷ rest) s =
      let (through, s') = guess_once scaled username g s in
      let (n, s'') = guess_all scaled username rest s' in ((if through then suc n else n), s'')

  -- The password is wrong, or the user inactive; or, at the API, the code is given and no device ever
  -- accepts it.
  abbrev pub IsWrong : Option User → Option String → Type 0
  IsWrong none code = Unit
  IsWrong (some u) code =
      (u.is_active ≡ true) → (t : d.otp.State) → (second_factor d u code t).0 ≡ wrong

  abbrev pub Misses : String → Guess → Type 0
  Misses username (form limit_key password) = is_valid username password ≡ false
  Misses username (api limit_key draw password code) =
      IsWrong (d.authenticate username password) code
