-- ===== src/Tests/Api.antt =====
-- The theorems about the endpoints of the API, at one user, one device and one cart.
use django_app_eve.Prelude.{
  ℕ, String, ◌≡◌, ◌≢◌, ◌↔◌, refl, true, false, none, some, Option, Bool, List, [], ◌∷◌, find, leb,
  All, str_eq, strip, if◌then◌else◌, inr, arith,
}
use django_app_eve.Accounts.Profiles.{Profile, get_or_create}
use django_app_eve.Core.Throttling.{
  served, effective_limit, exceeds, current_count, count_from, incremented, rate_limit,
}
use django_app_eve.Accounts.Lockout
use django_app_eve.Accounts.Lockout.{
  is_locked, at_threshold, count_on, record_failure, register_failure,
}
use django_app_eve.Accounts.Login.{locked, fail, check_password, login_view, limited_login_view}
use django_app_eve.Accounts.Login.Locks.{submit}
use django_app_eve.Api.Tokens.{
  User, RefreshToken, Store, Signer, Payload, loaded, signature_expired, issue_access_token,
}
use django_app_eve.Api.Tokens
use django_app_eve.Api.Authentication.{authenticated, authenticate, Credited, authenticate_iff}
use django_app_eve.Api.TokenView.{
  Otp, Deployment, Credentials, Draw, pair, error, Site, token_post, token_delete, refresh_post,
  check_user, check_factor, after_factor, count_failure, limited_token_post, grant, second_factor,
  ask_devices, any_verifies,
}
use django_app_eve.Api.TokenView.Grants.{MaySignIn, checked, token_post-grant}
use django_app_eve.Api.TokenView.Limited.{
  answered, counted, LetThrough, limited_token_post-grants_iff,
}
use django_app_eve.Api.Tokens.Rotation.{here}
use django_app_eve.Api.TokenView.Session.{Works, token_post-Works}
use django_app_eve.Api.TokenView.Guessing.{
  Guess, form, api, is_valid, limit_key_of, Misses, guess_once, guess_all,
}
use django_app_eve.Api.TokenView.Guessing.Locks.{shown, guess_all-locks}
use django_app_eve.Tests.Caches.{dict_cache, dict_laws, empty_dict}
use django_app_eve.Tests.Tokens.{clear_signer, clear_laws, ann}

abbrev is_code : String → Bool
is_code code = str_eq code "123456"

-- One device for each user, that accepts one code.
abbrev otp : Otp
otp = record {
  State = Unit;
  Device = Unit;
  devices_for_user = λ user s. tt ∷ [];
  verify_token = λ device code s. (is_code code, s);
}

abbrev knows : String → String → Option User
knows username password = if str_eq password "secret" then some ann else none

abbrev deployment : Deployment
deployment = record {
  cache = dict_cache;
  signer = clear_signer;
  otp = otp;
  lockout_key = λ s. s;
  accounts = [];
  authenticate = knows;
  hash = λ s. s;
  ttl = 900;
  days = 3000;
}

abbrev verified : Profile
verified = record {
  user = 4;
  email_verified = true;
  is_long_term_patient = false;
  hospital_name = "";
  room_number = "";
  preferred_vr_mode = "";
}

abbrev site : Site deployment
site = record {
  cache = empty_dict;
  store = record { users = ann ∷ []; tokens = []; next_pk = 1 };
  profiles = verified ∷ [];
  otp = tt;
}

abbrev draw : ℕ → String → Draw
draw now raw = record { now = now; raw_token = raw; family = raw; user_agent = "agent" }

abbrev right : Credentials
right = record { username = "ann"; password = "secret"; code = some " 123456 " }

abbrev signed_in : Site deployment
signed_in =
    (grant deployment (draw 100 "r1") "ann" ann
      (checked deployment (draw 100 "r1") right site ann)).1

may : MaySignIn deployment (draw 100 "r1") right site ann
unfolding strip find get_or_create is_locked any_verifies
may = record {
  unlocked = refl;
  known = refl;
  active = refl;
  factor = inr ((λ e. cc), refl);
  verified = refl;
}

opens :
    token_post deployment (draw 100 "r1") (some right) site
    ≡ (pair (issue_access_token clear_signer 900 100 ann).0 "r1" 900, signed_in)
unfolding grant issue_access_token
opens = token_post-grant deployment (draw 100 "r1") right site ann may

abbrev unscaled : ℕ → ℕ
unscaled n = n

limited_token_post-grants_iff_example :
    (limited_token_post deployment unscaled "limit" (draw 100 "r1") (some right) site ≡ (
      served (pair (issue_access_token clear_signer 900 100 ann).0 "r1" 900, signed_in),
      signed_in.cache,
    ))
    ↔ (LetThrough deployment unscaled "limit" site
        × ((u : User) × MaySignIn deployment
              (draw 100 "r1")
              right
              (counted deployment unscaled "limit" site)
              u
            × (grant deployment (draw 100 "r1") "ann" u (
                  checked deployment
                    (draw 100 "r1")
                    right
                    (counted deployment unscaled "limit" site)
                    u)
                ≡ (pair (issue_access_token clear_signer 900 100 ann).0 "r1" 900, signed_in))))
limited_token_post-grants_iff_example =
    limited_token_post-grants_iff deployment unscaled "limit" (draw 100 "r1") right site
      (issue_access_token clear_signer 900 100 ann).0 "r1" 900 signed_in

-- The refresh token is exchanged after the access token expired, and presented again later.
abbrev after_refresh : Site deployment
after_refresh = (refresh_post deployment (draw 1050 "r2") (some "r1") signed_in).1

token_post-Works_example :
    Works deployment 400
      (draw 1050 "r2")
      (draw 1060 "r3")
      after_refresh
      ann
      (pair (issue_access_token clear_signer 900 100 ann).0 "r1" 900, signed_in)
unfolding find
token_post-Works_example =
    token_post-Works deployment clear_laws (draw 100 "r1") 400 (draw 1050 "r2") (draw 1060 "r3")
      right site signed_in after_refresh (issue_access_token clear_signer 900 100 ann).0 "r1" 900
      ann opens refl refl refl (omega arith) (omega arith) (omega arith) here

abbrev row : RefreshToken
row = record {
  pk = 9;
  user = 4;
  token_hash = "h1";
  family = "f1";
  label = "";
  expires_at = 500;
  used_at = none;
  revoked_reason = "";
}

abbrev with_row : Site deployment
with_row = record site { store = record { users = ann ∷ []; tokens = row ∷ []; next_pk = 10 } }

abbrev signed_out : Site deployment
signed_out = (token_delete deployment 200 (some 4) with_row).1

-- Eleven guesses from three addresses: six passwords at the page, of which the limit refuses the sixth,
-- and five at the API.
abbrev guesses : List (Guess deployment)
guesses =
    form "p1" "a"
    ∷ form "p1" "b"
    ∷ form "p1" "c"
    ∷ form "p1" "d"
    ∷ form "p1" "e"
    ∷ form "p1" "f"
    ∷ api "t1" (draw 1 "x") "secret" (some "1")
    ∷ api "t1" (draw 2 "x") "secret" (some "2")
    ∷ api "t1" (draw 3 "x") "secret" (some "3")
    ∷ api "t2" (draw 4 "x") "wrong" none
    ∷ api "t2" (draw 5 "x") "wrong" none
    ∷ []

abbrev after_guesses : ℕ × Site deployment
after_guesses = guess_all deployment unscaled "ann" guesses site

abbrev Apart : List (Guess deployment) → Type 0
Apart l = All (λ (g : Guess deployment). limit_key_of deployment g ≢ "ann") l

apart : Apart guesses
apart = (
  (λ e. cc),
  (
    (λ e. cc),
    (
      (λ e. cc),
      (
        (λ e. cc),
        (
          (λ e. cc),
          ((λ e. cc), ((λ e. cc), ((λ e. cc), ((λ e. cc), ((λ e. cc), ((λ e. cc), tt)))))),
        ),
      ),
    ),
  ),
)

wrong_guesses : All (Misses deployment "ann") guesses
unfolding second_factor ask_devices any_verifies strip
wrong_guesses = (
  refl,
  (
    refl,
    (
      refl,
      (refl, (refl, (refl, ((λ a t. refl), ((λ a t. refl), ((λ a t. refl), (tt, (tt, tt)))))))),
    ),
  ),
)

page_let_through : LetThrough deployment unscaled "p2" after_guesses.1
unfolding guess_all guess_once limited_login_view limited_token_post rate_limit current_count
    count_from incremented exceeds effective_limit login_view check_password fail register_failure
    record_failure count_on Lockout.counted is_locked at_threshold token_post check_user
    check_factor after_factor second_factor ask_devices any_verifies strip count_failure
page_let_through = refl

api_let_through : LetThrough deployment unscaled "t2" after_guesses.1
unfolding guess_all guess_once limited_login_view limited_token_post rate_limit current_count
    count_from incremented exceeds effective_limit login_view check_password fail register_failure
    record_failure count_on Lockout.counted is_locked at_threshold token_post check_user
    check_factor after_factor second_factor ask_devices any_verifies strip count_failure
api_let_through = refl

guess_all-locks_example :
    let (n, s') = after_guesses in
    let at_page = counted deployment unscaled "p2" s' in
    let at_api = counted deployment unscaled "t2" s' in
    (limited_login_view dict_cache
        (λ s. s)
        []
        (is_valid deployment)
        unscaled
        "p2"
        (submit "ann" "secret")
        s'.cache
      ≡ shown deployment dict_laws unscaled "ann" refl (
          if leb 10 n
          then (locked, at_page.cache)
          else check_password dict_cache
              (λ s. s)
              []
              (is_valid deployment)
              (submit "ann" "secret")
              at_page.cache))
    × (limited_token_post deployment unscaled "t2" (draw 9 "y") (some right) s'
        ≡ answered deployment (
            if leb 10 n
            then (error 429 "account_locked", at_api)
            else check_user deployment (draw 9 "y") right (knows "ann" "secret") at_api))
guess_all-locks_example =
    guess_all-locks deployment dict_laws unscaled "ann" refl guesses site "p2" "t2" (draw 9 "y")
      "secret" (some " 123456 ") wrong_guesses apart (λ e. cc) (λ e. cc) refl page_let_through
      api_let_through

-- A decoder for one token.
abbrev decode : String → Option (ℕ × Payload)
decode raw = if str_eq raw "abc" then some (100, record { uid = 4; ver = 2 }) else none

authenticate_iff_example :
    (authenticate clear_signer decode 900 200 (ann ∷ []) "token  abc" ≡ authenticated ann)
    ↔ Credited clear_signer decode 900 200 (ann ∷ []) "token  abc" ann
authenticate_iff_example = authenticate_iff clear_signer decode 900 200 (ann ∷ []) "token  abc" ann
