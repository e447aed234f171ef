-- ===== src/Api/TokenView.antt =====
-- Eve/api/v1/views.py: `TokenView` and `TokenRefreshView`, over the lockout (Accounts/Lockout), the limit
-- of an address (Core/Throttling) and the tokens (Api/Tokens). Checking a password, the devices of
-- a second factor and the digest of a refresh token are arguments.
pub mod Session
pub mod Grants
pub mod Limited
pub mod Guessing
use django_app_eve.Prelude.{
  ℕ, String, Option, none, some, Bool, true, false, List, [], ◌∷◌, ◌++◌, find, update_where, ◌==◌,
  ◌&&◌, not, str_eq, strip, cut, if◌then◌else◌,
}
use django_app_eve.Core.Cache.{Cache}
use django_app_eve.Core.Throttling.{Response, too_many, served, rate_limit}
use django_app_eve.Accounts.Lockout
use django_app_eve.Accounts.Lockout.{is_locked, clear_failures, register_failure}
use django_app_eve.Accounts.Profiles.{Profile, get_or_create}
use django_app_eve.Api.Tokens.{
  User, Store, Signer, Result, ok, invalid, issue_access_token, issue_refresh_token, is_user,
  rotate_refresh_token, revoke_all_tokens,
}

-- django_otp: the confirmed devices of a user, and a device's check of a code, which may change it.
pub record Otp : Type 1 where
  pub State : Type 0
  pub Device : Type 0
  pub devices_for_user : ℕ → State → List Device
  pub verify_token : Device → String → State → Bool × State

-- What the endpoints take from elsewhere: the cache, the signer, the devices, the key of an entry of
-- the lockout, the users that its mail goes to, `authenticate`, and `hash_refresh_token`.
pub record Deployment : Type 1 where
  pub cache : Cache
  pub signer : Signer
  pub otp : Otp
  pub lockout_key : String → String
  pub accounts : List Lockout.User
  pub authenticate : String → String → Option User
  pub hash : String → String
  pub ttl : ℕ
  pub days : ℕ

-- A validated payload.
pub record Credentials : Type 0 where
  pub username : String
  pub password : String
  pub code : Option String

-- The time, the texts that `secrets` draws, and the User-Agent header.
pub record Draw : Type 0 where
  pub now : ℕ
  pub raw_token : String
  pub family : String
  pub user_agent : String

pub data Answer (T : Type 0) : Type 0 where
  pair : T → String → ℕ → Answer T
  no_content : Answer T
  error : ℕ → String → Answer T

-- The outcome of the second factor.
pub data Factor : Type 0 where
  passed missing wrong : Factor

module _ (d : Deployment) where
  abbrev pub Token : Type 0
  Token = d.signer.Token

  pub record Site : Type 0 where
    pub cache : d.cache.State
    pub store : Store
    pub profiles : List Profile
    pub otp : d.otp.State

  abbrev pub Seen : Type 0
  Seen = Answer Token × Site

  -- `any(device.verify_token(otp_code) for device in devices)`
  unfoldable pub any_verifies : List d.otp.Device → String → d.otp.State → Bool × d.otp.State
  any_verifies [] code s = (false, s)
  any_verifies (device ∷ rest) code s =
      let (accepted, s') = d.otp.verify_token device code s in
      let others = any_verifies rest code s' in if accepted then (true, s') else others

  abbrev pub outcome : Bool × d.otp.State → Factor × d.otp.State
  outcome (true, s) = (passed, s)
  outcome (false, s) = (wrong, s)

  abbrev pub text_of : Option String → String
  text_of none = ""
  text_of (some s) = s

  unfoldable pub ask_devices :
      List d.otp.Device → Option String → d.otp.State → Factor × d.otp.State
  unfolding any_verifies
  ask_devices [] code s = (passed, s)
  ask_devices (device ∷ rest) code s =
      let otp_code = strip (text_of code) in
      if str_eq otp_code "" then (missing, s) else outcome (any_verifies (device ∷ rest) otp_code s)

  unfoldable pub second_factor : User → Option String → d.otp.State → Factor × d.otp.State
  second_factor u code s = ask_devices (d.otp.devices_for_user u.pk s) code s

  unfoldable pub count_failure : String → Site → Site
  count_failure username s = record s {
    cache = (register_failure d.cache d.lockout_key d.accounts username s.cache).1;
  }

  -- The end of a sign-in: the failures are forgotten and the two tokens are issued.
  unfoldable pub grant : Draw → String → User → Site → Seen
  grant draw username u s =
      let (access, expires_in) = issue_access_token d.signer d.ttl draw.now u in
      (
        pair access draw.raw_token expires_in,
        record s {
          cache = clear_failures d.cache d.lockout_key username s.cache;
          store =
              issue_refresh_token draw.now d.days u.pk (d.hash draw.raw_token) draw.family
                (cut 64 draw.user_agent) s.store;
        },
      )

  unfoldable pub check_profile : Draw → String → User → Site → Seen
  unfolding grant
  check_profile draw username u s =
      let (p, profiles) = get_or_create u.pk s.profiles in
      let s' = record s { profiles = profiles } in
      if not p.email_verified
      then (error 403 "email_not_verified", s')
      else grant draw username u s'

  unfoldable pub after_factor : Draw → String → User → Factor → Site → Seen
  unfolding check_profile count_failure
  after_factor draw username u missing s = (error 403 "otp_required", s)
  after_factor draw username u wrong s = (error 403 "otp_invalid", count_failure username s)
  after_factor draw username u passed s = check_profile draw username u s

  unfoldable pub check_factor : Draw → Credentials → User → Site → Seen
  unfolding after_factor second_factor
  check_factor draw r u s =
      let (factor, otp) = second_factor u r.code s.otp in
      after_factor draw r.username u factor (record s { otp = otp })

  unfoldable pub check_user : Draw → Credentials → Option User → Site → Seen
  unfolding check_factor count_failure
  check_user draw r none s = (error 400 "invalid_credentials", count_failure r.username s)
  check_user draw r (some u) s =
      if not u.is_active
      then (error 400 "invalid_credentials", count_failure r.username s)
      else check_factor draw r u s

  -- `TokenView.post` inside the limit; `none` is a payload that the serializer refuses.
  unfoldable pub token_post : Draw → Option Credentials → Site → Seen
  unfolding check_user
  token_post draw none s = (error 400 "validation_error", s)
  token_post draw (some r) s =
      if is_locked d.cache d.lockout_key r.username s.cache
      then (error 429 "account_locked", s)
      else check_user draw r (d.authenticate r.username r.password) s

  -- The whole of `TokenView.post`; `limit_key` is the entry of the address and the window.
  unfoldable pub limited_token_post :
      (ℕ → ℕ) → String → Draw → Option Credentials → Site → Response Seen × d.cache.State
  unfolding token_post
  limited_token_post scaled limit_key draw r s =
      rate_limit d.cache scaled 5 300 true limit_key
        (λ cache. let seen = token_post draw r (record s { cache = cache }) in (seen, seen.1.cache))
        s.cache

  -- `TokenView.delete`, for the user that authentication found.
  unfoldable pub token_delete : ℕ → Option ℕ → Site → Seen
  token_delete now none s = (error 401 "authentication_required", s)
  token_delete now (some user) s =
      (no_content, record s { store = (revoke_all_tokens now user s.store).1 })

  -- The owner of a row is a row of the table of users, by the foreign key.
  unfoldable pub refreshed_for : Draw → Option User → Answer Token
  refreshed_for draw none = error 500 "no_such_user"
  refreshed_for draw (some u) =
      let (access, expires_in) = issue_access_token d.signer d.ttl draw.now u in
      pair access draw.raw_token expires_in

  unfoldable pub refreshed : Draw → Result ℕ × Store → Site → Seen
  unfolding refreshed_for
  refreshed draw (invalid reason, store) s =
      (error 401 "invalid_refresh_token", record s { store = store })
  refreshed draw (ok user, store) s =
      (refreshed_for draw (find (is_user user) store.users), record s { store = store })

  -- `TokenRefreshView.post`
  unfoldable pub refresh_post : Draw → Option String → Site → Seen
  unfolding refreshed
  refresh_post draw none s = (error 400 "validation_error", s)
  refresh_post draw (some presented) s =
      refreshed draw
        (rotate_refresh_token draw.now d.days (d.hash presented) (d.hash draw.raw_token) s.store) s
