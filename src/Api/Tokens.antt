-- ===== src/Api/Tokens.antt =====
-- Eve/api/tokens.py and Eve/api/models.py: signed access tokens, and refresh tokens that are stored
-- as digests and rotate on every use. Signing, hashing and randomness are arguments.
pub mod Access
pub mod Rotation
pub mod Spent
pub mod Ended
use django_app_eve.Prelude.{
  ℕ, ◌+◌, ◌*◌, String, Option, none, some, Bool, true, false, List, [], ◌∷◌, ◌++◌, find,
  update_where, count, not, ◌&&◌, ◌||◌, leb, ◌==◌, str_eq, if◌then◌else◌,
}

-- A user, with the `token_version` of the profile that `get_or_create` gives (0 in a new one).
pub record User : Type 0 where
  pub pk : ℕ
  pub is_active : Bool
  pub token_version : ℕ

pub record RefreshToken : Type 0 where
  pub pk : ℕ
  pub user : ℕ
  pub token_hash : String
  pub family : String
  pub label : String
  pub expires_at : ℕ
  pub used_at : Option ℕ
  pub revoked_reason : String

pub record Store : Type 0 where
  pub users : List User
  pub tokens : List RefreshToken
  pub next_pk : ℕ

-- What an access token carries.
pub record Payload : Type 0 where
  pub uid : ℕ
  pub ver : ℕ

-- `signing.loads`: the payload, SignatureExpired or BadSignature.
pub data Loaded : Type 0 where
  loaded : Payload → Loaded
  signature_expired : Loaded
  bad_signature : Loaded

-- `signing.dumps` at a time, and `signing.loads` at a time with a `max_age`, both with ACCESS_SALT.
-- The texts that they exchange are only passed on, so their type is the signer's.
pub record Signer : Type 1 where
  pub Token : Type 0
  pub dumps : ℕ → Payload → Token
  pub loads : ℕ → ℕ → Token → Loaded

-- The reasons of InvalidToken.
pub data Reason : Type 0 where
  expired bad_token unknown_user revoked unknown_refresh already_used expired_refresh : Reason

pub data Result {ℓ} (A : Type ℓ) : Type ℓ where
  ok : A → Result A
  invalid : Reason → Result A

unfoldable pub token_version_for : User → ℕ
token_version_for u = u.token_version

unfoldable pub issue_access_token : (signer : Signer) → ℕ → ℕ → User → signer.Token × ℕ
unfolding token_version_for
issue_access_token signer ttl now u =
    (signer.dumps now (record { uid = u.pk; ver = token_version_for u }), ttl)

-- `User.objects.filter(pk=…, is_active=True).first()`
abbrev pub is_active_user : ℕ → User → Bool
is_active_user pk u = u.pk == pk && u.is_active

unfoldable pub check_version : ℕ → Option User → Result User
unfolding token_version_for
check_version ver none = invalid unknown_user
check_version ver (some u) = if ver == token_version_for u then ok u else invalid revoked

unfoldable pub check_payload : List User → Loaded → Result User
unfolding check_version
check_payload users signature_expired = invalid expired
check_payload users bad_signature = invalid bad_token
check_payload users (loaded p) = check_version p.ver (find (is_active_user p.uid) users)

unfoldable pub read_access_token :
    (signer : Signer) → ℕ → ℕ → List User → signer.Token → Result User
unfolding check_payload
read_access_token signer ttl now users raw_token =
    check_payload users (signer.loads now ttl raw_token)

-- `is_expired`
unfoldable pub is_expired : ℕ → RefreshToken → Bool
is_expired now t = leb t.expires_at now

abbrev pub is_unused : RefreshToken → Bool
is_unused t = elim t.used_at [ none ↦ true | some _ ↦ false ]

-- The rows `filter(family=…, used_at__isnull=True)`.
abbrev pub in_family : String → RefreshToken → Bool
in_family family t = is_unused t && str_eq t.family family

unfoldable pub retire : ℕ → String → RefreshToken → RefreshToken
retire now reason t = record t { used_at = some now; revoked_reason = reason }

-- The row that `issue_refresh_token` makes; `label` is the user agent cut to 64 characters, `days`
-- the lifetime in the unit of the clock.
unfoldable pub new_token : ℕ → ℕ → ℕ → String → String → String → ℕ → RefreshToken
new_token now days user hash family label pk = record {
  pk = pk;
  user = user;
  token_hash = hash;
  family = family;
  label = label;
  expires_at = now + days;
  used_at = none;
  revoked_reason = "";
}

unfoldable pub issue_refresh_token : ℕ → ℕ → ℕ → String → String → String → Store → Store
unfolding new_token
issue_refresh_token now days user hash family label s = record s {
  tokens = s.tokens ++ new_token now days user hash family label s.next_pk ∷ [];
  next_pk = s.next_pk + 1;
}

abbrev pub is_user : ℕ → User → Bool
is_user pk u = u.pk == pk

-- `presented.user.is_active`, through the foreign key.
abbrev pub active : Option User → Bool
active none = false
active (some u) = u.is_active

-- The end of a rotation: the presented row is retired and a new one made in its family.
unfoldable pub rotate : ℕ → ℕ → String → RefreshToken → Store → ℕ × Store
rotate now days new_hash t s = (
  t.user,
  issue_refresh_token now days t.user new_hash t.family t.label
      (record s { tokens = update_where (λ r. r.pk == t.pk) (retire now "rotated") s.tokens }),
)

-- A row that was used before: the whole family is revoked.
pub revoke_family : ℕ → RefreshToken → Store → Store
revoke_family now t s = record s {
  tokens = update_where (in_family t.family) (retire now "reuse_detected") s.tokens;
}

unfoldable pub rotate_unused : ℕ → ℕ → String → RefreshToken → Store → Result ℕ × Store
rotate_unused now days new_hash t s =
    if is_expired now t || not (active (find (is_user t.user) s.users))
    then (invalid expired_refresh, s)
    else (let (user, s') = rotate now days new_hash t s in (ok user, s'))

unfoldable pub rotate_presented : ℕ → ℕ → String → Option RefreshToken → Store → Result ℕ × Store
rotate_presented now days new_hash none s = (invalid unknown_refresh, s)
rotate_presented now days new_hash (some t) s =
    if is_unused t
    then rotate_unused now days new_hash t s
    else (invalid already_used, revoke_family now t s)

-- `rotate_refresh_token`: `hash` is the digest of the presented token, `new_hash` of the new one. The
-- code finds the row, tests it and saves it with no lock and no transaction. Here the request is one
-- step, as when no other request writes in between; `rotate_presented` is what a request does from
-- the row that it has read, and the steps of Rotation have the end of one that comes late.
unfoldable pub rotate_refresh_token : ℕ → ℕ → String → String → Store → Result ℕ × Store
rotate_refresh_token now days hash new_hash s =
    rotate_presented now days new_hash
      (find (λ (t : RefreshToken). str_eq t.token_hash hash) s.tokens) s

abbrev pub unused_of : ℕ → RefreshToken → Bool
unused_of user t = is_unused t && t.user == user

-- `revoke_all_tokens`: the version goes up and every unused refresh token of the user is retired; the
-- result is the number of those.
unfoldable pub revoke_all_tokens : ℕ → ℕ → Store → ℕ × Store
revoke_all_tokens now user s = (
  count (unused_of user) s.tokens,
  record s {
    users =
        update_where (is_user user) (λ u. record u { token_version = u.token_version + 1 }) s.users;
    tokens = update_where (unused_of user) (retire now "revoked") s.tokens;
  },
)
