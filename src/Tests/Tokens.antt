-- ===== src/Tests/Tokens.antt =====
-- The theorems about tokens, at a signer that keeps the time and the payload, and at one user.
use django_app_eve.Prelude.{
  ℕ, ◌+◌, ◌≡◌, refl, true, none, some, [], ◌∷◌, find, leb, str_eq, if◌then◌else◌, arith,
}
use django_app_eve.Api.Tokens.{
  User, RefreshToken, Store, Payload, loaded, signature_expired, Signer, already_used, ok, invalid,
  issue_refresh_token, is_expired, rotate, rotate_unused, rotate_presented, rotate_refresh_token,
  revoke_all_tokens,
}
use django_app_eve.Api.Tokens.Access.{SignerLaws}
use django_app_eve.Api.Tokens.Rotation.{
  live, AtMostLive, login, refresh, late, revoke, here, next, Reach-AtMostLive,
}
use django_app_eve.Api.Tokens.Spent.{rotate_refresh_token-once}

abbrev pub clear_signer : Signer
clear_signer = record {
  Token = ℕ × Payload;
  dumps = λ now p. (now, p);
  loads = λ later age t. if leb later (t.0 + age) then loaded t.1 else signature_expired;
}

pub clear_laws : SignerLaws clear_signer
clear_laws = record {
  fresh = λ now later age p order young. ground (arith, young);
  stale = λ now later age p old. ground (arith, old);
}

abbrev pub ann : User
ann = record { pk = 4; is_active = true; token_version = 2 }

abbrev token : RefreshToken
token = record {
  pk = 9;
  user = 4;
  token_hash = "h1";
  family = "f1";
  label = "";
  expires_at = 500;
  used_at = none;
  revoked_reason = "";
}

abbrev users_only : Store
users_only = record { users = ann ∷ []; tokens = []; next_pk = 9 }

abbrev store : Store
store = record { users = ann ∷ []; tokens = token ∷ []; next_pk = 10 }

abbrev exchanged : Store
exchanged = (rotate_refresh_token 200 700 "h1" "h2" store).1

exchange : rotate_refresh_token 200 700 "h1" "h2" store ≡ (ok 4, exchanged)
unfolding rotate_refresh_token rotate_presented rotate_unused rotate is_expired find
exchange = refl

abbrev revoked : Store
revoked = (revoke_all_tokens 250 4 exchanged).1

rotate_refresh_token-once_example :
    let r = rotate_refresh_token 300 700 "h1" "h3" revoked in
    (r.0 ≡ invalid already_used)
    × (t : RefreshToken) × (find (λ (x : RefreshToken). str_eq x.token_hash "h1") store.tokens
        ≡ some t)
    × (live t.family r.1.tokens ≡ 0)
rotate_refresh_token-once_example =
    rotate_refresh_token-once 200 300 700 4 "h1" "h2" "h3" store exchanged revoked exchange
      (next here (revoke 250 4))

-- A login, a rotation, and the late end of another rotation of the first token.
abbrev logged_in : Store
logged_in = issue_refresh_token 7 700 4 "h1" "f1" "" users_only

Reach-AtMostLive_example :
    AtMostLive 2 (rotate 9 700 "h3" token (rotate_refresh_token 8 700 "h1" "h2" logged_in).1).1
Reach-AtMostLive_example =
    Reach-AtMostLive {s = users_only} (λ family. omega arith)
      (next (next (next here (login 7 700 4 "h1" "f1" "" refl)) (refresh 8 700 "h1" "h2"))
        (late 9 700 "h3" token))
