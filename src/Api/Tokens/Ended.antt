-- ===== src/Api/Tokens/Ended.antt =====
-- What a revocation (`revoke_all_tokens` of Eve/api/tokens.py) leaves behind, and what it is worth in
-- every later state.
use mathlib.Core.Option.{some-injective}
use mathlib.Core.Path.{subst}
use django_app_eve.Prelude.{
  ℕ, ◌+◌, ◌≤◌, ◌≡◌, ◌≢◌, refl, ◌∙◌, inl, inr, String, Option, none, some, Bool-cases, true, false,
  List, [], ◌∷◌, All, find, find-All, find-update_where, update_where, not, ◌||◌, ◌==◌, ==_refl,
  leb, if◌then◌else◌, if-both, arith,
}
use django_app_eve.Api.Tokens.{
  User, RefreshToken, Store, Payload, Signer, Result, ok, issue_access_token, is_active_user,
  check_version, check_payload, read_access_token, is_user, is_expired, is_unused, active, retire,
  issue_refresh_token, rotate, revoke_family, rotate_unused, rotate_presented, rotate_refresh_token,
  unused_of, revoke_all_tokens,
}
use django_app_eve.Api.Tokens.Access.{SignerLaws}
use django_app_eve.Api.Tokens.Rotation.{
  has_hash, Step, login, refresh, late, revoke, Reach, here, next,
}
use django_app_eve.Api.Tokens.Spent.{Spent}

-- No row of a user has a version below a number.
abbrev pub AtLeast : ℕ → ℕ → List User → Type 0
AtLeast pk ver users = All (λ (x : User). x.pk ≡ pk → ver ≤ x.token_version) users

bump : User → User
bump x = record x { token_version = x.token_version + 1 }

AtLeast-bump :
    (pk ver user : ℕ) (l : List User)
    → AtLeast pk ver l
    → AtLeast pk ver (update_where (is_user user) bump l)
unfolding update_where bump
AtLeast-bump pk ver user [] h = tt
AtLeast-bump pk ver user (x ∷ xs) (h, hs) = (
  if-both (λ (y : User). y.pk ≡ pk → ver ≤ y.token_version) (is_user user x) _ x
      (λ e q. omega (arith, h q)) (λ e. h),
  AtLeast-bump pk ver user xs hs,
)

-- A revocation puts every row of its user above the number.
AtLeast-above :
    (pk ver : ℕ) (l : List User)
    → AtLeast pk ver l
    → AtLeast pk (ver + 1) (update_where (is_user pk) bump l)
unfolding update_where bump
AtLeast-above pk ver [] h = tt
AtLeast-above pk ver (x ∷ xs) (h, hs) = (
  if-both (λ (y : User). y.pk ≡ pk → ver + 1 ≤ y.token_version) (is_user pk x) _ x
      (λ e q. omega (arith, h q)) (λ e q. absurd (ground (arith, ==_refl pk))),
  AtLeast-above pk ver xs hs,
)

rotate_presented-users :
    (now days : ℕ) (new_hash : String) (o : Option RefreshToken) (s : Store)
    → (rotate_presented now days new_hash o s).1.users ≡ s.users
unfolding rotate_presented rotate_unused rotate revoke_family issue_refresh_token
rotate_presented-users now days new_hash none s = refl
rotate_presented-users now days new_hash (some t) s =
    if-both Same (is_unused t) _ _
      (λ fresh.
        if-both Same (is_expired now t || not (active (find (is_user t.user) s.users))) _ _
          (λ e. refl) (λ e. refl))
      (λ e. refl)
  where
    Same : Result ℕ × Store → Type 0
    Same r = r.1.users ≡ s.users

Step-AtLeast :
    (pk ver : ℕ) {s t : Store} → Step s t → AtLeast pk ver s.users → AtLeast pk ver t.users
unfolding issue_refresh_token rotate_refresh_token revoke_all_tokens rotate bump
Step-AtLeast pk ver (login now days user hash family label free) h = h
Step-AtLeast pk ver {s = s} (refresh now days hash new_hash) h =
    rw (rotate_presented-users now days new_hash _ s) h
Step-AtLeast pk ver (late now days new_hash t) h = h
Step-AtLeast pk ver {s = s} (revoke now user) h = AtLeast-bump pk ver user s.users h

pub Reach-AtLeast :
    (pk ver : ℕ) {s t : Store} → Reach s t → AtLeast pk ver s.users → AtLeast pk ver t.users
Reach-AtLeast pk ver here h = h
Reach-AtLeast pk ver (next r step) h = Step-AtLeast pk ver step (Reach-AtLeast pk ver r h)

pub revoke_all_tokens-AtLeast :
    (now pk ver : ℕ) (s : Store)
    → AtLeast pk ver s.users
    → AtLeast pk (ver + 1) (revoke_all_tokens now pk s).1.users
unfolding revoke_all_tokens bump
revoke_all_tokens-AtLeast now pk ver s h = AtLeast-above pk ver s.users h

find_passes :
    (pk : ℕ) (l : List User) (x : User)
    → find (is_active_user pk) l ≡ some x
    → is_active_user pk x ≡ true
unfolding find
find_passes pk [] x h = cc
find_passes pk (y ∷ ys) x h = elim (Bool-cases (is_active_user pk y)) [
  | inl z ↦
      let same : y ≡ x = some-injective y x (rw z at h) in
      subst (λ w. is_active_user pk w ≡ true) same z
  | inr z ↦ find_passes pk ys x (rw z at h)
]

-- A token of an older version than every row of its user is not accepted.
check_version-old :
    (pk ver : ℕ) (l : List User) (v : User) (o : Option User)
    → AtLeast pk (ver + 1) l
    → find (is_active_user pk) l ≡ o
    → check_version ver o ≢ ok v
unfolding check_version
check_version-old pk ver l v none h found e = cc
check_version-old pk ver l v (some x) h found e =
    let newer = find-All (λ (y : User). y.pk ≡ pk → ver + 1 ≤ y.token_version) _ l h found in
    let its : x.pk ≡ pk = ground (arith, find_passes pk l x found) in
    let differs : (ver == x.token_version) ≡ false = ground (arith, newer its) in
    cc (rw differs at e)

module _ (signer : Signer) (laws : SignerLaws signer) (ttl issued later : ℕ) (u v : User) where
  pub read_access_token-old :
      (users : List User)
      → issued ≤ later
      → AtLeast u.pk (u.token_version + 1) users
      → read_access_token signer ttl later users (issue_access_token signer ttl issued u).0 ≢ ok v
  unfolding read_access_token issue_access_token check_payload
  read_access_token-old users order newer h =
      let p : Payload = record { uid = u.pk; ver = u.token_version } in
      elim (Bool-cases (leb later (issued + ttl))) [
        | inl e ↦
            check_version-old u.pk u.token_version users v _ newer refl
              (rw (laws.fresh issued later ttl p order (ground arith)) at h)
        | inr e ↦ cc (rw (laws.stale issued later ttl p (ground arith)) at h)
      ]

-- Every row of a user that a digest finds is spent by a revocation.
pub revoke_all_tokens-Spent :
    (now user : ℕ) (hash : String) (s : Store) (t : RefreshToken)
    → find (has_hash hash) s.tokens ≡ some t
    → t.user ≡ user
    → Spent hash t.family (revoke_all_tokens now user s).1.tokens
unfolding revoke_all_tokens retire
revoke_all_tokens-Spent now user hash s t found owner = record {
  row = (if unused_of user t then retire now "revoked" t else t);
  found =
      find-update_where (has_hash hash) (unused_of user) (retire now "revoked") s.tokens
        (λ a e. refl)
      ∙ rw found refl;
  used =
      if-both (λ (x : RefreshToken). is_unused x ≡ false) (unused_of user t) _ t (λ e. refl)
        (λ e. ground (arith, ==_refl user));
  member =
      if-both (λ (x : RefreshToken). x.family ≡ t.family) (unused_of user t) _ t (λ e. refl)
        (λ e. refl);
}
