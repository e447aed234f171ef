-- ===== src/Api/Tokens/Spent.antt =====
-- Refresh tokens that were exchanged (Eve/api/tokens.py): nothing makes them good again.
use mathlib.Core.Path.{subst}
use django_app_eve.Prelude.{
  ℕ, ◌≤◌, ◌≡◌, ◌≢◌, refl, sym, ◌∙◌, inl, inr, String, Option, none, some, Bool, true, false,
  Bool-cases, List, [], ◌∷◌, ◌++◌, find, find-append, find-update_where, update_where, count-append,
  not, ◌||◌, ◌==◌, ==_iff, str_eq, eq_refl, if◌then◌else◌, if-both, arith,
}
use django_app_eve.Api.Tokens.{
  RefreshToken, Store, already_used, Result, ok, invalid, is_expired, is_unused, in_family, retire,
  new_token, issue_refresh_token, is_user, active, rotate, revoke_family, rotate_unused,
  rotate_presented, rotate_refresh_token, unused_of, revoke_all_tokens,
}
use django_app_eve.Api.Tokens.Rotation.{
  has_hash, live, rotated, find-rotate, live-revoke_family, Step, login, refresh, late, revoke,
  Reach, here, next,
}

-- The row of a digest is used, and of a family.
pub record Spent (hash family : String) (tokens : List RefreshToken) : Type 0 where
  pub row : RefreshToken
  pub found : find (has_hash hash) tokens ≡ some row
  pub used : is_unused row ≡ false
  pub member : row.family ≡ family

module _ (hash family : String) where
  Spent-append : (l new : List RefreshToken) → Spent hash family l → Spent hash family (l ++ new)
  Spent-append l new h = record {
    row = h.row;
    found = find-append (has_hash hash) l new ∙ rw h.found refl;
    used = h.used;
    member = h.member;
  }

  Spent-retire :
      (p : RefreshToken → Bool) (now : ℕ) (reason : String) (l : List RefreshToken)
      → Spent hash family l
      → Spent hash family (update_where p (retire now reason) l)
  unfolding retire
  Spent-retire p now reason l h = record {
    row = (if p h.row then retire now reason h.row else h.row);
    found =
        find-update_where (has_hash hash) p (retire now reason) l (λ a e. refl) ∙ rw h.found refl;
    used =
        if-both (λ (x : RefreshToken). is_unused x ≡ false) (p h.row) _ h.row (λ e. refl)
          (λ e. h.used);
    member =
        if-both (λ (x : RefreshToken). x.family ≡ family) (p h.row) _ h.row (λ e. h.member)
          (λ e. h.member);
  }

  rotate_presented-Spent :
      (now days : ℕ) (new_hash : String) (o : Option RefreshToken) (s : Store)
      → Spent hash family s.tokens
      → Spent hash family (rotate_presented now days new_hash o s).1.tokens
  unfolding rotate_presented rotate_unused rotate revoke_family issue_refresh_token
  rotate_presented-Spent now days new_hash none s h = h
  rotate_presented-Spent now days new_hash (some t) s h =
      if-both Good (is_unused t) _ _
        (λ fresh.
          if-both Good (is_expired now t || not (active (find (is_user t.user) s.users))) _ _
            (λ e. h)
            (λ e. Spent-append _ _ (Spent-retire (λ r. r.pk == t.pk) now "rotated" s.tokens h)))
        (λ e. Spent-retire (in_family t.family) now "reuse_detected" s.tokens h)
    where
      Good : Result ℕ × Store → Type 0
      Good r = Spent hash family r.1.tokens

  Step-Spent : {s t : Store} → Step s t → Spent hash family s.tokens → Spent hash family t.tokens
  unfolding issue_refresh_token rotate_refresh_token revoke_all_tokens rotate
  Step-Spent {s = s} (login now days user new_hash f label free) h = Spent-append s.tokens _ h
  Step-Spent {s = s} (refresh now days presented new_hash) h =
      rotate_presented-Spent now days new_hash _ s h
  Step-Spent {s = s} (late now days new_hash t) h =
      Spent-append _ _ (Spent-retire (λ r. r.pk == t.pk) now "rotated" s.tokens h)
  Step-Spent {s = s} (revoke now user) h = Spent-retire (unused_of user) now "revoked" s.tokens h

  pub Reach-Spent :
      {s t : Store} → Reach s t → Spent hash family s.tokens → Spent hash family t.tokens
  Reach-Spent here h = h
  Reach-Spent (next r step) h = Step-Spent step (Reach-Spent r h)

  -- A used token is refused, and what was live of its family is revoked.
  pub rotate_refresh_token-Spent :
      (now days : ℕ) (new_hash : String) (s : Store)
      → Spent hash family s.tokens
      → let r = rotate_refresh_token now days hash new_hash s in
        (r.0 ≡ invalid already_used) × (live family r.1.tokens ≡ 0)
  unfolding rotate_refresh_token rotate_presented revoke_family
  rotate_refresh_token-Spent now days new_hash s h =
      rw (h.found, h.used)
        (
          refl,
          subst
              (λ f.
                live family (update_where (in_family f) (retire now "reuse_detected") s.tokens) ≡ 0)
              (sym h.member) (live-revoke_family family now "reuse_detected" s.tokens),
        )

  retired-Spent :
      (now days : ℕ) (new_hash : String) (t : RefreshToken) (s : Store)
      → find (has_hash hash) s.tokens ≡ some t
      → t.family ≡ family
      → Spent hash family (rotate now days new_hash t s).1.tokens
  unfolding retire
  retired-Spent now days new_hash t s found member = record {
    row = retire now "rotated" t;
    found = find-rotate now days hash new_hash t s found;
    used = refl;
    member = member;
  }

-- A successful exchange spends the token that was presented.
pub exchanged-Spent :
    (now days user : ℕ) (hash new_hash : String) (s s' : Store)
    → rotate_refresh_token now days hash new_hash s ≡ (ok user, s')
    → (t : RefreshToken) × (find (has_hash hash) s.tokens ≡ some t) × Spent hash t.family s'.tokens
unfolding rotate_refresh_token
exchanged-Spent now days user hash new_hash s s' ran =
    let (t, found, fresh, state) = rotated now days user new_hash _ s s' ran in
    (
      t,
      found,
      subst (λ (x : Store). Spent hash t.family x.tokens) state
          (retired-Spent hash t.family now days new_hash t s found refl),
    )

-- A refresh token that was exchanged is not exchanged again by a request that reads it afterwards:
-- after a successful exchange, and whatever logins, rotations and revocations follow, those
-- included that had read their rows before, presenting it again, at any time, is refused as already
-- used, and leaves no live token in its family. A request that read the row before the exchange
-- saved it is not such a request.
pub rotate_refresh_token-once :
    (now later days user : ℕ) (hash new_hash new_hash' : String) (s s' s'' : Store)
    → rotate_refresh_token now days hash new_hash s ≡ (ok user, s')
    → Reach s' s''
    → let r = rotate_refresh_token later days hash new_hash' s'' in
      (r.0 ≡ invalid already_used)
      × (t : RefreshToken) × (find (λ (x : RefreshToken). str_eq x.token_hash hash) s.tokens
          ≡ some t)
      × (live t.family r.1.tokens ≡ 0)
rotate_refresh_token-once now later days user hash new_hash new_hash' s s' s'' ran reached =
    let (t, found, spent) = exchanged-Spent now days user hash new_hash s s' ran in
    let (refused, dead) =
      rotate_refresh_token-Spent hash t.family later days new_hash' s''
        (Reach-Spent hash t.family reached spent) in
    (refused, t, found, dead)

-- The new row of a first request is live, and stays so when the presented row is retired again.
live-twice :
    (family : String) (p : RefreshToken → Bool) (now : ℕ) (reason : String) (x : RefreshToken)
    (l : List RefreshToken)
    → in_family family x ≡ true
    → p x ≡ false
    → 1 ≤ live family (update_where p (retire now reason) (l ++ x ∷ []))
unfolding update_where
live-twice family p now reason x [] h other = rw (other, h) (omega arith)
live-twice family p now reason x (y ∷ ys) h other =
    ground (arith, live-twice family p now reason x ys h other)

differs : (a b : ℕ) → b ≢ a → (a == b) ≡ false
differs a b h = elim (Bool-cases (a == b)) [
  | inl e ↦ absurd (h (sym ((==_iff a b).0 e)))
  | inr e ↦ e
]

rotate-twice :
    (now later days : ℕ) (new_hash new_hash' : String) (t : RefreshToken) (s : Store)
    → t.pk ≢ s.next_pk
    → 2 ≤ live t.family (rotate later days new_hash' t (rotate now days new_hash t s).1).1.tokens
unfolding rotate issue_refresh_token new_token
rotate-twice now later days new_hash new_hash' t s other =
    let again =
      live-twice t.family (λ r. r.pk == t.pk) later "rotated"
        (new_token now days t.user new_hash t.family t.label s.next_pk)
        (update_where (λ r. r.pk == t.pk) (retire now "rotated") s.tokens) (eq_refl t.family)
        (differs s.next_pk t.pk other) in
    rw (count-append (in_family t.family) _ _) (rw (eq_refl t.family) (omega (arith, again)))

-- A request that has read an unused row goes through.
rotate_presented-read :
    (now days : ℕ) (new_hash : String) (t : RefreshToken) (s : Store)
    → is_unused t ≡ true
    → (is_expired now t || not (active (find (is_user t.user) s.users))) ≡ false
    → rotate_presented now days new_hash (some t) s ≡ (ok t.user, (rotate now days new_hash t s).1)
unfolding rotate_presented rotate_unused rotate
rotate_presented-read now days new_hash t s fresh good = rw (fresh, good) refl

-- Requests that overlap: two requests that have both read the unused row of a token, before either has
-- saved it, both succeed while the token has not expired and its user is active, and at least two
-- tokens of the family can then be exchanged.
pub rotate_presented-overlap :
    (now later days : ℕ) (new_hash new_hash' : String) (t : RefreshToken) (s : Store)
    → is_unused t ≡ true
    → t.pk ≢ s.next_pk
    → (is_expired now t || not (active (find (is_user t.user) s.users))) ≡ false
    → (is_expired later t || not (active (find (is_user t.user) s.users))) ≡ false
    → let (first, s') = rotate_presented now days new_hash (some t) s in
      let (second, s'') = rotate_presented later days new_hash' (some t) s' in
      (first ≡ ok t.user) × (second ≡ ok t.user) × (2 ≤ live t.family s''.tokens)
unfolding rotate issue_refresh_token
rotate_presented-overlap now later days new_hash new_hash' t s fresh other good good' =
    rw
      (
        rotate_presented-read now days new_hash t s fresh good,
        rotate_presented-read later days new_hash' t (rotate now days new_hash t s).1 fresh good',
      )
      (refl, refl, rotate-twice now later days new_hash new_hash' t s other)
