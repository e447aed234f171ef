-- ===== src/Api/TokenView/Session.antt =====
-- The life of a session of the API: `TokenView.post`, `TokenRefreshView.post` and `TokenView.delete`
-- (Eve/api/v1/views.py), with the tokens that they hand out.
use mathlib.Core.Option.{some-injective}
use mathlib.Core.Path.{subst}
use django_app_eve.Prelude.{
  ℕ, ◌+◌, ◌≤◌, ◌<◌, ◌≡◌, refl, sym, ◌∙◌, ap, inl, inr, String, none, some, Bool, true, Bool-cases,
  List, [], ◌∷◌, find, find-append, ==_refl, str_eq, eq_refl, cut, arith,
}
use django_app_eve.Api.Tokens.{
  User, RefreshToken, Store, Result, ok, invalid, already_used, issue_access_token,
  read_access_token, is_active_user, is_user, is_expired, new_token, issue_refresh_token, rotate,
  rotate_unused, rotate_presented, rotate_refresh_token,
}
use django_app_eve.Api.Tokens.Access.{SignerLaws, read_access_token-issue}
use django_app_eve.Api.Tokens.Rotation.{Reach}
use django_app_eve.Api.Tokens.Spent.{
  Spent, exchanged-Spent, Reach-Spent, rotate_refresh_token-Spent,
}
use django_app_eve.Api.Tokens.Ended.{revoke_all_tokens-Spent}
use django_app_eve.Api.TokenView.{
  Deployment, Credentials, Draw, pair, no_content, error, Site, Seen, Token, grant, token_post,
  token_delete, refreshed_for, refreshed, refresh_post,
}
use django_app_eve.Api.TokenView.Grants.{checked, token_post-grants_iff}

abbrev pub has_digest : String → RefreshToken → Bool
has_digest h t = str_eq t.token_hash h

-- A stricter test that the found row passes finds it too.
find-stricter :
    (p q : User → Bool) (l : List User) (a : User)
    → ((x : User) → q x ≡ true → p x ≡ true)
    → find p l ≡ some a
    → q a ≡ true
    → find q l ≡ some a
unfolding find
find-stricter p q [] a h found e = cc
find-stricter p q (x ∷ l) a h found e = elim (Bool-cases (p x)) [
  | inl z ↦
      let same : x ≡ a = some-injective x a (rw z at found) in rw (ap q same ∙ e) (ap some same)
  | inr z ↦ elim (Bool-cases (q x)) [
    | inl w ↦ cc (h x w)
    | inr w ↦ rw w (find-stricter p q l a h (rw z at found) e)
  ]
]

module _ (d : Deployment) (u : User) (s : Site d) where
  -- The user's row, and what the refresh token of a session looks like in the store.
  active_row :
      find (is_user u.pk) s.store.users ≡ some u
      → u.is_active ≡ true
      → find (is_active_user u.pk) s.store.users ≡ some u
  active_row known act =
      find-stricter (is_user u.pk) (is_active_user u.pk) s.store.users u (λ x e. ground arith) known
        (ground (arith, ==_refl u.pk))

-- The exchange of a new refresh token, before it expires.
exchange_new :
    (d : Deployment) (draw next : Draw) (u : User) (label : String) (store : Store)
    → find (is_user u.pk) store.users ≡ some u
    → u.is_active ≡ true
    → find (has_digest (d.hash draw.raw_token)) store.tokens ≡ none
    → next.now < draw.now + d.days
    → let t =
        new_token draw.now d.days u.pk (d.hash draw.raw_token) draw.family label store.next_pk in
      let stored =
        issue_refresh_token draw.now d.days u.pk (d.hash draw.raw_token) draw.family label store in
      rotate_refresh_token next.now d.days (d.hash draw.raw_token) (d.hash next.raw_token) stored
      ≡ (ok u.pk, (rotate next.now d.days (d.hash next.raw_token) t stored).1)
unfolding rotate_refresh_token issue_refresh_token new_token find rotate_presented rotate_unused
    rotate is_expired
exchange_new d draw next u label store known act unknown young =
    rw (find-append (has_digest (d.hash draw.raw_token)) store.tokens _)
      (rw (unknown, eq_refl (d.hash draw.raw_token), known) (rw act (ground arith)))

-- What an answer with tokens is worth to the user `u`: the access token at the time `at`, the refresh
-- token to the request of `next`, and once more to the request of `again` in the site `t`.
abbrev pub Works : (d : Deployment) → (at : ℕ) → Draw → Draw → Site d → User → Seen d → Type 0
Works d at next again t u (pair access refresh n, s) =
    (read_access_token d.signer d.ttl at s.store.users access ≡ ok u)
    × ((refresh_post d next (some refresh) s).0
        ≡ pair (issue_access_token d.signer d.ttl next.now u).0 next.raw_token d.ttl)
    × ((refresh_post d again (some refresh) t).0 ≡ error 401 "invalid_refresh_token")
Works d at next again t u (no_content, s) = ⊥
Works d at next again t u (error status code, s) = ⊥

-- The store after the request of `next` with the refresh token of an answer.
abbrev pub exchanged : (d : Deployment) → Draw → Seen d → Store
exchanged d next (pair access refresh n, s) = (refresh_post d next (some refresh) s).1.store
exchanged d next (no_content, s) = s.store
exchanged d next (error status code, s) = s.store

refused_again :
    (d : Deployment) (again : Draw) (r : Result ℕ × Store) (s : Site d)
    → r.0 ≡ invalid already_used
    → (refreshed d again r s).0 ≡ error 401 "invalid_refresh_token"
unfolding refreshed
refused_again d again (ok user, store) s h = cc
refused_again d again (invalid reason, store) s h = refl

refreshed_known :
    (d : Deployment) (next : Draw) (u : User) (store : Store) (s : Site d)
    → find (is_user u.pk) store.users ≡ some u
    → (refreshed d next (ok u.pk, store) s).0
      ≡ pair (issue_access_token d.signer d.ttl next.now u).0 next.raw_token d.ttl
unfolding refreshed refreshed_for issue_access_token
refreshed_known d next u store s known = rw known

refreshed-store :
    (d : Deployment) (next : Draw) (r : Result ℕ × Store) (s : Site d)
    → (refreshed d next r s).1.store ≡ r.1
unfolding refreshed
refreshed-store d next (ok user, store) s = refl
refreshed-store d next (invalid reason, store) s = refl

-- A spent refresh token is refused with 401.
refresh_post-Spent :
    (d : Deployment) (again : Draw) (refresh family : String) (t : Site d)
    → Spent (d.hash refresh) family t.store.tokens
    → (refresh_post d again (some refresh) t).0 ≡ error 401 "invalid_refresh_token"
unfolding refresh_post
refresh_post-Spent d again refresh family t spent =
    refused_again d again _ _
      (rotate_refresh_token-Spent (d.hash refresh) family again.now d.days (d.hash again.raw_token)
        t.store spent).0

module _ (d : Deployment) (laws : SignerLaws d.signer) (draw : Draw) (at : ℕ) (next again : Draw)
    (username : String) (u : User) (s t : Site d) where
  grant-Works :
      find (is_user u.pk) s.store.users ≡ some u
      → u.is_active ≡ true
      → find (has_digest (d.hash draw.raw_token)) s.store.tokens ≡ none
      → draw.now ≤ at
      → at ≤ draw.now + d.ttl
      → next.now < draw.now + d.days
      → Reach (exchanged d next (grant d draw username u s)) t.store
      → Works d at next again t u (grant d draw username u s)
  unfolding grant refresh_post issue_refresh_token rotate
  grant-Works known act unknown order live young reached =
      let label = cut 64 draw.user_agent in
      let done = exchange_new d draw next u label s.store known act unknown young in
      let (row, found, spent) =
        exchanged-Spent next.now d.days u.pk (d.hash draw.raw_token) (d.hash next.raw_token) _ _
          done in
      let same : exchanged d next (grant d draw username u s) ≡ after_exchange label =
        refreshed-store d next _ opened ∙ ap (λ (r : Result ℕ × Store). r.1) done in
      (
        issued,
        rw done (refreshed_known d next u (after_exchange label) opened known),
        refresh_post-Spent d again draw.raw_token row.family t (
            Reach-Spent (d.hash draw.raw_token) row.family
              (subst (λ x. Reach x t.store) same reached) spent),
      )
    where
      stored : String → Store
      stored label =
          issue_refresh_token draw.now d.days u.pk (d.hash draw.raw_token) draw.family label s.store

      after_exchange : String → Store
      after_exchange label =
          (rotate next.now d.days (d.hash next.raw_token)
            (new_token draw.now d.days u.pk (d.hash draw.raw_token) draw.family label
              s.store.next_pk)
            (stored label)).1

      opened : Site d
      opened = (grant d draw username u s).1

      issued :
          read_access_token d.signer d.ttl at s.store.users
            (issue_access_token d.signer d.ttl draw.now u).0
          ≡ ok u
      issued =
          read_access_token-issue d.signer laws d.ttl draw.now at s.store u
            (active_row d u s known act) order
          ∙ ground arith

-- A session that `TokenView.post` opened works: within its lifetime the access token is read as the
-- user; until it expires, also after the access token did, the refresh token is exchanged for a
-- new pair; and presented again after that exchange, in any store that logins, rotations (late ones
-- included) and revocations have reached by then, it is refused with 401. The digest of the new
-- token is not in the table yet, and `authenticate` gives a row of the table of users.
pub token_post-Works :
    (d : Deployment) (laws : SignerLaws d.signer) (draw : Draw) (at : ℕ) (next again : Draw)
    (r : Credentials) (s s' t : Site d) (access : Token d) (refresh : String) (n : ℕ) (u : User)
    → token_post d draw (some r) s ≡ (pair access refresh n, s')
    → d.authenticate r.username r.password ≡ some u
    → find (is_user u.pk) s.store.users ≡ some u
    → find (has_digest (d.hash draw.raw_token)) s.store.tokens ≡ none
    → draw.now ≤ at
    → at ≤ draw.now + d.ttl
    → next.now < draw.now + d.days
    → Reach (refresh_post d next (some refresh) s').1.store t.store
    → Works d at next again t u (pair access refresh n, s')
token_post-Works d laws draw at next again r s s' t access refresh n u ran auth known unknown order
      live young reached =
    let (v, may, granted) = (token_post-grants_iff d draw r s access refresh n s').0 ran in
    let same : v ≡ u = some-injective v u (sym may.known ∙ auth) in
    let given : grant d draw r.username u (checked d draw r s u) ≡ (pair access refresh n, s') =
      subst (λ w. grant d draw r.username w (checked d draw r s w) ≡ (pair access refresh n, s'))
        same granted in
    subst (Works d at next again t u) given (
      grant-Works d laws draw at next again r.username u (checked d draw r s u) t known
        (subst (λ (w : User). w.is_active ≡ true) same may.active) unknown order live young
        (subst (λ x. Reach (exchanged d next x) t.store) (sym given) reached))

-- After `TokenView.delete` every refresh token that finds a row of the user is refused with 401, in any
-- store that logins, rotations (late ones included) and revocations have reached.
pub token_delete-refresh_post :
    (d : Deployment) (now user : ℕ) (s t : Site d) (again : Draw) (refresh : String)
    (row : RefreshToken)
    → find (has_digest (d.hash refresh)) s.store.tokens ≡ some row
    → row.user ≡ user
    → Reach (token_delete d now (some user) s).1.store t.store
    → (refresh_post d again (some refresh) t).0 ≡ error 401 "invalid_refresh_token"
unfolding token_delete
token_delete-refresh_post d now user s t again refresh row found owner reached =
    refresh_post-Spent d again refresh row.family t (
      Reach-Spent (d.hash refresh) row.family reached
        (revoke_all_tokens-Spent now user (d.hash refresh) s.store row found owner))
