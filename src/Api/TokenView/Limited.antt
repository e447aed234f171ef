-- ===== src/Api/TokenView/Limited.antt =====
-- The whole of `TokenView.post` (Eve/api/v1/views.py), with the limit of the address.
use django_app_eve.Prelude.{ℕ, ◌≡◌, ap, ◌↔◌, inl, inr, String, some, false, Bool-cases}
use django_app_eve.Core.Throttling.{
  Response, too_many, served, effective_limit, exceeds, current_count, rate_limit,
}
use django_app_eve.Api.Tokens.{User}
use django_app_eve.Api.TokenView.{
  Deployment, Credentials, Draw, pair, Site, Seen, Token, grant, limited_token_post,
}
use django_app_eve.Api.TokenView.Grants.{MaySignIn, checked, token_post-grants_iff}

module _ (d : Deployment) where
  abbrev pub answered : Seen d → Response (Seen d) × d.cache.State
  answered seen = (served seen, seen.1.cache)

module _ (d : Deployment) (scaled : ℕ → ℕ) (limit_key : String) (s : Site d) where
  -- The site once the request has been counted.
  abbrev pub counted : Site d
  counted = record s { cache = (current_count d.cache limit_key 300 s.cache).1 }

  -- The address has made no more than its five requests of the window, this one included, as far as
  -- the cache knows.
  abbrev pub LetThrough : Type 0
  LetThrough =
      exceeds (current_count d.cache limit_key 300 s.cache).0 (effective_limit scaled 5) ≡ false

module _ (d : Deployment) (scaled : ℕ → ℕ) (limit_key : String) (draw : Draw) (r : Credentials)
    (s : Site d) where
  answered-injective : (a b : Seen d) → answered d a ≡ answered d b → a ≡ b
  answered-injective a b h = from_response (served a) (served b) (ap (λ x. x.0) h)
    where
      seen_of : Response (Seen d) → Seen d
      seen_of (served x) = x
      seen_of too_many = a

      from_response : (x y : Response (Seen d)) → x ≡ y → seen_of x ≡ seen_of y
      from_response x y e = ap seen_of e

  -- Past the throttles of the framework, `TokenView.post` answers with tokens exactly when the
  -- request is within the limit of its address, and then, in the site in which the request has been
  -- counted, the name is not locked, the password is that of an active user, the user has no
  -- confirmed device or one of them accepts the code, and the address of the user is verified; the
  -- answer and the state are then those of `grant`.
  pub limited_token_post-grants_iff :
      (access : Token d) (refresh : String) (n : ℕ) (s' : Site d)
      → (limited_token_post d scaled limit_key draw (some r) s
          ≡ (served (pair access refresh n, s'), s'.cache))
        ↔ (LetThrough d scaled limit_key s
            × ((u : User) × MaySignIn d draw r (counted d scaled limit_key s) u
                × (grant d draw r.username u (checked d draw r (counted d scaled limit_key s) u)
                    ≡ (pair access refresh n, s'))))
  unfolding limited_token_post rate_limit
  limited_token_post-grants_iff access refresh n s' =
      let inner =
        token_post-grants_iff d draw r (counted d scaled limit_key s) access refresh n s' in
      elim (Bool-cases
        (exceeds (current_count d.cache limit_key 300 s.cache).0 (effective_limit scaled 5))) [
          | inl e ↦ ((λ h. cc (rw e at h)), (λ g. cc (e, g.0)))
          | inr e ↦ (
            (λ h. (e, inner.0 (answered-injective _ _ (rw e at h)))),
            (λ g. rw e (ap (answered d) (inner.1 g.1))),
          )
        ]
