-- ===== src/Api/Tokens/Access.antt =====
-- The life of an access token (Eve/api/tokens.py).
use django_app_eve.Prelude.{
  ℕ, ◌+◌, ◌≤◌, ◌<◌, ◌≡◌, inl, inr, some, Bool-cases, find, leb, if◌then◌else◌, arith,
}
use django_app_eve.Api.Tokens.{
  User, Store, Payload, loaded, signature_expired, Signer, expired, ok, invalid, issue_access_token,
  is_active_user, read_access_token,
}

-- The documented behaviour of the signer: a token that it made is loaded as its payload while it is
-- no older than `max_age`, and is expired afterwards.
pub record SignerLaws (signer : Signer) : Type 0 where
  pub fresh :
      (now later max_age : ℕ) (p : Payload)
      → now ≤ later
      → later ≤ now + max_age
      → signer.loads later max_age (signer.dumps now p) ≡ loaded p
  pub stale :
      (now later max_age : ℕ) (p : Payload)
      → now + max_age < later
      → signer.loads later max_age (signer.dumps now p) ≡ signature_expired

module _ (signer : Signer) (laws : SignerLaws signer) (ttl now later : ℕ) (s : Store)
    (u : User) where
  abbrev access : signer.Token
  access = (issue_access_token signer ttl now u).0

  -- A token issued to an active user is read back as that user within its lifetime, and refused as
  -- expired after it.
  pub read_access_token-issue :
      find (is_active_user u.pk) s.users ≡ some u
      → now ≤ later
      → read_access_token signer ttl later s.users access
        ≡ (if leb later (now + ttl) then ok u else invalid expired)
  unfolding read_access_token issue_access_token
  read_access_token-issue known order = elim (Bool-cases (leb later (now + ttl))) [
    | inl e ↦
        rw
          (laws.fresh now later ttl (record { uid = u.pk; ver = u.token_version }) order
            (ground arith))
          (rw (known, e) (ground arith))
    | inr e ↦
        rw (
          laws.stale now later ttl (record { uid = u.pk; ver = u.token_version }) (ground arith),
          e,
        )
  ]
