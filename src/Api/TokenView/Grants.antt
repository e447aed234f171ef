-- ===== src/Api/TokenView/Grants.antt =====
-- Who is given tokens by `TokenView.post` (Eve/api/v1/views.py).
use django_app_eve.Prelude.{
  ℕ, ◌≡◌, ◌≢◌, refl, sym, ◌∙◌, ◌↔◌, ◌⊎◌, inl, inr, String, Option, none, some, Bool, true, false,
  Bool-cases, List, [], ◌∷◌, not, str_eq, eq_iff, strip, if-both, arith,
}
use django_app_eve.Accounts.Lockout.{is_locked}
use django_app_eve.Accounts.Profiles.{get_or_create}
use django_app_eve.Api.Tokens.{User}
use django_app_eve.Api.TokenView.{
  Deployment, Credentials, Draw, pair, no_content, error, Factor, passed, missing, wrong, Site,
  Seen, Token, any_verifies, text_of, outcome, ask_devices, second_factor, grant, check_profile,
  after_factor, check_factor, check_user, token_post,
}

module _ (d : Deployment) (draw : Draw) (r : Credentials) (s : Site d) where
  -- The site when the tokens are issued: the check of a code may have changed a device, and a missing
  -- profile was made.
  abbrev pub checked : User → Site d
  checked u = record s {
    otp = (second_factor d u r.code s.otp).1;
    profiles = (get_or_create u.pk s.profiles).1;
  }

  -- A user without a confirmed device, or a code that one of the devices accepts.
  abbrev pub PassesDevices : User → Type 0
  PassesDevices u =
      let devices = d.otp.devices_for_user u.pk s.otp in
      let code = strip (text_of d r.code) in
      (devices ≡ []) ⊎ ((code ≢ "") × ((any_verifies d devices code s.otp).0 ≡ true))

  pub record MaySignIn (u : User) : Type 0 where
    pub unlocked : is_locked d.cache d.lockout_key r.username s.cache ≡ false
    pub known : d.authenticate r.username r.password ≡ some u
    pub active : u.is_active ≡ true
    pub factor : PassesDevices u
    pub verified : (get_or_create u.pk s.profiles).0.email_verified ≡ true

  ask_devices-passed :
      (l : List d.otp.Device) (t : d.otp.State)
      → (ask_devices d l r.code t).0 ≡ passed
      → (l ≡ [])
        ⊎ ((strip (text_of d r.code) ≢ "")
            × ((any_verifies d l (strip (text_of d r.code)) t).0 ≡ true))
  unfolding ask_devices
  ask_devices-passed [] t h = inl refl
  ask_devices-passed (x ∷ l) t h = elim (Bool-cases (str_eq (strip (text_of d r.code)) "")) [
    | inl e ↦ cc (rw e at h)
    | inr e ↦ inr (
      (λ q. cc ((eq_iff (strip (text_of d r.code)) "").1 q, e)),
      accepted (any_verifies d (x ∷ l) (strip (text_of d r.code)) t) (rw e at h),
    )
  ]
    where
      accepted : (o : Bool × d.otp.State) → (outcome d o).0 ≡ passed → o.0 ≡ true
      accepted (true, t) h = refl
      accepted (false, t) h = cc

  passed-ask_devices :
      (l : List d.otp.Device) (t : d.otp.State)
      → (l ≡ [])
        ⊎ ((strip (text_of d r.code) ≢ "")
            × ((any_verifies d l (strip (text_of d r.code)) t).0 ≡ true))
      → (ask_devices d l r.code t).0 ≡ passed
  unfolding ask_devices
  passed-ask_devices [] t h = refl
  passed-ask_devices (x ∷ l) t (inl e) = cc
  passed-ask_devices (x ∷ l) t (inr (e, h)) =
      elim (Bool-cases (str_eq (strip (text_of d r.code)) "")) [
        | inl z ↦ absurd (e ((eq_iff (strip (text_of d r.code)) "").0 z))
        | inr z ↦ rw z (accepted (any_verifies d (x ∷ l) (strip (text_of d r.code)) t) h)
      ]
    where
      accepted : (o : Bool × d.otp.State) → o.0 ≡ true → (outcome d o).0 ≡ passed
      accepted (true, t) h = refl
      accepted (false, t) h = cc

  -- An answer that carries tokens.
  abbrev IsPair : Seen d → Type 0
  IsPair (pair a t n, s') = Unit
  IsPair (no_content, s') = ⊥
  IsPair (error st e, s') = ⊥

  pair_IsPair :
      (o : Seen d) (a : Token d) (t : String) (n : ℕ) (s' : Site d)
      → o ≡ (pair a t n, s')
      → IsPair o
  pair_IsPair (pair a t n, s') b u m s'' h = tt
  pair_IsPair (no_content, s') b u m s'' h = cc
  pair_IsPair (error st e, s') b u m s'' h = cc

  check_profile-IsPair :
      (u : User) (t : Site d)
      → IsPair (check_profile d draw r.username u t)
      → (get_or_create u.pk t.profiles).0.email_verified ≡ true
  unfolding check_profile
  check_profile-IsPair u t h = elim (Bool-cases (get_or_create u.pk t.profiles).0.email_verified) [
    | inl e ↦ e
    | inr e ↦ absurd (rw e at h)
  ]

  after_factor-IsPair :
      (u : User) (f : Factor) (t : Site d)
      → IsPair (after_factor d draw r.username u f t)
      → (f ≡ passed) × ((get_or_create u.pk t.profiles).0.email_verified ≡ true)
  unfolding after_factor
  after_factor-IsPair u passed t h = (refl, check_profile-IsPair u t h)
  after_factor-IsPair u missing t h = absurd h
  after_factor-IsPair u wrong t h = absurd h

  check_user-IsPair :
      (o : Option User)
      → is_locked d.cache d.lockout_key r.username s.cache ≡ false
      → d.authenticate r.username r.password ≡ o
      → IsPair (check_user d draw r o s)
      → (u : User) × MaySignIn u
  unfolding check_user check_factor second_factor
  check_user-IsPair none free e = λ h. absurd h
  check_user-IsPair (some u) free e =
      if-both (λ o. IsPair o → (v : User) × MaySignIn v) (not u.is_active) _ _ (λ z h. absurd h)
        (λ z h.
          let (f, v) = after_factor-IsPair u _ _ h in
          (
            u,
            record {
              unlocked = free;
              known = e;
              active = ground arith;
              factor = ask_devices-passed (d.otp.devices_for_user u.pk s.otp) s.otp f;
              verified = v;
            },
          ))

  token_post-IsPair : IsPair (token_post d draw (some r) s) → (u : User) × MaySignIn u
  unfolding token_post
  token_post-IsPair h = elim (Bool-cases (is_locked d.cache d.lockout_key r.username s.cache)) [
    | inl e ↦ absurd (rw e at h)
    | inr e ↦ check_user-IsPair _ e refl (rw e at h)
  ]

  pub token_post-grant :
      (u : User)
      → MaySignIn u
      → token_post d draw (some r) s ≡ grant d draw r.username u (checked u)
  unfolding token_post check_user check_factor second_factor after_factor check_profile
  token_post-grant u may =
      rw (may.unlocked, may.known, check_user, may.active)
        (rw (passed-ask_devices (d.otp.devices_for_user u.pk s.otp) s.otp may.factor, after_factor)
          (rw may.verified))

  -- `TokenView.post` answers with tokens exactly when the name is not locked, the password is that of
  -- an active user, the user has no confirmed device or one of them accepts the code, and the
  -- address of the user is verified; the answer and the state are then those of `grant`.
  pub token_post-grants_iff :
      (access : Token d) (refresh : String) (n : ℕ) (s' : Site d)
      → (token_post d draw (some r) s ≡ (pair access refresh n, s')) ↔ (
          (u : User) × MaySignIn u
          × (grant d draw r.username u (checked u) ≡ (pair access refresh n, s')))
  token_post-grants_iff access refresh n s' = (
    (λ h.
        let (u, may) = token_post-IsPair (pair_IsPair _ access refresh n s' h) in
        (u, may, sym (token_post-grant u may) ∙ h)),
    (λ g. token_post-grant g.0 g.1 ∙ g.2),
  )
