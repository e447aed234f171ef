-- ===== src/Accounts/Verification/Link.antt =====
-- The link in the mail (`verify_email_view` of Eve/accounts/views.py).
use mathlib.Core.Option
use mathlib.Core.Option.{some-injective}
use mathlib.Core.Path.{subst}
use django_app_eve.Prelude.{
  ℕ, ◌+◌, ◌≤◌, ◌<◌, ◌≡◌, refl, sym, ◌∙◌, ap, ◌⊎◌, inl, inr, Option, none, some, Option-cases, Bool,
  true, false, Bool-cases, List, [], ◌∷◌, find, find-append, find-update_where, find_sound,
  update_where, not, leb, ◌||◌, ◌==◌, ==_iff, ==_refl, if◌then◌else◌, if-both, arith,
}
use django_app_eve.Accounts.Profiles.{
  Profile, is_profile_of, new_profile, get_or_create, get_or_create_from,
}
use django_app_eve.Accounts.Verification.{
  Member, Members, MailSigner, uid, bad_signature, email_token_max_age, Page, verification,
  is_member, confirm, confirm_user, confirm_loaded, verify_email_view, Mail, mail_to,
  send_verification_email,
}

-- The documented behaviour of the signer, for the links.
pub record MailLaws (signer : MailSigner) : Type 0 where
  pub fresh :
      (now later user : ℕ)
      → now ≤ later
      → later ≤ now + email_token_max_age
      → signer.loads later email_token_max_age (signer.dumps now user) ≡ uid user
  pub stale :
      (now later user : ℕ)
      → now + email_token_max_age < later
      → signer.loads later email_token_max_age (signer.dumps now user) ≡ bad_signature

abbrev pub verified_in : Option Profile → Bool
verified_in none = false
verified_in (some p) = p.email_verified

-- Whether the address of a user counts as verified.
abbrev pub is_verified : ℕ → List Profile → Bool
is_verified v profiles = verified_in (find (is_profile_of v) profiles)

-- Making a profile verifies nobody.
pub get_or_create-is_verified :
    (v user : ℕ) (profiles : List Profile)
    → is_verified v (get_or_create user profiles).1 ≡ is_verified v profiles
unfolding get_or_create get_or_create_from find new_profile
get_or_create-is_verified v user profiles =
    elim (Option-cases (find (is_profile_of user) profiles)) [
      | inr (p, e) ↦ rw (e, get_or_create_from) refl
      | inl e ↦
          rw (e, get_or_create_from)
            (rw (find-append (is_profile_of v) profiles (new_profile user ∷ []))
              (blank (Option-cases (find (is_profile_of v) profiles))))
    ]
  where
    blank :
        (find (is_profile_of v) profiles ≡ none)
          ⊎ ((p : Profile) × (find (is_profile_of v) profiles ≡ some p))
        → verified_in (elim (find (is_profile_of v) profiles) [
          | none ↦ find (is_profile_of v) (new_profile user ∷ [])
          | some p ↦ some p
        ])
          ≡ is_verified v profiles
    blank (inr (p, e)) = rw e
    blank (inl e) = rw e (ground arith)

-- The profile that a lookup gave is found afterwards.
found_after :
    (user : ℕ) (profiles : List Profile)
    → find (is_profile_of user) (get_or_create user profiles).1
      ≡ some (get_or_create user profiles).0
unfolding get_or_create get_or_create_from find new_profile
found_after user profiles = elim (Option-cases (find (is_profile_of user) profiles)) [
  | inr (p, e) ↦ rw (e, get_or_create_from) e
  | inl e ↦
      rw (e, get_or_create_from)
        (rw (find-append (is_profile_of user) profiles (new_profile user ∷ []))
          (rw e (rw (==_refl user))))
]

module _ (signer : MailSigner) where
  -- The update verifies the user with the profile, and nobody else.
  confirm-is_verified :
      (v user : ℕ) (p : Profile) (profiles : List Profile)
      → find (is_profile_of user) profiles ≡ some p
      → is_verified v (update_where (is_profile_of user) (confirm signer) profiles)
        ≡ (v == user || is_verified v profiles)
  unfolding confirm
  confirm-is_verified v user p profiles found =
      ap verified_in (
        find-update_where (is_profile_of v) (is_profile_of user) (confirm signer) profiles
          (λ a e. refl))
      ∙ elim (Bool-cases (v == user)) [
        | inl e ↦ rw ((==_iff v user).0 e, found, ==_refl user) (own user p found)
        | inr e ↦ others e (Option-cases (find (is_profile_of v) profiles))
      ]
    where
      own :
          (u : ℕ) (q : Profile)
          → find (is_profile_of u) profiles ≡ some q
          → verified_in (some (if q.user == u then confirm signer q else q)) ≡ true
      own u q at = rw (find_sound (is_profile_of u) profiles {a = q} at)

      others :
          (v == user) ≡ false
          → (find (is_profile_of v) profiles ≡ none)
            ⊎ ((q : Profile) × (find (is_profile_of v) profiles ≡ some q))
          → verified_in (
              Option.map
                (λ (a : Profile). if a.user == user then confirm signer a else a)
                (find (is_profile_of v) profiles))
            ≡ (v == user || is_verified v profiles)
      others e (inl none_there) = rw (none_there, e)
      others e (inr (q, at)) =
          let mine : q.user ≡ v =
            (==_iff q.user v).0 (find_sound (is_profile_of v) profiles {a = q} at) in
          rw at (rw (mine, e))

  -- What following a link to a user does.
  pub record Confirmed (user : ℕ) (s : Members) (seen : Page × Members) : Type 0 where
    pub page : seen.0 ≡ verification true
    pub verified : (v : ℕ) → is_verified v seen.1.profiles ≡ (v == user || is_verified v s.profiles)
    pub users : seen.1.users ≡ s.users

  already :
      (v user : ℕ) (profiles : List Profile)
      → is_verified user profiles ≡ true
      → is_verified v profiles ≡ (v == user || is_verified v profiles)
  already v user profiles h = elim (Bool-cases (v == user)) [
    | inl e ↦ rw ((==_iff v user).0 e, h, ==_refl user) refl
    | inr e ↦ rw e
  ]

  confirm_user-Confirmed :
      (u : Member) (s : Members) → Confirmed u.pk s (confirm_user signer (some u) s)
  unfolding confirm_user
  confirm_user-Confirmed u s =
      let made = (get_or_create u.pk s.profiles).1 in
      if-both (Confirmed u.pk s) (not (get_or_create u.pk s.profiles).0.email_verified) _ _
        (λ e. record {
          page = refl;
          verified = λ v.
              confirm-is_verified v u.pk _ made (found_after u.pk s.profiles)
              ∙ ap (λ b. v == u.pk || b) (get_or_create-is_verified v u.pk s.profiles);
          users = refl;
        })
        (λ e. record {
          page = refl;
          verified = λ v.
              already v u.pk made (rw (found_after u.pk s.profiles) (ground (arith, e)))
              ∙ ap (λ b. v == u.pk || b) (get_or_create-is_verified v u.pk s.profiles);
          users = refl;
        })

  -- A token that names a user.
  pub followed :
      (user : ℕ) (u : Member) (s : Members)
      → find (is_member user) s.users ≡ some u
      → let seen = confirm_loaded signer (uid user) s in
        Confirmed user s seen × ((confirm_loaded signer (uid user) seen.1).0 ≡ verification true)
  unfolding confirm_loaded
  followed user u s e =
      let own : u.pk ≡ user =
        (==_iff u.pk user).0 (find_sound (is_member user) s.users {a = u} e) in
      let c = confirm_user-Confirmed u s in
      let seen = confirm_user signer (some u) s in
      rw e (
        subst (λ n. Confirmed n s seen) own c,
        rw c.users (rw e (confirm_user-Confirmed u seen.1).page),
      )

  -- What a link is worth: in time, and too late.
  abbrev pub LinkWorks : ℕ → ℕ → signer.Token → Members → Bool → Type 0
  LinkWorks later user token s true =
      let seen = verify_email_view signer later token s in
      (seen.0 ≡ verification true)
      × ((v : ℕ) → is_verified v seen.1.profiles ≡ (v == user || is_verified v s.profiles))
      × ((verify_email_view signer later token seen.1).0 ≡ verification true)
  LinkWorks later user token s false =
      verify_email_view signer later token s ≡ (verification false, s)

-- The link of a mail from `send_verification_email`: followed within three days it verifies the
-- address of the user to whom the mail went, and of nobody else, and may be followed again; later
-- the answer is 400 and nothing changes.
pub verify_email_view-LinkWorks :
    (signer : MailSigner) (laws : MailLaws signer) (now later user : ℕ) (s : Members)
    (mail : Mail signer.Token)
    → send_verification_email signer now user s ≡ some mail
    → now ≤ later
    → LinkWorks signer later user mail.token s (leb later (now + email_token_max_age))
unfolding verify_email_view send_verification_email mail_to confirm_loaded
verify_email_view-LinkWorks signer laws now later user s mail sent order =
    elim (Option-cases (find (is_member user) s.users)) [
      | inl e ↦ cc (rw (e, mail_to) at sent)
      | inr (u, e) ↦
          let own : u.pk ≡ user =
            (==_iff u.pk user).0 (find_sound (is_member user) s.users {a = u} e) in
          let token : mail.token ≡ signer.dumps now user =
            ap (λ (m : Mail signer.Token). m.token)
              (sym (some-injective _ mail (rw (e, mail_to) at sent)))
            ∙ ap (signer.dumps now) own in
          elim (Bool-cases (leb later (now + email_token_max_age))) [
            | inl young ↦
                let (c, again) = followed signer user u s e in
                rw (young, token, laws.fresh now later user order (ground arith))
                  (c.page, c.verified, again)
            | inr old ↦ rw (old, token, laws.stale now later user (ground arith)) refl
          ]
    ]
