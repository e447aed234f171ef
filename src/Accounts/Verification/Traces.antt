-- ===== src/Accounts/Verification/Traces.antt =====
-- Sequences of actions on the accounts (Eve/accounts/views.py), and who is verified after them.
use mathlib.Core.List.{Mem, mem-cons_self, mem-cons_of_mem}
use django_app_eve.Prelude.{
  ℕ, ◌≡◌, refl, sym, ◌∙◌, ap, ◌⊎◌, inl, inr, String, Option, Option-cases, Bool, true, Bool-cases,
  List, [], ◌∷◌, find, find_sound, not, ◌||◌, ◌&&◌, ◌==◌, ==_iff, if-both,
}
use django_app_eve.Accounts.Verification.{
  Members, MailSigner, Loaded, uid, no_uid, bad_signature, email_token_max_age, Page, is_member,
  Registration, is_valid, save_user, register_view, resend_verification_view, profile_view,
  confirm_user, confirm_loaded, verify_email_view,
}
use django_app_eve.Accounts.Verification.Link.{is_verified, get_or_create-is_verified, followed}

-- What may happen to the accounts.
pub data Action (signer : MailSigner) : Type 0 where
  registers : Registration → Action signer
  resends : Bool → ℕ → Action signer
  views : ℕ → Action signer
  follows : ℕ → signer.Token → Action signer

-- The action follows a token in which the signer finds the user.
abbrev pub Follows : (signer : MailSigner) → ℕ → Action signer → Type 0
Follows signer v (follows now token) = signer.loads now email_token_max_age token ≡ uid v
Follows signer v (registers r) = ⊥
Follows signer v (resends is_post user) = ⊥
Follows signer v (views user) = ⊥

module _ (signer : MailSigner) (normal : String → String) where
  unfoldable pub run_action : Action signer → Members → Members
  run_action (registers r) s = (register_view normal r s).1
  run_action (resends is_post user) s = (resend_verification_view is_post user s).1
  run_action (views user) s = (profile_view user s).1
  run_action (follows now token) s = (verify_email_view signer now token s).1

  unfoldable pub run_actions : List (Action signer) → Members → Members
  run_actions [] s = s
  run_actions (a ∷ rest) s = run_actions rest (run_action a s)

  -- A change for a user came from a followed token.
  abbrev Explained : ℕ → Members → Members → Type 0 → Type 0
  Explained v s s' F = is_verified v s'.profiles ≡ true → (is_verified v s.profiles ≡ true) ⊎ F

  loaded-Explained :
      (v now : ℕ) (token : signer.Token) (l : Loaded) (s : Members)
      → signer.loads now email_token_max_age token ≡ l
      → Explained v s (confirm_loaded signer l s).1 (Follows signer v (follows now token))
  unfolding confirm_loaded confirm_user
  loaded-Explained v now token no_uid s e h = inl h
  loaded-Explained v now token bad_signature s e h = inl h
  loaded-Explained v now token (uid n) s e h = elim (Option-cases (find (is_member n) s.users)) [
    | inl z ↦ inl (rw (z, confirm_user) at h)
    | inr (u, z) ↦
        let own : u.pk ≡ n = (==_iff u.pk n).0 (find_sound (is_member n) s.users {a = u} z) in
        let now_verified : (v == n || is_verified v s.profiles) ≡ true =
          sym ((followed signer n u s z).0.verified v) ∙ h in
        elim (Bool-cases (v == n)) [
          | inl same ↦ inr (e ∙ ap uid (sym ((==_iff v n).0 same)))
          | inr other ↦ inl (rw other at now_verified)
        ]
  ]

  run_action-Explained :
      (v : ℕ) (a : Action signer) (s : Members)
      → Explained v s (run_action a s) (Follows signer v a)
  unfolding run_action register_view save_user resend_verification_view profile_view
      verify_email_view
  run_action-Explained v (registers r) s =
      if-both (λ (x : (Page × Option ℕ) × Members). Explained v s x.1 ⊥)
        (r.is_post && is_valid normal r s) _ _
        (λ e h. inl (sym (get_or_create-is_verified v s.next_pk s.profiles) ∙ h)) (λ e h. inl h)
  run_action-Explained v (resends is_post user) s =
      if-both (λ (x : (Page × Option ℕ) × Members). Explained v s x.1 ⊥) (not is_post) _ _
        (λ e h. inl h) (λ e h. inl (sym (get_or_create-is_verified v user s.profiles) ∙ h))
  run_action-Explained v (views user) s =
      λ h. inl (sym (get_or_create-is_verified v user s.profiles) ∙ h)
  run_action-Explained v (follows now token) s = loaded-Explained v now token _ s refl

-- Whatever happens at the registration, the profile, the resending of mails and the links: a user
-- whose address counts as verified at the end, and did not at the beginning, was named by a token
-- that the signer accepted, within three days, when it was followed.
pub run_actions-verified :
    (signer : MailSigner) (normal : String → String) (v : ℕ) (l : List (Action signer))
    (s : Members)
    → is_verified v (run_actions signer normal l s).profiles ≡ true
    → (is_verified v s.profiles ≡ true) ⊎ ((a : Action signer) × Mem a l × Follows signer v a)
unfolding run_actions
run_actions-verified signer normal v [] s h = inl h
run_actions-verified signer normal v (a ∷ rest) s h =
    elim (run_actions-verified signer normal v rest (run_action signer normal a s) h) [
      | inr (b, at, f) ↦ inr (b, mem-cons_of_mem a at, f)
      | inl before ↦ elim (run_action-Explained signer normal v a s before) [
        | inl earlier ↦ inl earlier
        | inr f ↦ inr (a, mem-cons_self, f)
      ]
    ]
