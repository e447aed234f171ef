-- ===== src/Tests/Members.antt =====
-- The theorems about registration and the verification of addresses, at one user.
use django_app_eve.Prelude.{
  ℕ, ◌+◌, ◌≡◌, ◌⊎◌, refl, true, List, [], ◌∷◌, find, update_where, leb, if◌then◌else◌, arith,
}
use mathlib.Core.List.{Mem}
use django_app_eve.Accounts.Profiles.{get_or_create}
use django_app_eve.Accounts.Verification.{
  Members, MailSigner, uid, bad_signature, email_token_max_age, Mail, Registration,
  send_verification_email, verify_email_view, profile_view,
}
use django_app_eve.Accounts.Verification.Link.{
  MailLaws, LinkWorks, is_verified, verify_email_view-LinkWorks,
}
use django_app_eve.Accounts.Verification.Traces.{
  Action, views, follows, Follows, run_action, run_actions, run_actions-verified,
}

-- A token is the time and the user.
abbrev signer : MailSigner
signer = record {
  Token = ℕ × ℕ;
  dumps = λ now user. (now, user);
  loads = λ later age t. if leb later (t.0 + age) then uid t.1 else bad_signature;
}

laws : MailLaws signer
laws = record {
  fresh = λ now later user order young. ground (arith, young);
  stale = λ now later user old. ground (arith, old);
}

abbrev members : Members
members = record {
  users = record { pk = 7; username = "ann"; email = "ann@example.org" } ∷ [];
  profiles = [];
  next_pk = 8;
}

abbrev mail : Mail (ℕ × ℕ)
mail = record { to = "ann@example.org"; token = (100, 7) }

verify_email_view-LinkWorks_example :
    LinkWorks signer 300 7 mail.token members (leb 300 (100 + email_token_max_age))
unfolding send_verification_email find
verify_email_view-LinkWorks_example =
    verify_email_view-LinkWorks signer laws 100 300 7 members mail refl (omega arith)

abbrev registration : Registration
registration = record {
  is_post = true;
  username = "bob";
  email = "bob@example.org";
  is_acceptable = true;
}

abbrev actions : List (Action signer)
actions = views 7 ∷ follows 300 (100, 7) ∷ []

is_verified_then : is_verified 7 (run_actions signer (λ s. s) actions members).profiles ≡ true
unfolding run_actions run_action profile_view find update_where verify_email_view get_or_create
is_verified_then = refl

run_actions-verified_example :
    (is_verified 7 members.profiles ≡ true)
    ⊎ ((a : Action signer) × Mem a actions × Follows signer 7 a)
run_actions-verified_example =
    run_actions-verified signer (λ s. s) 7 actions members is_verified_then
