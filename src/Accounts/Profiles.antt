-- ===== src/Accounts/Profiles.antt =====
-- Eve/accounts/models.py: the profile of a user and `Profile.objects.get_or_create(user=…)`. The column
-- `token_version` stands with the users of Api/Tokens.
use django_app_eve.Prelude.{
  ℕ, String, ◌≡◌, Option, none, some, Option-cases, inl, inr, Bool, false, List, [], ◌∷◌, ◌++◌,
  find, find-append, ◌==◌, ==_refl,
}

pub record Profile : Type 0 where
  pub user : ℕ
  pub email_verified : Bool
  pub is_long_term_patient : Bool
  pub hospital_name : String
  pub room_number : String
  pub preferred_vr_mode : String

abbrev pub is_profile_of : ℕ → Profile → Bool
is_profile_of user p = p.user == user

-- The defaults of the model.
unfoldable pub new_profile : ℕ → Profile
new_profile user = record {
  user = user;
  email_verified = false;
  is_long_term_patient = false;
  hospital_name = "";
  room_number = "";
  preferred_vr_mode = "";
}

unfoldable pub get_or_create_from : ℕ → Option Profile → List Profile → Profile × List Profile
unfolding new_profile
get_or_create_from user (some p) profiles = (p, profiles)
get_or_create_from user none profiles = (new_profile user, profiles ++ new_profile user ∷ [])

unfoldable pub get_or_create : ℕ → List Profile → Profile × List Profile
unfolding get_or_create_from
get_or_create user profiles = get_or_create_from user (find (is_profile_of user) profiles) profiles

-- Once a profile has been looked up it is there: the next lookup finds the same and adds nothing.
pub get_or_create-again :
    (user : ℕ) (profiles : List Profile)
    → let r = get_or_create user profiles in get_or_create user r.1 ≡ r
unfolding get_or_create get_or_create_from find new_profile
get_or_create-again user profiles = elim (Option-cases (find (is_profile_of user) profiles)) [
  | inr (p, e) ↦ rw (e, get_or_create_from) (rw e)
  | inl e ↦
      rw (e, get_or_create_from)
        (rw (find-append (is_profile_of user) profiles (new_profile user ∷ []))
          (rw e (rw (==_refl user))))
]
