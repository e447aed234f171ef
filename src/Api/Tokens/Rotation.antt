-- ===== src/Api/Tokens/Rotation.antt =====
-- The rotation of refresh tokens (Eve/api/tokens.py), and their families.
use mathlib.Core.Option.{some-injective}
use mathlib.Core.Path.{subst}
use django_app_eve.Prelude.{
  ℕ, ◌+◌, ◌≤◌, ◌≡◌, refl, sym, ◌∙◌, ap, inl, inr, String, Option, none, some, Bool, true, false,
  Bool-cases, List, [], ◌∷◌, find, find-append, find-update_where, update_where, count,
  count-append, not, ◌||◌, ◌==◌, ==_refl, str_eq, eq_iff, eq_refl, if◌then◌else◌, if-both, arith,
}
use django_app_eve.Api.Tokens.{
  RefreshToken, Store, Result, ok, is_expired, is_unused, in_family, retire, new_token,
  issue_refresh_token, is_user, active, rotate, revoke_family, rotate_unused, rotate_presented,
  rotate_refresh_token, unused_of, revoke_all_tokens,
}

abbrev pub has_hash : String → RefreshToken → Bool
has_hash hash t = str_eq t.token_hash hash

-- How many tokens of a family can still be exchanged.
abbrev pub live : String → List RefreshToken → ℕ
live family tokens = count (in_family family) tokens

retired-unused :
    (now : ℕ) (reason family : String) (t : RefreshToken)
    → in_family family (retire now reason t) ≡ false
unfolding retire
retired-unused now reason family t = refl

-- Retiring rows never makes more tokens live.
live-retire-le :
    (family : String) (p : RefreshToken → Bool) (now : ℕ) (reason : String) (l : List RefreshToken)
    → live family (update_where p (retire now reason) l) ≤ live family l
unfolding update_where
live-retire-le family p now reason [] = omega arith
live-retire-le family p now reason (x ∷ xs) =
    ground (arith, live-retire-le family p now reason xs, retired-unused now reason family x)

-- Retiring a live row that was found makes one fewer.
live-retire-found :
    (family : String) (q : RefreshToken → Bool) (now : ℕ) (reason : String) (l : List RefreshToken)
    (t : RefreshToken)
    → find q l ≡ some t
    → in_family family t ≡ true
    → live family (update_where (λ r. r.pk == t.pk) (retire now reason) l) + 1 ≤ live family l
unfolding update_where find
live-retire-found family q now reason [] t found h = cc
live-retire-found family q now reason (x ∷ xs) t found h = elim (Bool-cases (q x)) [
  | inl e ↦
      let same : x ≡ t = some-injective x t (rw e at found) in
      subst
        (λ (y : RefreshToken).
          live family (update_where (λ r. r.pk == t.pk) (retire now reason) (y ∷ xs)) + 1
          ≤ live family (y ∷ xs))
        (sym same)
        (rw (==_refl t.pk, h, retired-unused now reason family t)
          (omega (arith, live-retire-le family (λ r. r.pk == t.pk) now reason xs)))
  | inr e ↦ ground (
    arith,
    live-retire-found family q now reason xs t (rw e at found) h,
    retired-unused now reason family x,
  )
]

-- Revoking a family leaves none of it live.
pub live-revoke_family :
    (family : String) (now : ℕ) (reason : String) (l : List RefreshToken)
    → live family (update_where (in_family family) (retire now reason) l) ≡ 0
unfolding update_where
live-revoke_family family now reason [] = refl
live-revoke_family family now reason (x ∷ xs) =
    ground (arith, live-revoke_family family now reason xs, retired-unused now reason family x)

-- A successful exchange found an unused row, and went through.
pub rotated :
    (now days user : ℕ) (new_hash : String) (o : Option RefreshToken) (s s' : Store)
    → rotate_presented now days new_hash o s ≡ (ok user, s')
    → (t : RefreshToken) × (o ≡ some t)
      × (is_unused t ≡ true)
      × ((rotate now days new_hash t s).1 ≡ s')
unfolding rotate_presented rotate_unused
rotated now days user new_hash none s s' h = cc
rotated now days user new_hash (some t) s s' h = elim (Bool-cases (is_unused t)) [
  | inr e ↦ cc (rw (e, rotate_presented) at h)
  | inl e ↦ elim (Bool-cases (is_expired now t || not (active (find (is_user t.user) s.users)))) [
    | inl g ↦ cc (rw (e, rotate_presented, g, rotate_unused) at h)
    | inr g ↦ (
      t,
      refl,
      e,
      ap (λ (r : Result ℕ × Store). r.1) (rw (e, rotate_presented, g, rotate_unused) at h),
    )
  ]
]

pub find-rotate :
    (now days : ℕ) (hash new_hash : String) (t : RefreshToken) (s : Store)
    → find (has_hash hash) s.tokens ≡ some t
    → find (has_hash hash) (rotate now days new_hash t s).1.tokens ≡ some (retire now "rotated" t)
unfolding rotate issue_refresh_token retire
find-rotate now days hash new_hash t s found =
    find-append (has_hash hash) (update_where (λ r. r.pk == t.pk) (retire now "rotated") s.tokens) _
    ∙ rw
        (find-update_where (has_hash hash) (λ r. r.pk == t.pk) (retire now "rotated") s.tokens
          (λ a e. refl))
        (rw found (rw (==_refl t.pk)))

-- At most `k` tokens of each family can be exchanged.
abbrev pub AtMostLive : ℕ → Store → Type 0
AtMostLive k s = (family : String) → live family s.tokens ≤ k

-- What may happen to the tokens: a login with a family of its own, an attempt to rotate any token, a
-- revocation of all tokens of a user. A rotation reads its row and saves it later, with no lock: it
-- is `refresh` where no other request writes in between, and `late` is the end of one that had
-- read the row `t` as unused, whatever became of the row since.
pub data Step (s : Store) : Store → Type 0 where
  login :
      (now days user : ℕ) (hash family label : String)
      → live family s.tokens ≡ 0
      → Step s (issue_refresh_token now days user hash family label s)
  refresh :
      (now days : ℕ) (hash new_hash : String)
      → Step s (rotate_refresh_token now days hash new_hash s).1
  late :
      (now days : ℕ) (new_hash : String) (t : RefreshToken)
      → Step s (rotate now days new_hash t s).1
  revoke : (now user : ℕ) → Step s (revoke_all_tokens now user s).1

pub data Reach (s : Store) : Store → Type 0 where
  here : Reach s s
  next : {t u : Store} → Reach s t → Step t u → Reach s u

-- How many rotations of a run ended late.
abbrev late_step : {s t : Store} → Step s t → ℕ
late_step (login now days user hash family label fresh) = 0
late_step (refresh now days hash new_hash) = 0
late_step (late now days new_hash t) = 1
late_step (revoke now user) = 0

abbrev pub overlaps : {s t : Store} → Reach s t → ℕ
overlaps here = 0
overlaps (next r step) = late_step step + overlaps r

live-issued :
    (now days user : ℕ) (hash family label f : String) (s : Store)
    → live f (issue_refresh_token now days user hash family label s).tokens
      ≡ live f s.tokens + ((if str_eq family f then 1 else 0) + 0)
unfolding issue_refresh_token new_token
live-issued now days user hash family label f s = count-append (in_family f) s.tokens _

issue-AtMostLive :
    (k now days user : ℕ) (hash family label : String) (s : Store)
    → live family s.tokens + 1 ≤ k
    → AtMostLive k s
    → AtMostLive k (issue_refresh_token now days user hash family label s)
issue-AtMostLive k now days user hash family label s room most f =
    elim (Bool-cases (str_eq family f)) [
      | inl e ↦
          let free : live f s.tokens + 1 ≤ k =
            subst (λ x. live x s.tokens + 1 ≤ k) ((eq_iff family f).0 e) room in
          ground (arith, live-issued now days user hash family label f s, e, free)
      | inr e ↦ ground (arith, live-issued now days user hash family label f s, e, most f)
    ]

rotate-AtMostLive :
    (k now days : ℕ) (hash new_hash : String) (t : RefreshToken) (s : Store)
    → find (has_hash hash) s.tokens ≡ some t
    → is_unused t ≡ true
    → AtMostLive k s
    → AtMostLive k (rotate now days new_hash t s).1
unfolding rotate
rotate-AtMostLive k now days hash new_hash t s found fresh most =
    issue-AtMostLive k now days t.user new_hash t.family t.label _
      (omega (
        arith,
        most t.family,
        live-retire-found t.family (has_hash hash) now "rotated" s.tokens t found
            (rw (fresh, eq_refl t.family)),
      ))
      (λ f. omega (arith, most f, live-retire-le f (λ r. r.pk == t.pk) now "rotated" s.tokens))

-- A late end of a rotation adds a live token, and may retire none.
late-AtMostLive :
    (k now days : ℕ) (new_hash : String) (t : RefreshToken) (s : Store)
    → AtMostLive k s
    → AtMostLive (k + 1) (rotate now days new_hash t s).1
unfolding rotate
late-AtMostLive k now days new_hash t s most =
    issue-AtMostLive (k + 1) now days t.user new_hash t.family t.label _
      (omega
        (arith, most t.family, live-retire-le t.family (λ r. r.pk == t.pk) now "rotated" s.tokens))
      (λ f. omega (arith, most f, live-retire-le f (λ r. r.pk == t.pk) now "rotated" s.tokens))

refresh-AtMostLive :
    (k now days : ℕ) (hash new_hash : String) (o : Option RefreshToken) (s : Store)
    → find (has_hash hash) s.tokens ≡ o
    → AtMostLive k s
    → AtMostLive k (rotate_presented now days new_hash o s).1
unfolding rotate_presented rotate_unused revoke_family
refresh-AtMostLive k now days hash new_hash none s found most = most
refresh-AtMostLive k now days hash new_hash (some t) s found most =
    if-both Good (is_unused t) _ _
      (λ fresh.
        if-both Good (is_expired now t || not (active (find (is_user t.user) s.users))) _ _
          (λ e. most) (λ e. rotate-AtMostLive k now days hash new_hash t s found fresh most))
      (λ e f.
        omega (arith, most f, live-retire-le f (in_family t.family) now "reuse_detected" s.tokens))
  where
    Good : Result ℕ × Store → Type 0
    Good r = AtMostLive k r.1

-- From a store in which at most one token of each family can be exchanged, in every state that logins
-- (each with a family of its own), rotations (with any token) and revocations reach, the tokens of
-- a family that can be exchanged are at most one more than the rotations that ended late, on a row
-- that other requests may have written since it was read. So they are at most one where no
-- rotation overlaps another request.
pub Reach-AtMostLive :
    {s t : Store} → AtMostLive 1 s → (r : Reach s t) → AtMostLive (1 + overlaps r) t
unfolding rotate_refresh_token revoke_all_tokens
Reach-AtMostLive most here = λ f. omega (arith, most f)
Reach-AtMostLive most (next {t = t} r (login now days user hash family label fresh)) = λ f.
    let room : live family t.tokens + 1 ≤ 1 + overlaps r = omega (arith, fresh) in
    let after =
      issue-AtMostLive (1 + overlaps r) now days user hash family label t room
        (Reach-AtMostLive most r) f in
    omega (arith, after)
Reach-AtMostLive most (next {t = t} r (refresh now days hash new_hash)) = λ f.
    let after =
      refresh-AtMostLive (1 + overlaps r) now days hash new_hash (find (has_hash hash) t.tokens) t
        refl (Reach-AtMostLive most r) f in
    omega (arith, after)
Reach-AtMostLive most (next {t = t} r (late now days new_hash row)) = λ f.
    let after =
      late-AtMostLive (1 + overlaps r) now days new_hash row t (Reach-AtMostLive most r) f in
    omega (arith, after)
Reach-AtMostLive most (next {t = t} r (revoke now user)) = λ f.
    omega
      (arith, Reach-AtMostLive most r f, live-retire-le f (unused_of user) now "revoked" t.tokens)
