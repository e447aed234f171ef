-- ===== src/Api/TokenView/Guessing/Locks.antt =====
-- The failures of a name that guesses at the sign-in page (Eve/accounts/views.py) and at the tokens
-- (Eve/api/v1/views.py) leave behind: both doors count them in one place.
use mathlib.Core.Path.{subst}
use django_app_eve.Prelude.{
  ℕ, zero, suc, min, ◌+◌, ◌≤◌, ◌≡◌, ◌≢◌, ◌∙◌, refl, String, Option, none, some, Bool, false,
  Bool-cases, inl, inr, List, [], ◌∷◌, All, leb, not, str_eq, if◌then◌else◌, if-both, arith,
}
use django_app_eve.Core.Cache.{Laws}
use django_app_eve.Core.Throttling.{
  Response, served, effective_limit, exceeds, current_count, rate_limit,
}
use django_app_eve.Core.Throttling.Window.{current_count-other}
use django_app_eve.Accounts.Lockout.{lockout_threshold, is_locked, register_failure}
use django_app_eve.Accounts.Lockout.Window.{Counts, record_failure-Counts, is_locked-Counts}
use django_app_eve.Accounts.Login.{
  Page, locked, fail, check_password, login_view, limited_login_view,
}
use django_app_eve.Accounts.Login.Locks.{submit}
use django_app_eve.Api.Tokens.{User}
use django_app_eve.Api.TokenView.{
  Deployment, Draw, error, Factor, passed, missing, wrong, Site, Seen, second_factor, count_failure,
  after_factor, check_factor, check_user, token_post, limited_token_post,
}
use django_app_eve.Api.TokenView.Limited.{counted, LetThrough, answered}
use django_app_eve.Api.TokenView.Guessing.{
  is_valid, Guess, form, api, limit_key_of, credentials, guess_once, guess_all, IsWrong, Misses,
}

module _ (d : Deployment) where
  -- The site after a POST of the form that its limit let through.
  at_form : String → String → Site d → Site d
  at_form username password s = record s {
    cache =
        (login_view d.cache d.lockout_key d.accounts (is_valid d) (submit username password)
          s.cache).1;
  }

module _ (d : Deployment) (laws : Laws d.cache) (scaled : ℕ → ℕ) (username : String)
    (named : str_eq username "" ≡ false) where
  -- The address has used up its requests of the window.
  abbrev exceeded : String → Site d → Bool
  exceeded limit_key s =
      exceeds (current_count d.cache limit_key 300 s.cache).0 (effective_limit scaled 5)

  -- The entry of the name after `n` failures.
  abbrev pub Failures : ℕ → Site d → Type 0
  Failures n s = Counts d.cache laws d.lockout_key username n s.cache

  locked-Failures :
      (n : ℕ) (s : Site d)
      → Failures n s
      → is_locked d.cache d.lockout_key username s.cache ≡ leb lockout_threshold n
  locked-Failures n s h = is_locked-Counts d.cache laws d.lockout_key username n s.cache h

  count_failure-Failures :
      (n : ℕ) (s : Site d) → Failures n s → Failures (suc n) (count_failure d username s)
  unfolding count_failure register_failure
  count_failure-Failures n s h =
      (record_failure-Counts d.cache laws d.lockout_key username n s.cache h).1

  after_factor-Failures :
      (draw : Draw) (u : User) (f : Factor) (n : ℕ) (s : Site d)
      → f ≡ wrong
      → Failures n s
      → Failures (suc n) (after_factor d draw username u f s).1
  unfolding after_factor
  after_factor-Failures draw u wrong n s e h = count_failure-Failures n s h
  after_factor-Failures draw u passed n s e h = cc
  after_factor-Failures draw u missing n s e h = cc

  check_user-Failures :
      (draw : Draw) (password : String) (code : Option String) (o : Option User) (n : ℕ)
      (s : Site d)
      → IsWrong d o code
      → Failures n s
      → Failures (suc n) (check_user d draw (credentials d username password code) o s).1
  unfolding check_user check_factor
  check_user-Failures draw password code none n s w h = count_failure-Failures n s h
  check_user-Failures draw password code (some u) n s w h =
      if-both (λ (o : Seen d). Failures (suc n) o.1) (not u.is_active) _ _
        (λ e. count_failure-Failures n s h)
        (λ e.
          after_factor-Failures draw u (second_factor d u code s.otp).0 n
            (record s { otp = (second_factor d u code s.otp).1 }) (w (ground arith) s.otp) h)

  api-Failures :
      (draw : Draw) (password : String) (code : Option String) (n : ℕ) (s : Site d)
      → IsWrong d (d.authenticate username password) code
      → Failures n s
      → Failures
          (if leb lockout_threshold n then n else suc n)
          (token_post d draw (some (credentials d username password code)) s).1
  unfolding token_post
  api-Failures draw password code n s w h = elim (Bool-cases (leb lockout_threshold n)) [
    | inl e ↦ rw (locked-Failures n s h, e) h
    | inr e ↦
        rw (locked-Failures n s h, e)
          (check_user-Failures draw password code (d.authenticate username password) n s w h)
  ]

  form-Failures :
      (password : String) (n : ℕ) (s : Site d)
      → is_valid d username password ≡ false
      → Failures n s
      → Failures (if leb lockout_threshold n then n else suc n) (at_form d username password s)
  unfolding at_form login_view check_password fail register_failure
  form-Failures password n s w h = elim (Bool-cases (leb lockout_threshold n)) [
    | inl e ↦ rw (named, locked-Failures n s h, e) h
    | inr e ↦
        rw (named, locked-Failures n s h, e, w)
          (record_failure-Counts d.cache laws d.lockout_key username n s.cache h).1
  ]

  -- Counting a request of an address leaves the failures alone.
  counted-Failures :
      (limit_key : String) (n : ℕ) (s : Site d)
      → limit_key ≢ d.lockout_key username
      → Failures n s
      → Failures n (counted d scaled limit_key s)
  counted-Failures limit_key zero s apart h =
      current_count-other d.cache laws limit_key (d.lockout_key username) apart 300 s.cache ∙ h
  counted-Failures limit_key (suc n) s apart h =
      current_count-other d.cache laws limit_key (d.lockout_key username) apart 300 s.cache ∙ h

  -- What a guess makes of the failures, where it is let through and where it is not.
  abbrev Guessed : ℕ → Bool × Site d → Type 0
  Guessed n (through, s) =
      Failures (if through then (if leb lockout_threshold n then n else suc n) else n) s

  guess_once-Failures :
      (g : Guess d) (n : ℕ) (s : Site d)
      → Misses d username g
      → limit_key_of d g ≢ d.lockout_key username
      → Failures n s
      → Guessed n (guess_once d scaled username g s)
  unfolding guess_once limited_login_view limited_token_post rate_limit at_form
  guess_once-Failures (form limit_key password) n s w apart h =
      elim (Bool-cases (exceeded limit_key s)) [
        | inl e ↦ rw e (counted-Failures limit_key n s apart h)
        | inr e ↦ rw e (
            form-Failures password n (counted d scaled limit_key s) w
              (counted-Failures limit_key n s apart h))
      ]
  guess_once-Failures (api limit_key draw password code) n s w apart h =
      elim (Bool-cases (exceeded limit_key s)) [
        | inl e ↦ rw e (counted-Failures limit_key n s apart h)
        | inr e ↦ rw e (
            api-Failures draw password code n (counted d scaled limit_key s) w
              (counted-Failures limit_key n s apart h))
      ]

  abbrev AreApart : List (Guess d) → Type 0
  AreApart l = All (λ g. limit_key_of d g ≢ d.lockout_key username) l

  guess_all-Failures :
      (l : List (Guess d)) (n : ℕ) (s : Site d)
      → n ≤ lockout_threshold
      → All (Misses d username) l
      → AreApart l
      → Failures n s
      → let (m, s') = guess_all d scaled username l s in Failures (min (n + m) lockout_threshold) s'
  unfolding guess_all
  guess_all-Failures [] n s low w apart h = subst (λ k. Failures k s) (omega (arith, low)) h
  guess_all-Failures (g ∷ rest) n s low w apart h =
      let (through, s') = guess_once d scaled username g s in
      let m = (guess_all d scaled username rest s').0 in
      let n' : ℕ = if through then (if leb lockout_threshold n then n else suc n) else n in
      let bound : n' ≤ lockout_threshold = ground arith in
      let same : min (n' + m) lockout_threshold
          ≡ min (n + (if through then suc m else m)) lockout_threshold =
        ground arith in
      subst (λ k. Failures k (guess_all d scaled username (g ∷ rest) s).1) same
        (guess_all-Failures rest n' s' bound w.1 apart.1 (guess_once-Failures g n s w.0 apart.0 h))

  abbrev pub shown : Page × d.cache.State → Response Page × d.cache.State
  shown (page, cache) = (served page, cache)

  -- While the cache can be reached and the window of the lockout lasts: after any mixture of wrong
  -- guesses for a name that is not empty, passwords at the sign-in page and passwords or codes at
  -- the API, from any addresses and from a clear entry, past the throttles of the framework, both
  -- doors are shut exactly when the limits of the addresses have let ten guesses or more through.
  -- Then a request that its limit lets through is answered with 429 by the page and by the API,
  -- which count the request and change nothing else, whatever is sent; with fewer guesses the
  -- password is checked. The entries of the limits are not the lockout's.
  pub guess_all-locks :
      (l : List (Guess d)) (s : Site d) (page_key api_key : String) (draw : Draw)
      (password : String) (code : Option String)
      → All (Misses d username) l
      → All (λ g. limit_key_of d g ≢ d.lockout_key username) l
      → page_key ≢ d.lockout_key username
      → api_key ≢ d.lockout_key username
      → Failures 0 s
      → LetThrough d scaled page_key (guess_all d scaled username l s).1
      → LetThrough d scaled api_key (guess_all d scaled username l s).1
      → let (n, s') = guess_all d scaled username l s in
        let shut = leb lockout_threshold n in
        let at_page = counted d scaled page_key s' in
        let at_api = counted d scaled api_key s' in
        (limited_login_view d.cache d.lockout_key d.accounts
            (is_valid d)
            scaled
            page_key
            (submit username password)
            s'.cache
          ≡ shown (
              if shut
              then (locked, at_page.cache)
              else check_password d.cache d.lockout_key d.accounts
                  (is_valid d)
                  (submit username password)
                  at_page.cache))
        × (limited_token_post d scaled api_key draw (some (credentials d username password code)) s'
            ≡ answered d (
                if shut
                then (error 429 "account_locked", at_api)
                else check_user d draw
                    (credentials d username password code)
                    (d.authenticate username password)
                    at_api))
  unfolding limited_login_view limited_token_post rate_limit login_view token_post
  guess_all-locks l s page_key api_key draw password code w apart page_apart api_apart h page_open
        api_open =
      (
        rw (page_open, named, lock page_key page_apart) refl,
        rw (api_open, lock api_key api_apart) refl,
      )
    where
      lock :
          (key : String)
          → key ≢ d.lockout_key username
          → is_locked d.cache d.lockout_key username
              (counted d scaled key (guess_all d scaled username l s).1).cache
            ≡ leb lockout_threshold (guess_all d scaled username l s).0
      lock key key_apart =
          let (n, s') = guess_all d scaled username l s in
          locked-Failures (min (0 + n) lockout_threshold) (counted d scaled key s') (
            counted-Failures key (min (0 + n) lockout_threshold) s' key_apart
              (guess_all-Failures l 0 s (omega arith) w apart h))
          ∙ ground arith
