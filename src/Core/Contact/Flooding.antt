-- ===== src/Core/Contact/Flooding.antt =====
-- How many messages one address can store in one window.
use mathlib.Core.Path.{subst}
use django_app_eve.Prelude.{
  sym, if-both, ℕ, suc, ◌+◌, ◌-◌, ◌≤◌, ◌≡◌, String, true, List, [], ◌∷◌, ◌++◌, length,
  length-append, leb, arith,
}
use django_app_eve.Core.Cache.{Cache, Laws}
use django_app_eve.Core.Throttling.{too_many, served, effective_limit, rate_limit}
use django_app_eve.Core.Throttling.Window.{Counts, rate_limit_exact}
use django_app_eve.Accounts.Privacy.{ContactMessage}
use django_app_eve.Core.Contact.{
  Page, shown, stored, Submission, visit, invalid, valid, page_of, save, contact_limit, with_saved,
  World, contact_view, contact_all,
}

one_more :
    (limit n before after : ℕ)
    → after ≡ before + 1
    → leb (suc n) limit ≡ true
    → after + (limit - suc n) ≤ before + (limit - n)
one_more limit n before after e fits = ground arith

module _ (c : Cache) (laws : Laws c) (scaled : ℕ → ℕ) (key : String) where
  -- A limit that leaves room for the requests so far.
  room : ℕ → ℕ
  room n = effective_limit scaled contact_limit - n

  -- What one request leaves: a count that is as it was, with no message stored, or one more, with a message
  -- at most, if there was room.
  record After (n : ℕ) (w w' : World c scaled) : Type 0 where
    number : ℕ
    counts : Counts c laws key number w'.0
    fits : length w'.1 + room number ≤ length w.1 + room n

  -- The two ends of a POST with the page that the view would give.
  served-After :
      (page : Page) (n : ℕ) (s s' : c.State) (messages : List ContactMessage)
      → Counts c laws key (suc n) s'
      → leb (suc n) (effective_limit scaled contact_limit) ≡ true
      → After n (s, messages) (with_saved c scaled messages (served page, s')).1
  unfolding save room
  served-After shown n s s' messages h fits = record {
    number = suc n;
    counts = h;
    fits = omega arith;
  }
  served-After (stored m) n s s' messages h fits = record {
    number = suc n;
    counts = h;
    fits =
        one_more (effective_limit scaled contact_limit) n (length messages)
          (length (messages ++ m ∷ [])) (length-append messages (m ∷ [])) fits;
  }

  refused-After :
      (n : ℕ) (s s' : c.State) (messages : List ContactMessage)
      → Counts c laws key (suc n) s'
      → After n (s, messages) (with_saved c scaled messages (too_many, s')).1
  unfolding save room
  refused-After n s s' messages h = record { number = suc n; counts = h; fits = omega arith }

  post-After :
      (page : Page) (n : ℕ) (s : c.State) (messages : List ContactMessage)
      → Counts c laws key n s
      → After n
          (s, messages)
          (with_saved c scaled messages
            (rate_limit c scaled contact_limit 3600 true key (λ s. (page, s)) s)).1
  post-After page n s messages h =
      let (s', counts, e) =
        rate_limit_exact c laws key scaled contact_limit 3600 n (λ s. (page, s)) s h in
      subst (λ r. After n (s, messages) (with_saved c scaled messages r).1) (sym e)
        (if-both (λ r. After n (s, messages) (with_saved c scaled messages r).1)
          (leb (suc n) (effective_limit scaled contact_limit)) (served page, s') (too_many, s')
          (served-After page n s s' messages counts) (λ full. refused-After n s s' messages counts))

  view-After :
      (x : Submission) (n : ℕ) (w : World c scaled)
      → Counts c laws key n w.0
      → After n w (contact_view c scaled key x w).1
  unfolding contact_view page_of rate_limit save
  view-After visit n (s, messages) h = record { number = n; counts = h; fits = omega arith }
  view-After invalid n (s, messages) h = post-After shown n s messages h
  view-After (valid m) n (s, messages) h = post-After (stored m) n s messages h

  all-After :
      (l : List Submission) (n : ℕ) (w : World c scaled)
      → Counts c laws key n w.0
      → length (contact_all c scaled key l w).1 ≤ length w.1 + room n
  unfolding contact_all
  all-After [] n w h = omega arith
  all-After (x ∷ rest) n w h =
      let a = view-After x n w h in
      omega (arith, all-After rest a.number (contact_view c scaled key x w).1 a.counts, a.fits)

  -- From a window in which the address has sent nothing, while the cache can be reached: whatever requests
  -- it sends in the window, at most as many messages are stored as the limit of 5, scaled and at
  -- least 1, allows.
  pub contact_all-bounded :
      (l : List Submission) (s : c.State) (messages : List ContactMessage)
      → Counts c laws key 0 s
      → length (contact_all c scaled key l (s, messages)).1
        ≤ length messages + effective_limit scaled contact_limit
  unfolding room
  contact_all-bounded l s messages fresh = omega (arith, all-After l 0 (s, messages) fresh)
