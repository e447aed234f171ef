-- ===== src/Accounts/Verification/OneAccount.antt =====
-- One account for each address (`register_view` of Eve/accounts/views.py).
use django_app_eve.Prelude.{
  ℕ, ◌≡◌, inl, inr, String, Option, none, Option-cases, true, List, [], ◌∷◌, find, str_eq, eq_iff,
  ◌&&◌, &&-right, if-both, arith,
}
use django_app_eve.Prelude.Unique.{Unique, Unique-append, Fresh-find-none}
use django_app_eve.Accounts.Verification.{
  Page, Member, Members, Registration, has_address, is_valid, save_user, register_view,
}

module _ (normal : String → String) where
  -- No two accounts with one address.
  abbrev pub OneAccount : Members → Type 0
  OneAccount s = Unique (λ (u : Member). normal u.email) s.users

  unfoldable pub register_all : List Registration → Members → Members
  register_all [] s = s
  register_all (r ∷ rest) s = register_all rest (register_view normal r s).1

  free_address :
      (r : Registration) (s : Members)
      → is_valid normal r s ≡ true
      → find (has_address normal r.email) s.users ≡ none
  unfolding is_valid
  free_address r s h = elim (Option-cases (find (has_address normal r.email) s.users)) [
    | inl e ↦ e
    | inr (u, e) ↦ ground (arith, h, e)
  ]

  register_view-OneAccount :
      (r : Registration) (s : Members) → OneAccount s → OneAccount (register_view normal r s).1
  unfolding register_view save_user
  register_view-OneAccount r s one =
      if-both (λ (x : (Page × Option ℕ) × Members). OneAccount x.1)
        (r.is_post && is_valid normal r s) _ _
        (λ e.
          Unique-append (λ (u : Member). normal u.email) s.users _ one
            (Fresh-find-none (λ (u : Member). normal u.email) str_eq eq_iff (normal r.email) s.users
              (free_address r s (&&-right r.is_post (is_valid normal r s) e))))
        (λ e. one)

  -- Whatever is sent to the registration, and however often, no two accounts have the same address
  -- up to what `iexact` ignores.
  pub register_all-OneAccount :
      (l : List Registration) (s : Members) → OneAccount s → OneAccount (register_all l s)
  unfolding register_all
  register_all-OneAccount [] s one = one
  register_all-OneAccount (r ∷ rest) s one =
      register_all-OneAccount rest (register_view normal r s).1 (register_view-OneAccount r s one)
