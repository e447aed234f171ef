-- ===== src/Ecommerce/Catalogue/SingleFlight.antt =====
-- When Eve/ecommerce/services/catalogue.py asks Saleor.
use django_app_eve.Prelude.{
  ◌≡◌, refl, Option, none, some, Bool, true, false, Bool-cases, inl, inr, ◌&&◌, not,
}
use django_app_eve.Ecommerce.Catalogue.{
  UrlParse, Product, or_none, Sources, is_miss, valid, deliver, deliver_stale, fetch, refresh,
  from_fresh, get_product,
}

abbrev pub is_owner : Option Bool → Bool
is_owner none = false
is_owner (some b) = b

abbrev pub is_none : Option Product → Bool
is_none none = true
is_none (some p) = false

module _ (parse : UrlParse) (src : Sources) where
  deliver-asked : (asked : Bool) (o : Option Product) → (deliver parse asked o).asked ≡ asked
  unfolding deliver
  deliver-asked asked none = refl
  deliver-asked asked (some p) = refl

  deliver_stale-asked :
      (asked : Bool) (o : Option Product) → (deliver_stale parse asked o).asked ≡ asked
  unfolding deliver_stale
  deliver_stale-asked asked none = refl
  deliver_stale-asked asked (some p) = refl

  fetch-asked : (o : Option (Option Product)) → (fetch parse src o).asked ≡ true
  unfolding fetch
  fetch-asked none = deliver_stale-asked true _
  fetch-asked (some o) = deliver-asked true _

  refresh-asked : (l : Option Bool) → (refresh parse src l).asked ≡ is_owner l
  unfolding refresh
  refresh-asked none = deliver_stale-asked false _
  refresh-asked (some true) = fetch-asked src.upstream
  refresh-asked (some false) = deliver-asked false _

  from_fresh-asked :
      (o : Option Product) → (from_fresh parse src o).asked ≡ (is_none o && is_owner src.lease)
  unfolding from_fresh
  from_fresh-asked none = refresh-asked src.lease
  from_fresh-asked (some p) = refl

-- `get_product` asks Saleor exactly when there is no negative entry, no valid fresh copy, and this
-- request owns the refresh lease; a request that waits for another's refresh asks nothing.
pub get_product-asked :
    (parse : UrlParse) (src : Sources)
    → (get_product parse src).asked
      ≡ (not (is_miss src.miss) && (is_none (valid (or_none src.fresh)) && is_owner src.lease))
unfolding get_product
get_product-asked parse src = elim (Bool-cases (is_miss src.miss)) [
  | inl e ↦ rw e
  | inr e ↦ rw e (from_fresh-asked parse src (valid (or_none src.fresh)))
]
