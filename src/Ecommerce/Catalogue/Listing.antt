-- ===== src/Ecommerce/Catalogue/Listing.antt =====
-- `list_products` of Eve/ecommerce/services/catalogue.py: the whole catalogue, fresh, refreshed or stale.
use django_app_eve.Prelude.{
  Option, none, some, Bool, true, false, List, [], ◌∷◌, All, All-map, All-mono, All-select, select,
  map,
}
use django_app_eve.Core.Cache.{Reply, ok}
use django_app_eve.Core.Lease.{wait_for_value}
use django_app_eve.Ecommerce.Catalogue.{UrlParse, Product, is_valid_product, sanitize_product}
use django_app_eve.Ecommerce.Catalogue.Safe.{IsClean, sanitize_product-IsClean}

-- What a run meets: the fresh copies, the lease (`none` is CacheLeaseUnavailable), Saleor's answer
-- (`none` is SaleorAPIError), the reads of the polls, and the stale copies.
pub record ListSources : Type 0 where
  pub fresh : Reply (List Product)
  pub lease : Option Bool
  pub upstream : Option (List Product)
  pub polled : List (Reply (List Product))
  pub stale : Reply (List Product)

-- The products, whether the live catalogue could not be reached, and what was written to the cache.
pub record ListRun : Type 0 where
  pub products : List Product
  pub is_unavailable : Bool
  pub stored : List Product

-- `_fresh_products` and `_stale_products`
unfoldable pub or_empty : Reply (List Product) → List Product
or_empty (ok l) = l
or_empty _ = []

-- The valid ones, sanitized.
unfoldable pub clean : UrlParse → List Product → List Product
clean parse l = map (sanitize_product parse) (select is_valid_product l)

-- `_fresh_products(…) or None`
unfoldable pub non_empty : List Product → Option (List Product)
non_empty [] = none
non_empty (p ∷ l) = some (p ∷ l)

abbrev pub poll : Reply (List Product) → Option (List Product)
poll r = non_empty (or_empty r)

abbrev pub or_stale : Option (List Product) → List Product → List Product
or_stale none stale = stale
or_stale (some l) stale = l

unfoldable pub serve_stale : UrlParse → ListSources → ListRun
unfolding clean
serve_stale parse src = record {
  products = clean parse (or_empty src.stale);
  is_unavailable = true;
  stored = [];
}

unfoldable pub serve_fetched : UrlParse → ListSources → Option (List Product) → ListRun
unfolding serve_stale
serve_fetched parse src none = serve_stale parse src
serve_fetched parse src (some l) = record {
  products = clean parse l;
  is_unavailable = false;
  stored = clean parse l;
}

unfoldable pub refresh_list : UrlParse → ListSources → Option Bool → ListRun
unfolding serve_fetched
refresh_list parse src none = serve_stale parse src
refresh_list parse src (some true) = serve_fetched parse src src.upstream
refresh_list parse src (some false) = record {
  products = clean parse (or_stale (wait_for_value (map poll src.polled)) (or_empty src.stale));
  is_unavailable = false;
  stored = [];
}

-- With no valid fresh copy, the catalogue is refreshed.
unfoldable pub serve : UrlParse → ListSources → List Product → ListRun
unfolding refresh_list
serve parse src [] = refresh_list parse src src.lease
serve parse src (p ∷ l) = record { products = p ∷ l; is_unavailable = false; stored = [] }

unfoldable pub list_products : UrlParse → ListSources → ListRun
unfolding serve
list_products parse src = serve parse src (clean parse (or_empty src.fresh))

module _ (parse : UrlParse) where
  pub record IsCleanList (r : ListRun) : Type 0 where
    pub products : All (IsClean parse) r.products
    pub stored : All (IsClean parse) r.stored

  clean-AllClean : (l : List Product) → All (IsClean parse) (clean parse l)
  unfolding clean
  clean-AllClean l = All-map _ _ _ (
      All-mono _ _ _ (λ p h. sanitize_product-IsClean parse p h.1)
        (All-select (λ p. Unit {0}) is_valid_product l (everything l)))
    where
      everything : (k : List Product) → All (λ p. Unit {0}) k
      everything [] = tt
      everything (p ∷ k) = (tt, everything k)

  serve_stale-IsCleanList : (src : ListSources) → IsCleanList (serve_stale parse src)
  unfolding serve_stale
  serve_stale-IsCleanList src = record { products = clean-AllClean _; stored = tt }

  serve_fetched-IsCleanList :
      (src : ListSources) (o : Option (List Product)) → IsCleanList (serve_fetched parse src o)
  unfolding serve_fetched
  serve_fetched-IsCleanList src none = serve_stale-IsCleanList src
  serve_fetched-IsCleanList src (some l) = record {
    products = clean-AllClean l;
    stored = clean-AllClean l;
  }

  refresh_list-IsCleanList :
      (src : ListSources) (l : Option Bool) → IsCleanList (refresh_list parse src l)
  unfolding refresh_list
  refresh_list-IsCleanList src none = serve_stale-IsCleanList src
  refresh_list-IsCleanList src (some true) = serve_fetched-IsCleanList src src.upstream
  refresh_list-IsCleanList src (some false) = record { products = clean-AllClean _; stored = tt }

  serve-IsCleanList :
      (src : ListSources) (l : List Product)
      → All (IsClean parse) l
      → IsCleanList (serve parse src l)
  unfolding serve
  serve-IsCleanList src [] h = refresh_list-IsCleanList src src.lease
  serve-IsCleanList src (p ∷ l) h = record { products = h; stored = tt }

  -- Every product that `list_products` shows or writes to the cache, wherever it comes from, has an
  -- id, a name and a slug, and every URL left in it is http or https with a host.
  pub list_products-IsCleanList : (src : ListSources) → IsCleanList (list_products parse src)
  unfolding list_products
  list_products-IsCleanList src = serve-IsCleanList src _ (clean-AllClean (or_empty src.fresh))
