-- ===== src/Ecommerce/Catalogue/Safe.antt =====
-- The documents that Eve/ecommerce/services/catalogue.py hands out.
use django_app_eve.Prelude.{
  ◌≡◌, String, Option, none, some, inl, inr, Bool, true, false, Bool-cases, List, [], ◌∷◌, All,
  if-both,
}
use django_app_eve.Ecommerce.Catalogue.{
  UrlParse, Link, Media, no_media, listed, other, Product, is_valid_product, is_web, safe_url,
  safe_link, as_link, safe_media, sanitize_media, sanitize_product, or_none, Sources, Result, found,
  Run, is_miss, valid, deliver, deliver_stale, fetch, refresh, from_fresh, get_product,
}

-- No link, or one whose URL is http or https with a host.
abbrev pub IsSafeLink : UrlParse → Link → Type 0
IsSafeLink parse none = Unit
IsSafeLink parse (some none) = ⊥
IsSafeLink parse (some (some url)) = is_web (parse url) ≡ true

-- Only a list of media is sanitized.
abbrev pub AreSafe : UrlParse → Media → Type 0
AreSafe parse no_media = Unit
AreSafe parse (listed l) = All (IsSafeLink parse) l
AreSafe parse (other _) = Unit

pub record IsClean (parse : UrlParse) (p : Product) : Type 0 where
  pub is_valid : is_valid_product p ≡ true
  pub thumbnail : IsSafeLink parse p.thumbnail
  pub media : AreSafe parse p.media

abbrev pub CleanResult : UrlParse → Result → Type 0
CleanResult parse (found p) = IsClean parse p
CleanResult parse _ = Unit

abbrev pub CleanStored : UrlParse → Option Product → Type 0
CleanStored parse none = Unit
CleanStored parse (some p) = IsClean parse p

pub record IsCleanRun (parse : UrlParse) (r : Run) : Type 0 where
  pub result : CleanResult parse r.result
  pub stored : CleanStored parse r.stored

module _ (parse : UrlParse) where
  safe_link-IsSafe : (m : Link) → IsSafeLink parse (as_link (safe_link parse m))
  unfolding safe_link safe_url
  safe_link-IsSafe none = tt
  safe_link-IsSafe (some none) = tt
  safe_link-IsSafe (some (some url)) = elim (Bool-cases (is_web (parse url))) [
    | inl e ↦ rw e e
    | inr e ↦ rw e tt
  ]

  safe_media-AreSafe : (l : List Link) → All (IsSafeLink parse) (safe_media parse l)
  unfolding safe_media
  safe_media-AreSafe [] = tt
  safe_media-AreSafe (m ∷ rest) =
      kept (safe_link parse m) (safe_link-IsSafe m) (safe_media-AreSafe rest)
    where
      kept :
          (o : Option String)
          → IsSafeLink parse (as_link o)
          → All (IsSafeLink parse) (safe_media parse rest)
          → All (IsSafeLink parse) (elim o as (λ x. List Link) [
            | none ↦ safe_media parse rest
            | some url ↦ some (some url) ∷ safe_media parse rest
          ])
      kept none h later = later
      kept (some url) h later = (h, later)

  sanitize_media-AreSafe : (m : Media) → AreSafe parse (sanitize_media parse m)
  sanitize_media-AreSafe no_media = tt
  sanitize_media-AreSafe (listed l) = safe_media-AreSafe l
  sanitize_media-AreSafe (other _) = tt

  pub sanitize_product-IsClean :
      (p : Product) → is_valid_product p ≡ true → IsClean parse (sanitize_product parse p)
  unfolding sanitize_product is_valid_product
  sanitize_product-IsClean p h = record {
    is_valid = h;
    thumbnail = safe_link-IsSafe p.thumbnail;
    media = sanitize_media-AreSafe p.media;
  }

  -- What each end of a run makes of a product that passed the validation.
  deliver-IsCleanRun :
      (asked : Bool) (o : Option Product) → IsCleanRun parse (deliver parse asked (valid o))
  unfolding deliver valid
  deliver-IsCleanRun asked none = record { result = tt; stored = tt }
  deliver-IsCleanRun asked (some p) = elim (Bool-cases (is_valid_product p)) [
    | inr e ↦ rw e (record { result = tt; stored = tt })
    | inl e ↦ rw e (record {
      result = sanitize_product-IsClean p e;
      stored =
          if-both (CleanStored parse) asked (some (sanitize_product parse p)) none
            (λ z. sanitize_product-IsClean p e) (λ z. tt);
    })
  ]

  deliver_stale-IsCleanRun :
      (asked : Bool) (o : Option Product) → IsCleanRun parse (deliver_stale parse asked (valid o))
  unfolding deliver_stale valid
  deliver_stale-IsCleanRun asked none = record { result = tt; stored = tt }
  deliver_stale-IsCleanRun asked (some p) = elim (Bool-cases (is_valid_product p)) [
    | inr e ↦ rw e (record { result = tt; stored = tt })
    | inl e ↦ rw e (record { result = sanitize_product-IsClean p e; stored = tt })
  ]

  fetch-IsCleanRun :
      (src : Sources) (o : Option (Option Product)) → IsCleanRun parse (fetch parse src o)
  unfolding fetch
  fetch-IsCleanRun src none = deliver_stale-IsCleanRun true (or_none src.stale)
  fetch-IsCleanRun src (some o) = deliver-IsCleanRun true o

  refresh-IsCleanRun : (src : Sources) (l : Option Bool) → IsCleanRun parse (refresh parse src l)
  unfolding refresh
  refresh-IsCleanRun src none = deliver_stale-IsCleanRun false (or_none src.stale)
  refresh-IsCleanRun src (some true) = fetch-IsCleanRun src src.upstream
  refresh-IsCleanRun src (some false) = deliver-IsCleanRun false _

  from_fresh-IsCleanRun :
      (src : Sources) (o : Option Product) → IsCleanRun parse (from_fresh parse src (valid o))
  unfolding from_fresh valid
  from_fresh-IsCleanRun src none = refresh-IsCleanRun src src.lease
  from_fresh-IsCleanRun src (some p) = elim (Bool-cases (is_valid_product p)) [
    | inr e ↦ rw e (refresh-IsCleanRun src src.lease)
    | inl e ↦ rw e (record { result = sanitize_product-IsClean p e; stored = tt })
  ]

  -- Wherever a product comes from (the fresh copy, Saleor, a poll or a stale copy), what `get_product`
  -- returns, and what it writes to the cache, has an id, a name and a slug; the URL of its thumbnail,
  -- and every URL in its media where these are a list, is http or https with a host. Media that
  -- are neither absent nor a list are kept as they came, and nothing is said of what they hold.
  pub get_product-IsCleanRun : (src : Sources) → IsCleanRun parse (get_product parse src)
  unfolding get_product
  get_product-IsCleanRun src =
      if-both (IsCleanRun parse) (is_miss src.miss) _ _ (λ e. record { result = tt; stored = tt })
        (λ e. from_fresh-IsCleanRun src (or_none src.fresh))
