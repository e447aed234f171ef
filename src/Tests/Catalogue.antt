-- ===== src/Tests/Catalogue.antt =====
-- The theorems about the catalogue, at a product with an unsafe thumbnail.
use django_app_eve.Prelude.{◌≡◌, none, some, true, false, [], ◌∷◌, ◌&&◌, not, str_eq, if◌then◌else◌}
use django_app_eve.Core.Cache.{ok, unreachable}
use django_app_eve.Ecommerce.Catalogue.{
  UrlParse, listed, Product, or_none, valid, Sources, is_miss, get_product,
}
use django_app_eve.Ecommerce.Catalogue.Safe.{IsCleanRun, get_product-IsCleanRun}
use django_app_eve.Ecommerce.Catalogue.SingleFlight.{is_owner, is_none, get_product-asked}
use django_app_eve.Ecommerce.Catalogue.Listing.{ListSources}

-- Only "https://x" parses.
abbrev parse : UrlParse
parse s = if str_eq s "https://x" then some ("https", "x") else none

abbrev headset : Product
headset = record {
  id = some "1";
  name = some "headset";
  slug = some "headset";
  thumbnail = some (some "javascript:x");
  media = listed (some (some "https://x") ∷ some none ∷ none ∷ []);
}

-- The cache is down and Saleor answers.
abbrev sources : Sources
sources = record {
  miss = unreachable;
  fresh = unreachable;
  lease = some true;
  upstream = some (some headset);
  polled = [];
  stale = unreachable;
}

get_product-IsCleanRun_example : IsCleanRun parse (get_product parse sources)
get_product-IsCleanRun_example = get_product-IsCleanRun parse sources

get_product-asked_example : (get_product parse sources).asked ≡ (
    not (is_miss sources.miss)
    && (is_none (valid (or_none sources.fresh)) && is_owner sources.lease))
get_product-asked_example = get_product-asked parse sources

abbrev listing : ListSources
listing = record {
  fresh = ok [];
  lease = some false;
  upstream = none;
  polled = ok [] ∷ ok (headset ∷ []) ∷ [];
  stale = unreachable;
}
