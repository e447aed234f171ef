-- ===== src/Ecommerce/Catalogue.antt =====
-- Eve/ecommerce/services/catalogue.py: reads of the catalogue, with a fresh copy first, one refresh at
-- a time, a stale copy where Saleor fails, and a negative entry for unknown slugs. What the
-- stores, the lease and Saleor answer is a `Sources`; `urlparse` is an argument.
pub mod Safe
pub mod SingleFlight
pub mod Listing
use django_app_eve.Prelude.{
  String, Option, none, some, Bool, true, false, List, [], ◌∷◌, ◌&&◌, ◌||◌, not, select, map,
  str_eq, if◌then◌else◌,
}
use django_app_eve.Core.Cache.{Reply, ok, value_error, unreachable}
use django_app_eve.Core.Lease.{wait_for_value}

-- The scheme and the host of a text, where it parses.
abbrev pub UrlParse : Type 0
UrlParse = String → Option (String × String)

-- A value of an untrusted document that should be an object with a `url`: no object, or the `url`
-- where it is a text.
abbrev pub Link : Type 0
Link = Option (Option String)

-- The media of a document: none, a list, or another value, which the code leaves as it is (here its
-- text).
pub data Media : Type 0 where
  no_media : Media
  listed : List Link → Media
  other : String → Media

-- A document of Saleor or of the cache, as far as the code reads it: the texts where they are texts,
-- and the media.
pub record Product : Type 0 where
  pub id : Option String
  pub name : Option String
  pub slug : Option String
  pub thumbnail : Link
  pub media : Media

unfoldable pub is_text : Option String → Bool
is_text none = false
is_text (some s) = not (str_eq s "")

-- `is_valid_product` of an object.
unfoldable pub is_valid_product : Product → Bool
unfolding is_text
is_valid_product p = is_text p.id && (is_text p.name && is_text p.slug)

unfoldable pub is_web : Option (String × String) → Bool
is_web none = false
is_web (some (scheme, netloc)) =
    (str_eq scheme "http" || str_eq scheme "https") && not (str_eq netloc "")

unfoldable pub safe_url : UrlParse → Option String → Option String
unfolding is_web
safe_url parse none = none
safe_url parse (some url) = if is_web (parse url) then some url else none

unfoldable pub safe_link : UrlParse → Link → Option String
unfolding safe_url
safe_link parse none = none
safe_link parse (some url) = safe_url parse url

-- `{"url": …}` of a safe URL, or nothing.
abbrev pub as_link : Option String → Link
as_link none = none
as_link (some url) = some (some url)

unfoldable pub safe_media : UrlParse → List Link → List Link
unfolding safe_link
safe_media parse [] = []
safe_media parse (m ∷ rest) =
    let later = safe_media parse rest in
    elim (safe_link parse m) [ none ↦ later | some url ↦ some (some url) ∷ later ]

abbrev pub sanitize_media : UrlParse → Media → Media
sanitize_media parse no_media = no_media
sanitize_media parse (listed l) = listed (safe_media parse l)
sanitize_media parse (other value) = other value

unfoldable pub sanitize_product : UrlParse → Product → Product
unfolding safe_media
sanitize_product parse p = record p {
  thumbnail = as_link (safe_link parse p.thumbnail);
  media = sanitize_media parse p.media;
}

-- A read that treats an unreachable store as an empty one (`_fresh_product`, `_stale_product`).
unfoldable pub or_none {ℓ} : {A : Type ℓ} → Reply (Option A) → Option A
or_none (ok o) = o
or_none _ = none

-- What a run meets: the negative entry, the copies, the lease (`none` is CacheLeaseUnavailable),
-- Saleor's answer (`none` is SaleorAPIError), and the reads of the polls.
pub record Sources : Type 0 where
  pub miss : Reply Bool
  pub fresh : Reply (Option Product)
  pub lease : Option Bool
  pub upstream : Option (Option Product)
  pub polled : List (Reply (Option Product))
  pub stale : Reply (Option Product)

pub data Result : Type 0 where
  found : Product → Result
  not_found : Result
  unavailable : Result

-- A run: its result, whether Saleor was asked, whether the negative entry was written, and the product
-- that was written to the cache.
pub record Run : Type 0 where
  pub result : Result
  pub asked : Bool
  pub negative : Bool
  pub stored : Option Product

abbrev pub is_miss : Reply Bool → Bool
is_miss (ok b) = b
is_miss _ = false

abbrev pub first_of {ℓ} : {A : Type ℓ} → Option A → Option A → Option A
first_of none o = o
first_of (some a) o = some a

-- The product where it is valid.
unfoldable pub valid : Option Product → Option Product
valid none = none
valid (some p) = if is_valid_product p then some p else none

-- The end of `get_product`: a product that is not valid is a miss.
unfoldable pub deliver : UrlParse → Bool → Option Product → Run
deliver parse asked none = record {
  result = not_found;
  asked = asked;
  negative = true;
  stored = none;
}
deliver parse asked (some p) = record {
  result = found (sanitize_product parse p);
  asked = asked;
  negative = false;
  stored = if asked then some (sanitize_product parse p) else none;
}

-- The handler of SaleorAPIError and CacheLeaseUnavailable.
unfoldable pub deliver_stale : UrlParse → Bool → Option Product → Run
deliver_stale parse asked none = record {
  result = unavailable;
  asked = asked;
  negative = false;
  stored = none;
}
deliver_stale parse asked (some p) = record {
  result = found (sanitize_product parse p);
  asked = asked;
  negative = false;
  stored = none;
}

unfoldable pub fetch : UrlParse → Sources → Option (Option Product) → Run
unfolding deliver deliver_stale
fetch parse src none = deliver_stale parse true (valid (or_none src.stale))
fetch parse src (some o) = deliver parse true (valid o)

unfoldable pub refresh : UrlParse → Sources → Option Bool → Run
unfolding fetch
refresh parse src none = deliver_stale parse false (valid (or_none src.stale))
refresh parse src (some true) = fetch parse src src.upstream
refresh parse src (some false) =
    deliver parse false
      (valid (first_of (wait_for_value (map or_none src.polled)) (or_none src.stale)))

unfoldable pub from_fresh : UrlParse → Sources → Option Product → Run
unfolding refresh
from_fresh parse src none = refresh parse src src.lease
from_fresh parse src (some p) = record {
  result = found (sanitize_product parse p);
  asked = false;
  negative = false;
  stored = none;
}

unfoldable pub get_product : UrlParse → Sources → Run
unfolding from_fresh
get_product parse src =
    if is_miss src.miss
    then record { result = not_found; asked = false; negative = false; stored = none }
    else from_fresh parse src (valid (or_none src.fresh))
