-- ===== src/Payments/Signature.antt =====
-- Eve/payments/services/saleor_webhooks.py: the verification of Saleor's detached signatures.
-- Base64, JSON and RSA are arguments. One load of the key set reads the cache, asks for the lease
-- and downloads or polls; what these answer is a `KeySource`. After its first read the cache is
-- taken to stay reachable.
pub mod Accepts
use Prim.Native.String.{count as str_length}
use django_app_eve.Prelude.{
  ℕ, String, Option, none, some, Bool, true, false, List, [], ◌∷◌, ◌&&◌, ◌||◌, not, select, leb,
  str_eq, if◌then◌else◌,
}
use django_app_eve.Core.Cache.{Reply, ok, value_error, unreachable}
use django_app_eve.Core.Lease.{wait_for_value}

-- A key of a set; `key` is the RSA key that `n` and `e` decode to, where they do.
pub record Jwk (K : Type 0) : Type 0 where
  pub kid : Option String
  pub kty : Option String
  pub alg : Option String
  pub use_ : Option String
  pub key : Option K

-- The protected header, where it decodes to an object: `b64 is False`, `crit == ["b64"]`, and `alg`
-- and `kid` where they are texts.
pub record ProtectedHeader : Type 0 where
  pub alg : Option String
  pub is_unencoded : Bool
  pub is_critical : Bool
  pub kid : Option String

-- The libraries: key sets with their keys and their equality, the decoding of the two parts of a
-- signature, and the check of a signature over the protected part and the body.
pub record Crypto : Type 1 where
  pub Document : Type 0
  pub Key : Type 0
  pub Bytes : Type 0
  pub keys : Document → List (Jwk Key)
  pub same : Document → Document → Bool
  pub decode_header : String → Option ProtectedHeader
  pub decode_bytes : String → Option Bytes
  pub verify : Key → Bytes → String × String → Bool

unfoldable pub text_is : String → Option String → Bool
text_is t none = false
text_is t (some s) = str_eq s t

-- `key.get(name, t) == t`
unfoldable pub text_defaults_to : String → Option String → Bool
text_defaults_to t none = true
text_defaults_to t (some s) = str_eq s t

module _ (crypto : Crypto) where
  open crypto use {Document, Key, Bytes, keys, same, decode_header, decode_bytes, verify}

  pub record KeySource : Type 0 where
    -- `_jwks_url` gives a URL of an accepted scheme
    pub is_configured : Bool
    -- the cached document, where there is a dictionary
    pub cached : Reply (Option Document)
    -- the lease: its owner or not, or CacheLeaseUnavailable
    pub lease : Option Bool
    -- the download, where it is a document with a list of keys
    pub fetched : Option Document
    -- what the polls read
    pub polled : List (Option Document)

  -- The probe of `wait_for_value`.
  unfoldable pub is_new : Option Document → Document → Bool
  is_new none value = true
  is_new (some old) value = not (same value old)

  unfoldable pub probe : Bool → Option Document → Option Document → Option Document
  unfolding is_new
  probe force cached none = none
  probe force cached (some value) = if not force || is_new cached value then some value else none

  unfoldable pub probes : Bool → Option Document → List (Option Document) → List (Option Document)
  probes force cached [] = []
  probes force cached (o ∷ rest) = probe force cached o ∷ probes force cached rest

  unfoldable pub refresh : Bool → Option Document → KeySource → Option Bool → Option Document
  unfolding probes
  refresh force cached src none = none
  refresh force cached src (some true) = src.fetched
  refresh force cached src (some false) = wait_for_value (probes force cached src.polled)

  unfoldable pub cached_or_refresh : Bool → KeySource → Reply (Option Document) → Option Document
  unfolding refresh
  cached_or_refresh false src (ok (some jwks)) = some jwks
  cached_or_refresh force src (ok o) = refresh force o src src.lease
  cached_or_refresh force src _ = none

  -- `_load_jwks`; `none` is WebhookSignatureError.
  unfoldable pub load_jwks : Bool → KeySource → Option Document
  unfolding cached_or_refresh
  load_jwks force src = if src.is_configured then cached_or_refresh force src src.cached else none

  unfoldable pub is_match : String → Jwk Key → Bool
  unfolding text_is text_defaults_to
  is_match kid k =
      text_is kid k.kid
      && (text_is "RSA" k.kty && (text_defaults_to "RS256" k.alg && text_defaults_to "sig" k.use_))

  unfoldable pub only_key : List (Jwk Key) → Option Key
  only_key (k ∷ []) = k.key
  only_key _ = none

  -- `_public_key`
  unfoldable pub public_key : String → Document → Option Key
  unfolding only_key is_match
  public_key kid jwks = only_key (select (is_match kid) (keys jwks))

  unfoldable pub key_verifies : Option Key → Bytes → String × String → Bool
  key_verifies none signature signed = false
  key_verifies (some key) signature signed = verify key signature signed

  unfoldable pub document_verifies : String → Bytes → String × String → Option Document → Bool
  unfolding key_verifies public_key
  document_verifies kid signature signed none = false
  document_verifies kid signature signed (some jwks) =
      key_verifies (public_key kid jwks) signature signed

  -- The two turns of the loop: a failure of either kind in the first leads to the second.
  unfoldable pub verify_with : String → Bytes → String × String → KeySource → KeySource → Bool
  unfolding document_verifies load_jwks
  verify_with kid signature signed first second =
      document_verifies kid signature signed (load_jwks false first)
      || document_verifies kid signature signed (load_jwks true second)

  unfoldable pub valid_kid : Option String → Option String
  valid_kid none = none
  valid_kid (some kid) = if not (str_eq kid "") && leb (str_length kid) 256 then some kid else none

  unfoldable pub header_kid : Option ProtectedHeader → Option String
  unfolding text_is valid_kid
  header_kid none = none
  header_kid (some h) =
      if text_is "RS256" h.alg && (h.is_unencoded && h.is_critical) then valid_kid h.kid else none

  unfoldable pub verify_decoded :
      Option String → Option Bytes → String × String → KeySource → KeySource → Bool
  unfolding verify_with
  verify_decoded (some kid) (some signature) signed first second =
      verify_with kid signature signed first second
  verify_decoded _ _ signed first second = false

  -- The three parts of the signature, the middle one empty.
  unfoldable pub verify_parts : List String → String → KeySource → KeySource → Bool
  unfolding verify_decoded header_kid
  verify_parts (protected ∷ detached ∷ signature ∷ []) raw_body first second =
      if str_eq detached ""
      then verify_decoded (header_kid (decode_header protected)) (decode_bytes signature)
          (protected, raw_body) first second
      else false
  verify_parts _ raw_body first second = false

  -- `verify_saleor_signature`: whether it returns. `parts` is the signature split at its dots.
  unfoldable pub verify_saleor_signature :
      (signature : String) (parts : List String) → String → KeySource → KeySource → Bool
  unfolding verify_parts
  verify_saleor_signature signature parts raw_body first second =
      if not (str_eq signature "") && leb (str_length signature) 8192
      then verify_parts parts raw_body first second
      else false
