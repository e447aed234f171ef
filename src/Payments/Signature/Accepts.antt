-- ===== src/Payments/Signature/Accepts.antt =====
-- What an accepted signature proves (Eve/payments/services/saleor_webhooks.py).
use mathlib.Core.Option.{some-injective}
use mathlib.Core.Path.{subst}
use django_app_eve.Core.Lease.{wait_for_value}
use django_app_eve.Prelude.{
  ◌≡◌, refl, ap, ◌⊎◌, inl, inr, String, Option, none, some, Option-cases, Bool, true, false,
  Bool-cases, List, [], ◌∷◌, ◌&&◌, ◌||◌, not, select, leb, str_eq, eq_iff,
}
use django_app_eve.Core.Cache.{Reply, ok, value_error, unreachable}
use Prim.Native.String.{count as str_length}
use django_app_eve.Payments.Signature.{
  Jwk, Crypto, KeySource, is_new, probe, probes, refresh, cached_or_refresh, load_jwks, is_match,
  only_key, public_key, key_verifies, document_verifies, verify_with, header_kid, verify_decoded,
  verify_parts, verify_saleor_signature,
}

module _ (crypto : Crypto) where
  open crypto use {Document, Key, Bytes, keys, same, decode_header, decode_bytes, verify}

  -- A key set in which exactly one key matches the id, and that key verifies the signature.
  pub record Vouches (kid : String) (signature : Bytes) (signed : String × String) (jwks : Document)
      : Type 0 where
    pub jwk : Jwk Key
    pub key : Key
    pub only : select (is_match crypto kid) (keys jwks) ≡ jwk ∷ []
    pub decoded : jwk.key ≡ some key
    pub verified : verify key signature signed ≡ true

  key_verifies-Vouches :
      (kid : String) (signature : Bytes) (signed : String × String) (jwks : Document)
      (l : List (Jwk Key))
      → select (is_match crypto kid) (keys jwks) ≡ l
      → key_verifies crypto (only_key crypto l) signature signed ≡ true
      → Vouches kid signature signed jwks
  unfolding only_key key_verifies
  key_verifies-Vouches kid signature signed jwks [] e h = cc
  key_verifies-Vouches kid signature signed jwks (j ∷ k ∷ l) e h = cc
  key_verifies-Vouches kid signature signed jwks (j ∷ []) e h = elim (Option-cases j.key) [
    | inl z ↦ absurd (clash (rw z at h))
    | inr (key, z) ↦ record { jwk = j; key = key; only = e; decoded = z; verified = rw z at h }
  ]
    where
      clash : false ≡ true → ⊥
      clash q = cc

  document_verifies-Vouches :
      (kid : String) (signature : Bytes) (signed : String × String) (o : Option Document)
      → document_verifies crypto kid signature signed o ≡ true
      → (jwks : Document) × (o ≡ some jwks) × Vouches kid signature signed jwks
  unfolding document_verifies public_key
  document_verifies-Vouches kid signature signed none h = cc
  document_verifies-Vouches kid signature signed (some jwks) h =
      (jwks, refl, key_verifies-Vouches kid signature signed jwks _ refl h)

  -- The signature is over the body, by a key of a set that one of the two loads gave.
  abbrev pub Signed : String → String → String → KeySource crypto → KeySource crypto → Type 0
  Signed protected signature raw_body first second =
      (kid : String) × (bytes : Bytes) × (header_kid crypto (decode_header protected) ≡ some kid)
      × (decode_bytes signature ≡ some bytes)
      × (jwks : Document) × ((load_jwks crypto false first ≡ some jwks)
          ⊎ (load_jwks crypto true second ≡ some jwks))
      × Vouches kid bytes (protected, raw_body) jwks

  verify_decoded_sound :
      (protected signature raw_body : String) (first second : KeySource crypto) (k : Option String)
      (b : Option Bytes)
      → header_kid crypto (decode_header protected) ≡ k
      → decode_bytes signature ≡ b
      → verify_decoded crypto k b (protected, raw_body) first second ≡ true
      → Signed protected signature raw_body first second
  unfolding verify_decoded verify_with
  verify_decoded_sound protected signature raw_body first second none none p q h = cc
  verify_decoded_sound protected signature raw_body first second none (some b) p q h = cc
  verify_decoded_sound protected signature raw_body first second (some k) none p q h = cc
  verify_decoded_sound protected signature raw_body first second (some k) (some b) p q h =
      elim (Bool-cases
        (document_verifies crypto k b (protected, raw_body) (load_jwks crypto false first))) [
          | inl e ↦
              let (jwks, loaded, v) = document_verifies-Vouches k b (protected, raw_body) _ e in
              (k, b, p, q, jwks, inl loaded, v)
          | inr e ↦
              let (jwks, loaded, v) =
                document_verifies-Vouches k b (protected, raw_body) _ (rw e at h) in
              (k, b, p, q, jwks, inr loaded, v)
        ]

  -- A delivery is accepted only with a signature of three parts, the middle one empty, whose header
  -- names RS256, an unencoded payload and a key id, and which the one key of that id, in a key set
  -- that was loaded from the cache or from Saleor, verifies over the header and the raw body.
  pub verify_saleor_signature_sound :
      (signature raw_body : String) (parts : List String) (first second : KeySource crypto)
      → verify_saleor_signature crypto signature parts raw_body first second ≡ true
      → (protected : String) × (part : String) × (parts ≡ protected ∷ "" ∷ part ∷ [])
        × Signed protected part raw_body first second
  unfolding verify_saleor_signature verify_parts
  verify_saleor_signature_sound signature raw_body parts first second h =
      elim (Bool-cases (not (str_eq signature "") && leb (str_length signature) 8192)) [
        | inl e ↦ of_parts parts (rw e at h)
        | inr e ↦ absurd (clash (rw e at h))
      ]
    where
      clash : false ≡ true → ⊥
      clash q = cc

      three :
          (p d s : String)
          → (str_eq d "" ≡ true) ⊎ (str_eq d "" ≡ false)
          → verify_parts crypto (p ∷ d ∷ s ∷ []) raw_body first second ≡ true
          → (protected : String) × (part : String) × (p ∷ d ∷ s ∷ [] ≡ protected ∷ "" ∷ part ∷ [])
            × Signed protected part raw_body first second
      three p d s (inr e) h = absurd (clash (rw e at h))
      three p d s (inl e) h = (
        p,
        s,
        ap (λ x. p ∷ x ∷ s ∷ []) ((eq_iff d "").0 e),
        verify_decoded_sound p s raw_body first second _ _ refl refl (rw e at h),
      )

      of_parts :
          (l : List String)
          → verify_parts crypto l raw_body first second ≡ true
          → (protected : String) × (part : String) × (l ≡ protected ∷ "" ∷ part ∷ [])
            × Signed protected part raw_body first second
      of_parts [] h = absurd (clash h)
      of_parts (p ∷ []) h = absurd (clash h)
      of_parts (p ∷ d ∷ []) h = absurd (clash h)
      of_parts (p ∷ d ∷ s ∷ []) h = three p d s (Bool-cases (str_eq d "")) h
      of_parts (p ∷ d ∷ s ∷ t ∷ l) h = absurd (clash h)

  waited :
      (force : Bool) (cached : Option Document) (l : List (Option Document)) (jwks : Document)
      → wait_for_value (probes crypto force cached l) ≡ some jwks
      → (not force || is_new crypto cached jwks) ≡ true
  unfolding wait_for_value probes probe
  waited force cached [] jwks h = cc
  waited force cached (none ∷ rest) jwks h = waited force cached rest jwks h
  waited force cached (some value ∷ rest) jwks h =
      elim (Bool-cases (not force || is_new crypto cached value)) [
        | inl e ↦
            subst (λ x. (not force || is_new crypto cached x) ≡ true)
              (some-injective value jwks (rw (e, wait_for_value) at h)) e
        | inr e ↦ waited force cached rest jwks (rw (e, wait_for_value) at h)
      ]

  -- A forced load never gives the cached document: what it gives was just downloaded by the owner of
  -- the lease, or differs from what the cache held before.
  pub load_jwks-rotation :
      (src : KeySource crypto) (jwks : Document)
      → load_jwks crypto true src ≡ some jwks
      → (o : Option Document) × (src.cached ≡ ok o)
        × (((src.lease ≡ some true) × (src.fetched ≡ some jwks))
            ⊎ ((src.lease ≡ some false) × (is_new crypto o jwks ≡ true)))
  unfolding load_jwks cached_or_refresh refresh
  load_jwks-rotation src jwks h = elim (Bool-cases src.is_configured) [
    | inr e ↦ cc (rw e at h)
    | inl e ↦ by_cache src.cached refl (rw e at h)
  ]
    where
      by_lease :
          (o : Option Document) (l : Option Bool)
          → refresh crypto true o src l ≡ some jwks
          → ((l ≡ some true) × (src.fetched ≡ some jwks))
            ⊎ ((l ≡ some false) × (is_new crypto o jwks ≡ true))
      by_lease o none h = cc
      by_lease o (some true) h = inl (refl, h)
      by_lease o (some false) h = inr (refl, waited true o src.polled jwks h)

      by_cache :
          (r : Reply (Option Document))
          → src.cached ≡ r
          → cached_or_refresh crypto true src r ≡ some jwks
          → (o : Option Document) × (src.cached ≡ ok o)
            × (((src.lease ≡ some true) × (src.fetched ≡ some jwks))
                ⊎ ((src.lease ≡ some false) × (is_new crypto o jwks ≡ true)))
      by_cache value_error c h = cc
      by_cache unreachable c h = cc
      by_cache (ok o) c h = (o, c, by_lease o src.lease h)
