-- ===== src/Tests/Network.antt =====
-- The theorems about client addresses and about signatures.
use django_app_eve.Prelude.{
  ℕ, String, ◌≡◌, refl, Bool, true, false, Option, none, some, [], ◌∷◌, select, str_eq,
  if◌then◌else◌,
}
use django_app_eve.Core.Cache.{ok}
use django_app_eve.Core.Lease.{wait_for_value}
use django_app_eve.Core.Middleware.{Addresses, Headers, is_trusted, parse_hops, client_address}
use django_app_eve.Core.Middleware.Spoofing.{client_address-chain}
use django_app_eve.Payments.Signature.{
  Jwk, ProtectedHeader, Crypto, KeySource, is_new, probe, probes, load_jwks, is_match, public_key,
  header_kid, valid_kid, verify_saleor_signature,
}
use django_app_eve.Payments.Signature.Accepts.{Signed, verify_saleor_signature_sound}

-- Addresses as texts, of which the empty one is none; a network is one address.
abbrev parse_text : String → Option String
parse_text s = if str_eq s "" then none else some s

abbrev texts : Addresses
texts = record {
  Address = String;
  parse = parse_text;
  show = λ s. s;
  in_network = λ a entry. str_eq a entry;
}

-- A client that forged a hop, behind the proxies "p1" and "p2".
abbrev forged : Headers
forged = record { remote_addr = "p1"; real_ip = ""; forwarded = "9.9.9.9" ∷ "1.2.3.4" ∷ "p2" ∷ [] }

client_address-chain_example : client_address texts ("p1" ∷ "p2" ∷ []) forged ≡ "1.2.3.4"
unfolding is_trusted parse_hops
client_address-chain_example =
    client_address-chain texts ("p1" ∷ "p2" ∷ []) forged ("9.9.9.9" ∷ []) "1.2.3.4" ("p2" ∷ []) refl
      refl refl refl (refl, tt)

-- A direct client that claims an allowed address.
abbrev direct : Headers
direct = record { remote_addr = "1.2.3.4"; real_ip = "10.0.0.1"; forwarded = "10.0.0.1" ∷ [] }

-- One key, with the id "k"; a document is its version.
abbrev header : ProtectedHeader
header = record { alg = some "RS256"; is_unencoded = true; is_critical = true; kid = some "k" }

abbrev only : Jwk ℕ
only = record { kid = some "k"; kty = some "RSA"; alg = none; use_ = none; key = some 5 }

abbrev toy : Crypto
toy = record {
  Document = Bool;
  Key = ℕ;
  Bytes = String;
  keys = λ version. only ∷ [];
  same = λ a b. if a then b else (if b then false else true);
  decode_header = λ s. some header;
  decode_bytes = λ s. some s;
  verify = λ key signature signed. str_eq signature "good";
}

-- The cached document is old, and another worker writes the new one while this one polls.
abbrev source : KeySource toy
source = record {
  is_configured = true;
  cached = ok (some false);
  lease = some false;
  fetched = none;
  polled = some false ∷ some true ∷ [];
}

verifies :
    verify_saleor_signature toy "h..good" ("h" ∷ "" ∷ "good" ∷ []) "body" source source ≡ true
unfolding verify_saleor_signature load_jwks public_key is_match header_kid valid_kid select
verifies = refl

verify_saleor_signature_sound_example :
    (protected : String) × (part : String) × ("h" ∷ "" ∷ "good" ∷ [] ≡ protected ∷ "" ∷ part ∷ [])
    × Signed toy protected part "body" source source
verify_saleor_signature_sound_example =
    verify_saleor_signature_sound toy "h..good" "body" ("h" ∷ "" ∷ "good" ∷ []) source source
      verifies

loads : load_jwks toy true source ≡ some true
unfolding load_jwks probes probe is_new wait_for_value
loads = refl
