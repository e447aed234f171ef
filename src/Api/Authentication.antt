-- ===== src/Api/Authentication.antt =====
-- Eve/api/authentication.py: `AccessTokenAuthentication.authenticate`. The header arrives as its bytes,
-- one character for each; decoding UTF-8 into the signer's texts is an argument.
use Prim.Native.Char.{Char, code}
use django_app_eve.Prelude.{
  ℕ, ◌+◌, ◌∙◌, ==_iff, ==_refl, ◌↔◌, ◌≡◌, refl, ap, String, Option, none, some, Option-cases, inl,
  inr, Bool, true, false, Bool-cases, List, [], ◌∷◌, find, leb, ◌==◌, ◌&&◌, ◌||◌, if◌then◌else◌,
}
use django_app_eve.Api.Tokens.{
  User, Payload, Loaded, loaded, signature_expired, bad_signature, Signer, Result, ok, invalid,
  is_active_user, check_version, check_payload, read_access_token,
}

-- `bytes.split()`: the words between the bytes that ASCII counts as white space.
abbrev is_blank : Char → Bool
is_blank c = (leb 9 (code c) && leb (code c) 13) || code c == 32

abbrev push : String → List String → List String
push String.[] words = words
push (String.◌∷◌ c w) words = String.◌∷◌ c w ∷ words

-- The word at the front, and the words after it.
unfoldable pub cut_words : String → String × List String
cut_words String.[] = ("", [])
cut_words (String.◌∷◌ c rest) =
    let (word, words) = cut_words rest in
    if is_blank c then ("", push word words) else (String.◌∷◌ c word, words)

unfoldable pub split : String → List String
unfolding cut_words
split s = let (word, words) = cut_words s in push word words

-- A letter of either case.
abbrev either : ℕ → Char → Bool
either small c = code c == small || code c + 32 == small

-- `word.lower() == b"token"`
unfoldable pub is_keyword : String → Bool
is_keyword (String.◌∷◌ a (String.◌∷◌ b (String.◌∷◌ c (String.◌∷◌ d (String.◌∷◌ e String.[]))))) =
    either b't' a && (either b'o' b && (either b'k' c && (either b'e' d && either b'n' e)))
is_keyword _ = false

-- No opinion, AuthenticationFailed, or the user.
pub data Outcome : Type 0 where
  not_ours failed : Outcome
  authenticated : User → Outcome

module _ (signer : Signer) (decode : String → Option signer.Token) (ttl now : ℕ)
    (users : List User) where
  unfoldable pub read : Option signer.Token → Outcome
  read none = failed
  read (some token) = elim (read_access_token signer ttl now users token) [
    | ok u ↦ authenticated u
    | invalid reason ↦ failed
  ]

  unfoldable pub authenticate_words : List String → Outcome
  unfolding read is_keyword
  authenticate_words [] = not_ours
  authenticate_words (scheme ∷ rest) =
      if is_keyword scheme
      then (elim rest [ raw ∷ [] ↦ read (decode raw) | _ ↦ failed ])
      else not_ours

  -- `authenticate`; a header that is missing is the empty one.
  unfoldable pub authenticate : String → Outcome
  unfolding authenticate_words split
  authenticate header = authenticate_words (split header)

-- The keyword in any case, one token, and any white space.
keyword : is_keyword "tOKEN" ≡ true
unfolding is_keyword
keyword = refl

splits : split "  Token abc " ≡ "Token" ∷ "abc" ∷ []
unfolding split
splits = refl

module _ (signer : Signer) (decode : String → Option signer.Token) (ttl now : ℕ)
    (users : List User) where
  -- Why a user is authenticated: the header is the keyword and one token, which the signer loads as an
  -- active user of the table at that user's current version.
  pub record Credited (header : String) (u : User) : Type 0 where
    pub scheme : String
    pub raw : String
    pub token : signer.Token
    pub payload : Payload
    pub words : split header ≡ scheme ∷ raw ∷ []
    pub keyed : is_keyword scheme ≡ true
    pub decoded : decode raw ≡ some token
    pub signed : signer.loads now ttl token ≡ loaded payload
    pub found : find (is_active_user payload.uid) users ≡ some u
    pub current : payload.ver ≡ u.token_version

  check_payload-ok :
      (l : Loaded) (u : User)
      → check_payload users l ≡ ok u
      → (p : Payload) × (l ≡ loaded p)
        × (find (is_active_user p.uid) users ≡ some u)
        × (p.ver ≡ u.token_version)
  unfolding check_payload check_version
  check_payload-ok signature_expired u h = cc
  check_payload-ok bad_signature u h = cc
  check_payload-ok (loaded p) u h = elim (Option-cases (find (is_active_user p.uid) users)) [
    | inl e ↦ cc (rw (e, check_version) at h)
    | inr (v, e) ↦ elim (Bool-cases (p.ver == v.token_version)) [
      | inl same ↦
          let v_u : v ≡ u = cc (rw (e, check_version, same) at h) in
          (
            p,
            refl,
            e ∙ ap some v_u,
            (==_iff p.ver v.token_version).0 same ∙ ap (λ (x : User). x.token_version) v_u,
          )
      | inr other ↦ cc (rw (e, check_version, other) at h)
    ]
  ]

  read-authenticated :
      (o : Option signer.Token) (u : User)
      → read signer decode ttl now users o ≡ authenticated u
      → (t : signer.Token) × (o ≡ some t) × (read_access_token signer ttl now users t ≡ ok u)
  unfolding read
  read-authenticated none u h = cc
  read-authenticated (some t) u h = (t, refl, is_ok (read_access_token signer ttl now users t) h)
    where
      is_ok :
          (r : Result User)
          → elim r [ ok v ↦ authenticated v | invalid reason ↦ failed ] ≡ authenticated u
          → r ≡ ok u
      is_ok (ok v) e = cc
      is_ok (invalid reason) e = cc

  words-authenticated :
      (l : List String) (u : User)
      → authenticate_words signer decode ttl now users l ≡ authenticated u
      → (scheme : String) × (raw : String) × (l ≡ scheme ∷ raw ∷ [])
        × (is_keyword scheme ≡ true)
        × (read signer decode ttl now users (decode raw) ≡ authenticated u)
  unfolding authenticate_words
  words-authenticated [] u h = cc
  words-authenticated (scheme ∷ []) u h = elim (Bool-cases (is_keyword scheme)) [
    | inl e ↦ cc (rw e at h)
    | inr e ↦ cc (rw e at h)
  ]
  words-authenticated (scheme ∷ raw ∷ x ∷ rest) u h = elim (Bool-cases (is_keyword scheme)) [
    | inl e ↦ cc (rw e at h)
    | inr e ↦ cc (rw e at h)
  ]
  words-authenticated (scheme ∷ raw ∷ []) u h = elim (Bool-cases (is_keyword scheme)) [
    | inl e ↦ (scheme, raw, refl, e, rw e at h)
    | inr e ↦ cc (rw e at h)
  ]

  credited :
      (header : String) (u : User)
      → authenticate signer decode ttl now users header ≡ authenticated u
      → Credited header u
  unfolding authenticate read_access_token
  credited header u h =
      let (scheme, raw, words, keyed, reads) = words-authenticated (split header) u h in
      let (token, decoded, accepted) = read-authenticated (decode raw) u reads in
      let (payload, signed, found, current) =
        check_payload-ok (signer.loads now ttl token) u accepted in
      record {
        scheme = scheme;
        raw = raw;
        token = token;
        payload = payload;
        words = words;
        keyed = keyed;
        decoded = decoded;
        signed = signed;
        found = found;
        current = current;
      }

  accepted :
      (header : String) (u : User)
      → Credited header u
      → authenticate signer decode ttl now users header ≡ authenticated u
  unfolding authenticate authenticate_words read read_access_token check_payload check_version
  accepted header u c =
      rw (c.words, c.keyed, c.decoded, read, read_access_token, c.signed, check_payload, c.found)
        (rw (c.current, ==_refl u.token_version))

  -- A request is authenticated as a user exactly when its Authorization header is the word "token",
  -- in any case, and one more word, which decodes to a token that the signer loads, at this time,
  -- as an active user of the table at that user's current version.
  pub authenticate_iff :
      (header : String) (u : User)
      → (authenticate signer decode ttl now users header ≡ authenticated u) ↔ Credited header u
  authenticate_iff header u = (credited header u, accepted header u)
