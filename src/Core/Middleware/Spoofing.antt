-- ===== src/Core/Middleware/Spoofing.antt =====
-- What a client can and cannot do with the headers that Eve/core/middleware.py reads.
use django_app_eve.Prelude.{
  ◌≡◌, refl, ap, String, none, some, true, false, List, [], ◌∷◌, ◌++◌, All,
}
use django_app_eve.Core.Middleware.{
  Addresses, Headers, is_trusted, parse_hops, last_untrusted, behind_proxy, client_address,
  passes_allowlist, reaches_admin, mem,
}

module _ (ip : Addresses) (trusted_proxies : List String) where
  open ip use {Address, parse, show, in_network}

  -- The hops behind an untrusted one do not matter.
  last_untrusted-behind :
      (before : List Address) (a : Address) (after : List Address)
      → is_trusted ip trusted_proxies (show a) ≡ false
      → All (λ b. is_trusted ip trusted_proxies (show b) ≡ true) after
      → last_untrusted ip trusted_proxies (before ++ a ∷ after) ≡ some (show a)
  unfolding last_untrusted
  last_untrusted-behind [] a after h all = rw (none_after after all) (rw h)
    where
      none_after :
          (l : List Address)
          → All (λ b. is_trusted ip trusted_proxies (show b) ≡ true) l
          → last_untrusted ip trusted_proxies l ≡ none
      none_after [] hs = refl
      none_after (b ∷ l) hs = rw (none_after l hs.1) (rw hs.0)
  last_untrusted-behind (b ∷ before) a after h all = rw (last_untrusted-behind before a after h all)

  -- Behind a trusted proxy that sends no X-Real-IP, a chain of addresses gives the last hop that is no
  -- trusted proxy: whatever addresses a client put before it have no influence.
  pub client_address-chain :
      (h : Headers) (before : List Address) (a : Address) (after : List Address)
      → is_trusted ip trusted_proxies h.remote_addr ≡ true
      → parse h.real_ip ≡ none
      → parse_hops ip trusted_proxies h.forwarded ≡ some (before ++ a ∷ after)
      → is_trusted ip trusted_proxies (show a) ≡ false
      → All (λ b. is_trusted ip trusted_proxies (show b) ≡ true) after
      → client_address ip trusted_proxies h ≡ show a
  unfolding client_address behind_proxy
  client_address-chain h before a after peer no_real hops untrusted all =
      rw (peer, no_real) (rw hops (rw (last_untrusted-behind before a after untrusted all)))

  direct_address :
      (h : Headers)
      → is_trusted ip trusted_proxies h.remote_addr ≡ false
      → client_address ip trusted_proxies h ≡ h.remote_addr
  unfolding client_address
  direct_address h direct = rw direct

  -- A client that connects directly, not through a trusted proxy, reaches the administration exactly
  -- when its own address is on the allowlist, whatever headers it sends.
  pub reaches_admin-direct :
      (h : Headers) (first : String) (rest : List String)
      → is_trusted ip trusted_proxies h.remote_addr ≡ false
      → reaches_admin ip trusted_proxies (first ∷ rest) h
        ≡ mem ip trusted_proxies h.remote_addr (first ∷ rest)
  unfolding reaches_admin passes_allowlist
  reaches_admin-direct h first rest direct =
      ap (λ x. mem ip trusted_proxies x (first ∷ rest)) (direct_address h direct)
