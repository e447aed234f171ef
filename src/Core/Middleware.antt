-- ===== src/Core/Middleware.antt =====
-- Eve/core/middleware.py: the address of the client behind trusted proxies, and the allowlist of the
-- administration. The parsing of addresses and networks (`ipaddress`) is an argument.
pub mod Spoofing
use django_app_eve.Prelude.{
  String, Option, none, some, Bool, true, false, List, [], ◌∷◌, ◌++◌, ◌&&◌, not, str_eq,
  if◌then◌else◌,
}

-- `ip_address` of a stripped text, `str` of an address, and membership of an address in the network
-- that a stripped entry names (never in a malformed one).
pub record Addresses : Type 1 where
  pub Address : Type 0
  pub parse : String → Option Address
  pub show : Address → String
  pub in_network : Address → String → Bool

-- What the two read of a request: REMOTE_ADDR, X-Real-IP, and X-Forwarded-For split at its commas
-- (no hop where the header is empty).
pub record Headers : Type 0 where
  pub remote_addr : String
  pub real_ip : String
  pub forwarded : List String

module _ (ip : Addresses) (trusted_proxies : List String) where
  open ip use {Address, parse, show, in_network}

  unfoldable pub in_any : Address → List String → Bool
  in_any a [] = false
  in_any a (entry ∷ rest) = let later = in_any a rest in if in_network a entry then true else later

  unfoldable pub is_trusted_address : Option Address → Bool
  unfolding in_any
  is_trusted_address none = false
  is_trusted_address (some a) = in_any a trusted_proxies

  -- `_is_trusted`
  unfoldable pub is_trusted : String → Bool
  unfolding is_trusted_address
  is_trusted value = is_trusted_address (parse value)

  abbrev pub cons_hop : Address → Option (List Address) → Option (List Address)
  cons_hop a none = none
  cons_hop a (some l) = some (a ∷ l)

  abbrev pub and_hops : Option Address → Option (List Address) → Option (List Address)
  and_hops none l = none
  and_hops (some a) l = cons_hop a l

  -- The parsed hops, where every hop is an address.
  unfoldable pub parse_hops : List String → Option (List Address)
  parse_hops [] = some []
  parse_hops (v ∷ rest) = and_hops (parse v) (parse_hops rest)

  abbrev pub or_else : Option String → String → Option String
  or_else (some s) t = some s
  or_else none t = some t

  -- The first untrusted hop from the end.
  unfoldable pub last_untrusted : List Address → Option String
  unfolding is_trusted
  last_untrusted [] = none
  last_untrusted (a ∷ rest) =
      let later = last_untrusted rest in
      elim later [ some s ↦ some s | none ↦ if is_trusted (show a) then none else some (show a) ]

  abbrev pub default_to : String → Option String → String
  default_to peer none = peer
  default_to peer (some s) = s

  abbrev pub chosen_hop : Option (List Address) → Option String
  chosen_hop none = none
  chosen_hop (some hops) = last_untrusted hops

  unfoldable pub behind_proxy : Option Address → Headers → String
  unfolding last_untrusted
  behind_proxy (some a) h = show a
  behind_proxy none h = default_to h.remote_addr (chosen_hop (parse_hops h.forwarded))

  -- `TrustedProxyMiddleware`: REMOTE_ADDR as the rest of the stack reads it.
  unfoldable pub client_address : Headers → String
  unfolding behind_proxy
  client_address h =
      if is_trusted h.remote_addr then behind_proxy (parse h.real_ip) h else h.remote_addr

  unfoldable pub mem : String → List String → Bool
  mem x [] = false
  mem x (y ∷ rest) = let later = mem x rest in if str_eq y x then true else later

  -- `AdminIPAllowlistMiddleware`: whether the request goes on; otherwise Http404. An empty list
  -- allows everyone.
  unfoldable pub passes_allowlist : List String → Bool → String → Bool
  passes_allowlist [] is_admin_path client = true
  passes_allowlist (a ∷ rest) false client = true
  passes_allowlist (a ∷ rest) true client = mem client (a ∷ rest)

  -- The two in the order of the middleware stack.
  unfoldable pub reaches_admin : List String → Headers → Bool
  reaches_admin allowed h = passes_allowlist allowed true (client_address h)
