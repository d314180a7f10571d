-- ===== src/ClientIp.antt =====
-- `clientIP` and `ipInAny` of redeem.go: the key of the redemption rate limit. The parsing of
-- addresses and the test of a network are package net's: they are arguments, as `strings.TrimSpace`
-- is.
pub mod Spoofing
use npvtunnel_creator_server.Base.{
  ℕ, Bool, true, false, not, ◌&&◌, ◌||◌, List, [], ◌∷◌, ◌++◌, Option, none, some, Bytes, Text,
  if◌then◌else◌, str_eq, any, length, reverse, ◌==◌,
}
use npvtunnel_creator_server.Policy.{TextOps}

-- `net.SplitHostPort` (the host, or an error), `net.ParseIP` (an address or nil) and
-- `IPNet.Contains`, for a network in any representation.
pub record Addresses : Type 0 where
  pub split_host_port : Text → Option Text
  pub parse_ip : Text → Option Bytes
  pub contains : Text → Bytes → Bool

abbrev contained : Addresses → List Text → Option Bytes → Bool
contained net nets none = false
contained net nets (some ip) = any (λ n. net.contains n ip) nets

unfoldable pub ip_in_any : Addresses → Text → List Text → Bool
ip_in_any net ip_str nets = contained net nets (net.parse_ip ip_str)

abbrev pub comma : ℕ
comma = b','

abbrev onto_first : ℕ → List Text → List Text
onto_first c [] = (c ∷ []) ∷ []
onto_first c (p ∷ ps) = (c ∷ p) ∷ ps

-- `strings.Split(s, ",")`
unfoldable pub split_comma : Text → List Text
split_comma [] = [] ∷ []
split_comma (c ∷ cs) =
    let rest = split_comma cs in if c == comma then [] ∷ rest else onto_first c rest

-- The loop over the parts from right to left.
unfoldable pub first_untrusted : TextOps → Addresses → List Text → Text → List Text → Text
first_untrusted ops net trusted host [] = host
first_untrusted ops net trusted host (part ∷ parts) =
    let rest = first_untrusted ops net trusted host parts in
    let ip = ops.trim_space part in
    if str_eq ip [] then rest else if not (ip_in_any net ip trusted) then ip else rest

abbrev or_remote : Text → Option Text → Text
or_remote remote_addr none = remote_addr
or_remote remote_addr (some host) = host

-- The peer of the connection.
abbrev pub peer : Addresses → Text → Text
peer net remote_addr = or_remote remote_addr (net.split_host_port remote_addr)

-- `xff` is the header `X-Forwarded-For`, empty if there is none.
unfoldable pub client_ip : TextOps → Addresses → Text → Text → List Text → Text
client_ip ops net remote_addr xff trusted =
    let host = peer net remote_addr in
    if str_eq xff [] || length trusted == 0 || not (ip_in_any net host trusted)
    then host
    else first_untrusted ops net trusted host (reverse (split_comma xff))
