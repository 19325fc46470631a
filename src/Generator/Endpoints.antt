-- ===== src/Generator/Endpoints.antt =====
-- `resolve_endpoints` of src/connectcoin_p2c_tools/generator.py. The resolver and the reader of IP
-- addresses are parameters.
pub mod Permitted
use connectcoin_p2c_tools.Common.{
  ℕ, Bool, true, false, ◌&&◌, ◌||◌, not, List, [], ◌∷◌, Option, none, some, ◌==◌, if◌then◌else◌,
  bytes_eq,
}
use connectcoin_p2c_tools.Common.Outcome.{Result, ok, raises, generation, ◌>>=◌}
use connectcoin_p2c_tools.Tls.Messages.{Endpoint}

-- An entry of `getaddrinfo`: `str(address[0])` is its host, and `str(address)` its address.
pub record AddrInfo : Type 0 where
  pub family : ℕ
  pub socket_type : ℕ
  pub protocol : ℕ
  pub host : List ℕ
  pub address : List ℕ

-- `.split("%", maxsplit=1)[0]`
abbrev pub before_percent : List ℕ → List ℕ
before_percent [] = []
before_percent (c ∷ s) = if c == b'%' then [] else c ∷ before_percent s

-- `(family, str(address))`
abbrev pub Identity : Type 0
Identity = ℕ × List ℕ

abbrev pub same_identity : Identity → Identity → Bool
same_identity (family, address) (f, a) = family == f && bytes_eq address a

-- `identity in seen`
abbrev pub is_seen : Identity → List Identity → Bool
is_seen identity [] = false
is_seen identity (i ∷ seen) = same_identity identity i || is_seen identity seen

-- `not parsed_ip.is_global` rejects an address unless private ones are allowed.
abbrev pub is_permitted : Bool → Option Bool → Bool
is_permitted allow_private none = false
is_permitted allow_private (some is_global) = allow_private || is_global

abbrev pub identity_of : AddrInfo → Identity
identity_of a = (a.family, a.address)

abbrev pub endpoint_of : AddrInfo → Endpoint
endpoint_of a = record {
  family = a.family;
  socket_type = a.socket_type;
  protocol = a.protocol;
  address = a.address;
  ip = before_percent a.host;
}

abbrev pub some_endpoints : List Endpoint → Result (List Endpoint)
some_endpoints [] = raises generation
some_endpoints (endpoint ∷ endpoints) = ok (endpoint ∷ endpoints)

-- `socket.gaierror` is raised again.
abbrev pub addresses_of : Option (List AddrInfo) → Result (List AddrInfo)
addresses_of none = raises generation
addresses_of (some addresses) = ok addresses

-- `ip_address` is ipaddress.ip_address: none where it raises ValueError, or whether it is global.
module _ (ip_address : List ℕ → Option Bool) (allow_private : Bool) where
  abbrev pub may_use : AddrInfo → Bool
  may_use a = is_permitted allow_private (ip_address (before_percent a.host))

  -- The endpoints that the loop appends from here on.
  unfoldable pub endpoints_from : List Identity → List AddrInfo → List Endpoint
  endpoints_from seen [] = []
  endpoints_from seen (a ∷ addresses) =
      let fresh = may_use a && not (is_seen (identity_of a) seen) in
      let more = endpoints_from (if fresh then identity_of a ∷ seen else seen) addresses in
      if fresh then endpoint_of a ∷ more else more

  unfoldable pub resolve_endpoints :
      (List ℕ → ℕ → Option (List AddrInfo)) → List ℕ → ℕ → Result (List Endpoint)
  resolve_endpoints getaddrinfo domain port = do
    addresses ← addresses_of (getaddrinfo domain port)
    some_endpoints (endpoints_from [] addresses)
