-- ===== src/Generator/Endpoints/Permitted.antt =====
-- The endpoints that src/connectcoin_p2c_tools/generator.py connects to.
use connectcoin_p2c_tools.Common.{ℕ, ◌≡◌, ◌≢◌, ◌⊎◌, Bool, true, false, List, [], ◌∷◌, Option, All}
use connectcoin_p2c_tools.Tls.Messages.{Endpoint}
use connectcoin_p2c_tools.Generator.Endpoints.{
  AddrInfo, Identity, is_seen, identity_of, endpoint_of, may_use,
}

abbrev Among : {A : Type 0} → A → List A → Type 0
Among a [] = ⊥
Among a (b ∷ bs) = (a ≡ b) ⊎ Among a bs

abbrev pub identity : Endpoint → Identity
identity e = (e.family, e.address)

-- No two have the same family and address.
abbrev Distinct : List Endpoint → Type 0
Distinct [] = Unit
Distinct (e ∷ es) = All (λ f. identity f ≢ identity e) es × Distinct es

module _ (ip_address : List ℕ → Option Bool) (allow_private : Bool) where
  abbrev ComesFrom : List AddrInfo → Endpoint → Type 0
  ComesFrom addresses e =
      (a : AddrInfo) × Among a addresses
      × (may_use ip_address allow_private a ≡ true)
      × (e ≡ endpoint_of a)

  abbrev IsNew : List Identity → Endpoint → Type 0
  IsNew seen e = is_seen (identity e) seen ≡ false

  abbrev Covers : List Identity → List Endpoint → AddrInfo → Type 0
  Covers seen es a =
      (is_seen (identity_of a) seen ≡ true)
      ⊎ ((e : Endpoint) × Among e es × (identity e ≡ identity_of a))

  -- What the search may connect to.
  pub record AreEndpoints (addresses : List AddrInfo) (endpoints : List Endpoint) : Type 0 where
    pub some_endpoint : endpoints ≢ []
    pub distinct : Distinct endpoints
    pub permitted : All (ComesFrom addresses) endpoints
    pub complete :
        (a : AddrInfo)
        → Among a addresses
        → may_use ip_address allow_private a ≡ true
        → (e : Endpoint) × Among e endpoints × (identity e ≡ identity_of a)
