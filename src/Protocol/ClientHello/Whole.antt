-- ===== src/Protocol/ClientHello/Whole.antt =====
-- The extensions of ClientHello together (src/connectcoin_p2c_tools/protocol.py,
-- `_parse_client_hello`).
use connectcoin_p2c_tools.Common.{
  ℕ, ◌≡◌, inl, inr, refl, true, List, [], ◌∷◌, arith, ◌==◌, Bytes, Bool-cases, not-eq_true,
}
use connectcoin_p2c_tools.Common.Outcome.{ok, proof_format, Ensures, holds}
use connectcoin_p2c_tools.Protocol.Reader.Laws.{
  ReadsEnd, ReadsEnd-require, ReadsEnd-pure, ReadsEnd-lift, Parses,
}
use connectcoin_p2c_tools.Protocol.Reader.Laws.Parsing.{Parses-require, Parses-pure, Parses-lift}
use connectcoin_p2c_tools.Protocol.Format.{ClientOffers}
use connectcoin_p2c_tools.Domain.{is_ascii}
use connectcoin_p2c_tools.Protocol.Constants.{
  ext_server_name, ext_supported_versions, ext_signature_algorithms, ext_key_share,
}
use connectcoin_p2c_tools.Protocol.Extensions.{Extensions, has_key, has_all, index}
use connectcoin_p2c_tools.Protocol.ClientHello.{ClientState, required, client_offers}
use connectcoin_p2c_tools.Protocol.ClientHello.Sni.{parse_sni-Ensures, parse_sni-ok}
use connectcoin_p2c_tools.Protocol.ClientHello.Offers.{
  offered_versions-Ensures, offered_versions-ok, offered_signatures-Ensures, offered_signatures-ok,
}
use connectcoin_p2c_tools.Protocol.ClientHello.KeyShares.{offered_groups-Ensures, offered_groups-ok}

pub index-Ensures :
    (d : Extensions) (k : ℕ)
    → has_key k d ≡ true
    → Ensures proof_format (λ v. index d k ≡ ok v) (index d k)
unfolding index has_key
index-Ensures [] k h = cc
index-Ensures ((j, v) ∷ d) k h = elim (Bool-cases (j == k)) [
  | inl e ↦ rw e (holds refl)
  | inr e ↦ rw e (index-Ensures d k (ground (arith, e)))
]

has_key_of_index : (d : Extensions) (k : ℕ) {v : Bytes} → index d k ≡ ok v → has_key k d ≡ true
unfolding index has_key
has_key_of_index [] k h = cc
has_key_of_index ((j, w) ∷ d) k {v} h = elim (Bool-cases (j == k)) [
  | inl e ↦ rw e refl
  | inr e ↦ rw e (has_key_of_index d k {v = v} (rw e at h))
]

has_required :
    (d : Extensions)
    → has_all required d ≡ true
    → (has_key ext_server_name d ≡ true)
      × (has_key ext_supported_versions d ≡ true)
      × (has_key ext_signature_algorithms d ≡ true)
      × (has_key ext_key_share d ≡ true)
unfolding has_all
has_required d h = ground arith

required_has :
    (d : Extensions)
    → has_key ext_server_name d ≡ true
    → has_key ext_supported_versions d ≡ true
    → has_key ext_signature_algorithms d ≡ true
    → has_key ext_key_share d ≡ true
    → has_all required d ≡ true
unfolding has_all
required_has d h k l m = ground arith

pub Parses-client_offers :
    (found : Extensions) (domain ciphers : List ℕ) (session rest : Bytes)
    → is_ascii domain ≡ true
    → Parses (client_offers found domain ciphers session) rest (λ bs left client.
      (bs ≡ [])
      × (left ≡ rest)
      × ClientOffers found domain client
      × (client.cipher_suites ≡ ciphers)
      × (client.legacy_session_id ≡ session))
unfolding client_offers
Parses-client_offers found domain ciphers session rest ascii = Parses-require _ λ req.
    let (k0, k1, k2, k3) = has_required found req in
    Parses-lift _ (index-Ensures found ext_server_name k0) λ server_name at0.
      Parses-lift _ (parse_sni-Ensures server_name domain ascii) λ u sni. Parses-require _ λ none.
        Parses-lift _ (index-Ensures found ext_supported_versions k1) λ versions at1.
          Parses-lift _ (offered_versions-Ensures versions) λ offered ov. Parses-require _ λ has13.
            Parses-lift _ (index-Ensures found ext_signature_algorithms k2) λ signatures at2.
              Parses-lift _ (offered_signatures-Ensures signatures) λ algorithms os.
                Parses-lift _ (index-Ensures found ext_key_share k3) λ shares at3.
                  Parses-lift _ (offered_groups-Ensures shares) λ groups og. Parses-pure _ (
                    refl,
                    refl,
                    record {
                      server_name = server_name;
                      versions = versions;
                      signatures = signatures;
                      shares = shares;
                      offered = offered;
                      server_name_at = at0;
                      versions_at = at1;
                      signatures_at = at2;
                      shares_at = at3;
                      none_forbidden = not-eq_true _ none;
                      names_domain = sni;
                      domain_ascii = ascii;
                      offers_versions = ov;
                      offers_tls_1_3 = has13;
                      offers_signatures = os;
                      offers_shares = og;
                    },
                    refl,
                    refl,
                  )

pub ReadsEnd-client_offers :
    (found : Extensions) (domain : List ℕ) (client : ClientState)
    → ClientOffers found domain client
    → ReadsEnd (client_offers found domain client.cipher_suites client.legacy_session_id) [] client
unfolding client_offers
ReadsEnd-client_offers found domain client o =
    ReadsEnd-require _
      (required_has found (has_key_of_index found _ o.server_name_at)
        (has_key_of_index found _ o.versions_at) (has_key_of_index found _ o.signatures_at)
        (has_key_of_index found _ o.shares_at))
      (ReadsEnd-lift _ o.server_name_at (
        ReadsEnd-lift _ (parse_sni-ok o.server_name domain o.domain_ascii o.names_domain) (
          ReadsEnd-require _ (rw (o.none_forbidden) refl) (
            ReadsEnd-lift _ o.versions_at (
              ReadsEnd-lift _ (offered_versions-ok o.offered o.versions o.offers_versions) (
                ReadsEnd-require _ o.offers_tls_1_3 (
                  ReadsEnd-lift _ o.signatures_at (
                    ReadsEnd-lift _
                      (offered_signatures-ok client.signature_algorithms o.signatures
                        o.offers_signatures)
                      (ReadsEnd-lift _ o.shares_at (
                        ReadsEnd-lift _
                          (offered_groups-ok client.key_share_groups o.shares o.offers_shares)
                          (ReadsEnd-pure client)))))))))))
