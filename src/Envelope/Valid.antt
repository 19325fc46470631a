-- ===== src/Envelope/Valid.antt =====
-- The invariant of ConnectionProof (src/connectcoin_p2c_tools/envelope.py) and its constructor.
use connectcoin_p2c_tools.Common.{
  ℕ, ◌*◌, ◌≤◌, ◌≡◌, ◌↔◌, refl, sym, ap, ◌∙◌, true, not, some, ltb, ==→eq, length, Bytes, not_ltb→le,
  le→not_ltb,
}
use connectcoin_p2c_tools.Common.Outcome.{
  ok, proof_format, Ensures, holds, rejects, Ensures-ok, Ensures-bind, Ensures-require, bind_ok,
  require_ok,
}
use connectcoin_p2c_tools.Common.Values.{Value, pos, negsuc, int, bytes}
use connectcoin_p2c_tools.Domain.{is_canonical_domain}
use connectcoin_p2c_tools.Signatures.Policy.{validate-ok}
use connectcoin_p2c_tools.Envelope.{
  require_bytes, is_version, ConnectionProof, Arguments, construct, arguments_of,
}
use connectcoin_p2c_tools.Envelope.Checks.{
  IsHex, require_hex-ok, require_hex-Ensures, require_uint-Ensures, require_uint-ok,
  require_positive-Ensures, require_positive-ok, require_domain-Ensures, require_domain-ok,
  validate_mask-Ensures,
}

-- What every ConnectionProof satisfies once it is constructed.
pub record IsValid (p : ConnectionProof) : Type 0 where
  pub canonical : is_canonical_domain p.domain ≡ true
  pub txid_hex : IsHex (some 32) p.txid
  pub target_hex : IsHex (some 32) p.connection_work_target
  pub index_fits : p.input_index ≤ 0xffffffff
  pub roots_fit : (1 ≤ p.root_certificates_version) × (p.root_certificates_version ≤ 0xffffffff)
  pub mask_fits : (1 ≤ p.signature_algorithms_mask) × (p.signature_algorithms_mask ≤ 7)
  pub time_fits : (1 ≤ p.validation_time) × (p.validation_time ≤ 0x7fffffffffffffff)
  pub size_fits : length p.proof ≤ 64 * 1024
  pub is_version_2 : p.version ≡ 2

abbrev pub arguments : ConnectionProof → Arguments
arguments p =
    arguments_of p.domain p.txid p.input_index p.connection_work_target p.root_certificates_version
      p.signature_algorithms_mask p.validation_time p.proof

pub version_of : (v : Value) → is_version v ≡ true → v ≡ int (pos 2)
version_of (int (pos n)) h = ap (λ (x : ℕ). int (pos x)) (==→eq n 2 h)
version_of (int (negsuc n)) h = cc
version_of _ h = cc

require_bytes-Ensures :
    (v : Value) → Ensures proof_format (λ (b : Bytes). v ≡ bytes b) (require_bytes v)
require_bytes-Ensures (bytes b) = holds refl
require_bytes-Ensures _ = rejects

pub construct-Ensures :
    (a : Arguments)
    → Ensures proof_format (λ (p : ConnectionProof). IsValid p × (a ≡ arguments p)) (construct a)
unfolding construct
construct-Ensures a = Ensures-require (is_version a.version) λ (v : is_version a.version ≡ true).
    Ensures-bind (require_domain-Ensures a.domain) λ domain (e₁, canonical).
      Ensures-bind (require_hex-Ensures a.txid (some 32)) λ txid (e₂, txid_hex).
        Ensures-bind (require_hex-Ensures a.connection_work_target (some 32))
          λ target (e₃, target_hex).
            Ensures-bind (require_uint-Ensures a.input_index 0xffffffff) λ index (e₄, index_fits).
              Ensures-bind (require_positive-Ensures a.root_certificates_version 0xffffffff)
                λ roots (e₅, r₁, r₂).
                  Ensures-bind (validate_mask-Ensures a.signature_algorithms_mask)
                    λ mask (e₆, m₁, m₂).
                      Ensures-bind (require_positive-Ensures a.validation_time 0x7fffffffffffffff)
                        λ time (e₇, t₁, t₂).
                          Ensures-bind (require_bytes-Ensures a.proof) λ proof e₈.
                            Ensures-require (not (ltb (64 * 1024) (length proof)))
                              λ (short : not (ltb (64 * 1024) (length proof)) ≡ true). holds (
                                record {
                                  canonical = canonical;
                                  txid_hex = txid_hex;
                                  target_hex = target_hex;
                                  index_fits = index_fits;
                                  roots_fit = (r₁, r₂);
                                  mask_fits = (m₁, m₂);
                                  time_fits = (t₁, t₂);
                                  size_fits = not_ltb→le _ _ short;
                                  is_version_2 = refl;
                                },
                                cc (e₁, e₂, e₃, e₄, e₅, e₆, e₇, e₈, version_of a.version v),
                              )

pub construct-ok : (p : ConnectionProof) → IsValid p → construct (arguments p) ≡ ok p
unfolding construct
construct-ok p h = bind_ok _ (require_domain-ok p.domain h.canonical) (
    bind_ok _ (require_hex-ok p.txid (some 32) h.txid_hex) (
      bind_ok _ (require_hex-ok p.connection_work_target (some 32) h.target_hex) (
        bind_ok _ (require_uint-ok p.input_index 0xffffffff h.index_fits) (
          bind_ok _
            (require_positive-ok p.root_certificates_version 0xffffffff h.roots_fit.0 h.roots_fit.1)
            (bind_ok _ (validate-ok p.signature_algorithms_mask h.mask_fits.0 h.mask_fits.1) (
              bind_ok _
                (require_positive-ok p.validation_time 0x7fffffffffffffff h.time_fits.0
                  h.time_fits.1)
                (require_ok _ (le→not_ltb _ _ h.size_fits)
                  (ap (λ (v : ℕ). ok (record p { version = v })) (sym h.is_version_2)))))))))

-- The constructor of ConnectionProof returns an envelope exactly if that is valid and the
-- arguments are its fields, with version 2.
pub construct_iff :
    (a : Arguments) (p : ConnectionProof) → (construct a ≡ ok p) ↔ (IsValid p × (a ≡ arguments p))
construct_iff a p =
    (λ h. Ensures-ok (construct-Ensures a) h, λ (h, e). ap construct e ∙ construct-ok p h)
