-- ===== src/Examples/Certificates.antt =====
-- A library with one certificate, an RSA-PSS key, and the theorems of the verification on them.
use connectcoin_p2c_tools.Common.{
  ℕ, ◌*◌, ◌≡◌, ◌↔◌, ◌⊎◌, inr, refl, Bool, true, false, List, [], ◌∷◌, none, some, replicate, length,
  Bytes, AreBytes, arith, leb→le, ltb, ltb→lt, ◌&&◌, &&-eq_true,
}
use connectcoin_p2c_tools.Common.Outcome.{Exception, ok, raises}
use connectcoin_p2c_tools.Common.Values.{pos}
use connectcoin_p2c_tools.Domain.{is_canonical_domain, is_label}
use connectcoin_p2c_tools.Hashes.{from_hex, to_hex}
use connectcoin_p2c_tools.Envelope.{ConnectionProof}
use connectcoin_p2c_tools.Envelope.Checks.{IsHex}
use connectcoin_p2c_tools.Envelope.Valid.{IsValid}
use connectcoin_p2c_tools.Verify.Der.{Element, der_elements, sha256_oid_der}
use connectcoin_p2c_tools.Verify.Der.Octets.{length_octets}
use connectcoin_p2c_tools.Verify.Der.Canonical.{IsEncoding, encode, der_elements_iff}
use connectcoin_p2c_tools.Verify.Pss.{check_pss_key_restrictions, mgf1_oid_der, rsassa_pss_oid_der}
use connectcoin_p2c_tools.Verify.Pss.Certificate.{IsPssCertificate, check_pss_key_restrictions_iff}
use connectcoin_p2c_tools.Verify.X509.{X509, rsa, valid, invalid_signature}
use connectcoin_p2c_tools.Verify.Chain.{oid_rsa_encryption}
use connectcoin_p2c_tools.Verify.Connection.{VerificationResult, verify_connection_proof}
use connectcoin_p2c_tools.Verify.Connection.Accepted.{IsHash32, GivesBytes, Accepts, IsRefusal}
use connectcoin_p2c_tools.Verify.Connection.Verdict.{
  verify_connection_proof_iff, verify_connection_proof-IsRefusal,
}
use connectcoin_p2c_tools.Examples.Sample

abbrev sha256_name : List Element
sha256_name = (0x06, sha256_oid_der) ∷ []

abbrev pss_parameters : List Element
pss_parameters =
    (0xa0, encode ((0x30, encode sha256_name) ∷ []))
    ∷ (0xa1, encode ((0x30, encode ((0x06, mgf1_oid_der) ∷ (0x30, encode sha256_name) ∷ [])) ∷ []))
    ∷ (0xa2, encode ((0x02, 32 ∷ []) ∷ []))
    ∷ []

abbrev pss_algorithm : List Element
pss_algorithm = (0x06, rsassa_pss_oid_der) ∷ (0x30, encode pss_parameters) ∷ []

abbrev pss_fields : List Element
pss_fields =
    (0xa0, 0x02 ∷ 0x01 ∷ 0x02 ∷ [])
    ∷ (0x02, 0x01 ∷ [])
    ∷ (0x30, [])
    ∷ (0x30, [])
    ∷ (0x30, [])
    ∷ (0x30, [])
    ∷ (0x30, encode ((0x30, encode pss_algorithm) ∷ (0x03, 0x00 ∷ []) ∷ []))
    ∷ []

abbrev pss_certificate : Bytes
pss_certificate = encode ((0x30, encode pss_fields) ∷ [])

abbrev short_der : Bytes
short_der = 0x30 ∷ 0x03 ∷ 0x02 ∷ 0x01 ∷ 0x05 ∷ []

der_elements_iff_example :
    (der_elements short_der ≡ ok ((0x30, 0x02 ∷ 0x01 ∷ 0x05 ∷ []) ∷ []))
    ↔ IsEncoding short_der ((0x30, 0x02 ∷ 0x01 ∷ 0x05 ∷ []) ∷ [])
der_elements_iff_example =
    der_elements_iff short_der ((0x30, 0x02 ∷ 0x01 ∷ 0x05 ∷ []) ∷ [])
      (omega arith, (omega arith, (omega arith, (omega arith, (omega arith, tt)))))

abbrev are_small : Bytes → Bool
are_small [] = true
are_small (b ∷ bs) = ltb b 256 && are_small bs

AreBytes-of_small : (bs : Bytes) → are_small bs ≡ true → AreBytes bs
AreBytes-of_small [] h = tt
AreBytes-of_small (b ∷ bs) h =
    let (low, more) = &&-eq_true (ltb b 256) (are_small bs) h in
    (ltb→lt b 256 low, AreBytes-of_small bs more)

pss_certificate-AreBytes : AreBytes pss_certificate
unfolding encode length_octets
pss_certificate-AreBytes = AreBytes-of_small pss_certificate refl

check_pss_key_restrictions_iff_example :
    (check_pss_key_restrictions pss_certificate ≡ ok tt) ↔ IsPssCertificate pss_certificate
check_pss_key_restrictions_iff_example =
    check_pss_key_restrictions_iff pss_certificate pss_certificate-AreBytes

-- A stand-in for the hash under which the challenge of every claim is that of the sample.
abbrev pub sevens : Bytes → Bytes
sevens m = replicate 32 7

pub sevens-IsHash32 : IsHash32 sevens
sevens-IsHash32 m = (refl, AreBytes-of_small (replicate 32 7) refl)

-- One certificate, with an RSA key of 2048 bits and the exponent 65537.
abbrev pub library : X509
library = record {
  Certificate = ℕ;
  load_der = λ encoded. inr 0;
  load_pem = λ encoded. inr (0 ∷ []);
  public_key_algorithm_oid = λ c. oid_rsa_encryption;
  public_key = λ c. some (rsa 2048 65537);
  tbs_certificate_bytes = λ c. [];
  not_valid_before = λ c. pos 0;
  not_valid_after = λ c. pos 2000000000;
  usages = λ c. inr (record { digital_signature = some true; extended_usage = none });
  verify_path = λ roots moment depth name leaf more. true;
  verify_ecdsa = λ c signature message. invalid_signature;
  verify_pss = λ c signature message. valid;
}

pub library-GivesBytes : GivesBytes library
library-GivesBytes c = tt

abbrev pub envelope : ConnectionProof
envelope = record {
  domain = Sample.domain;
  txid = replicate 64 b'0';
  input_index = 1;
  connection_work_target = replicate 64 b'f';
  root_certificates_version = 1;
  signature_algorithms_mask = 2;
  validation_time = 1700000000;
  proof = Sample.encoded;
  version = 2;
}

zeros-IsHex : IsHex (some 32) (replicate 64 b'0')
unfolding to_hex from_hex
zeros-IsHex = record {
  shown = replicate 32 0;
  hex = record {
    printed = refl;
    are_bytes = AreBytes-of_small (replicate 32 0) refl;
    reads = refl;
  };
  some_bytes = omega arith;
  fits = refl;
}

target-IsHex : IsHex (some 32) (replicate 64 b'f')
unfolding to_hex from_hex
target-IsHex = record {
  shown = replicate 32 255;
  hex = record {
    printed = refl;
    are_bytes = AreBytes-of_small (replicate 32 255) refl;
    reads = refl;
  };
  some_bytes = omega arith;
  fits = refl;
}

pub envelope-IsValid : IsValid envelope
unfolding is_canonical_domain is_label
envelope-IsValid = record {
  canonical = refl;
  txid_hex = zeros-IsHex;
  target_hex = target-IsHex;
  index_fits = omega arith;
  roots_fit = (omega arith, omega arith);
  mask_fits = (omega arith, omega arith);
  time_fits = (omega arith, omega arith);
  size_fits = leb→le (length Sample.encoded) (64 * 1024) refl;
  is_version_2 = refl;
}

abbrev verdict : VerificationResult
verdict = record {
  challenge = to_hex (replicate 32 7);
  transcript_hash = to_hex (replicate 32 7);
  connection_work_hash = to_hex (replicate 32 7);
  certificate_count = 1;
  certificate_verify_scheme = 0x0804;
  signature_algorithms_mask = 2;
}

verify_connection_proof_iff_example :
    (verify_connection_proof sevens library envelope (some []) false ≡ ok verdict)
    ↔ Accepts sevens library envelope (some []) false verdict
verify_connection_proof_iff_example =
    verify_connection_proof_iff sevens library sevens-IsHash32 library-GivesBytes envelope
      envelope-IsValid (some []) false verdict

verify_connection_proof-IsRefusal_example :
    ((result : VerificationResult) × (verify_connection_proof sevens library envelope
          (some [])
          false
        ≡ ok result))
    ⊎ ((e : Exception) × (verify_connection_proof sevens library envelope (some []) false
          ≡ raises e)
        × IsRefusal library e)
verify_connection_proof-IsRefusal_example =
    verify_connection_proof-IsRefusal sevens library sevens-IsHash32 library-GivesBytes envelope
      envelope-IsValid (some []) false
