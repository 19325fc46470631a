-- ===== src/Examples/Documents.antt =====
-- An envelope and a directory, and the theorems on them.
use connectcoin_p2c_tools.Common.{
  ℕ, zero, suc, ◌≡◌, ◌≢◌, ◌↔◌, ◌⊎◌, inr, refl, true, false, List, [], ◌∷◌, none, some, replicate,
  All, Bytes, AreBytes, arith,
}
use connectcoin_p2c_tools.Common.Outcome.{Exception, ok, raises, proof_format}
use connectcoin_p2c_tools.Common.Values.{Value, dict}
use connectcoin_p2c_tools.Domain.{is_canonical_domain, is_label}
use connectcoin_p2c_tools.Hashes.{codes, from_hex, to_hex}
use connectcoin_p2c_tools.Envelope.{
  ConnectionProof, construct, fields_of, from_dict, to_dict, check_serialized_proof,
}
use connectcoin_p2c_tools.Envelope.Checks.{IsHex}
use connectcoin_p2c_tools.Envelope.Valid.{IsValid, arguments, construct_iff}
use connectcoin_p2c_tools.Envelope.Keys.{IsEnvelope}
use connectcoin_p2c_tools.Envelope.RoundTrip.{from_dict_iff, from_dict_total, to_dict-from_dict}
use connectcoin_p2c_tools.Envelope.Write.{Directory, put, Faults, write, publish}
use connectcoin_p2c_tools.Envelope.Write.Atomic.{IsIntact, text_of, write-IsIntact}
use connectcoin_p2c_tools.Envelope.Write.Settled.{
  last, Settled, Keeps, write-Settled, write-refuses,
}
use connectcoin_p2c_tools.Examples.Sample.{toy_sha256, domain}

abbrev document : ConnectionProof
document = record {
  domain = domain;
  txid = replicate 64 b'0';
  input_index = 1;
  connection_work_target = replicate 64 b'0';
  root_certificates_version = 1;
  signature_algorithms_mask = 7;
  validation_time = 1700000000;
  proof = 2 ∷ 1 ∷ 255 ∷ [];
  version = 2;
}

zeros-IsHex : IsHex (some 32) (replicate 64 b'0')
unfolding to_hex from_hex
zeros-IsHex = record {
  shown = replicate 32 0;
  hex = record { printed = refl; are_bytes = bytes_of_zeros 32; reads = refl };
  some_bytes = omega arith;
  fits = refl;
}
  where
    bytes_of_zeros : (n : ℕ) → AreBytes (replicate n 0)
    bytes_of_zeros zero = tt
    bytes_of_zeros (suc n) = (omega arith, bytes_of_zeros n)

document-IsValid : IsValid document
unfolding is_canonical_domain is_label
document-IsValid = record {
  canonical = refl;
  txid_hex = zeros-IsHex;
  target_hex = zeros-IsHex;
  index_fits = omega arith;
  roots_fit = (omega arith, omega arith);
  mask_fits = (omega arith, omega arith);
  time_fits = (omega arith, omega arith);
  size_fits = omega arith;
  is_version_2 = refl;
}

construct_iff_example :
    (construct (arguments document) ≡ ok document)
    ↔ (IsValid document × (arguments document ≡ arguments document))
construct_iff_example = construct_iff (arguments document) document

from_dict_iff_example :
    (from_dict toy_sha256 (dict (fields_of document)) ≡ ok document)
    ↔ IsEnvelope (fields_of document) document
from_dict_iff_example = from_dict_iff toy_sha256 (fields_of document) document

from_dict_total_example :
    ((p : ConnectionProof) × (from_dict toy_sha256 (dict (fields_of document)) ≡ ok p))
    ⊎ (from_dict toy_sha256 (dict (fields_of document)) ≡ raises proof_format)
from_dict_total_example = from_dict_total toy_sha256 (dict (fields_of document))

document_bytes : AreBytes document.proof
document_bytes = (omega arith, (omega arith, (omega arith, tt)))

to_dict-from_dict_example :
    (v : Value) × (to_dict document ≡ ok v) × (from_dict toy_sha256 v ≡ ok document)
to_dict-from_dict_example =
    to_dict-from_dict toy_sha256 document document-IsValid document_bytes refl

document_dict : to_dict document ≡ ok (dict (fields_of document))
unfolding to_dict check_serialized_proof
document_dict = refl

abbrev used : Directory
used = put (λ _. none) (codes "proof.json") (some (1 ∷ []))

abbrev dumps : Value → Bytes
dumps v = codes "{}"

-- The rename fails.
abbrev faults : Faults
faults = record {
  create = false;
  write = false;
  written = 0;
  sync = false;
  publish = true;
  unlink = false;
}

abbrev staging : List ℕ
staging = codes ".p2c-proof-1.tmp"

names_apart : codes "proof.json" ≢ staging
names_apart h = absurd (ground (arith, h))

staging_free : used staging ≡ none
unfolding put
staging_free = refl

write-IsIntact_example :
    All
      (IsIntact used (codes "proof.json") staging (text_of dumps (dict (fields_of document))))
      (write dumps faults document (codes "proof.json") true staging used).0
write-IsIntact_example =
    write-IsIntact dumps faults document (codes "proof.json") true staging used
      (dict (fields_of document)) document_dict names_apart

write-Settled_example :
    (last used (write dumps faults document (codes "proof.json") true staging used).0 staging
      ≡ none)
    × Settled used
        (codes "proof.json")
        (text_of dumps (dict (fields_of document)))
        (last used (write dumps faults document (codes "proof.json") true staging used).0)
        (write dumps faults document (codes "proof.json") true staging used).1
write-Settled_example =
    write-Settled dumps faults document (codes "proof.json") staging used
      (dict (fields_of document)) document_dict names_apart true refl staging_free

used_holds : used (codes "proof.json") ≡ some (1 ∷ [])
unfolding put
used_holds = refl

write-refuses_example :
    Keeps used
      (codes "proof.json")
      (write dumps faults document (codes "proof.json") false staging used)
write-refuses_example =
    write-refuses dumps faults document (codes "proof.json") staging used
      (dict (fields_of document)) document_dict names_apart (1 ∷ []) used_holds

abbrev no_faults : Faults
no_faults = record {
  create = false;
  write = false;
  written = 0;
  sync = false;
  publish = false;
  unlink = false;
}

abbrev loads : Bytes → Exception ⊎ Value
loads content = inr (dict (fields_of document))
