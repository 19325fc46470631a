-- ===== src/Verify/Pss.antt =====
-- `_check_pss_key_restrictions` of src/connectcoin_p2c_tools/verify.py, on the bytes of the leaf's
-- TBSCertificate.
pub mod Limits
pub mod Parameters
pub mod Permits
pub mod Certificate
use connectcoin_p2c_tools.Common.{
  ℕ, Bool, true, false, ◌&&◌, ◌||◌, not, List, [], ◌∷◌, Option, none, some, ltb, leb, ◌==◌,
  if◌then◌else◌, get_elem?, elem, Bytes,
}
use connectcoin_p2c_tools.Common.Outcome.{
  Result, Exception, ok, raises, out_of_fuel, require, value_error, proof_verification, ◌>>=◌, ◌>>◌,
}
use connectcoin_p2c_tools.Verify.Der.{
  Element, der_elements, der_single, sha256_algorithm, der_nonnegative_integer, is_element,
}

-- `_MGF1_OID_DER`
abbrev pub mgf1_oid_der : Bytes
mgf1_oid_der = 0x2a ∷ 0x86 ∷ 0x48 ∷ 0x86 ∷ 0xf7 ∷ 0x0d ∷ 0x01 ∷ 0x01 ∷ 0x08 ∷ []

-- `_RSASSA_PSS_OID_DER`
abbrev pub rsassa_pss_oid_der : Bytes
rsassa_pss_oid_der = 0x2a ∷ 0x86 ∷ 0x48 ∷ 0x86 ∷ 0xf7 ∷ 0x0d ∷ 0x01 ∷ 0x01 ∷ 0x0a ∷ []

-- What the loop over the parameters has, apart from `previous_tag`.
pub record Restrictions : Type 0 where
  pub hash_is_sha256 : Bool
  pub mgf1_is_sha256 : Bool
  pub minimum_salt : ℕ

abbrev pub unrestricted_sha1 : Restrictions
unrestricted_sha1 = record { hash_is_sha256 = false; mgf1_is_sha256 = false; minimum_salt = 20 }

-- The value of `mgf1_is_sha256`.
unfoldable pub names_mgf1 : List Element → Result Bool
names_mgf1 (a ∷ (tag, value) ∷ []) =
    if is_element a 0x06 mgf1_oid_der && tag == 0x30 then sha256_algorithm value else ok false
names_mgf1 _ = ok false

-- One parameter, whose tag is one of the four.
unfoldable pub pss_parameter : ℕ → Bytes → Restrictions → Result Restrictions
pss_parameter tag value p =
    if tag == 0xa0
    then (der_single value 0x30 >>= λ algorithm.
        sha256_algorithm algorithm >>= λ named. ok (record p { hash_is_sha256 = named }))
    else if tag == 0xa1
    then (der_single value 0x30 >>= λ algorithm. der_elements algorithm >>= λ mgf.
        names_mgf1 mgf >>= λ named. ok (record p { mgf1_is_sha256 = named }))
    else if tag == 0xa2
    then (der_nonnegative_integer value >>= λ salt. ok (record p { minimum_salt = salt }))
    else (der_nonnegative_integer value >>= λ trailer. require (trailer == 1) value_error >> ok p)

-- `tag not in {0xA0, 0xA1, 0xA2, 0xA3} or tag <= previous_tag`, negated.
abbrev pub in_order : ℕ → ℕ → Bool
in_order previous_tag tag = elem tag (0xa0 ∷ 0xa1 ∷ 0xa2 ∷ 0xa3 ∷ []) && not (leb tag previous_tag)

unfoldable pub pss_loop : List Element → ℕ → Restrictions → Result Restrictions
pss_loop [] previous_tag p = ok p
pss_loop ((tag, value) ∷ parameters) previous_tag p = do
  require (in_order previous_tag tag) value_error
  after ← pss_parameter tag value p
  pss_loop parameters tag after

-- The last test, negated.
abbrev pub permits_sha256 : Restrictions → Bool
permits_sha256 p = p.hash_is_sha256 && (p.mgf1_is_sha256 && not (ltb 32 p.minimum_salt))

unfoldable pub check_pss_parameters : Bytes → Result (Unit {0})
check_pss_parameters encoded = do
  parameters ← der_elements encoded
  restrictions ← pss_loop parameters 0x9f unrestricted_sha1
  require (permits_sha256 restrictions) value_error

-- From the test of `algorithm` on.
unfoldable pub check_pss_algorithm : List Element → Result (Unit {0})
check_pss_algorithm [] = raises value_error
check_pss_algorithm (oid ∷ []) = require (is_element oid 0x06 rsassa_pss_oid_der) value_error
check_pss_algorithm (oid ∷ (tag, value) ∷ []) = do
  require (is_element oid 0x06 rsassa_pss_oid_der) value_error
  require (tag == 0x30) value_error
  check_pss_parameters value
check_pss_algorithm (oid ∷ a ∷ b ∷ more) = raises value_error

-- `tbs and tbs[0][0] == 0xA0`
abbrev pub has_version : List Element → Bool
has_version [] = false
has_version ((tag, value) ∷ more) = tag == 0xa0

abbrev pub spki_index : List Element → ℕ
spki_index tbs = if has_version tbs then 6 else 5

-- The value of SubjectPublicKeyInfo.
abbrev pub spki_value : Option Element → Result Bytes
spki_value none = raises value_error
spki_value (some (tag, value)) = if tag == 0x30 then ok value else raises value_error

-- The value of the AlgorithmIdentifier of a key.
abbrev pub algorithm_value : List Element → Result Bytes
algorithm_value ((t, algorithm) ∷ (u, key) ∷ []) =
    if t == 0x30 && u == 0x03 then ok algorithm else raises value_error
algorithm_value _ = raises value_error

unfoldable pub read_restrictions : Bytes → Result (Unit {0})
read_restrictions certificate = do
  tbs ← der_elements (← der_single certificate 0x30)
  spki ← der_elements (← spki_value (get_elem? tbs (spki_index tbs)))
  algorithm ← der_elements (← algorithm_value spki)
  check_pss_algorithm algorithm

-- A ValueError is raised again as ProofVerificationError.
abbrev pub as_verification {ℓ} : {A : Type ℓ} → Result A → Result A
as_verification (raises Exception.value_error) = raises proof_verification
as_verification r = r

unfoldable pub check_pss_key_restrictions : Bytes → Result (Unit {0})
check_pss_key_restrictions certificate = as_verification (read_restrictions certificate)
