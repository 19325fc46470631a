-- ===== src/Envelope.antt =====
-- src/connectcoin_p2c_tools/envelope.py: `ConnectionProof`, its checks, from_dict and to_dict. A
-- dict has text keys, as `json.loads` returns it.
pub mod Checks
pub mod Valid
pub mod Keys
pub mod Dicts
pub mod RoundTrip
pub mod Read
pub mod Write
use connectcoin_p2c_tools.Common.{
  ℕ, ◌*◌, ◌%◌, Bool, true, false, ◌&&◌, ◌||◌, not, List, [], ◌∷◌, map, Option, none, some, ltb,
  ◌==◌, ◌!=◌, if◌then◌else◌, length, is_empty, bytes_eq, Bytes,
}
use connectcoin_p2c_tools.Common.Outcome.{
  Result, ok, raises, require, proof_format, key_error, ◌>>=◌, ◌>>◌,
}
use connectcoin_p2c_tools.Common.Values.{
  Value, pos, int, text, bytes, dict, in_range, Fields, no_fields, field,
}
use connectcoin_p2c_tools.Domain.{is_canonical_domain}
use connectcoin_p2c_tools.Hashes.{
  codes, lower_char, all_hex_digits, from_hex, to_hex, claim_challenge,
}
use connectcoin_p2c_tools.Signatures.{validate_signature_algorithms_mask}

-- `FORMAT`
abbrev pub format : List ℕ
format = codes "connectcoin-p2c-proof"

abbrev pub envelope_version : ℕ
envelope_version = 2

-- `expected`, in the order in which to_dict lists the keys.
abbrev pub expected_keys : List (List ℕ)
expected_keys =
    codes "format"
    ∷ codes "version"
    ∷ codes "domain"
    ∷ codes "txid"
    ∷ codes "input_index"
    ∷ codes "connection_work_target"
    ∷ codes "root_certificates_version"
    ∷ codes "signature_algorithms_mask"
    ∷ codes "validation_time"
    ∷ codes "proof"
    ∷ []

-- `key in value`
unfoldable pub has_field : List ℕ → Fields → Bool
has_field key no_fields = false
has_field key (field k v more) = bytes_eq k key || has_field key more

-- `value[key]`
unfoldable pub get_field : Fields → List ℕ → Result Value
get_field no_fields key = raises key_error
get_field (field k v more) key = if bytes_eq k key then ok v else get_field more key

-- `not missing`
unfoldable pub has_fields : List (List ℕ) → Fields → Bool
has_fields [] value = true
has_fields (key ∷ keys) value = has_field key value && has_fields keys value

abbrev pub elem_text : List ℕ → List (List ℕ) → Bool
elem_text key [] = false
elem_text key (k ∷ keys) = bytes_eq k key || elem_text key keys

-- `not extra`
unfoldable pub fields_within : List (List ℕ) → Fields → Bool
fields_within keys no_fields = true
fields_within keys (field k v more) = elem_text k keys && fields_within keys more

unfoldable pub require_exact_keys : Fields → Result (Unit {0})
require_exact_keys value = do
  require (has_fields expected_keys value) proof_format
  require (fields_within expected_keys value) proof_format

-- `exact_size is not None and len(encoded) != exact_size`
abbrev pub wrong_size : Option ℕ → ℕ → Bool
wrong_size none n = false
wrong_size (some size) n = n != size

-- `_require_hex` of a text.
unfoldable pub require_hex_text : List ℕ → Option ℕ → Result (List ℕ)
require_hex_text value exact_size = do
  require (bytes_eq value (map lower_char value) && not (is_empty value)) proof_format
  require (length value % 2 == 0) proof_format
  require (all_hex_digits value) proof_format
  encoded ← from_hex value
  require (not (wrong_size exact_size (length encoded))) proof_format
  ok value

unfoldable pub require_hex : Value → Option ℕ → Result (List ℕ)
require_hex (text value) exact_size = require_hex_text value exact_size
require_hex _ exact_size = raises proof_format

-- A bool is refused before its range is looked at.
unfoldable pub require_uint : Value → ℕ → Result ℕ
require_uint (int (pos n)) maximum =
    if in_range 0 (pos n) maximum then ok n else raises proof_format
require_uint _ maximum = raises proof_format

-- `type(version) is int and version == ENVELOPE_VERSION`
abbrev pub is_version : Value → Bool
is_version (int (pos n)) = n == envelope_version
is_version _ = false

unfoldable pub require_domain : Value → Result (List ℕ)
require_domain (text domain) = if is_canonical_domain domain then ok domain else raises proof_format
require_domain _ = raises proof_format

abbrev pub require_bytes : Value → Result Bytes
require_bytes (bytes b) = ok b
require_bytes _ = raises proof_format

abbrev pub is_format : Value → Bool
is_format (text value) = bytes_eq value format
is_format _ = false

-- An unsigned number that is not zero.
unfoldable pub require_positive : Value → ℕ → Result ℕ
require_positive value maximum = do
  n ← require_uint value maximum
  require (n != 0) proof_format
  ok n

pub record ConnectionProof : Type 0 where
  pub domain : List ℕ
  pub txid : List ℕ
  pub input_index : ℕ
  pub connection_work_target : List ℕ
  pub root_certificates_version : ℕ
  pub signature_algorithms_mask : ℕ
  pub validation_time : ℕ
  pub proof : Bytes
  pub version : ℕ

-- What `ConnectionProof(...)` is called with.
pub record Arguments : Type 0 where
  pub domain : Value
  pub txid : Value
  pub input_index : Value
  pub connection_work_target : Value
  pub root_certificates_version : Value
  pub signature_algorithms_mask : Value
  pub validation_time : Value
  pub proof : Value
  pub version : Value

-- `ConnectionProof(...)`: `__post_init__` leaves the fields as they are.
unfoldable pub construct : Arguments → Result ConnectionProof
construct self = do
  require (is_version self.version) proof_format
  domain ← require_domain self.domain
  txid ← require_hex self.txid (some 32)
  target ← require_hex self.connection_work_target (some 32)
  input_index ← require_uint self.input_index 0xffffffff
  roots_version ← require_positive self.root_certificates_version 0xffffffff
  mask ← validate_signature_algorithms_mask self.signature_algorithms_mask
  validation_time ← require_positive self.validation_time 0x7fffffffffffffff
  proof ← require_bytes self.proof
  require (not (ltb (64 * 1024) (length proof))) proof_format
  ok (record {
    domain = domain;
    txid = txid;
    input_index = input_index;
    connection_work_target = target;
    root_certificates_version = roots_version;
    signature_algorithms_mask = mask;
    validation_time = validation_time;
    proof = proof;
    version = envelope_version;
  })

abbrev pub begins_with_2 : Bytes → Bool
begins_with_2 [] = false
begins_with_2 (b ∷ bs) = b == 2

unfoldable pub check_serialized_proof : ConnectionProof → Result (Unit {0})
check_serialized_proof self = require (begins_with_2 self.proof) proof_format

-- The arguments that from_dict passes; `version` is left at its default.
abbrev pub arguments_of : List ℕ → List ℕ → ℕ → List ℕ → ℕ → ℕ → ℕ → Bytes → Arguments
arguments_of domain txid input_index target roots_version mask validation_time proof = record {
  domain = text domain;
  txid = text txid;
  input_index = int (pos input_index);
  connection_work_target = text target;
  root_certificates_version = int (pos roots_version);
  signature_algorithms_mask = int (pos mask);
  validation_time = int (pos validation_time);
  proof = bytes proof;
  version = int (pos envelope_version);
}

module _ (sha256 : Bytes → Bytes) where
  unfoldable pub from_fields : Fields → Result ConnectionProof
  from_fields value = do
    require_exact_keys value
    require (is_format (← get_field value (codes "format"))) proof_format
    require (is_version (← get_field value (codes "version"))) proof_format
    domain ← require_domain (← get_field value (codes "domain"))
    txid ← require_hex (← get_field value (codes "txid")) (some 32)
    target ← require_hex (← get_field value (codes "connection_work_target")) (some 32)
    input_index ← require_uint (← get_field value (codes "input_index")) 0xffffffff
    roots_version ←
        require_positive (← get_field value (codes "root_certificates_version")) 0xffffffff
    mask ←
        validate_signature_algorithms_mask (← get_field value (codes "signature_algorithms_mask"))
    validation_time ←
        require_positive (← get_field value (codes "validation_time")) 0x7fffffffffffffff
    proof_hex ← require_hex (← get_field value (codes "proof")) none
    proof ← from_hex proof_hex
    require (not (ltb (64 * 1024) (length proof))) proof_format
    result ←
        construct
          (arguments_of domain txid input_index target roots_version mask validation_time proof)
    _ ← claim_challenge sha256 result.txid (int (pos result.input_index))
    check_serialized_proof result
    ok result

  unfoldable pub from_dict : Value → Result ConnectionProof
  from_dict (dict value) = from_fields value
  from_dict _ = raises proof_format

  -- The property `challenge`.
  unfoldable pub challenge : ConnectionProof → Result Bytes
  challenge self = claim_challenge sha256 self.txid (int (pos self.input_index))

abbrev pub fields_of : ConnectionProof → Fields
fields_of self = field (codes "format") (text format) (
    field (codes "version") (int (pos self.version)) (
      field (codes "domain") (text self.domain) (
        field (codes "txid") (text self.txid) (
          field (codes "input_index") (int (pos self.input_index)) (
            field (codes "connection_work_target") (text self.connection_work_target) (
              field (codes "root_certificates_version") (int (pos self.root_certificates_version)) (
                field (codes "signature_algorithms_mask") (int (pos self.signature_algorithms_mask))
                  (field (codes "validation_time") (int (pos self.validation_time))
                    (field (codes "proof") (text (to_hex self.proof)) no_fields)))))))))

unfoldable pub to_dict : ConnectionProof → Result Value
to_dict self = do check_serialized_proof self; ok (dict (fields_of self))
