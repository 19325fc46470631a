-- ===== src/Signatures.antt =====
-- src/connectcoin_p2c_tools/signatures.py: the output's mask of permitted signature schemes.
pub mod Policy
use Prim.Native.Nat.{bit_and}
use Prim.Native.String.{String}
use connectcoin_p2c_tools.Common.{
  ℕ, Bool, true, false, ◌||◌, ◌!=◌, ◌==◌, leb, ◌&&◌, if◌then◌else◌, List, [], ◌∷◌,
}
use connectcoin_p2c_tools.Common.Outcome.{Result, ok, raises, proof_format, ◌>>=◌}
use connectcoin_p2c_tools.Common.Values.{Value, ℤ, in_range, pos, negsuc, int}

pub record SignatureAlgorithm : Type 0 where
  pub mask : ℕ
  pub scheme : ℕ
  pub name : String

abbrev pub signature_algorithms : List SignatureAlgorithm
signature_algorithms =
    record { mask = 1; scheme = 0x0403; name = "ecdsa_secp256r1_sha256" }
    ∷ record { mask = 2; scheme = 0x0804; name = "rsa_pss_rsae_sha256" }
    ∷ record { mask = 4; scheme = 0x0809; name = "rsa_pss_pss_sha256" }
    ∷ []

-- A bool is an int in Python, and is refused here by its own test.
unfoldable pub validate_signature_algorithms_mask : Value → Result ℕ
validate_signature_algorithms_mask (int (pos n)) =
    if in_range 1 (pos n) 7 then ok n else raises proof_format
validate_signature_algorithms_mask _ = raises proof_format

-- `tuple(algorithm for algorithm in ... if mask & algorithm.mask)`
pub select : ℕ → List SignatureAlgorithm → List SignatureAlgorithm
select mask [] = []
select mask (a ∷ rest) = if bit_and mask a.mask != 0 then a ∷ select mask rest else select mask rest

unfoldable pub accepted_signature_algorithms : ℕ → Result (List SignatureAlgorithm)
unfolding select validate_signature_algorithms_mask
accepted_signature_algorithms mask = do
  _ ← validate_signature_algorithms_mask (int (pos mask))
  ok (select mask signature_algorithms)

-- `any(algorithm.scheme == scheme for algorithm in ...)`
pub any_scheme : ℕ → List SignatureAlgorithm → Bool
any_scheme scheme [] = false
any_scheme scheme (a ∷ rest) = a.scheme == scheme || any_scheme scheme rest

unfoldable pub signature_scheme_allowed : ℕ → ℕ → Result Bool
unfolding any_scheme
signature_scheme_allowed mask scheme = do
  accepted ← accepted_signature_algorithms mask
  ok (any_scheme scheme accepted)
