-- ===== src/Verify/Pss/Permits.antt =====
-- Which parameters of an RSA-PSS key src/connectcoin_p2c_tools/verify.py takes, in full.
use connectcoin_p2c_tools.Common.{ℕ, ◌≤◌, ◌≡◌, refl, true, List, Bytes, AreBytes, le→not_ltb}
use connectcoin_p2c_tools.Common.Outcome.{ok, value_error, Ensures, Ensures-bind, Ensures-test}
use connectcoin_p2c_tools.Verify.Der.{Element}
use connectcoin_p2c_tools.Verify.Der.Canonical.{
  IsEncoding, der_elements-encode, der_elements-Ensures,
}
use connectcoin_p2c_tools.Verify.Der.Values.{
  der_single-encode, sha256_algorithm-IsSha256, der_nonnegative_integer-IsInteger,
}
use connectcoin_p2c_tools.Verify.Pss.{
  Restrictions, unrestricted_sha1, names_mgf1, pss_parameter, pss_loop, permits_sha256,
  check_pss_parameters,
}
use connectcoin_p2c_tools.Verify.Pss.Limits.{IsHash, IsMgf1, pss_loop-Ensures}
use connectcoin_p2c_tools.Verify.Pss.Parameters.{
  SaltAndTrailer, neither, salt_only, trailer_only, both, ArePermitted, Reads-ArePermitted,
}

-- The parameters are read, and the last test passes.
abbrev Passes : List Element → ℕ → Restrictions → Type 0
Passes es previous_tag p =
    (last : Restrictions) × (pss_loop es previous_tag p ≡ ok last) × (permits_sha256 last ≡ true)

sha256_set : ℕ → Restrictions
sha256_set n = record { hash_is_sha256 = true; mgf1_is_sha256 = true; minimum_salt = n }

sha256_set-permits : (n : ℕ) → n ≤ 32 → permits_sha256 (sha256_set n) ≡ true
unfolding sha256_set
sha256_set-permits n h = le→not_ltb 32 n h

SaltAndTrailer-Passes : {es : List Element} → SaltAndTrailer es → Passes es 0xa1 (sha256_set 20)
unfolding pss_loop pss_parameter sha256_set
SaltAndTrailer-Passes neither = (_, refl, refl)
SaltAndTrailer-Passes (salt_only {value} n is h) =
    (sha256_set n, rw (der_nonnegative_integer-IsInteger value n is) refl, sha256_set-permits n h)
SaltAndTrailer-Passes (trailer_only {value} is) =
    (sha256_set 20, rw (der_nonnegative_integer-IsInteger value 1 is) refl, refl)
SaltAndTrailer-Passes (both {value} {trailer} n is h one) = (
  sha256_set n,
  rw (der_nonnegative_integer-IsInteger value n is, der_nonnegative_integer-IsInteger trailer 1 one)
      refl,
  sha256_set-permits n h,
)

hash_parameter :
    (value : Bytes)
    → IsHash value
    → pss_parameter 0xa0 value unrestricted_sha1
      ≡ ok (record unrestricted_sha1 { hash_is_sha256 = true })
unfolding pss_parameter
hash_parameter value (algorithm, single, is) =
    rw (der_single-encode value algorithm 0x30 single, sha256_algorithm-IsSha256 algorithm is) refl

mask_parameter :
    (value : Bytes)
    → IsMgf1 value
    → pss_parameter 0xa1 value (record unrestricted_sha1 { hash_is_sha256 = true })
      ≡ ok (sha256_set 20)
unfolding pss_parameter names_mgf1 sha256_set
mask_parameter value (algorithm, hash, single, layout, is) =
    rw
      (
        der_single-encode value algorithm 0x30 single,
        der_elements-encode algorithm _ layout,
        sha256_algorithm-IsSha256 hash is,
      )
      refl

ArePermitted-Passes : (es : List Element) → ArePermitted es → Passes es 0x9f unrestricted_sha1
unfolding pss_loop
ArePermitted-Passes es (hash, mask, rest, e, hash_is, mask_is, limits) =
    let (last, run, test) = SaltAndTrailer-Passes limits in
    rw e (last, rw (hash_parameter hash hash_is, mask_parameter mask mask_is) run, test)

pub check_pss_parameters-Ensures :
    (bs : Bytes)
    → AreBytes bs
    → Ensures value_error
        (λ _. (es : List Element) × IsEncoding bs es × ArePermitted es)
        (check_pss_parameters bs)
unfolding check_pss_parameters
check_pss_parameters-Ensures bs k = Ensures-bind (der_elements-Ensures bs k) λ es (layout, are).
    Ensures-bind (pss_loop-Ensures es 0x9f unrestricted_sha1 are) λ last reads.
      Ensures-test (permits_sha256 last) λ test. (es, layout, Reads-ArePermitted es last test reads)

pub check_pss_parameters-ArePermitted :
    (bs : Bytes) (es : List Element)
    → IsEncoding bs es
    → ArePermitted es
    → check_pss_parameters bs ≡ ok tt
unfolding check_pss_parameters
check_pss_parameters-ArePermitted bs es layout permitted =
    let (last, run, test) = ArePermitted-Passes es permitted in
    rw (der_elements-encode bs es layout, run, test) refl
