-- ===== src/Verify/Chain/Trusted.antt =====
-- The chains and the roots that src/connectcoin_p2c_tools/verify.py takes.
use native.Mathlib.Nat.{pow-suc}
use connectcoin_p2c_tools.Common.{
  ℕ, zero, suc, ◌+◌, ◌/◌, ◌^◌, ◌<◌, ◌≤◌, ◌≡◌, ◌⊎◌, inl, inr, refl, false, true, not, List, [], ◌∷◌,
  Option, none, some, ltb, ◌==◌, Bytes, All, arith, Bool-cases, ==→eq, not_ltb→le, le→not_ltb,
}
use connectcoin_p2c_tools.Common.Outcome.{
  ok, proof_verification, Exception, is_value_error, Ends, returns, stops, Ends-bind, Ensures-Ends,
  Ensures, holds, rejects, Ensures-bind, Ensures-test, Ensures-weaken,
}
use connectcoin_p2c_tools.Verify.X509.{X509, PublicKey, rsa, elliptic, other_key}
use connectcoin_p2c_tools.Verify.Chain.{
  max_rsa_public_exponent_bits, bit_length_loop, bit_length, is_rsa_oid, rsa_exponent,
  check_rsa_public_exponent, check_rsa_public_exponents, loaded, load_each, load_certificate_chain,
}

two_pow_pos : (k : ℕ) → 1 ≤ 2 ^ k
two_pow_pos zero = omega arith
two_pow_pos (suc k) = omega (arith, pow-suc 2 k, two_pow_pos k)

bits_le : (fuel n k : ℕ) → n ≤ fuel → n < 2 ^ k → bit_length_loop fuel n ≤ k
unfolding bit_length_loop
bits_le zero n k h l = omega arith
bits_le (suc fuel) n zero h l = ground arith
bits_le (suc fuel) n (suc k) h l = elim (Bool-cases (n == 0)) [
  | inl e ↦ rw e (omega arith)
  | inr e ↦ rw e (omega (arith, bits_le fuel (n / 2) k (ground arith) (omega (arith, pow-suc 2 k))))
]

le_bits : (fuel n k : ℕ) → n ≤ fuel → bit_length_loop fuel n ≤ k → n < 2 ^ k
unfolding bit_length_loop
le_bits zero n k h l = omega (arith, two_pow_pos k)
le_bits (suc fuel) n zero h l = elim (Bool-cases (n == 0)) [
  | inl e ↦ omega (arith, ==→eq n 0 e)
  | inr e ↦ absurd (not_none (bit_length_loop fuel (n / 2)) (rw e at l))
]
  where
    not_none : (m : ℕ) → m + 1 ≤ 0 → ⊥
    not_none m h = omega arith
le_bits (suc fuel) n (suc k) h l = elim (Bool-cases (n == 0)) [
  | inl e ↦ omega (arith, ==→eq n 0 e, two_pow_pos (suc k))
  | inr e ↦
      let below : bit_length_loop fuel (n / 2) + 1 ≤ suc k = rw e at l in
      omega (arith, pow-suc 2 k, le_bits fuel (n / 2) k (ground arith) (omega (arith, below)))
]

bit_length_lem : (n : ℕ) → not (ltb max_rsa_public_exponent_bits (bit_length n)) ≡ true → n < 2 ^ 64
bit_length_lem n h = le_bits n n 64 (omega arith) (not_ltb→le 64 (bit_length n) h)

-- What a loader of cryptography raised, where that is no ValueError.
abbrev pub Escapes : {A : Type 0} → (Bytes → Exception ⊎ A) → Exception → Type 0
Escapes load e = (encoded : Bytes) × (load encoded ≡ inl e) × (is_value_error e ≡ false)

abbrev pub IsLoadError : {A : Type 0} → (Bytes → Exception ⊎ A) → Exception → Type 0
IsLoadError load e = (e ≡ proof_verification) ⊎ Escapes load e

pub loaded-Ends :
    {A : Type 0} (load : Bytes → Exception ⊎ A) (encoded : Bytes)
    → Ends (IsLoadError load) (λ (a : A). load encoded ≡ inr a) (loaded (load encoded))
loaded-Ends {A} load encoded = by_outcome (load encoded) refl
  where
    by_outcome :
        (o : Exception ⊎ A)
        → load encoded ≡ o
        → Ends (IsLoadError load) (λ (a : A). load encoded ≡ inr a) (loaded o)
    by_outcome (inr a) e = returns e
    by_outcome (inl x) e = elim (Bool-cases (is_value_error x)) [
      | inl c ↦ rw c (stops (inl refl))
      | inr c ↦ rw c (stops (inr (encoded, e, c)))
    ]

-- An RSA certificate has an RSA key with an exponent below 2^64.
module _ (x : X509) where
  abbrev pub HasBoundedKey : x.Certificate → Type 0
  HasBoundedKey certificate =
      is_rsa_oid (x.public_key_algorithm_oid certificate) ≡ true
      → (size : ℕ) × (exponent : ℕ) × (x.public_key certificate ≡ some (rsa size exponent))
        × (exponent < 2 ^ 64)

  rsa_exponent-Ensures :
      (o : Option PublicKey)
      → Ensures proof_verification
          (λ exponent. (size : ℕ) × (o ≡ some (rsa size exponent)))
          (rsa_exponent o)
  rsa_exponent-Ensures none = rejects
  rsa_exponent-Ensures (some (rsa size exponent)) = holds (size, refl)
  rsa_exponent-Ensures (some (elliptic b)) = rejects
  rsa_exponent-Ensures (some other_key) = rejects

  check_rsa_public_exponent-Ensures :
      (c : x.Certificate)
      → Ensures proof_verification (λ _. HasBoundedKey c) (check_rsa_public_exponent x c)
  unfolding check_rsa_public_exponent
  check_rsa_public_exponent-Ensures c =
      elim (Bool-cases (is_rsa_oid (x.public_key_algorithm_oid c))) [
        | inr e ↦ rw e (holds cc)
        | inl e ↦ rw e (
            Ensures-bind (rsa_exponent-Ensures (x.public_key c)) λ exponent (size, key).
              Ensures-test (not (ltb max_rsa_public_exponent_bits (bit_length exponent)))
                λ small. λ _. (size, exponent, key, bit_length_lem exponent small))
      ]

  check_rsa_public_exponent-HasBoundedKey :
      (c : x.Certificate) → HasBoundedKey c → check_rsa_public_exponent x c ≡ ok tt
  unfolding check_rsa_public_exponent
  check_rsa_public_exponent-HasBoundedKey c h =
      elim (Bool-cases (is_rsa_oid (x.public_key_algorithm_oid c))) [
        | inr e ↦ rw e refl
        | inl e ↦
            let (size, exponent, key, small) = h e in
            rw
              (
                e,
                key,
                le→not_ltb 64 (bit_length exponent)
                    (bits_le exponent exponent 64 (omega arith) small),
              )
              refl
      ]

  pub check_rsa_public_exponents-Ensures :
      (cs : List x.Certificate)
      → Ensures proof_verification (λ _. All HasBoundedKey cs) (check_rsa_public_exponents x cs)
  unfolding check_rsa_public_exponents
  check_rsa_public_exponents-Ensures [] = holds tt
  check_rsa_public_exponents-Ensures (c ∷ cs) =
      Ensures-bind (check_rsa_public_exponent-Ensures c)
        λ _ h. Ensures-weaken (λ _ more. (h, more)) (check_rsa_public_exponents-Ensures cs)

  pub check_rsa_public_exponents-HasBoundedKey :
      (cs : List x.Certificate) → All HasBoundedKey cs → check_rsa_public_exponents x cs ≡ ok tt
  unfolding check_rsa_public_exponents
  check_rsa_public_exponents-HasBoundedKey [] h = refl
  check_rsa_public_exponents-HasBoundedKey (c ∷ cs) h =
      rw (check_rsa_public_exponent-HasBoundedKey c h.0)
        (check_rsa_public_exponents-HasBoundedKey cs h.1)

  -- The certificates of the encoded ones, in order.
  abbrev pub Loads : List Bytes → List x.Certificate → Type 0
  Loads [] [] = Unit
  Loads [] (c ∷ cs) = ⊥
  Loads (encoded ∷ chain) [] = ⊥
  Loads (encoded ∷ chain) (c ∷ cs) = (x.load_der encoded ≡ inr c) × Loads chain cs

  load_each-Ends :
      (chain : List Bytes) → Ends (IsLoadError x.load_der) (Loads chain) (load_each x chain)
  unfolding load_each
  load_each-Ends [] = returns tt
  load_each-Ends (encoded ∷ chain) =
      Ends-bind (loaded-Ends x.load_der encoded)
        λ c e. Ends-bind (load_each-Ends chain) λ cs more. returns (e, more)

  load_each-Loads :
      (chain : List Bytes) (cs : List x.Certificate) → Loads chain cs → load_each x chain ≡ ok cs
  unfolding load_each
  load_each-Loads [] [] h = refl
  load_each-Loads (encoded ∷ chain) (c ∷ cs) (e, h) = rw (e, load_each-Loads chain cs h) refl
  load_each-Loads [] (c ∷ cs) h = absurd h
  load_each-Loads (encoded ∷ chain) [] h = absurd h

  abbrev pub IsChain : List Bytes → List x.Certificate → Type 0
  IsChain chain cs = Loads chain cs × All HasBoundedKey cs

  pub load_certificate_chain-Ends :
      (chain : List Bytes)
      → Ends (IsLoadError x.load_der) (IsChain chain) (load_certificate_chain x chain)
  unfolding load_certificate_chain
  load_certificate_chain-Ends chain = Ends-bind (load_each-Ends chain) λ cs h.
      Ends-bind (Ensures-Ends (inl refl) (check_rsa_public_exponents-Ensures cs))
        λ _ k. returns (h, k)

  pub load_certificate_chain-IsChain :
      (chain : List Bytes) (cs : List x.Certificate)
      → IsChain chain cs
      → load_certificate_chain x chain ≡ ok cs
  unfolding load_certificate_chain
  load_certificate_chain-IsChain chain cs (h, k) =
      rw (load_each-Loads chain cs h, check_rsa_public_exponents-HasBoundedKey cs k) refl
