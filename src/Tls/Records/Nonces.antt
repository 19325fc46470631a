-- ===== src/Tls/Records/Nonces.antt =====
-- The nonces of the records and the padding of their plaintext (src/connectcoin_p2c_tools/tls13.py,
-- `_record_nonce` and `_decrypt_record`).
use Prim.Native.Nat.{bit_xor, bit_xor-bitwise, digits, differ}
use connectcoin_p2c_tools.Common.{
  ℕ, zero, suc, ◌/◌, ◌%◌, ◌^◌, ◌<◌, ◌≡◌, ◌≢◌, refl, sym, ap, ◌∙◌, inl, inr, Bool-cases, Option,
  false, none, some, ◌==◌, [], ◌∷◌, ◌++◌, arith, ltb, ltb→lt, length, Bytes, be_bytes, replicate,
}
use connectcoin_p2c_tools.Common.Ints.{length-be_bytes, to_bytes_big}
use connectcoin_p2c_tools.Common.Lists.{same_parts}
use connectcoin_p2c_tools.Common.Outcome.{
  Result, ok, bind_ok, ◌>>=◌, tls_generation, require_inv, bind_inv,
}
use connectcoin_p2c_tools.Tls.Records.{
  xor_bytes, record_nonce, unpad, inner_content, decrypt_record,
}

differ_bound : (p x : ℕ) → p < 2 → x < 2 → differ p x < 2
differ_bound zero x h k = k
differ_bound (suc p) zero h k = h
differ_bound (suc p) (suc x) h k = differ_bound p x (omega arith) (omega arith)

differ_injective : (p x y : ℕ) → p < 2 → x < 2 → y < 2 → differ p x ≡ differ p y → x ≡ y
differ_injective zero x y h k l e = e
differ_injective (suc zero) zero zero h k l e = refl
differ_injective (suc zero) zero (suc y) h k l e = absurd (omega (arith, e))
differ_injective (suc zero) (suc x) zero h k l e = absurd (omega (arith, e))
differ_injective (suc zero) (suc x) (suc y) h k l e = ap suc e
differ_injective (suc (suc p)) x y h k l e = absurd (omega arith)

digits_injective :
    (n a b c : ℕ) → digits (λ b. b) differ n a b ≡ digits (λ b. b) differ n a c → b ≡ c
digits_injective zero a b c e = e
digits_injective (suc n) zero b c e = e
digits_injective (suc n) (suc a) b c e =
    let p = suc a % 2 in
    let below : (x : ℕ) → differ p (x % 2) < 2 =
      λ x. differ_bound p (x % 2) (omega arith) (omega arith) in
    let high : digits (λ b. b) differ n (suc a / 2) (b / 2)
        ≡ digits (λ b. b) differ n (suc a / 2) (c / 2) =
      omega (arith, e, below b, below c) in
    let low : differ p (b % 2) ≡ differ p (c % 2) = omega (arith, e, below b, below c) in
    let halves : b / 2 ≡ c / 2 = digits_injective n (suc a / 2) (b / 2) (c / 2) high in
    let rests : b % 2 ≡ c % 2 =
      differ_injective p (b % 2) (c % 2) (omega arith) (omega arith) (omega arith) low in
    omega (arith, halves, rests)

xor_injective : (a b c : ℕ) → bit_xor a b ≡ bit_xor a c → b ≡ c
xor_injective a b c e =
    digits_injective a a b c (sym (λ i. bit_xor-bitwise a b i) ∙ e ∙ (λ i. bit_xor-bitwise a c i))

xor_bytes-injective :
    (a b c : Bytes)
    → length a ≡ length b
    → length a ≡ length c
    → xor_bytes a b ≡ xor_bytes a c
    → b ≡ c
xor_bytes-injective [] [] [] h k e = refl
xor_bytes-injective [] (y ∷ b) c h k e = absurd (omega (arith, h))
xor_bytes-injective [] [] (z ∷ c) h k e = absurd (omega (arith, k))
xor_bytes-injective (x ∷ a) [] c h k e = absurd (omega (arith, h))
xor_bytes-injective (x ∷ a) (y ∷ b) [] h k e = absurd (omega (arith, k))
xor_bytes-injective (x ∷ a) (y ∷ b) (z ∷ c) h k e =
    let heads : bit_xor x y ≡ bit_xor x z = cc in
    let tails : xor_bytes a b ≡ xor_bytes a c = cc in
    let first : y ≡ z = xor_injective x y z heads in
    let others : b ≡ c = xor_bytes-injective a b c (omega (arith, h)) (omega (arith, k)) tails in cc

be_bytes-injective : (n v w : ℕ) → v < 256 ^ n → w < 256 ^ n → be_bytes n v ≡ be_bytes n w → v ≡ w
be_bytes-injective zero v w h k e = omega arith
be_bytes-injective (suc n) v w h k e =
    let (high, low) =
      same_parts (be_bytes n (v / 256)) (be_bytes n (w / 256)) (v % 256 ∷ []) (w % 256 ∷ [])
        (length-be_bytes n (v / 256) ∙ sym (length-be_bytes n (w / 256))) e in
    let quotients : v / 256 ≡ w / 256 =
      be_bytes-injective n (v / 256) (w / 256) (omega arith) (omega arith) high in
    let rests : v % 256 ≡ w % 256 = cc in omega (arith, quotients, rests)

to_bytes_big_inv :
    (n v : ℕ) (encoded : Bytes)
    → to_bytes_big n v ≡ ok encoded
    → (v < 256 ^ n) × (encoded ≡ be_bytes n v)
unfolding to_bytes_big
to_bytes_big_inv n v encoded e = elim (Bool-cases (ltb v (256 ^ n))) [
  | inl t ↦ (ltb→lt v (256 ^ n) t, ground (arith, t, e))
  | inr t ↦ ground (arith, t, e)
]

-- What a nonce is made of.
record_nonce_inv :
    (iv : Bytes) (sequence : ℕ) (nonce : Bytes)
    → record_nonce iv sequence ≡ ok nonce
    → (sequence < 256 ^ length iv) × (nonce ≡ xor_bytes iv (be_bytes (length iv) sequence))
unfolding record_nonce
record_nonce_inv iv sequence nonce e =
    let made : Bytes → Result Bytes = λ padded. ok (xor_bytes iv padded) in
    let (small, run) =
      require_inv (ltb sequence (2 ^ 64)) tls_generation
        (to_bytes_big (length iv) sequence >>= made) e in
    let (padded, p, q) = bind_inv made (to_bytes_big (length iv) sequence) run in
    let (fits, is) = to_bytes_big_inv (length iv) sequence padded p in
    let form : xor_bytes iv padded ≡ nonce = cc in (fits, sym form ∙ ap (xor_bytes iv) is)

-- Under one iv, two different sequence numbers that have nonces have different nonces.
pub record_nonce-distinct :
    (iv : Bytes) (first second : ℕ) (nonce other : Bytes)
    → record_nonce iv first ≡ ok nonce
    → record_nonce iv second ≡ ok other
    → first ≢ second
    → nonce ≢ other
record_nonce-distinct iv first second nonce other e f differs same =
    let (small, is) = record_nonce_inv iv first nonce e in
    let (little, is_other) = record_nonce_inv iv second other f in
    let n = length iv in
    differs (
      be_bytes-injective n first second small little (
        xor_bytes-injective iv (be_bytes n first) (be_bytes n second)
          (sym (length-be_bytes n first)) (sym (length-be_bytes n second))
          (sym is ∙ same ∙ is_other)))

unpad-zeros : (n : ℕ) → unpad (replicate n 0) ≡ none
unfolding unpad
unpad-zeros zero = refl
unpad-zeros (suc n) = rw (unpad-zeros n) refl

unpad-last :
    (kind : ℕ) (bs : Bytes) → kind ≢ 0 → unpad bs ≡ none → unpad (kind ∷ bs) ≡ some (kind, [])
unfolding unpad
unpad-last kind bs h e = let other : (kind == 0) ≡ false = ground arith in rw (e, other) refl

unpad-cons :
    (b kind : ℕ) (bs fragment : Bytes)
    → unpad bs ≡ some (kind, fragment)
    → unpad (b ∷ bs) ≡ some (kind, b ∷ fragment)
unfolding unpad
unpad-cons b kind bs fragment e = rw e refl

unpad-padded :
    (content : Bytes) (kind n : ℕ)
    → kind ≢ 0
    → unpad (content ++ (kind ∷ replicate n 0)) ≡ some (kind, content)
unpad-padded [] kind n h = unpad-last kind (replicate n 0) h (unpad-zeros n)
unpad-padded (b ∷ content) kind n h =
    unpad-cons b kind (content ++ (kind ∷ replicate n 0)) content (unpad-padded content kind n h)

-- Where the sequence number has a nonce and the AEAD opens the record to content, a type that is
-- not zero and any number of zeros, decryption returns that type and that content.
pub decrypt_record-padded :
    (aead : ℕ → Bytes → Bytes → Bytes → Bytes → Option Bytes) (cipher_suite : ℕ) (key iv : Bytes)
    (sequence : ℕ) (header ciphertext nonce content : Bytes) (kind n : ℕ)
    → record_nonce iv sequence ≡ ok nonce
    → kind ≢ 0
    → aead cipher_suite key nonce ciphertext header ≡ some (content ++ (kind ∷ replicate n 0))
    → decrypt_record aead cipher_suite key iv sequence header ciphertext ≡ ok (kind, content)
unfolding decrypt_record
decrypt_record-padded aead cipher_suite key iv sequence header ciphertext nonce content kind n h k
      e =
    bind_ok _ h (rw e (ap inner_content (unpad-padded content kind n k)))
