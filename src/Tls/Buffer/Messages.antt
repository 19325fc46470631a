-- ===== src/Tls/Buffer/Messages.antt =====
-- Taking one message out of the buffer (src/connectcoin_p2c_tools/tls13.py, `_pop_handshake`).
use connectcoin_p2c_tools.Common.{
  ◌+◌, ◌≤◌, ◌<◌, ◌≡◌, inl, inr, refl, ap, ◌∙◌, false, [], ◌∷◌, ◌++◌, none, some, ltb, lt→ltb,
  length, take, drop, Bytes, from_be, Bool-cases, arith,
}
use connectcoin_p2c_tools.Common.Outcome.{ok}
use connectcoin_p2c_tools.Protocol.Reader.{slice}
use connectcoin_p2c_tools.Tls.Buffer.{max_captured_handshake, pop_handshake}

-- A handshake message as the buffer frames it: four bytes of header, and the size that they say.
abbrev pub IsFramed : Bytes → Type 0
IsFramed m =
    (4 ≤ length m) × (from_be (slice m 1 4) + 4 ≡ length m) × (length m ≤ max_captured_handshake)

header_of :
    (b m r rest : Bytes)
    → 4 ≤ length b
    → 4 ≤ length m
    → b ++ r ≡ m ++ rest
    → slice b 1 4 ≡ slice m 1 4
header_of (b₀ ∷ b₁ ∷ b₂ ∷ b₃ ∷ b) (m₀ ∷ m₁ ∷ m₂ ∷ m₃ ∷ m) r rest h k e = cc
header_of [] m r rest h k e = absurd (omega arith)
header_of (b₀ ∷ []) m r rest h k e = absurd (omega arith)
header_of (b₀ ∷ b₁ ∷ []) m r rest h k e = absurd (omega arith)
header_of (b₀ ∷ b₁ ∷ b₂ ∷ []) m r rest h k e = absurd (omega arith)
header_of (b₀ ∷ b₁ ∷ b₂ ∷ b₃ ∷ b) [] r rest h k e = absurd (omega arith)
header_of (b₀ ∷ b₁ ∷ b₂ ∷ b₃ ∷ b) (m₀ ∷ []) r rest h k e = absurd (omega arith)
header_of (b₀ ∷ b₁ ∷ b₂ ∷ b₃ ∷ b) (m₀ ∷ m₁ ∷ []) r rest h k e = absurd (omega arith)
header_of (b₀ ∷ b₁ ∷ b₂ ∷ b₃ ∷ b) (m₀ ∷ m₁ ∷ m₂ ∷ []) r rest h k e = absurd (omega arith)

pub whole_of :
    (b m r rest : Bytes)
    → length m ≤ length b
    → b ++ r ≡ m ++ rest
    → (take (length m) b ≡ m) × (drop (length m) b ++ r ≡ rest)
whole_of b [] r rest h e = (refl, e)
whole_of [] (y ∷ m) r rest h e = absurd (omega arith)
whole_of (x ∷ b) (y ∷ m) r rest h e =
    let tails : b ++ r ≡ m ++ rest = cc in
    let (p, q) = whole_of b m r rest (omega arith) tails in (cc, q)

-- The buffer holds the message: it is taken out.
pub pop_whole :
    (b m r rest : Bytes)
    → IsFramed m
    → length m ≤ length b
    → b ++ r ≡ m ++ rest
    → pop_handshake b ≡ ok (some m, drop (length m) b)
unfolding pop_handshake
pop_whole b m r rest (four, framed, fits) h e =
    let size : from_be (slice b 1 4) + 4 ≡ length m =
      ap (λ (x : Bytes). from_be x + 4) (header_of b m r rest (omega arith) four e) ∙ framed in
    let t₁ : ltb (length b) 4 ≡ false = ground arith in
    let t₂ : ltb max_captured_handshake (length m) ≡ false = ground arith in
    let t₃ : ltb (length b) (length m) ≡ false = ground arith in
    rw (t₁, size, t₂, t₃, (whole_of b m r rest h e).0) refl

-- It does not: nothing is taken out.
pub pop_part :
    (b m r rest : Bytes)
    → IsFramed m
    → length b < length m
    → b ++ r ≡ m ++ rest
    → pop_handshake b ≡ ok (none, b)
unfolding pop_handshake
pop_part b m r rest (four, framed, fits) h e = elim (Bool-cases (ltb (length b) 4)) [
  | inl t ↦ rw t refl
  | inr t ↦
      let size : from_be (slice b 1 4) + 4 ≡ length m =
        ap (λ (x : Bytes). from_be x + 4) (header_of b m r rest (ground arith) four e) ∙ framed in
      let t₂ : ltb max_captured_handshake (length m) ≡ false = ground arith in
      rw (t, size, t₂, lt→ltb (length b) (length m) h) refl
]
