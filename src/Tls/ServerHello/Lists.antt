-- ===== src/Tls/ServerHello/Lists.antt =====
-- What `_parse_extensions` of src/connectcoin_p2c_tools/tls13.py returns: a list of extensions as
-- the wire format has it.
use connectcoin_p2c_tools.Common.{
  ℕ, zero, suc, ◌+◌, ◌-◌, ◌≤◌, ◌<◌, ◌≡◌, inl, inr, refl, sym, ap, ◌∙◌, false, [], ◌∷◌, ◌++◌,
  append_assoc, append-nil, ltb, length, length-drop, drop, Bytes, from_be, Bool-cases, arith,
}
use connectcoin_p2c_tools.Common.Lists.{slice-drop, length-slice, eq-nil_of_length}
use connectcoin_p2c_tools.Common.Outcome.{tls_generation, Ensures, holds, rejects, Ensures-weaken}
use connectcoin_p2c_tools.Protocol.Format.{ExtensionList, Fresh}
use connectcoin_p2c_tools.Protocol.Reader.{slice}
use connectcoin_p2c_tools.Protocol.Extensions.{Extensions, has_key}
use connectcoin_p2c_tools.Tls.ServerHello.{parse_extension_loop, parse_extensions}

-- The extensions from a position on, after those of `result`.
abbrev ReadsFrom : Bytes → Extensions → Extensions → Type 0
ReadsFrom bs result d =
    (more : Extensions) × (d ≡ result ++ more) × ExtensionList more bs × Fresh result more

-- One extension in front, cut out by positions.
first_extension :
    (encoded : Bytes) (position size : ℕ) (result d : Extensions)
    → from_be (slice encoded (position + 2) (position + 4)) ≡ size
    → position + 4 + size ≤ length encoded
    → has_key (from_be (slice encoded position (position + 2))) result ≡ false
    → ReadsFrom
        (drop (position + 4 + size) encoded)
        (result
          ++ ((
            from_be (slice encoded position (position + 2)),
            slice encoded (position + 4) (position + 4 + size),
          )
              ∷ []))
        d
    → ReadsFrom (drop position encoded) result d
first_extension encoded position size result d is_size fits new (more, e, list, fresh) =
    let kind = slice encoded position (position + 2) in
    let header = slice encoded (position + 2) (position + 4) in
    let content = slice encoded (position + 4) (position + 4 + size) in
    let rest = drop (position + 4 + size) encoded in
    let e₁ : kind ++ drop (position + 2) encoded ≡ drop position encoded =
      slice-drop position (position + 2) encoded (omega arith) in
    let e₂ : header ++ drop (position + 4) encoded ≡ drop (position + 2) encoded =
      slice-drop (position + 2) (position + 4) encoded (omega arith) in
    let e₃ : content ++ rest ≡ drop (position + 4) encoded =
      slice-drop (position + 4) (position + 4 + size) encoded (omega arith) in
    let l₁ = length-slice position (position + 2) encoded (omega arith) in
    let l₂ = length-slice (position + 2) (position + 4) encoded (omega arith) in
    let l₃ = length-slice (position + 4) (position + 4 + size) encoded (omega arith) in
    (
      (from_be kind, content) ∷ more,
      e ∙ append_assoc result ((from_be kind, content) ∷ []) more,
      (
        kind,
        header ++ content,
        rest,
        sym e₁
            ∙ ap (λ (x : Bytes). kind ++ x)
                (sym e₂
                  ∙ ap (λ (x : Bytes). header ++ x) (sym e₃)
                  ∙ sym (append_assoc header content rest)),
        (omega (arith, l₁), refl),
        (header, refl, (omega (arith, l₂), omega (arith, l₃, is_size))),
        list,
      ),
      (new, fresh),
    )

Ensures-parse_extension_loop :
    (fuel : ℕ) (encoded : Bytes) (position : ℕ) (result : Extensions)
    → position ≤ length encoded
    → length encoded < position + fuel
    → Ensures tls_generation
        (ReadsFrom (drop position encoded) result)
        (parse_extension_loop fuel encoded position result)
unfolding parse_extension_loop
Ensures-parse_extension_loop zero encoded position result within enough = absurd (omega arith)
Ensures-parse_extension_loop (suc fuel) encoded position result within enough =
    let kind = from_be (slice encoded position (position + 2)) in
    let size = from_be (slice encoded (position + 2) (position + 4)) in
    elim (Bool-cases (ltb position (length encoded))) [
      | inr e ↦ rw e (holds ([], sym (append-nil result), at_end (ground (arith, e)), tt))
      | inl e ↦ elim (Bool-cases (ltb (length encoded - position) 4)) [
        | inl f ↦ rw (e, f) rejects
        | inr f ↦ elim (Bool-cases (ltb (length encoded - (position + 4)) size)) [
          | inl g ↦ rw (e, f, g) rejects
          | inr g ↦ elim (Bool-cases (has_key kind result)) [
            | inl k ↦ rw (e, f, g, k) rejects
            | inr k ↦
                rw (e, f, g, k)
                  (Ensures-weaken
                    (λ d. first_extension encoded position size result d refl (ground arith) k)
                    (Ensures-parse_extension_loop fuel encoded (position + 4 + size) _
                      (ground arith) (omega arith)))
          ]
        ]
      ]
    ]
  where
    at_end : length encoded ≤ position → drop position encoded ≡ []
    at_end h =
        eq-nil_of_length (drop position encoded) (omega (arith, length-drop position encoded))

pub parse_extensions-Ensures :
    (encoded : Bytes)
    → Ensures tls_generation
        (λ (d : Extensions). ExtensionList d encoded × Fresh [] d)
        (parse_extensions encoded)
unfolding parse_extensions
parse_extensions-Ensures encoded =
    Ensures-weaken (λ d (more, e, list, fresh). rw e (list, fresh))
      (Ensures-parse_extension_loop (suc (length encoded)) encoded 0 [] (omega arith) (omega arith))
