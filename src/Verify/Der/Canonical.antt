-- ===== src/Verify/Der/Canonical.antt =====
-- The canonical encoding that the reader of src/connectcoin_p2c_tools/verify.py accepts.
use mathlib.Core.Path.{ap₂}
use connectcoin_p2c_tools.Common.{
  ℕ, zero, suc, ◌%◌, ◌<◌, ◌≤◌, ◌≡◌, ◌≢◌, ◌↔◌, refl, sym, ap, ◌∙◌, subst, true, not, List, [], ◌∷◌,
  ◌++◌, ltb, ◌!=◌, length, take, drop, All, arith, Bytes, AreBytes, IsByte, All-append_left,
  All-append_right, length-drop, not_ltb→le, le→not_ltb, ne→!=, !=→ne, length-append,
  take-length_append, drop-length_append, take-append-drop, length-take,
}
use connectcoin_p2c_tools.Common.Outcome.{
  ok, value_error, Ensures, holds, rejects, Ensures-ok, Ensures-bind, Ensures-require,
  Ensures-weaken,
}
use connectcoin_p2c_tools.Verify.Der.{Element, der_loop, der_elements}
use connectcoin_p2c_tools.Verify.Der.Octets.{
  length_octets, AreBytes-drop, der_length-Ensures, length-octets_pos, ReadsOctets-below_2_32,
}

unfoldable pub encode : List Element → Bytes
encode [] = []
encode ((tag, value) ∷ more) = tag ∷ (length_octets (length value) ++ (value ++ encode more))

-- A tag of one byte, and a length that four bytes hold.
abbrev IsElement : Element → Type 0
IsElement (tag, value) = (tag % 32 ≢ 31) × (length value < 0x100000000)

abbrev pub IsEncoding : Bytes → List Element → Type 0
IsEncoding bs elements = All IsElement elements × (bs ≡ encode elements)

der_loop-Ensures :
    (fuel : ℕ) (rest : Bytes)
    → length rest < fuel
    → AreBytes rest
    → Ensures value_error (IsEncoding rest) (der_loop fuel rest)
unfolding der_loop encode
der_loop-Ensures zero rest h k = absurd (omega arith)
der_loop-Ensures (suc fuel) [] h k = holds (tt, refl)
der_loop-Ensures (suc fuel) (tag ∷ []) h k = rejects
der_loop-Ensures (suc fuel) (tag ∷ size ∷ rest) h k = Ensures-require (tag % 32 != 31) λ low.
    Ensures-bind (der_length-Ensures size rest k.1.0 k.1.1) λ (n, left) (octets, small, are).
      Ensures-require (not (ltb (length left) n)) λ fits.
        let within : n ≤ length left = not_ltb→le (length left) n fits in
        let counts : length (take n left) ≡ n = length-take n left within in
        Ensures-bind
          (der_loop-Ensures fuel (drop n left)
            (omega (
              arith,
              h,
              ap length octets,
              length-append (length_octets n) left,
              length-octets_pos n,
              length-drop n left,
            ))
            (AreBytes-drop n left are))
          λ more (elements, layout). holds (
            ((!=→ne (tag % 32) 31 low, omega (arith, counts, small)), elements),
            ap (λ (t : Bytes). tag ∷ t)
                (octets
                  ∙ ap₂ (λ (m : ℕ) (t : Bytes). length_octets m ++ t) (sym counts)
                      (sym (take-append-drop n left)
                        ∙ ap (λ (t : Bytes). take n left ++ t) layout)),
          )

-- A round of the loop on an encoded element.
der_loop-element :
    (fuel tag : ℕ) (value rest : Bytes) (more : List Element)
    → IsElement (tag, value)
    → der_loop fuel rest ≡ ok more
    → der_loop (suc fuel) (tag ∷ (length_octets (length value) ++ (value ++ rest)))
      ≡ ok ((tag, value) ∷ more)
unfolding der_loop
der_loop-element fuel tag value rest more (low, small) h =
    let (size, octets, e, reads) = ReadsOctets-below_2_32 (length value) small in
    let fits : not (ltb (length (value ++ rest)) (length value)) ≡ true =
      le→not_ltb _ _ (omega (arith, length-append value rest)) in
    rw
      (
        e,
        ne→!= (tag % 32) 31 low,
        reads (value ++ rest),
        fits,
        drop-length_append value rest,
        take-length_append value rest,
        h,
      )
      refl

der_loop-encode :
    (fuel : ℕ) (elements : List Element)
    → All IsElement elements
    → length (encode elements) < fuel
    → der_loop fuel (encode elements) ≡ ok elements
unfolding encode der_loop
der_loop-encode zero elements h k = absurd (omega arith)
der_loop-encode (suc fuel) [] h k = refl
der_loop-encode (suc fuel) ((tag, value) ∷ more) h k =
    der_loop-element fuel tag value (encode more) more h.0 (
      der_loop-encode fuel more h.1 (
        omega (
          arith,
          k,
          length-append (length_octets (length value)) (value ++ encode more),
          length-append value (encode more),
        )))

pub der_elements-encode :
    (bs : Bytes) (elements : List Element) → IsEncoding bs elements → der_elements bs ≡ ok elements
unfolding der_elements
der_elements-encode bs elements (are, e) =
    ap (λ (b : Bytes). der_loop (suc (length b)) b) e ∙ der_loop-encode _ elements are (omega arith)

-- On bytes the DER reader returns elements exactly if the bytes are their canonical encoding: each
-- a tag of one byte, the shortest length octets, of five at most, and the value.
pub der_elements_iff :
    (bs : Bytes) (elements : List Element)
    → AreBytes bs
    → (der_elements bs ≡ ok elements) ↔ IsEncoding bs elements
unfolding der_elements
der_elements_iff bs elements k = (
  λ h. Ensures-ok (der_loop-Ensures (suc (length bs)) bs (omega arith) k) h,
  der_elements-encode bs elements,
)

abbrev pub HoldsBytes : Element → Type 0
HoldsBytes (tag, value) = AreBytes value

encode-HoldsBytes : (elements : List Element) → AreBytes (encode elements) → All HoldsBytes elements
unfolding encode
encode-HoldsBytes [] h = tt
encode-HoldsBytes ((tag, value) ∷ more) h =
    let rest = All-append_right IsByte (length_octets (length value)) _ h.1 in
    (
      All-append_left IsByte value (encode more) rest,
      encode-HoldsBytes more (All-append_right IsByte value (encode more) rest),
    )

pub der_elements-Ensures :
    (bs : Bytes)
    → AreBytes bs
    → Ensures value_error
        (λ elements. IsEncoding bs elements × All HoldsBytes elements)
        (der_elements bs)
unfolding der_elements
der_elements-Ensures bs k =
    Ensures-weaken
      (λ elements (are, e).
        ((are, e), encode-HoldsBytes elements (subst (λ (b : Bytes). AreBytes b) e k)))
      (der_loop-Ensures (suc (length bs)) bs (omega arith) k)
