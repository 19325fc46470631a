-- ===== src/Protocol/Certificate/Sound.antt =====
-- `_parse_certificate` of src/connectcoin_p2c_tools/protocol.py and its format.
use connectcoin_p2c_tools.Common.{
  ℕ, zero, suc, ◌+◌, ◌≤◌, ◌<◌, ◌≡◌, refl, sym, ap, ◌∙◌, subst, ◌↔◌, true, ◌&&◌, not, List, [], ◌∷◌,
  ◌++◌, append_assoc, append-nil, arith, leb, ◌==◌, length, length-append, Bytes, Bool-cases,
  taken_whole, is_empty→eq, le→not_ltb, ◌||◌, ◌!=◌, not_ltb→le, inl, inr, eq-nil_of_length,
}
use connectcoin_p2c_tools.Common.Outcome.{ok, proof_format, Ensures, Ensures-ok, Ensures-weaken}
use connectcoin_p2c_tools.Protocol.Format.{CertificateList, CertificateBody}
use connectcoin_p2c_tools.Protocol.Reader.Laws.{ReadsEnd, Parses}
use connectcoin_p2c_tools.Protocol.Reader.Laws.Parsing.{
  Parses-bind, Parses-require, Parses-pure, Parses-remaining, Parses-empty, Parses-read_bind,
  lengths, Parses-lift_last, Parses-weaken, Parses-u8, Parses-u16, Parses-u24, Ensures-run,
}
use connectcoin_p2c_tools.Protocol.Reader.Laws.Numbers.{
  ReadsEnd-cast, ReadsEnd-not_empty, ReadsEnd-lift_last, Reads-u8, Reads-u16_of, Reads-u24_of,
  Reads-read_of,
}
use connectcoin_p2c_tools.Protocol.Reader.Laws.{
  ReadsEnd-bind, ReadsEnd-require, ReadsEnd-remaining, ReadsEnd-empty, ReadsEnd-pure, run-ReadsEnd,
}
use connectcoin_p2c_tools.Protocol.Constants.{max_certificate_size, max_certificates}
use connectcoin_p2c_tools.Protocol.Certificate.{
  certificate_loop, certificate_body, parse_certificate,
}

abbrev Entries : List Bytes → Bytes → Bytes → List Bytes → Type 0
Entries result bs left chain =
    (new : List Bytes) × (left ≡ [])
    × (chain ≡ result ++ new)
    × CertificateList new bs
    × (length result ≤ max_certificates → length chain ≤ max_certificates)

size_fits :
    (n : ℕ) → (leb 1 n && leb n max_certificate_size) ≡ true → (1 ≤ n) × (n ≤ max_certificate_size)
size_fits n h = ground arith

fits_size :
    (n : ℕ) → 1 ≤ n → n ≤ max_certificate_size → (leb 1 n && leb n max_certificate_size) ≡ true
fits_size n h k = ground arith

length-append_chain : (xs ys : List Bytes) → length (xs ++ ys) ≡ length xs + length ys
length-append_chain = length-append

list_size_fits : (n m : ℕ) → not (n == 0 || n != m) ≡ true → (1 ≤ n) × (m ≡ n)
list_size_fits n m h = ground arith

Parses-certificate_loop :
    (fuel : ℕ) (result : List Bytes) (rest : Bytes)
    → length rest < fuel
    → Parses (certificate_loop fuel result) rest (Entries result)
unfolding certificate_loop
Parses-certificate_loop zero result rest h = absurd (omega arith)
Parses-certificate_loop (suc fuel) result rest h = Parses-empty _ (λ b e. elim (Bool-cases b) [
  | inl d ↦ rw d (Parses-pure result ([], e d, sym (append-nil result), refl, λ le. le))
  | inr d ↦ rw d (
      Parses-bind _ (Parses-u24 rest) λ t left₁ n e₁ (lt, ft). Parses-require _ λ size.
        Parses-read_bind _ λ c left₂ e₂ lc.
          Parses-bind _ (Parses-u16 left₂) λ s left₃ m e₃ (ls, fs).
            Parses-read_bind _ λ x left₄ e₄ lx. Parses-require _ λ few.
              Parses-weaken
                (Parses-certificate_loop fuel (result ++ (c ∷ [])) left₄
                  (omega (lengths, ap length e₁, ap length e₂, ap length e₃, ap length e₄)))
                λ bs left chain (new, l, ec, el, le).
                  let (low, high) = size_fits n size in
                  (
                    c ∷ new,
                    l,
                    ec ∙ append_assoc result (c ∷ []) new,
                    (
                      t ++ c,
                      s ++ x,
                      bs,
                      ap (λ (y : Bytes). t ++ y)
                            (ap (λ (y : Bytes). c ++ y) (sym (append_assoc s x bs)))
                          ∙ sym (append_assoc t c ((s ++ x) ++ bs)),
                      (t, refl, (lt, lc ∙ ft)),
                      (x, (s, refl, (ls, lx ∙ fs))),
                      omega (arith, lc),
                      omega (arith, lc),
                      el,
                    ),
                    λ _. le (not_ltb→le _ _ few),
                  ))
])

Parses-certificate_body :
    (rest : Bytes)
    → Parses certificate_body rest (λ bs left chain. (left ≡ []) × CertificateBody chain bs)
unfolding certificate_body
Parses-certificate_body rest = Parses-bind _ (Parses-u8 rest) λ z left₁ n e₁ ez.
    Parses-read_bind _ λ context left₂ e₂ lx. Parses-require _ λ none.
      Parses-bind _ (Parses-u24 left₂) λ t left₃ m e₃ (lt, ft). Parses-remaining _ (
        Parses-require _ λ whole. Parses-read_bind _ λ v left₄ e₄ lv.
          Parses-lift_last
            (Ensures-run (Parses-certificate_loop (suc (length v)) [] v (omega arith)))
            λ chain (bs, left, e, (new, l, ec, el, le)).
              let all : bs ≡ v = taken_whole e l in
              let list : CertificateList chain v =
                subst (λ (x : List Bytes). CertificateList x v) (sym ec)
                  (subst (λ (x : Bytes). CertificateList new x) all el) in
              let empty : context ≡ [] = is_empty→eq context none in
              let (some, same) = list_size_fits m (length left₃) whole in
              let zero_size : n ≡ 0 = omega (arith, lx, ap length empty) in
              (
                eq-nil_of_length left₄ (omega (lengths, same, ap length e₄)),
                (
                  v,
                  t ++ v,
                  rw (ez, empty, zero_size) (ap (λ (x : Bytes). 0 ∷ (t ++ x)) (append-nil v)),
                  (t, refl, (lt, lv ∙ ft)),
                  omega (arith, lv, some),
                  list,
                  le (omega arith),
                ),
              ))

ReadsEnd-certificate_loop :
    (fuel : ℕ) (result new : List Bytes) (bs : Bytes)
    → length bs < fuel
    → CertificateList new bs
    → length (result ++ new) ≤ max_certificates
    → ReadsEnd (certificate_loop fuel result) bs (result ++ new)
unfolding certificate_loop
ReadsEnd-certificate_loop zero result new bs h el le = absurd (omega arith)
ReadsEnd-certificate_loop (suc fuel) result [] bs h el le =
    rw (el, append-nil result) (ReadsEnd-empty _ (ReadsEnd-pure result))
ReadsEnd-certificate_loop (suc fuel) result (c ∷ new) bs h
      (entry, properties, more, e, (t, et, (lt, ft)), (x, (s, es, (ls, fs))), low, high, el) le =
    ReadsEnd-cast layout (sym (append_assoc result (c ∷ []) new)) (
      ReadsEnd-not_empty _ (omega (lengths, lt)) (
        ReadsEnd-bind _ (Reads-u24_of (length c) t lt ft) (
          ReadsEnd-require _ (fits_size (length c) low high) (
            ReadsEnd-bind _ (Reads-read_of (length c) c refl) (
              ReadsEnd-bind _ (Reads-u16_of (length x) s ls fs) (
                ReadsEnd-bind _ (Reads-read_of (length x) x refl) (
                  ReadsEnd-require _
                    (le→not_ltb max_certificates (length (result ++ (c ∷ []))) (
                      omega (
                        arith,
                        le,
                        length-append_chain result (c ∷ []),
                        length-append_chain result (c ∷ new),
                      )))
                    (ReadsEnd-certificate_loop fuel (result ++ (c ∷ [])) new more
                      (omega (lengths, ap length layout)) el
                      (rw (append_assoc result (c ∷ []) new) le)))))))))
  where
    layout : bs ≡ t ++ (c ++ (s ++ (x ++ more)))
    layout = rw (e, et, es, append_assoc t c ((s ++ x) ++ more), append_assoc s x more) refl

list_size_ok : (n m : ℕ) → 1 ≤ n → n ≡ m → not (n == 0 || n != m) ≡ true
list_size_ok n m h e = ground arith

ReadsEnd-certificate_body :
    (chain : List Bytes) (body : Bytes)
    → CertificateBody chain body
    → ReadsEnd certificate_body body chain
unfolding certificate_body
ReadsEnd-certificate_body chain body (list, framed, e, (t, et, (lt, ft)), some, el, le) =
    ReadsEnd-cast layout refl (
      ReadsEnd-bind _ (Reads-u8 0) (
        ReadsEnd-bind _ (Reads-read_of 0 [] refl) (
          ReadsEnd-require _ refl (
            ReadsEnd-bind _ (Reads-u24_of (length list) t lt ft) (
              ReadsEnd-remaining _ (
                ReadsEnd-require _
                  (list_size_ok (length list) (length (list ++ [])) some
                    (sym (ap length (append-nil list))))
                  (ReadsEnd-bind _ (Reads-read_of (length list) list refl) (
                    ReadsEnd-lift_last (
                      run-ReadsEnd (
                        ReadsEnd-certificate_loop (suc (length list)) [] chain list (omega arith) el
                          le))))))))))
  where
    layout : body ≡ (0 ∷ []) ++ ([] ++ (t ++ (list ++ [])))
    layout = rw (e, et, append-nil list) refl

-- The body of Certificate is accepted with a chain exactly if it is an empty request context and
-- the framed list of that chain, of at most eight certificates.
pub parse_certificate_iff :
    (body : Bytes) (chain : List Bytes)
    → (parse_certificate body ≡ ok chain) ↔ CertificateBody chain body
unfolding parse_certificate
parse_certificate_iff body chain = (
  λ h.
      let (bs, left, e, (l, q)) = Ensures-ok (Ensures-run (Parses-certificate_body body)) h in
      subst (λ (y : Bytes). CertificateBody chain y) (taken_whole e l) q,
  λ h. run-ReadsEnd (ReadsEnd-certificate_body chain body h),
)

pub parse_certificate-Ensures :
    (body : Bytes)
    → Ensures proof_format (λ chain. CertificateBody chain body) (parse_certificate body)
unfolding parse_certificate
parse_certificate-Ensures body =
    Ensures-weaken
      (λ chain (bs, left, e, (l, q)).
        subst (λ (y : Bytes). CertificateBody chain y) (taken_whole e l) q)
      (Ensures-run (Parses-certificate_body body))
