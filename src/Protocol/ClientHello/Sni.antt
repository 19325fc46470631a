-- ===== src/Protocol/ClientHello/Sni.antt =====
-- The server name of ClientHello (src/connectcoin_p2c_tools/protocol.py, `_parse_sni`).
use connectcoin_p2c_tools.Common.{
  ℕ, ◌≡◌, refl, sym, ap, ◌∙◌, subst, Bool, true, ◌||◌, not, List, [], ◌∷◌, ◌++◌, append-nil, arith,
  ◌==◌, ◌!=◌, length, Bytes, ==→eq, eq→==, taken_whole, bytes_eq_refl, bytes_eq→eq, from_be,
}
use connectcoin_p2c_tools.Common.Outcome.{ok, proof_format, Ensures, Ensures-weaken, holds}
use connectcoin_p2c_tools.Protocol.Reader.Laws.{
  ReadsEnd-bind, ReadsEnd-require, ReadsEnd-remaining, ReadsEnd-empty, ReadsEnd-pure, ReadsEnd-lift,
  run-ReadsEnd,
}
use connectcoin_p2c_tools.Protocol.Reader.Laws.Numbers.{
  ReadsEnd-cast, Reads-u8, Reads-u16_of, Reads-read_of,
}
use connectcoin_p2c_tools.Protocol.Reader.Laws.Parsing.{
  Parses-bind, Parses-require, Parses-pure, Parses-remaining, Parses-empty, Parses-lift,
  Parses-read_bind, lengths, Parses-u8, Parses-u16, Ensures-run,
}
use connectcoin_p2c_tools.Protocol.Format.{ServerName}
use connectcoin_p2c_tools.Domain.{is_ascii}
use connectcoin_p2c_tools.Protocol.ClientHello.{encode_ascii, sni_body, parse_sni}

sni_test : (n : ℕ) (b : Bool) → not (n != 0 || not b) ≡ true → (n ≡ 0) × (b ≡ true)
sni_test n b h = ground arith

encode_ascii-Ensures :
    (domain : List ℕ)
    → is_ascii domain ≡ true
    → Ensures proof_format (λ b. b ≡ domain) (encode_ascii domain)
encode_ascii-Ensures domain h = rw h (holds refl)

sni_form :
    (domain : List ℕ) (t s name : Bytes) {k : Bytes} {n m kind : ℕ}
    → k ≡ kind ∷ []
    → kind ≡ 0
    → length t ≡ 2
    → n ≡ from_be t
    → length s ≡ 2
    → m ≡ from_be s
    → length name ≡ m
    → name ≡ domain
    → n ≡ length (0 ∷ (s ++ name))
    → ServerName domain (t ++ (k ++ (s ++ (name ++ []))))
sni_form domain t s name ek zero_kind lt ft ls fs ln is_domain size = (
  0 ∷ (s ++ name),
  s ++ name,
  (t, rw (ek, zero_kind, append-nil name) refl, (lt, sym size ∙ ft)),
  refl,
  (s, ap (λ (x : Bytes). s ++ x) is_domain, (ls, ap length (sym is_domain) ∙ ln ∙ fs)),
)

-- On a domain in ASCII, which `parse_proof` has made sure of.
pub parse_sni-Ensures :
    (bs : Bytes) (domain : List ℕ)
    → is_ascii domain ≡ true
    → Ensures proof_format (λ u. ServerName domain bs) (parse_sni bs domain)
unfolding parse_sni sni_body
parse_sni-Ensures bs domain ascii =
    Ensures-weaken
      (λ ns (used, left, e, (l, q)). subst (λ (x : Bytes). ServerName domain x) (taken_whole e l) q)
      (Ensures-run {Q = λ used left u. (left ≡ []) × ServerName domain used} (
        Parses-bind _ (Parses-u16 bs) λ t left₁ n e₁ (lt, ft). Parses-remaining _ (
          Parses-require _ λ whole. Parses-bind _ (Parses-u8 left₁) λ k left₂ kind e₂ ek.
            Parses-bind _ (Parses-u16 left₂) λ s left₃ m e₃ (ls, fs).
              Parses-read_bind _ λ name left₄ e₄ ln. Parses-empty _ λ done end.
                Parses-require _ λ test.
                  Parses-lift _ (encode_ascii-Ensures domain ascii) λ expected same.
                    Parses-require _ λ match.
                      let (zero_kind, is_done) = sni_test kind done test in
                      let at_end : left₄ ≡ [] = end is_done in
                      let is_domain : name ≡ domain = bytes_eq→eq name expected match ∙ same in
                      let size : n ≡ length (0 ∷ (s ++ name)) = omega (
                        lengths,
                        ==→eq _ _ whole,
                        ap length e₂,
                        ap length e₃,
                        ap length e₄,
                        ap length at_end,
                        ap length ek,
                      ) in
                      Parses-pure tt (
                        at_end,
                        sni_form domain t s name ek zero_kind lt ft ls fs ln is_domain size,
                      ))))

pub parse_sni-ok :
    (bs : Bytes) (domain : List ℕ)
    → is_ascii domain ≡ true
    → ServerName domain bs
    → parse_sni bs domain ≡ ok tt
unfolding parse_sni sni_body
parse_sni-ok bs domain ascii (list, framed, (t, et, (lt, ft)), el, (s, es, (ls, fs))) =
    run-ReadsEnd (
      ReadsEnd-cast layout refl (
        ReadsEnd-bind _ (Reads-u16_of (length list) t lt ft) (
          ReadsEnd-remaining _ (
            ReadsEnd-require (length list == length ((0 ∷ []) ++ (s ++ (domain ++ []))))
              (eq→== _ _ (ap length same_list))
              (ReadsEnd-bind _ (Reads-u8 0) (
                ReadsEnd-bind _ (Reads-u16_of (length domain) s ls fs) (
                  ReadsEnd-bind _ (Reads-read_of (length domain) domain refl) (
                    ReadsEnd-empty _ (
                      ReadsEnd-require true refl (
                        ReadsEnd-lift _ (rw ascii refl)
                          (ReadsEnd-require _ (bytes_eq_refl domain) (ReadsEnd-pure tt))))))))))))
  where
    layout : bs ≡ t ++ ((0 ∷ []) ++ (s ++ (domain ++ [])))
    layout = rw (et, el, es, append-nil domain) refl

    same_list : list ≡ (0 ∷ []) ++ (s ++ (domain ++ []))
    same_list = rw (el, es, append-nil domain) refl
