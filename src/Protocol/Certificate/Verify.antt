-- ===== src/Protocol/Certificate/Verify.antt =====
-- `_parse_certificate_verify` of src/connectcoin_p2c_tools/protocol.py and its format.
use connectcoin_p2c_tools.Common.{
  ℕ, ◌≡◌, refl, ap, ◌∙◌, subst, true, [], ◌++◌, append-nil, arith, ◌!=◌, length, Bytes, !=→ne,
  ne→!=, taken_whole,
}
use connectcoin_p2c_tools.Common.Outcome.{ok, proof_format, Ensures, Ensures-weaken}
use connectcoin_p2c_tools.Protocol.Reader.Laws.{
  ReadsEnd, ReadsEnd-bind, ReadsEnd-require, ReadsEnd-empty, ReadsEnd-pure, run-ReadsEnd, Parses,
}
use connectcoin_p2c_tools.Protocol.Reader.Laws.Numbers.{ReadsEnd-cast, Reads-u16_of, Reads-read_of}
use connectcoin_p2c_tools.Protocol.Reader.Laws.Parsing.{
  Parses-bind, Parses-require, Parses-pure, Parses-empty, Parses-read_bind, Parses-u16, Ensures-run,
}
use connectcoin_p2c_tools.Protocol.Format.{VerifyBody}
use connectcoin_p2c_tools.Protocol.ClientHello.{ClientState}
use connectcoin_p2c_tools.Protocol.Certificate.{verify_body, parse_certificate_verify}

abbrev Verifies : ClientState → Bytes → ℕ × Bytes → Type 0
Verifies client bs (scheme, signature) = VerifyBody client scheme signature bs

Parses-verify_body :
    (client : ClientState) (rest : Bytes)
    → Parses (verify_body client) rest (λ bs left p. (left ≡ []) × Verifies client bs p)
unfolding verify_body
Parses-verify_body client rest = Parses-bind _ (Parses-u16 rest) λ t left₁ scheme e₁ (lt, ft).
    Parses-bind _ (Parses-u16 left₁) λ s left₂ n e₂ (ls, fs). Parses-require _ λ some.
      Parses-read_bind _ λ v left₃ e₃ lv. Parses-empty _ λ done end. Parses-require _ λ is_done.
        Parses-require _ λ known. Parses-require _ λ offered.
          Parses-pure (scheme, v)
            (
              end is_done,
              (
                t,
                s ++ v,
                ap (λ (x : Bytes). t ++ (s ++ x)) (append-nil v),
                (lt, ft),
                (s, refl, (ls, lv ∙ fs)),
                omega (arith, lv, !=→ne n 0 some),
                known,
                offered,
              ),
            )

ReadsEnd-verify_body :
    (client : ClientState) (scheme : ℕ) (signature body : Bytes)
    → VerifyBody client scheme signature body
    → ReadsEnd (verify_body client) body (scheme, signature)
unfolding verify_body
ReadsEnd-verify_body client scheme signature body
      (t, value, e, (lt, ft), (s, es, (ls, fs)), some, known, offered) =
    ReadsEnd-cast (e ∙ rw (es, append-nil signature) refl) refl (
      ReadsEnd-bind _ (Reads-u16_of scheme t lt ft) (
        ReadsEnd-bind _ (Reads-u16_of (length signature) s ls fs) (
          ReadsEnd-require (length signature != 0)
            (ne→!= (length signature) 0 (λ z. absurd (omega arith)))
            (ReadsEnd-bind _ (Reads-read_of (length signature) signature refl) (
              ReadsEnd-empty _ (
                ReadsEnd-require true refl (
                  ReadsEnd-require _ known
                    (ReadsEnd-require _ offered (ReadsEnd-pure (scheme, signature))))))))))

pub parse_certificate_verify-Ensures :
    (body : Bytes) (client : ClientState)
    → Ensures proof_format
        (λ p. VerifyBody client p.0 p.1 body)
        (parse_certificate_verify body client)
unfolding parse_certificate_verify
parse_certificate_verify-Ensures body client =
    Ensures-weaken
      (λ (scheme, signature) (bs, left, e, (l, q)).
        subst (λ (x : Bytes). VerifyBody client scheme signature x) (taken_whole e l) q)
      (Ensures-run (Parses-verify_body client body))

pub parse_certificate_verify-ok :
    (body : Bytes) (client : ClientState) (scheme : ℕ) (signature : Bytes)
    → VerifyBody client scheme signature body
    → parse_certificate_verify body client ≡ ok (scheme, signature)
unfolding parse_certificate_verify
parse_certificate_verify-ok body client scheme signature h =
    run-ReadsEnd (ReadsEnd-verify_body client scheme signature body h)
