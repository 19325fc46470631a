-- ===== src/Protocol/ServerHello/Sound.antt =====
-- ServerHello and EncryptedExtensions of src/connectcoin_p2c_tools/protocol.py and their
-- formats.
use connectcoin_p2c_tools.Common.{
  ℕ, ◌≡◌, ◌≢◌, ◌↔◌, inl, inr, refl, sym, ap, ◌∙◌, subst, true, not, [], ◌∷◌, ◌++◌, append-nil,
  arith, length, Bytes, Bool-cases, ==→eq, not_ltb→le, le→not_ltb, not-eq_true, taken_whole,
  be_bytes, bytes_eq, bytes_eq_refl, bytes_eq→eq,
}
use connectcoin_p2c_tools.Common.Outcome.{ok, proof_format, Ensures, Ensures-ok, Ensures-weaken}
use connectcoin_p2c_tools.Protocol.Reader.Laws.{
  ReadsEnd, ReadsEnd-bind, ReadsEnd-then, ReadsEnd-require, ReadsEnd-empty, ReadsEnd-pure,
  ReadsEnd-lift, run-ReadsEnd, Parses,
}
use connectcoin_p2c_tools.Protocol.Reader.Laws.Numbers.{
  ReadsEnd-cast, ReadsEnd-lift_last, Reads-u8, Reads-u16_of, Reads-read_of,
}
use connectcoin_p2c_tools.Protocol.Reader.Laws.Parsing.{
  Parses-bind, Parses-weaken, Parses-require, Parses-pure, Parses-empty, Parses-lift,
  Parses-read_bind, Parses-lift_last, Parses-u8, Parses-u16, Ensures-run,
}
use connectcoin_p2c_tools.Protocol.Format.{
  ServerShare, ServerSelection, ServerHelloBody, EncryptedBody,
}
use connectcoin_p2c_tools.Protocol.Constants.{
  tls_1_2, tls_1_3, ext_supported_versions, ext_key_share, hello_retry_request_random,
}
use connectcoin_p2c_tools.Protocol.Extensions.{Extensions, has_key, has_all}
use connectcoin_p2c_tools.Protocol.Extensions.Sound.{Parses-extensions, ReadsEnd-extensions}
use connectcoin_p2c_tools.Protocol.ClientHello.{ClientState}
use connectcoin_p2c_tools.Protocol.ClientHello.Whole.{index-Ensures}
use connectcoin_p2c_tools.Protocol.ServerHello.{
  keys_are, server_selection, server_body, parse_server_hello, encrypted_body,
  parse_encrypted_extensions,
}
use connectcoin_p2c_tools.Protocol.ServerHello.Share.{
  Parses-server_key_share, ReadsEnd-server_key_share,
}

pub bytes_ne : (xs ys : Bytes) → not (bytes_eq xs ys) ≡ true → xs ≢ ys
bytes_ne xs ys h e = let t : bytes_eq xs ys ≡ true = rw e (bytes_eq_refl ys) in ground arith

ne_bytes : (xs ys : Bytes) → xs ≢ ys → not (bytes_eq xs ys) ≡ true
ne_bytes xs ys h = elim (Bool-cases (bytes_eq xs ys)) [
  | inl e ↦ absurd (h (bytes_eq→eq xs ys e))
  | inr e ↦ rw e refl
]

two_keys :
    (d : Extensions)
    → keys_are (ext_supported_versions ∷ ext_key_share ∷ []) d ≡ true
    → (has_key ext_supported_versions d ≡ true) × (has_key ext_key_share d ≡ true)
unfolding has_all
two_keys d h = ground arith

Parses-server_selection :
    (client : ClientState) (found : Extensions) (rest : Bytes)
    → Parses
        (server_selection client found)
        rest
        (λ bs left u. (bs ≡ []) × (left ≡ rest) × ServerSelection client found)
unfolding server_selection
Parses-server_selection client found rest = Parses-require _ λ keys.
    Parses-lift _ (index-Ensures found ext_supported_versions (two_keys found keys).0) λ chosen at0.
      Parses-require _ λ is13.
        Parses-lift _ (index-Ensures found ext_key_share (two_keys found keys).1) λ share at1.
          Parses-lift_last (Ensures-run (Parses-server_key_share client share))
            λ u (bs, left, e, (l, (group, exchange, q))). (
              refl,
              refl,
              record {
                share = share;
                exchange = exchange;
                group = group;
                only_two = keys;
                selects_tls_1_3 =
                    at0 ∙ ap (λ (x : Bytes). ok x) (bytes_eq→eq chosen (be_bytes 2 tls_1_3) is13);
                share_at = at1;
                selects_share =
                    subst (λ (x : Bytes). ServerShare client group exchange x) (taken_whole e l) q;
              },
            )

Parses-server_body :
    (client : ClientState) (rest : Bytes)
    → Parses (server_body client) rest (λ bs left u. (left ≡ []) × ServerHelloBody client bs)
unfolding server_body
Parses-server_body client rest = Parses-bind _ (Parses-u16 rest) λ t left₁ v e₁ (lt, ft).
    Parses-require _ λ is12. Parses-read_bind _ λ random left₂ e₂ lr. Parses-require _ λ no_retry.
      Parses-bind _ (Parses-u8 left₂) λ s left₃ n e₃ es. Parses-require _ λ small.
        Parses-read_bind _ λ session left₄ e₄ ls. Parses-require _ λ same.
          Parses-bind _ (Parses-u16 left₄) λ c left₅ suite e₅ (lc, fc).
            Parses-require _ λ supported. Parses-require _ λ offered.
              Parses-bind _ (Parses-u8 left₅) λ z left₆ compression e₆ ez. Parses-require _ λ null.
                Parses-bind _ (Parses-extensions left₆) λ block left₇ found e₇ (none, eb).
                  Parses-empty _ λ done end. Parses-require _ λ is_done.
                    Parses-weaken (Parses-server_selection client found left₇)
                      λ bs left u (eq, el, selection).
                        let session_is : session ≡ client.legacy_session_id =
                          bytes_eq→eq session client.legacy_session_id same in
                        (
                          el ∙ none,
                          record {
                            version = t;
                            random = random;
                            suite = c;
                            block = block;
                            cipher_suite = suite;
                            found = found;
                            layout =
                                server_layout t random c block session es ls
                                  (ez ∙ ap (λ (x : ℕ). x ∷ []) (==→eq _ _ null)) session_is eq;
                            is_tls_1_2 = (lt, sym (==→eq _ _ is12) ∙ ft);
                            random_size = lr;
                            no_retry = bytes_ne random hello_retry_request_random no_retry;
                            session_size =
                                omega (arith, ap length session_is, ls, not_ltb→le 32 n small);
                            is_suite = (lc, fc);
                            suite_supported = supported;
                            suite_offered = offered;
                            extension_block = eb;
                            selection = selection;
                          },
                        )
  where
    server_layout :
        (t random c block session : Bytes) {s z own bs : Bytes} {n : ℕ}
        → s ≡ n ∷ []
        → length session ≡ n
        → z ≡ 0 ∷ []
        → session ≡ own
        → bs ≡ []
        → t ++ (random ++ (s ++ (session ++ (c ++ (z ++ (block ++ bs))))))
          ≡ t ++ (random ++ ((length own ∷ own) ++ (c ++ (0 ∷ block))))
    server_layout t random c block session es ls ez eo eb =
        rw (es, ez, eb, ← eo, ls, append-nil block) refl

ReadsEnd-server_selection :
    (client : ClientState) (found : Extensions)
    → ServerSelection client found
    → ReadsEnd (server_selection client found) [] tt
unfolding server_selection
ReadsEnd-server_selection client found h = ReadsEnd-require _ h.only_two (
    ReadsEnd-lift _ h.selects_tls_1_3 (
      ReadsEnd-require _ (bytes_eq_refl (be_bytes 2 tls_1_3)) (
        ReadsEnd-lift _ h.share_at
          (ReadsEnd-lift_last (run-ReadsEnd (ReadsEnd-server_key_share client h.selects_share))))))

ReadsEnd-server_body :
    (client : ClientState) (body : Bytes)
    → ServerHelloBody client body
    → ReadsEnd (server_body client) body tt
unfolding server_body
ReadsEnd-server_body client body b = ReadsEnd-cast b.layout refl (
    ReadsEnd-bind _ (Reads-u16_of tls_1_2 b.version b.is_tls_1_2.0 b.is_tls_1_2.1) (
      ReadsEnd-require _ refl (
        ReadsEnd-bind _ (Reads-read_of 32 b.random b.random_size) (
          ReadsEnd-require _ (ne_bytes b.random hello_retry_request_random b.no_retry) (
            ReadsEnd-bind _ (Reads-u8 (length client.legacy_session_id)) (
              ReadsEnd-require _ (le→not_ltb 32 (length client.legacy_session_id) b.session_size) (
                ReadsEnd-bind _
                  (Reads-read_of (length client.legacy_session_id) client.legacy_session_id refl)
                  (ReadsEnd-require _ (bytes_eq_refl client.legacy_session_id) (
                    ReadsEnd-bind _ (Reads-u16_of b.cipher_suite b.suite b.is_suite.0 b.is_suite.1)
                      (ReadsEnd-require _ b.suite_supported (
                        ReadsEnd-require _ b.suite_offered (
                          ReadsEnd-bind _ (Reads-u8 0) (
                            ReadsEnd-require _ refl (
                              ReadsEnd-then _
                                (ReadsEnd-extensions b.found b.block b.extension_block)
                                (ReadsEnd-empty _ (
                                  ReadsEnd-require true refl (
                                    ReadsEnd-server_selection client b.found
                                      b.selection)))))))))))))))))

-- The parser ends, raises nothing but ProofFormatError, and what it accepts has the documented form.
pub parse_server_hello-Ensures :
    (body : Bytes) (client : ClientState)
    → Ensures proof_format (λ u. ServerHelloBody client body) (parse_server_hello body client)
unfolding parse_server_hello
parse_server_hello-Ensures body client =
    Ensures-weaken
      (λ u (bs, left, e, (l, q)).
        subst (λ (x : Bytes). ServerHelloBody client x) (taken_whole e l) q)
      (Ensures-run (Parses-server_body client body))

-- ServerHello is accepted exactly if it has the documented form as an answer to the client.
pub parse_server_hello_iff :
    (body : Bytes) (client : ClientState)
    → (parse_server_hello body client ≡ ok tt) ↔ ServerHelloBody client body
unfolding parse_server_hello
parse_server_hello_iff body client = (
  λ h. Ensures-ok (parse_server_hello-Ensures body client) h,
  λ h. run-ReadsEnd (ReadsEnd-server_body client body h),
)

pub parse_encrypted_extensions-Ensures :
    (body : Bytes)
    → Ensures proof_format (λ u. EncryptedBody body) (parse_encrypted_extensions body)
unfolding parse_encrypted_extensions encrypted_body
parse_encrypted_extensions-Ensures body =
    Ensures-weaken
      (λ u (bs, left, e, (l, q)). subst (λ (x : Bytes). EncryptedBody x) (taken_whole e l) q)
      (Ensures-run {Q = λ bs left u. (left ≡ []) × EncryptedBody bs} (
        Parses-bind _ (Parses-extensions body) λ block left₁ found e₁ (none, eb).
          Parses-empty _ λ done end. Parses-require _ λ is_done. Parses-require _ λ no_early.
            Parses-pure tt (none, (found, rw (append-nil block) eb, not-eq_true _ no_early))))

pub parse_encrypted_extensions-ok :
    (body : Bytes) → EncryptedBody body → parse_encrypted_extensions body ≡ ok tt
unfolding parse_encrypted_extensions encrypted_body
parse_encrypted_extensions-ok body (found, eb, no_early) = run-ReadsEnd (
    ReadsEnd-then _ (ReadsEnd-extensions found body eb) (
      ReadsEnd-empty _
        (ReadsEnd-require true refl (ReadsEnd-require _ (rw no_early refl) (ReadsEnd-pure tt)))))
