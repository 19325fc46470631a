-- ===== src/Protocol/ClientHello/Sound.antt =====
-- ClientHello as a whole: `_parse_client_hello` of src/connectcoin_p2c_tools/protocol.py and its
-- format.
use connectcoin_p2c_tools.Common.{
  ℕ, ◌≡◌, ◌↔◌, refl, sym, ap, ◌∙◌, subst, Bool, true, ◌||◌, not, List, [], ◌∷◌, ◌++◌, append_assoc,
  append-nil, arith, ◌!=◌, ltb, ◌%◌, from_be, length, Bytes, ==→eq, not_ltb→le, le→not_ltb,
  taken_whole, bytes_eq_refl, bytes_eq→eq,
}
use connectcoin_p2c_tools.Common.Outcome.{ok, proof_format, Ensures, Ensures-ok, Ensures-weaken}
use connectcoin_p2c_tools.Protocol.Reader.Laws.{
  ReadsEnd, ReadsEnd-bind, ReadsEnd-then, ReadsEnd-require, ReadsEnd-empty, run-ReadsEnd, Parses,
}
use connectcoin_p2c_tools.Protocol.Reader.Laws.Numbers.{
  ReadsEnd-cast, Reads-u8, Reads-u16_of, Reads-read_of,
}
use connectcoin_p2c_tools.Protocol.Reader.Laws.Parsing.{
  Parses-bind, Parses-require, Parses-empty, Parses-read_bind, Parses-weaken, Parses-u8, Parses-u16,
  Ensures-run,
}
use connectcoin_p2c_tools.Protocol.Format.{NumberList, OfferList, ClientHelloBody}
use connectcoin_p2c_tools.Domain.{is_ascii}
use connectcoin_p2c_tools.Protocol.Constants.{tls_1_2}
use connectcoin_p2c_tools.Protocol.Extensions.Sound.{Parses-extensions, ReadsEnd-extensions}
use connectcoin_p2c_tools.Protocol.ClientHello.{
  ClientState, u16_pairs, client_body, parse_client_hello,
}
use connectcoin_p2c_tools.Protocol.ClientHello.Offers.{
  even_list, even_pairs, pairs_of_list, size_ok, ok_size,
}
use connectcoin_p2c_tools.Protocol.ClientHello.Whole.{Parses-client_offers, ReadsEnd-client_offers}

compression_test : (n : ℕ) (b : Bool) → not (n != 1 || not b) ≡ true → (n ≡ 1) × (b ≡ true)
compression_test n b h = ground arith

client_layout :
    (t c ciphers block session : Bytes) {random challenge s z compression bs own : Bytes} {n : ℕ}
    → random ≡ challenge
    → s ≡ n ∷ []
    → length session ≡ n
    → z ≡ 1 ∷ []
    → compression ≡ 0 ∷ []
    → bs ≡ []
    → own ≡ session
    → t ++ (random ++ (s ++ (session ++ (c ++ (ciphers ++ (z ++ (compression ++ (block ++ bs))))))))
      ≡ t ++ (challenge ++ ((length own ∷ own) ++ ((c ++ ciphers) ++ (1 ∷ 0 ∷ block))))
client_layout t c ciphers block session er es ls ez ec eb eo =
    rw (er, es, ez, ec, eb, eo, ls, append-nil block, append_assoc c ciphers (1 ∷ 0 ∷ block)) refl

cipher_offers :
    (c ciphers : Bytes) (m : ℕ) {suites : List ℕ}
    → length c ≡ 2
    → m ≡ from_be c
    → length ciphers ≡ m
    → not (ltb m 2 || m % 2 != 0) ≡ true
    → suites ≡ u16_pairs ciphers
    → OfferList 2 suites (c ++ ciphers)
cipher_offers c ciphers m lc fc lcs size ec = (
  ciphers,
  (c, refl, (lc, lcs ∙ fc)),
  subst (λ (x : List ℕ). NumberList x ciphers) (sym ec)
      (even_pairs ciphers (rw lcs (size_ok m size).1)),
  rw lcs (size_ok m size).0,
)

Parses-client_body :
    (domain : List ℕ) (challenge rest : Bytes)
    → is_ascii domain ≡ true
    → Parses
        (client_body domain challenge)
        rest
        (λ bs left client. (left ≡ []) × ClientHelloBody domain challenge client bs)
unfolding client_body
Parses-client_body domain challenge rest ascii =
    Parses-bind _ (Parses-u16 rest) λ t left₁ v e₁ (lt, ft). Parses-require _ λ is12.
      Parses-read_bind _ λ random left₂ e₂ lr. Parses-require _ λ same.
        Parses-bind _ (Parses-u8 left₂) λ s left₃ n e₃ es. Parses-require _ λ small.
          Parses-read_bind _ λ session left₄ e₄ ls.
            Parses-bind _ (Parses-u16 left₄) λ c left₅ m e₅ (lc, fc). Parses-require _ λ size.
              Parses-read_bind _ λ ciphers left₆ e₆ lcs.
                Parses-bind _ (Parses-u8 left₆) λ z left₇ one e₇ ez.
                  Parses-read_bind _ λ compression left₈ e₈ lcomp. Parses-require _ λ null.
                    Parses-bind _ (Parses-extensions left₈) λ block left₉ found e₉ (none, eb).
                      Parses-empty _ λ done end. Parses-require _ λ is_done.
                        Parses-weaken
                          (Parses-client_offers found domain (u16_pairs ciphers) session left₉
                            ascii)
                          λ bs left client (eq, el, offers, ec, esess).
                            let (is_one, is_null) = compression_test one _ null in
                            let random_is : random ≡ challenge =
                              bytes_eq→eq random challenge same in
                            (
                              el ∙ none,
                              record {
                                version = t;
                                ciphers = c ++ ciphers;
                                block = block;
                                found = found;
                                layout =
                                    client_layout t c ciphers block session random_is es ls
                                      (ez ∙ ap (λ (x : ℕ). x ∷ []) is_one)
                                      (bytes_eq→eq compression (0 ∷ []) is_null) eq esess;
                                is_tls_1_2 = (lt, sym (==→eq _ _ is12) ∙ ft);
                                challenge_size = ap length (sym random_is) ∙ lr;
                                session_size =
                                    omega (arith, ap length esess, ls, not_ltb→le 32 n small);
                                offers_ciphers = cipher_offers c ciphers m lc fc lcs size ec;
                                extension_block = eb;
                                offers = offers;
                              },
                            )

ReadsEnd-client_body :
    (domain : List ℕ) (challenge body : Bytes) (client : ClientState)
    → ClientHelloBody domain challenge client body
    → ReadsEnd (client_body domain challenge) body client
unfolding client_body
ReadsEnd-client_body domain challenge body client b =
    let (cs, (c, ec, (lc, fc)), q, some) = b.offers_ciphers in
    let ciphers : u16_pairs cs ≡ client.cipher_suites = pairs_of_list client.cipher_suites cs q in
    ReadsEnd-cast (b.layout ∙ rw (ec, append_assoc c cs (1 ∷ 0 ∷ b.block)) refl) refl (
      ReadsEnd-bind _ (Reads-u16_of tls_1_2 b.version b.is_tls_1_2.0 b.is_tls_1_2.1) (
        ReadsEnd-require _ refl (
          ReadsEnd-bind _ (Reads-read_of 32 challenge b.challenge_size) (
            ReadsEnd-require _ (bytes_eq_refl challenge) (
              ReadsEnd-bind _ (Reads-u8 (length client.legacy_session_id)) (
                ReadsEnd-require _ (le→not_ltb _ _ b.session_size) (
                  ReadsEnd-bind _
                    (Reads-read_of (length client.legacy_session_id) client.legacy_session_id refl)
                    (ReadsEnd-bind _ (Reads-u16_of (length cs) c lc fc) (
                      ReadsEnd-require _ (ok_size (length cs) some (even_list _ cs q)) (
                        ReadsEnd-bind _ (Reads-read_of (length cs) cs refl) (
                          ReadsEnd-bind _ (Reads-u8 1) (
                            ReadsEnd-bind _ (Reads-read_of 1 (0 ∷ []) refl) (
                              ReadsEnd-require _ refl (
                                ReadsEnd-then _
                                  (ReadsEnd-extensions b.found b.block b.extension_block)
                                  (ReadsEnd-empty _ (
                                    ReadsEnd-require true refl (
                                      rw ciphers (
                                        ReadsEnd-client_offers b.found domain client
                                          b.offers))))))))))))))))))

client_hello-whole :
    {domain : List ℕ} {challenge body : Bytes} {client : ClientState}
    → (bs left : Bytes) × (body ≡ bs ++ left)
      × ((left ≡ []) × ClientHelloBody domain challenge client bs)
    → ClientHelloBody domain challenge client body
client_hello-whole {domain} {challenge} {client} (bs, left, e, (l, q)) =
    subst (λ (x : Bytes). ClientHelloBody domain challenge client x) (taken_whole e l) q

-- For a domain in ASCII the parser ends, raises nothing but ProofFormatError, and what it accepts
-- has the documented form.
pub parse_client_hello-Ensures :
    (body : Bytes) (domain : List ℕ) (challenge : Bytes)
    → is_ascii domain ≡ true
    → Ensures proof_format
        (λ client. ClientHelloBody domain challenge client body)
        (parse_client_hello body domain challenge)
unfolding parse_client_hello
parse_client_hello-Ensures body domain challenge ascii =
    Ensures-weaken (λ client q. client_hello-whole q)
      (Ensures-run (Parses-client_body domain challenge body ascii))

-- For a domain in ASCII, ClientHello is accepted with a state exactly if it has the documented
-- form for that domain, challenge and state.
pub parse_client_hello_iff :
    (body : Bytes) (domain : List ℕ) (challenge : Bytes) (client : ClientState)
    → is_ascii domain ≡ true
    → (parse_client_hello body domain challenge ≡ ok client)
      ↔ ClientHelloBody domain challenge client body
unfolding parse_client_hello
parse_client_hello_iff body domain challenge client ascii = (
  λ h. Ensures-ok (parse_client_hello-Ensures body domain challenge ascii) h,
  λ h. run-ReadsEnd (ReadsEnd-client_body domain challenge body client h),
)
