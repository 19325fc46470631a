-- ===== src/Protocol/Format.antt =====
-- The TLS presentation of numbers, vectors, extension lists and handshake messages, stated without
-- the parser: big-endian numbers of a fixed width, and contents behind their length.
use connectcoin_p2c_tools.Common.{
  ℕ, ◌≤◌, ◌≡◌, true, false, elem, ◌⊎◌, ◌≢◌, be_bytes, List, [], ◌∷◌, ◌++◌, length, Bytes, from_be,
}
use connectcoin_p2c_tools.Common.Outcome.{ok}
use connectcoin_p2c_tools.Protocol.Constants.{
  max_certificate_size, max_certificates, group_x25519, group_secp256r1, ext_server_name,
  ext_supported_versions, ext_signature_algorithms, ext_key_share, ext_early_data, tls_1_2, tls_1_3,
  hello_retry_request_random,
}
use connectcoin_p2c_tools.Domain.{is_ascii}
use connectcoin_p2c_tools.Protocol.Extensions.{Extensions, has_key, has_any, index}
use connectcoin_p2c_tools.Protocol.ClientHello.{ClientState, first_is, forbidden}
use connectcoin_p2c_tools.Protocol.ServerHello.{sha256_suites, keys_are}
use connectcoin_p2c_tools.Protocol.Certificate.{verify_schemes}

-- `bs` is `n` in `width` bytes.
abbrev pub Number : ℕ → ℕ → Bytes → Type 0
Number width n bs = (length bs ≡ width) × (n ≡ from_be bs)

-- `bs` is `content` behind its length in `width` bytes.
abbrev pub Vector : ℕ → Bytes → Bytes → Type 0
Vector width content bs =
    (header : Bytes) × (bs ≡ header ++ content) × Number width (length content) header

abbrev pub ExtensionList : Extensions → Bytes → Type 0
ExtensionList [] bs = bs ≡ []
ExtensionList ((k, v) ∷ d) bs =
    (kind value more : Bytes) × (bs ≡ kind ++ (value ++ more))
    × Number 2 k kind
    × Vector 2 v value
    × ExtensionList d more

-- No key of the second list stands in the first, or twice in the second.
abbrev pub Fresh : Extensions → Extensions → Type 0
Fresh before [] = Unit {0}
Fresh before ((k, v) ∷ d) = (has_key k before ≡ false) × Fresh (before ++ ((k, v) ∷ [])) d

-- An extension block: a two-byte length, then extensions of different types.
abbrev pub ExtensionBlock : Extensions → Bytes → Type 0
ExtensionBlock d bs = (list : Bytes) × Vector 2 list bs × ExtensionList d list × Fresh [] d

-- A handshake message of a type: the type, the length of the body in three bytes, the body.
abbrev pub Handshake : ℕ → Bytes → Bytes → Type 0
Handshake kind body bs = (framed : Bytes) × (bs ≡ kind ∷ framed) × Vector 3 body framed

-- Certificate entries: a certificate of 1 to 16384 bytes, and the extensions of the entry.
abbrev pub CertificateList : List Bytes → Bytes → Type 0
CertificateList [] bs = bs ≡ []
CertificateList (c ∷ cs) bs =
    (entry properties more : Bytes) × (bs ≡ entry ++ (properties ++ more))
    × Vector 3 c entry
    × ((content : Bytes) × Vector 2 content properties)
    × (1 ≤ length c)
    × (length c ≤ max_certificate_size)
    × CertificateList cs more

-- The body of Certificate: an empty request context, and the framed list of at most eight entries.
abbrev pub CertificateBody : List Bytes → Bytes → Type 0
CertificateBody chain body =
    (list framed : Bytes) × (body ≡ 0 ∷ framed)
    × Vector 3 list framed
    × (1 ≤ length list)
    × CertificateList chain list
    × (length chain ≤ max_certificates)

-- Two-byte numbers, one after the other.
abbrev pub NumberList : List ℕ → Bytes → Type 0
NumberList [] bs = bs ≡ []
NumberList (n ∷ ns) bs =
    (first more : Bytes) × (bs ≡ first ++ more) × Number 2 n first × NumberList ns more

-- A server_name extension with one DNS name.
abbrev pub ServerName : List ℕ → Bytes → Type 0
ServerName domain bs =
    (list framed : Bytes) × Vector 2 list bs × (list ≡ 0 ∷ framed) × Vector 2 domain framed

-- A non-empty list of two-byte numbers behind its length.
abbrev pub OfferList : ℕ → List ℕ → Bytes → Type 0
OfferList width ns bs =
    (content : Bytes) × Vector width content bs × NumberList ns content × (2 ≤ length content)

-- An X25519 share has 32 bytes, and an uncompressed P-256 point 65 with 4 in front.
abbrev pub KeyShare : ℕ → Bytes → Type 0
KeyShare group exchange =
    ((group ≡ group_x25519) × (length exchange ≡ 32))
    ⊎ ((group ≡ group_secp256r1) × (length exchange ≡ 65) × (first_is 4 exchange ≡ true))

-- Shares of different groups, none of which is one of `before`.
abbrev pub ShareList : List ℕ → List ℕ → Bytes → Type 0
ShareList before [] bs = bs ≡ []
ShareList before (g ∷ gs) bs =
    (kind value exchange more : Bytes) × (bs ≡ kind ++ (value ++ more))
    × Number 2 g kind
    × Vector 2 exchange value
    × KeyShare g exchange
    × (elem g before ≡ false)
    × ShareList (before ++ (g ∷ [])) gs more

abbrev pub ShareBlock : List ℕ → Bytes → Type 0
ShareBlock groups bs =
    (content : Bytes) × Vector 2 content bs × (1 ≤ length content) × ShareList [] groups content

-- What the extensions of ClientHello must be, for a domain and a resulting state.
pub record ClientOffers (found : Extensions) (domain : List ℕ) (client : ClientState) : Type 0 where
  pub server_name : Bytes
  pub versions : Bytes
  pub signatures : Bytes
  pub shares : Bytes
  pub offered : List ℕ
  pub server_name_at : index found ext_server_name ≡ ok server_name
  pub versions_at : index found ext_supported_versions ≡ ok versions
  pub signatures_at : index found ext_signature_algorithms ≡ ok signatures
  pub shares_at : index found ext_key_share ≡ ok shares
  pub none_forbidden : has_any forbidden found ≡ false
  pub names_domain : ServerName domain server_name
  pub domain_ascii : is_ascii domain ≡ true
  pub offers_versions : OfferList 1 offered versions
  pub offers_tls_1_3 : elem tls_1_3 offered ≡ true
  pub offers_signatures : OfferList 2 client.signature_algorithms signatures
  pub offers_shares : ShareBlock client.key_share_groups shares

-- The body of ClientHello, for a domain, a challenge and a resulting state.
pub record ClientHelloBody (domain : List ℕ) (challenge : Bytes) (client : ClientState)
    (body : Bytes) : Type 0 where
  pub version : Bytes
  pub ciphers : Bytes
  pub block : Bytes
  pub found : Extensions
  pub layout :
      body
      ≡ version
        ++ (challenge
            ++ ((length client.legacy_session_id ∷ client.legacy_session_id)
                ++ (ciphers ++ (1 ∷ 0 ∷ block))))
  pub is_tls_1_2 : Number 2 tls_1_2 version
  pub challenge_size : length challenge ≡ 32
  pub session_size : length client.legacy_session_id ≤ 32
  pub offers_ciphers : OfferList 2 client.cipher_suites ciphers
  pub extension_block : ExtensionBlock found block
  pub offers : ClientOffers found domain client

-- The share that ServerHello selects from those that the client sent.
pub record ServerShare (client : ClientState) (group : ℕ) (exchange share : Bytes) : Type 0 where
  pub kind : Bytes
  pub value : Bytes
  pub layout : share ≡ kind ++ value
  pub is_group : Number 2 group kind
  pub is_exchange : Vector 2 exchange value
  pub is_share : KeyShare group exchange
  pub is_offered : elem group client.key_share_groups ≡ true

-- What the extensions of ServerHello must be, as an answer to a client.
pub record ServerSelection (client : ClientState) (found : Extensions) : Type 0 where
  pub share : Bytes
  pub exchange : Bytes
  pub group : ℕ
  pub only_two : keys_are (ext_supported_versions ∷ ext_key_share ∷ []) found ≡ true
  pub selects_tls_1_3 : index found ext_supported_versions ≡ ok (be_bytes 2 tls_1_3)
  pub share_at : index found ext_key_share ≡ ok share
  pub selects_share : ServerShare client group exchange share

-- The body of ServerHello, as an answer to a client.
pub record ServerHelloBody (client : ClientState) (body : Bytes) : Type 0 where
  pub version : Bytes
  pub random : Bytes
  pub suite : Bytes
  pub block : Bytes
  pub cipher_suite : ℕ
  pub found : Extensions
  pub layout :
      body
      ≡ version
        ++ (random
            ++ ((length client.legacy_session_id ∷ client.legacy_session_id)
                ++ (suite ++ (0 ∷ block))))
  pub is_tls_1_2 : Number 2 tls_1_2 version
  pub random_size : length random ≡ 32
  pub no_retry : random ≢ hello_retry_request_random
  pub session_size : length client.legacy_session_id ≤ 32
  pub is_suite : Number 2 cipher_suite suite
  pub suite_supported : elem cipher_suite sha256_suites ≡ true
  pub suite_offered : elem cipher_suite client.cipher_suites ≡ true
  pub extension_block : ExtensionBlock found block
  pub selection : ServerSelection client found

-- The body of EncryptedExtensions: no early data.
abbrev pub EncryptedBody : Bytes → Type 0
EncryptedBody body =
    (found : Extensions) × ExtensionBlock found body × (has_key ext_early_data found ≡ false)

-- The body of CertificateVerify: an offered scheme of the three, and a signature that is not empty.
abbrev pub VerifyBody : ClientState → ℕ → Bytes → Bytes → Type 0
VerifyBody client scheme signature body =
    (kind value : Bytes) × (body ≡ kind ++ value)
    × Number 2 scheme kind
    × Vector 2 signature value
    × (1 ≤ length signature)
    × (elem scheme verify_schemes ≡ true)
    × (elem scheme client.signature_algorithms ≡ true)
