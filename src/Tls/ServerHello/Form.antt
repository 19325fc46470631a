-- ===== src/Tls/ServerHello/Form.antt =====
-- The body that `parse_server_hello` of src/connectcoin_p2c_tools/tls13.py cuts out by positions has
-- the form that the proof parser asks for.
use connectcoin_p2c_tools.Common.{
  ℕ, zero, suc, ◌+◌, ◌-◌, ◌≤◌, ◌≡◌, ◌≢◌, inl, refl, sym, ap, ◌∙◌, true, [], ◌∷◌, ◌++◌, length,
  length-drop, drop, elem, Bytes, from_be, be_bytes, ==→eq, arith,
}
use connectcoin_p2c_tools.Common.Lists.{slice-drop, length-slice}
use connectcoin_p2c_tools.Common.Outcome.{ok}
use connectcoin_p2c_tools.Protocol.Constants.{
  server_hello, ext_supported_versions, ext_key_share, group_x25519, tls_1_2, tls_1_3,
  hello_retry_request_random,
}
use connectcoin_p2c_tools.Protocol.Format.{
  Handshake, ExtensionList, ExtensionBlock, Fresh, ServerShare, ServerSelection, ServerHelloBody,
}
use connectcoin_p2c_tools.Protocol.Reader.{slice}
use connectcoin_p2c_tools.Protocol.Extensions.{Extensions, index}
use connectcoin_p2c_tools.Protocol.ClientHello.{ClientState}
use connectcoin_p2c_tools.Protocol.ServerHello.{keys_are, sha256_suites}
use connectcoin_p2c_tools.Tls.ServerHello.{byte_at, first_byte_is}

byte_at-drop : (bs : Bytes) (i b : ℕ) → byte_at bs i ≡ ok b → drop i bs ≡ b ∷ drop (suc i) bs
unfolding byte_at
byte_at-drop [] i b h = cc
byte_at-drop (c ∷ bs) zero b h = cc
byte_at-drop (c ∷ bs) (suc i) b h = byte_at-drop bs i b h

-- The two extensions, and the X25519 key in one of them.
pub record Selects (found : Extensions) (key : Bytes) : Type 0 where
  pub only_two : keys_are (ext_supported_versions ∷ ext_key_share ∷ []) found ≡ true
  pub selects_tls_1_3 : index found ext_supported_versions ≡ ok (be_bytes 2 tls_1_3)
  pub share : Bytes
  pub share_at : index found ext_key_share ≡ ok share
  pub group : from_be (slice share 0 2) ≡ group_x25519
  pub size_is : from_be (slice share 2 4) ≡ 32
  pub size : length share ≡ 36
  pub key_is : key ≡ drop 4 share

pub Selects-size : {found : Extensions} {key : Bytes} → Selects found key → length key ≡ 32
Selects-size s = omega (arith, s.size, ap length (s.key_is), length-drop 4 s.share)

selected_share :
    (found : Extensions) (key : Bytes) (client : ClientState) (s : Selects found key)
    → elem group_x25519 client.key_share_groups ≡ true
    → ServerShare client group_x25519 key s.share
selected_share found key client s offered =
    let share = s.share in
    let size = s.size in
    let first : slice share 0 2 ++ drop 2 share ≡ share = slice-drop 0 2 share (omega arith) in
    let second : slice share 2 4 ++ drop 4 share ≡ drop 2 share =
      slice-drop 2 4 share (omega arith) in
    let key_size = Selects-size s in
    record {
      kind = slice share 0 2;
      value = drop 2 share;
      layout = sym first;
      is_group = (length-slice 0 2 share (omega (arith, size)), sym s.group);
      is_exchange = (
        slice share 2 4,
        sym second ∙ ap (λ (x : Bytes). slice share 2 4 ++ x) (sym s.key_is),
        (length-slice 2 4 share (omega (arith, size)), key_size ∙ sym s.size_is),
      );
      is_share = inl (refl, key_size);
      is_offered = offered;
    }

Selects-ServerSelection :
    (found : Extensions) (key : Bytes) (client : ClientState)
    → Selects found key
    → elem group_x25519 client.key_share_groups ≡ true
    → ServerSelection client found
Selects-ServerSelection found key client s offered = record {
  share = s.share;
  exchange = key;
  group = group_x25519;
  only_two = s.only_two;
  selects_tls_1_3 = s.selects_tls_1_3;
  share_at = s.share_at;
  selects_share = selected_share found key client s offered;
}

-- What the positions have in the body, where the session id has so many bytes.
pub record IsCut (body session : Bytes) (size suite : ℕ) (found : Extensions) : Type 0 where
  pub room : 35 + size + 5 ≤ length body
  pub small : size ≤ 32
  pub version : slice body 0 2 ≡ be_bytes 2 tls_1_2
  pub random : slice body 2 34 ≢ hello_retry_request_random
  pub size_at : byte_at body 34 ≡ ok size
  pub session_at : slice body 35 (35 + size) ≡ session
  pub suite_at : suite ≡ from_be (slice body (35 + size) (35 + size + 2))
  pub supported : elem suite sha256_suites ≡ true
  pub null_at : byte_at body (35 + size + 2) ≡ ok 0
  pub rest_size :
      length body - (35 + size + 5) ≡ from_be (slice body (35 + size + 3) (35 + size + 5))
  pub list : ExtensionList found (drop (35 + size + 5) body)
  pub fresh : Fresh [] found

IsCut-ExtensionBlock :
    {body session : Bytes} {size suite : ℕ} {found : Extensions}
    → IsCut body session size suite found
    → ExtensionBlock found (drop (35 + size + 3) body)
IsCut-ExtensionBlock {body} {session} {size} {suite} {found} c =
    let p = 35 + size in
    let room = c.room in
    (
      drop (p + 5) body,
      (
        slice body (p + 3) (p + 5),
        sym (slice-drop (p + 3) (p + 5) body (omega arith)),
        (
          omega (arith, length-slice (p + 3) (p + 5) body (omega arith)),
          length-drop (p + 5) body ∙ c.rest_size,
        ),
      ),
      c.list,
      c.fresh,
    )

pub IsCut-ServerHelloBody :
    (body session : Bytes) (size suite : ℕ) (found : Extensions) (key : Bytes)
    (client : ClientState)
    → IsCut body session size suite found
    → Selects found key
    → session ≡ client.legacy_session_id
    → elem suite client.cipher_suites ≡ true
    → elem group_x25519 client.key_share_groups ≡ true
    → ServerHelloBody client body
IsCut-ServerHelloBody body session size suite found key client c s own has_suite has_group =
    let p = 35 + size in
    let room = c.room in
    let e₁ : slice body 0 2 ++ drop 2 body ≡ body = slice-drop 0 2 body (omega arith) in
    let e₂ : slice body 2 34 ++ drop 34 body ≡ drop 2 body = slice-drop 2 34 body (omega arith) in
    let b₁ : drop 34 body ≡ size ∷ drop 35 body = byte_at-drop body 34 size c.size_at in
    let e₃ : slice body 35 p ++ drop p body ≡ drop 35 body = slice-drop 35 p body (omega arith) in
    let e₄ : slice body p (p + 2) ++ drop (p + 2) body ≡ drop p body =
      slice-drop p (p + 2) body (omega arith) in
    let b₂ : drop (p + 2) body ≡ 0 ∷ drop (p + 3) body =
      let next : suc (p + 2) ≡ p + 3 = omega arith in
      byte_at-drop body (p + 2) 0 c.null_at ∙ ap (λ (k : ℕ). 0 ∷ drop k body) next in
    let mine : slice body 35 p ≡ client.legacy_session_id = c.session_at ∙ own in
    let size_is : size ≡ length client.legacy_session_id =
      omega (arith, ap length mine, length-slice 35 p body (omega arith)) in
    record {
      version = slice body 0 2;
      random = slice body 2 34;
      suite = slice body p (p + 2);
      block = drop (p + 3) body;
      cipher_suite = suite;
      found = found;
      layout = cc;
      is_tls_1_2 = (length-slice 0 2 body (omega arith), sym (ap from_be c.version));
      random_size = length-slice 2 34 body (omega arith);
      no_retry = c.random;
      session_size = omega (arith, size_is, c.small);
      is_suite = (omega (arith, length-slice p (p + 2) body (omega arith)), c.suite_at);
      suite_supported = c.supported;
      suite_offered = has_suite;
      extension_block = IsCut-ExtensionBlock c;
      selection = Selects-ServerSelection found key client s has_group;
    }

pub frames :
    (message : Bytes)
    → 4 ≤ length message
    → first_byte_is server_hello message ≡ true
    → from_be (slice message 1 4) ≡ length message - 4
    → Handshake server_hello (drop 4 message) message
unfolding first_byte_is
frames [] four kind size = absurd (omega arith)
frames (b ∷ message) four kind size =
    let same : b ≡ server_hello = ==→eq b server_hello kind in
    let split = slice-drop 1 4 (b ∷ message) (omega arith) in
    (
      message,
      ap (λ (x : ℕ). x ∷ message) same,
      (
        slice (b ∷ message) 1 4,
        sym split,
        (length-slice 1 4 (b ∷ message) four, length-drop 4 (b ∷ message) ∙ sym size),
      ),
    )
