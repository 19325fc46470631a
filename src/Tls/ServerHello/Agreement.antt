-- ===== src/Tls/ServerHello/Agreement.antt =====
-- The two ServerHello parsers: what that of src/connectcoin_p2c_tools/tls13.py returns,
-- `_parse_server_hello` of src/connectcoin_p2c_tools/protocol.py accepts.
use connectcoin_p2c_tools.Common.{ℕ, ◌≡◌, refl, List, drop, Bytes}
use connectcoin_p2c_tools.Common.Outcome.{ok, Ensures-ok}
use connectcoin_p2c_tools.Protocol.Constants.{server_hello}
use connectcoin_p2c_tools.Protocol.Format.{Handshake}
use connectcoin_p2c_tools.Protocol.ServerHello
use connectcoin_p2c_tools.Protocol.ServerHello.Sound.{parse_server_hello_iff}
use connectcoin_p2c_tools.Tls.Build.Sent.{client_state}
use connectcoin_p2c_tools.Tls.ServerHello.{parse_server_hello}
use connectcoin_p2c_tools.Tls.ServerHello.Form.{IsCut-ServerHelloBody}
use connectcoin_p2c_tools.Tls.ServerHello.Outcomes.{parse_server_hello-Ensures}

-- A ServerHello message that the parser of the TLS client accepts is a framed message whose body
-- the proof parser accepts as an answer to the ClientHello that the builder makes with that
-- session id, whatever schemes it offers.
pub parse_server_hello-accepted :
    (message session : Bytes) (schemes : List ℕ) (suite : ℕ) (key : Bytes)
    → parse_server_hello message session ≡ ok (suite, key)
    → Handshake server_hello (drop 4 message) message
      × (ServerHello.parse_server_hello (drop 4 message) (client_state schemes session) ≡ ok tt)
parse_server_hello-accepted message session schemes suite key e =
    let (framed, (size, found, cut, selects)) =
      Ensures-ok (parse_server_hello-Ensures message session) e in
    let client = client_state schemes session in
    (
      framed,
      (parse_server_hello_iff (drop 4 message) client).1 (
          IsCut-ServerHelloBody (drop 4 message) session size suite found key client cut selects
            refl cut.supported refl),
    )
