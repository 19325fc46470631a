-- ===== src/Tls/Messages.antt =====
-- `Endpoint` and `TLSProofMessages` of src/connectcoin_p2c_tools/tls13.py.
use connectcoin_p2c_tools.Common.{ℕ, List, ◌∷◌, ◌++◌, Bytes}
use connectcoin_p2c_tools.Protocol.Constants.{proof_version}

-- The address is its text.
pub record Endpoint : Type 0 where
  pub family : ℕ
  pub socket_type : ℕ
  pub protocol : ℕ
  pub address : List ℕ
  pub ip : List ℕ

pub record TlsProofMessages : Type 0 where
  pub client_hello : Bytes
  pub server_hello : Bytes
  pub encrypted_extensions : Bytes
  pub certificate : Bytes
  pub certificate_verify : Bytes
  pub peer_ip : List ℕ

-- The property `encoded_proof`.
abbrev pub encoded_proof : TlsProofMessages → Bytes
encoded_proof self =
    proof_version
    ∷ (self.client_hello
        ++ (self.server_hello
            ++ (self.encrypted_extensions ++ (self.certificate ++ self.certificate_verify))))
