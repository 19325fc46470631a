-- ===== src/Protocol/Proof/Sound.antt =====
-- The five messages of a proof (src/connectcoin_p2c_tools/protocol.py, `parse_proof`) and their
-- framing.
use connectcoin_p2c_tools.Common.{
  ℕ, ◌≤◌, ◌≡◌, refl, sym, ◌∙◌, subst, true, [], ◌∷◌, ◌++◌, append-nil, length, Bytes, ==→eq,
}
use connectcoin_p2c_tools.Protocol.Reader.Laws.{
  Reads, ReadsEnd, ReadsEnd-bind, ReadsEnd-require, ReadsEnd-empty, ReadsEnd-pure, Parses,
}
use connectcoin_p2c_tools.Protocol.Reader.Laws.Numbers.{ReadsEnd-cast, Reads-u8}
use connectcoin_p2c_tools.Protocol.Reader.Laws.Parsing.{
  Parses-bind, Parses-require, Parses-pure, Parses-empty, Parses-u8,
}
use connectcoin_p2c_tools.Protocol.Format.{Handshake}
use connectcoin_p2c_tools.Protocol.Constants.{
  proof_version, max_certificate_message_size, client_hello, server_hello, encrypted_extensions,
  certificate, certificate_verify,
}
use connectcoin_p2c_tools.Protocol.Extensions.{read_handshake}
use connectcoin_p2c_tools.Protocol.Extensions.Sound.{Parses-read_handshake, Reads-read_handshake}
use connectcoin_p2c_tools.Protocol.Proof.{Messages, read_messages}

-- One handshake message, whole and as its body, within a size.
pub record IsMessage (kind maximum : ℕ) (m : Bytes × Bytes) : Type 0 where
  pub framed : Handshake kind m.1 m.0
  pub fits : length m.0 ≤ maximum

-- The five messages in their order, behind the version byte.
pub record AreMessages (m : Messages) (encoded : Bytes) : Type 0 where
  pub layout :
      encoded
      ≡ proof_version
        ∷ (m.client.0 ++ (m.server.0 ++ (m.encrypted.0 ++ (m.certificate.0 ++ m.verify.0))))
  pub client_framed : IsMessage client_hello 4096 m.client
  pub server_framed : IsMessage server_hello 2048 m.server
  pub encrypted_framed : IsMessage encrypted_extensions 4096 m.encrypted
  pub certificate_framed : IsMessage certificate max_certificate_message_size m.certificate
  pub verify_framed : IsMessage certificate_verify 8192 m.verify

IsMessage-of :
    {kind maximum : ℕ} {bs full body : Bytes}
    → full ≡ bs
    → Handshake kind body bs
    → length bs ≤ maximum
    → IsMessage kind maximum (full, body)
IsMessage-of {kind} {maximum} {body} e h fits = record {
  framed = subst (λ (x : Bytes). Handshake kind body x) (sym e) h;
  fits = rw e fits;
}

pub Parses-read_messages :
    (rest : Bytes) → Parses read_messages rest (λ bs left m. (left ≡ []) × AreMessages m bs)
unfolding read_messages
Parses-read_messages rest = Parses-bind _ (Parses-u8 rest) λ z left₀ version e₀ ez.
    Parses-require _ λ is2.
      Parses-bind _ (Parses-read_handshake client_hello 4096 left₀) λ b₁ left₁ m₁ e₁ (f₁, (h₁, l₁)).
        Parses-bind _ (Parses-read_handshake server_hello 2048 left₁)
          λ b₂ left₂ m₂ e₂ (f₂, (h₂, l₂)).
            Parses-bind _ (Parses-read_handshake encrypted_extensions 4096 left₂)
              λ b₃ left₃ m₃ e₃ (f₃, (h₃, l₃)).
                Parses-bind _ (Parses-read_handshake certificate max_certificate_message_size left₃)
                  λ b₄ left₄ m₄ e₄ (f₄, (h₄, l₄)).
                    Parses-bind _ (Parses-read_handshake certificate_verify 8192 left₄)
                      λ b₅ left₅ m₅ e₅ (f₅, (h₅, l₅)). Parses-empty _ λ done end.
                        Parses-require _ λ is_done. Parses-pure _ (
                          end is_done,
                          record {
                            layout =
                                rw
                                  (
                                    f₁,
                                    f₂,
                                    f₃,
                                    f₄,
                                    f₅,
                                    append-nil b₅,
                                    ez,
                                    ==→eq version proof_version is2,
                                  )
                                  refl;
                            client_framed = IsMessage-of f₁ h₁ l₁;
                            server_framed = IsMessage-of f₂ h₂ l₂;
                            encrypted_framed = IsMessage-of f₃ h₃ l₃;
                            certificate_framed = IsMessage-of f₄ h₄ l₄;
                            verify_framed = IsMessage-of f₅ h₅ l₅;
                          },
                        )

Reads-message :
    (kind maximum : ℕ) (m : Bytes × Bytes)
    → IsMessage kind maximum m
    → Reads (read_handshake kind maximum) m.0 m
Reads-message kind maximum (full, body) h =
    Reads-read_handshake kind maximum full body h.framed h.fits

pub ReadsEnd-read_messages :
    (m : Messages) (encoded : Bytes) → AreMessages m encoded → ReadsEnd read_messages encoded m
unfolding read_messages
ReadsEnd-read_messages m encoded a =
    ReadsEnd-cast (a.layout ∙ rw (append-nil m.verify.0) refl) refl (
      ReadsEnd-bind _ (Reads-u8 proof_version) (
        ReadsEnd-require _ refl (
          ReadsEnd-bind _ (Reads-message client_hello 4096 m.client a.client_framed) (
            ReadsEnd-bind _ (Reads-message server_hello 2048 m.server a.server_framed) (
              ReadsEnd-bind _
                (Reads-message encrypted_extensions 4096 m.encrypted a.encrypted_framed)
                (ReadsEnd-bind _
                  (Reads-message certificate max_certificate_message_size m.certificate
                    a.certificate_framed)
                  (ReadsEnd-bind _ (Reads-message certificate_verify 8192 m.verify a.verify_framed)
                    (ReadsEnd-empty _ (ReadsEnd-require true refl (ReadsEnd-pure m))))))))))
