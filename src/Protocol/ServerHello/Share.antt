-- ===== src/Protocol/ServerHello/Share.antt =====
-- The key share of ServerHello (src/connectcoin_p2c_tools/protocol.py, `_parse_server_hello`).
use connectcoin_p2c_tools.Common.{
  ℕ, ◌≡◌, ◌≢◌, inl, inr, refl, ap, ◌∙◌, Bool, true, ◌||◌, not, [], ◌++◌, append-nil, arith, ◌!=◌,
  length, Bytes, ne→!=,
}
use connectcoin_p2c_tools.Protocol.Reader.Laws.{
  ReadsEnd, ReadsEnd-bind, ReadsEnd-require, ReadsEnd-empty, ReadsEnd-pure, Parses,
}
use connectcoin_p2c_tools.Protocol.Reader.Laws.Numbers.{ReadsEnd-cast, Reads-u16_of, Reads-read_of}
use connectcoin_p2c_tools.Protocol.Reader.Laws.Parsing.{
  Parses-bind, Parses-require, Parses-pure, Parses-empty, Parses-read_bind, Parses-u16,
}
use connectcoin_p2c_tools.Protocol.Format.{KeyShare, ServerShare}
use connectcoin_p2c_tools.Protocol.ClientHello.{ClientState}
use connectcoin_p2c_tools.Protocol.ClientHello.KeyShares.{KeyShare-valid, valid-KeyShare}
use connectcoin_p2c_tools.Protocol.ServerHello.{server_key_share}

share_tests :
    (done valid offered : Bool)
    → not (not done || (not valid || not offered)) ≡ true
    → (done ≡ true) × (valid ≡ true) × (offered ≡ true)
share_tests done valid offered h = ground arith

pub Parses-server_key_share :
    (client : ClientState) (rest : Bytes)
    → Parses (server_key_share client) rest (λ bs left u.
      (left ≡ []) × ((group : ℕ) × (exchange : Bytes) × ServerShare client group exchange bs))
unfolding server_key_share
Parses-server_key_share client rest = Parses-bind _ (Parses-u16 rest) λ t left₁ g e₁ (lt, ft).
    Parses-bind _ (Parses-u16 left₁) λ s left₂ n e₂ (ls, fs). Parses-require _ λ some.
      Parses-read_bind _ λ v left₃ e₃ lv. Parses-empty _ λ done end. Parses-require _ λ good.
        let (is_done, valid, offered) = share_tests done _ _ good in
        Parses-pure tt (
          end is_done,
          (
            g,
            v,
            record {
              kind = t;
              value = s ++ v;
              layout = ap (λ (x : Bytes). t ++ (s ++ x)) (append-nil v);
              is_group = (lt, ft);
              is_exchange = (s, refl, (ls, lv ∙ fs));
              is_share = valid-KeyShare g v valid;
              is_offered = offered;
            },
          ),
        )

share_some : (g : ℕ) (x : Bytes) → KeyShare g x → length x ≢ 0
share_some g x (inl (p, q)) = λ z. absurd (omega arith)
share_some g x (inr (p, q, r)) = λ z. absurd (omega arith)

pub ReadsEnd-server_key_share :
    (client : ClientState) {group : ℕ} {exchange share : Bytes}
    → ServerShare client group exchange share
    → ReadsEnd (server_key_share client) share tt
unfolding server_key_share
ReadsEnd-server_key_share client {group} {exchange} h =
    let (s, es, (ls, fs)) = h.is_exchange in
    ReadsEnd-cast (h.layout ∙ rw (es, append-nil exchange) refl) refl (
      ReadsEnd-bind _ (Reads-u16_of group h.kind h.is_group.0 h.is_group.1) (
        ReadsEnd-bind _ (Reads-u16_of (length exchange) s ls fs) (
          ReadsEnd-require (length exchange != 0)
            (ne→!= (length exchange) 0 (share_some group exchange h.is_share))
            (ReadsEnd-bind _ (Reads-read_of (length exchange) exchange refl) (
              ReadsEnd-empty _ (
                ReadsEnd-require _
                  (rw (KeyShare-valid group exchange h.is_share, h.is_offered) refl)
                  (ReadsEnd-pure tt)))))))
