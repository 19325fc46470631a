-- ===== src/Hashes/Tagged.antt =====
-- The work hash of four messages, and its guard (src/connectcoin_p2c_tools/hashes.py).
use mathlib.Core.List.{flatten}
use connectcoin_p2c_tools.Common.{
  ◌≡◌, ◌≢◌, refl, List, [], ◌∷◌, ◌++◌, append-nil, arith, length, Bytes,
}
use connectcoin_p2c_tools.Common.Outcome.{ok, raises, value_error}
use connectcoin_p2c_tools.Hashes.{tagged_hash, work_tag, connection_work_hash}

module _ (sha256 : Bytes → Bytes) where
  pub connection_work_hash-ok :
      (a b c d : Bytes)
      → connection_work_hash sha256 (a ∷ b ∷ c ∷ d ∷ [])
        ≡ ok (tagged_hash sha256 work_tag (a ++ (b ++ (c ++ d))))
  unfolding connection_work_hash flatten
  connection_work_hash-ok a b c d = rw (append-nil d) refl

  connection_work_hash-raises :
      (messages : List Bytes)
      → length messages ≢ 4
      → connection_work_hash sha256 messages ≡ raises value_error
  unfolding connection_work_hash
  connection_work_hash-raises messages h = ground arith
