-- ===== src/Verify.antt =====
-- src/connectcoin_p2c_tools/verify.py: the certificate checks of a connection proof.
pub mod Der
pub mod Pss
pub mod X509
pub mod Chain
pub mod Leaf
pub mod Connection
