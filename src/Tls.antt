-- ===== src/Tls.antt =====
-- src/connectcoin_p2c_tools/tls13.py: the narrow TLS 1.3 client that captures a proof.
pub mod Build
pub mod Keys
pub mod Buffer
pub mod ServerHello
pub mod Messages
pub mod Sockets
pub mod Capture
pub mod Records
