-- ===== src/Protocol.antt =====
-- src/connectcoin_p2c_tools/protocol.py: one module for each message, over the reader.
pub mod Constants
pub mod Reader
pub mod Format
pub mod Extensions
pub mod ClientHello
pub mod ServerHello
pub mod Certificate
pub mod Proof
