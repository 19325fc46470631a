-- ===== src/Generator.antt =====
-- src/connectcoin_p2c_tools/generator.py: the search for a connection whose proof meets the target.
pub mod Options
pub mod Endpoints
pub mod Search
pub mod Connections
pub mod Generate
