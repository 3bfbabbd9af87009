-- ===== src/Pake.antt =====
-- pake.go: CPace over ristretto255. The byte encodings are in Encoding and their laws in its
-- children, the group and key part in Crypto and Side.
pub mod Encoding
pub mod Crypto
pub mod Side
pub mod Agreement
pub mod Toy
mod Runs
