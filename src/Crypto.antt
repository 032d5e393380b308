-- ===== src/Crypto.antt =====
-- Hashes, signatures and proofs (include/cryptography, src/cryptography). OpenSSL and `sscanf` are
-- parameters; what is modelled is the control flow, the resources and the hexadecimal text.
pub mod Resources
pub mod Hex
pub mod Digests
pub mod Signatures
pub mod Service
pub mod Ecdsa
pub mod ZkProofs
