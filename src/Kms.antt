-- ===== src/Kms.antt =====
-- pkg/kms/encryption/aescbc/aescbc.go: AES-CBC with the padding of PKCS #7.
pub mod AesCbc
mod Tests
