-- ===== src/SecretStore.antt =====
-- The store of secrets (src/secret-store/src/lib.rs).
mod Tests
pub mod Values
pub mod Format
pub mod Vault
pub mod Secrets
pub mod Keys
pub mod Opening
pub mod Passwords
pub mod Uses
pub mod Unlocking
pub mod Restart
pub mod Exports
pub mod Sample
