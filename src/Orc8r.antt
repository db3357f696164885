-- ===== src/Orc8r.antt =====
-- The `MagmaOrc8r` controller: internal/controller/magmaorc8r_controller.go and orc8r_certs.go.
pub mod Names
pub mod Values
pub mod Status
pub mod SecretHash
pub mod Rollout
pub mod Magmalte
pub mod Certificates
pub mod CertSecret
pub mod Deletion
pub mod Entry
