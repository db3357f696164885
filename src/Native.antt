-- ===== src/Native.antt =====
-- The embedded manifests and how they are applied: internal/controller/native_runner.go.
pub mod Values
pub mod Metadata
pub mod Render
pub mod Objects
pub mod Release
