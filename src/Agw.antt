-- ===== src/Agw.antt =====
-- The controller of `MagmaAGW`: internal/controller/magmaagw_controller.go and the agw_*.go files.
pub mod Names
pub mod Lifecycle
pub mod RootCa
pub mod Validation
pub mod Jobs
pub mod Identity
pub mod ValidationRun
pub mod Registration
pub mod Datapath
pub mod Status
pub mod Inputs
pub mod Reconcile
pub mod Deletion
pub mod Entry
pub mod Calls
pub mod OneShot
pub mod Order
pub mod Reports
