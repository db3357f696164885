-- ===== src/Api.antt =====
-- The two custom resources: api/v1alpha1/magmaagw_types.go and magmaorc8r_types.go.
pub mod Agw
pub mod Orc8r
