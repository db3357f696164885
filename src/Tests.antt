-- ===== src/Tests.antt =====
-- The properties applied to concrete resources, against a concrete library.
mod Sample
mod SampleLaws
mod Claims
mod Stages
mod SampleX509
mod Orchestrator
mod Routines
