-- ===== src/Agw/Calls.antt =====
-- The calls that a reconcile of a `MagmaAGW` that is not being deleted can make:
-- internal/controller/magmaagw_controller.go and what it calls.
pub mod Parts
pub mod Stages
pub mod Gates
pub mod Whole
use magma_operator.Base.{Bool, false, true}
use magma_operator.Kube.Only.{Only}
use magma_operator.Kube.Prog.{
  Call, Kind, Prog, apply, create, delete, generate_key, get, get_manifest, list, patch,
  random_bytes, update, update_status,
}

-- Reads, creations and updates; patches of a `MagmaAGW`, of deployments and of nodes; deletions of
-- jobs and of pods; the status of a `MagmaAGW`; and keys and random bytes.
abbrev pub is_quiet_call : Call → Bool
is_quiet_call (get k namespace name) = true
is_quiet_call (get_manifest o) = true
is_quiet_call (list k namespace labels) = true
is_quiet_call (create k o) = true
is_quiet_call (update k o) = true
is_quiet_call (update_status Kind.agw o) = true
is_quiet_call (patch Kind.agw old new) = true
is_quiet_call (patch Kind.deployment old new) = true
is_quiet_call (patch Kind.node old new) = true
is_quiet_call (delete Kind.job o background) = true
is_quiet_call (delete Kind.pod o background) = true
is_quiet_call generate_key = true
is_quiet_call (random_bytes n) = true
is_quiet_call _ = false

-- These, and the applies and deletions of manifest objects.
abbrev pub is_live_call : Call → Bool
is_live_call (delete Kind.manifest o background) = true
is_live_call (apply o) = true
is_live_call c = is_quiet_call c
