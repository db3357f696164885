-- ===== src/Agw/Order.antt =====
-- The order of a reconcile of a `MagmaAGW`: what must have been seen before manifest objects are
-- applied or deleted. internal/controller/magmaagw_controller.go and agw_identity.go.
pub mod Registered
pub mod Stages
use magma_operator.Agw.Calls.{is_quiet_call}
use magma_operator.Agw.Deletion.Facts.{Was}
use magma_operator.Agw.Jobs.{agw_gateway_payload, payload_annotation}
use magma_operator.Agw.Names.{gateway_registration_enabled, orc8r_namespace}
use magma_operator.Api.Agw.{MagmaAgw}
use magma_operator.Base.{Bool, String, entry, false, true, ◌<>◌, ◌<◌, ◌==◌, ◌≡◌}
use magma_operator.Kube.Library.{Library}
use magma_operator.Kube.Prog.{Answer, Call, Kind, apply, delete, get, ok}
use magma_operator.Kube.Sat.{History}

-- The calls that apply or delete a manifest object.
abbrev pub touches_manifest : Call → Bool
touches_manifest (apply o) = true
touches_manifest (delete Kind.manifest o background) = true
touches_manifest _ = false

-- The job of a namespace and name was read with a payload hash, and had succeeded.
abbrev pub SawRegistration : String → String → String → (c : Call) → Answer c → Type 0
SawRegistration namespace name hash (get Kind.job namespace' name') (ok j) =
    (namespace' ≡ namespace)
    × (name' ≡ name)
    × ((entry payload_annotation j.meta.annotations == hash) ≡ true)
    × (0 < j.succeeded)
SawRegistration namespace name hash _ _ = ⊥

abbrev pub registration_job_name : MagmaAgw → String
registration_job_name agw = agw.meta.name <> "-register-gateway"

module _ (L : Library) where
  -- The registration job for the payload of a resource, with some identity, had succeeded.
  pub record WasRegistered (agw : MagmaAgw) (h : History) : Type 0 where
    pub hardware_id : String
    pub public_key : String
    pub payload : String
    pub made : agw_gateway_payload L agw hardware_id public_key ≡ ok payload
    pub seen :
        Was
          (SawRegistration (orc8r_namespace agw) (registration_job_name agw) (L.sha256_hex payload))
          h

  -- Where the resource asks to be registered, it was.
  abbrev pub MayApply : MagmaAgw → History → Type 0
  MayApply agw h =
      gateway_registration_enabled agw.spec.gateway_registration ≡ true → WasRegistered agw h

  abbrev pub ApplyAfter : MagmaAgw → History → Call → Type 0
  ApplyAfter agw h c = touches_manifest c ≡ true → MayApply agw h

-- The spec and the metadata are those of another resource.
abbrev pub SameSpec : MagmaAgw → MagmaAgw → Type 0
SameSpec agw' agw = (agw'.spec ≡ agw.spec) × (agw'.meta ≡ agw.meta)

abbrev pub Quiet : History → Call → Type 0
Quiet _ c = is_quiet_call c ≡ true
