-- ===== src/Agw/Calls/Stages.antt =====
-- The phases of a reconcile make only quiet calls. `CreateOrUpdate` is assumed to make
-- no calls but reads, creations and updates and those of its mutation.
use magma_operator.Agw.Calls.{is_quiet_call}
use magma_operator.Agw.Calls.Parts.{
  host_alias-Quiet, reconcile_root_ca_sync_job-Quiet, rollout-Quiet, ueransim_ue_pod-Quiet,
}
use magma_operator.Agw.Identity.{
  IdentityState, choose_hardware_id, choose_private_key, desired_agw_private_key,
  generate_ecdsa_private_key_pem, mutate_identity, new_hardware_id, reconcile_agw_identity,
}
use magma_operator.Agw.Registration.{
  inspect_registration_job, obtain_registration_job, reconcile_agw_gateway_registration,
  register_gateway, with_first_image,
}
use magma_operator.Agw.RootCa.{reconcile_agw_lifecycle_prereqs, reconcile_agw_trust_bundle}
use magma_operator.Agw.ValidationRun.{
  inspect_validation_job, reconcile_ueransim_validation, reconcile_ueransim_validation_rbac,
  start_validation_job,
}
use magma_operator.Api.Agw.{MagmaAgw}
use magma_operator.Base.{Dict, List, Option, String, [], refl, true, ◌∷◌, ◌≡◌}
use magma_operator.Kube.Lawful.{IsLawful, reads_or_writes}
use magma_operator.Kube.Library.{Library}
use magma_operator.Kube.Objects.{Container, Job, Secret}
use magma_operator.Kube.Only.{Only, only_rules}
use magma_operator.Kube.Prog.{Call, Kind, Obj, Prog, Result, create, get, update}

module _ {L : Library} (lawful : IsLawful L) where
  pub create_or_update-Quiet :
      (k : Kind) (o : Obj k) (mutate : Obj k → Prog (Result (Obj k)))
      → ((current : Obj k) → Only is_quiet_call (mutate current))
      → Only is_quiet_call (L.create_or_update k o mutate)
  create_or_update-Quiet k o mutate m = record {
    at = λ h.
        lawful.create_or_update-calls (λ _ c. is_quiet_call c ≡ true) k o mutate
          (λ h' c allowed. allowed_quiet c allowed) (λ h' current. (m current).at h') h;
  }
    where
      allowed_quiet : (c : Call) → reads_or_writes c ≡ true → is_quiet_call c ≡ true
      allowed_quiet (get k' namespace name) _ = refl
      allowed_quiet (create k' o') _ = refl
      allowed_quiet (update k' o') _ = refl
      allowed_quiet _ bad = cc

  pub trust_bundle-Quiet :
      (agw : MagmaAgw) (release_name : String) (values : Dict String)
      → Only is_quiet_call (reconcile_agw_trust_bundle L agw release_name values)
  unfolding reconcile_agw_trust_bundle
  trust_bundle-Quiet agw release_name values =
      search (only_rules, create_or_update-Quiet, reconcile_root_ca_sync_job-Quiet) depth 14

  pub lifecycle_prereqs-Quiet :
      (agw : MagmaAgw) (release_name : String) (values : Dict String)
      → Only is_quiet_call (reconcile_agw_lifecycle_prereqs L agw release_name values)
  unfolding reconcile_agw_lifecycle_prereqs
  lifecycle_prereqs-Quiet agw release_name values =
      search (only_rules, host_alias-Quiet, trust_bundle-Quiet) depth 9

  pub rbac-Quiet :
      (namespace : String) → Only is_quiet_call (reconcile_ueransim_validation_rbac L namespace)
  unfolding reconcile_ueransim_validation_rbac
  rbac-Quiet namespace = search (only_rules, create_or_update-Quiet) depth 12

  pub inspect_validation_job-Quiet :
      (namespace name hash : String) (j : Job)
      → Only is_quiet_call (inspect_validation_job L namespace name hash j)
  unfolding inspect_validation_job
  inspect_validation_job-Quiet namespace name hash j = search only_rules depth 9

  pub start_validation_job-Quiet :
      (agw : MagmaAgw) (release_name name hash : String)
      → Only is_quiet_call (start_validation_job L agw release_name name hash)
  unfolding start_validation_job
  start_validation_job-Quiet agw release_name name hash =
      search (only_rules, rollout-Quiet, ueransim_ue_pod-Quiet) depth 14

  pub validation-Quiet :
      (agw : MagmaAgw) (release_name : String)
      → Only is_quiet_call (reconcile_ueransim_validation L agw release_name)
  unfolding reconcile_ueransim_validation
  validation-Quiet agw release_name =
      search (only_rules, rbac-Quiet, start_validation_job-Quiet, inspect_validation_job-Quiet)
        depth 14

  pub inspect_registration_job-Quiet :
      (namespace name hash : String) (j : Job)
      → Only is_quiet_call (inspect_registration_job namespace name hash j)
  unfolding inspect_registration_job
  inspect_registration_job-Quiet namespace name hash j = search only_rules depth 9

  obtain_registration_job-Quiet :
      (agw : MagmaAgw) (identity : IdentityState) (image : String)
      → Only is_quiet_call (obtain_registration_job L agw identity image)
  unfolding obtain_registration_job
  obtain_registration_job-Quiet agw identity image =
      search (only_rules, inspect_registration_job-Quiet) depth 14

  with_first_image-Quiet :
      {A : Type 0} (cs : List Container) (m : Prog A) (k : String → Prog A)
      → Only is_quiet_call m
      → ((image : String) → Only is_quiet_call (k image))
      → Only is_quiet_call (with_first_image cs m k)
  with_first_image-Quiet [] m k p q = p
  with_first_image-Quiet (c ∷ cs) m k p q = q c.image

  pub registration-Quiet :
      (agw : MagmaAgw) (identity : IdentityState)
      → Only is_quiet_call (reconcile_agw_gateway_registration L agw identity)
  unfolding reconcile_agw_gateway_registration register_gateway
  registration-Quiet agw identity =
      search (only_rules, with_first_image-Quiet, obtain_registration_job-Quiet) depth 16

  choose_private_key-Quiet :
      (agw : MagmaAgw) (desired : Option String) (s : Secret)
      → Only is_quiet_call (choose_private_key L agw desired s)
  unfolding choose_private_key generate_ecdsa_private_key_pem
  choose_private_key-Quiet agw desired s = search only_rules depth 9

  choose_hardware_id-Quiet :
      (agw : MagmaAgw) (s : Secret) → Only is_quiet_call (choose_hardware_id L agw s)
  unfolding choose_hardware_id new_hardware_id
  choose_hardware_id-Quiet agw s = search only_rules depth 9

  mutate_identity-Quiet :
      (agw : MagmaAgw) (desired : Option String) (s : Secret)
      → Only is_quiet_call (mutate_identity L agw desired s)
  unfolding mutate_identity
  mutate_identity-Quiet agw desired s =
      search (only_rules, choose_private_key-Quiet, choose_hardware_id-Quiet) depth 12

  desired_key-Quiet : (agw : MagmaAgw) → Only is_quiet_call (desired_agw_private_key L agw)
  unfolding desired_agw_private_key
  desired_key-Quiet agw = search only_rules depth 12

  pub identity-Quiet : (agw : MagmaAgw) → Only is_quiet_call (reconcile_agw_identity L agw)
  unfolding reconcile_agw_identity
  identity-Quiet agw =
      search (only_rules, desired_key-Quiet, create_or_update-Quiet, mutate_identity-Quiet) depth 14
