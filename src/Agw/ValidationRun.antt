-- ===== src/Agw/ValidationRun.antt =====
-- `reconcileUERANSIMValidation` and its access rights: internal/controller/agw_validation.go.
pub mod Finished
use magma_operator.Agw.Names.{
  Stage, failure, has_error, label_app_component, label_app_managed_by, managed_by_magma_operator,
  passed, ueransim_validation_enabled, waiting,
}
use magma_operator.Agw.RootCa.Once.{job_name}
use magma_operator.Agw.Validation.{
  reconcile_ueransim_validation_rollout, ueransim_ue_pod, ueransim_validation_component,
  ueransim_validation_hash, ueransim_validation_job, ueransim_validation_service_acct,
}
use magma_operator.Api.Agw.{MagmaAgw}
use magma_operator.Base.{
  Option, String, [], entry, false, if◌then◌else◌, insert, is_empty, ltb, none, not, some, true,
  ◌<>◌, ◌==◌, ◌||◌, ◌∷◌,
}
use magma_operator.Base.Int.{show}
use magma_operator.Kube.Library.{Library}
use magma_operator.Kube.Objects.{Job, Meta, Role, RoleBinding, new_meta}
use magma_operator.Kube.Prog.{
  Error, Kind, Prog, check, check_error, create, delete, get, ignore_not_found, is_not_found, ok,
  ret, send, ◌>>=◌,
}

-- The account, its role and the binding, as `CreateOrUpdate` mutates them.
abbrev label_account : Meta → Meta
label_account sa = record sa {
  labels =
      insert label_app_component ueransim_validation_component
        (insert label_app_managed_by managed_by_magma_operator sa.labels);
}

abbrev set_rules : Role → Role
set_rules role = record role {
  rules =
      record {
        api_groups = "" ∷ [];
        resources = "pods" ∷ "pods/log" ∷ [];
        verbs = "get" ∷ "list" ∷ [];
      }
      ∷ record { api_groups = "" ∷ []; resources = "pods/exec" ∷ []; verbs = "create" ∷ [] }
      ∷ [];
}

abbrev bind_account : String → RoleBinding → RoleBinding
bind_account namespace binding = record binding {
  subjects =
      record {
        kind = "ServiceAccount";
        name = ueransim_validation_service_acct;
        namespace = namespace;
      }
      ∷ [];
  role_ref = record {
    api_group = "rbac.authorization.k8s.io";
    kind = "Role";
    name = ueransim_validation_service_acct;
  };
}

module _ (L : Library) where
  -- `reconcileUERANSIMValidationRBAC`
  unfoldable pub reconcile_ueransim_validation_rbac : String → Prog (Option Error)
  reconcile_ueransim_validation_rbac namespace = do
    let fresh = new_meta namespace ueransim_validation_service_acct
    account ← L.create_or_update Kind.service_account fresh (λ sa. ret (ok (label_account sa)))
    check account (λ e. ret (some e))
        (λ _. do
          role ←
              L.create_or_update Kind.role (record { meta = fresh; rules = [] })
                (λ r. ret (ok (set_rules r)))
          check role (λ e. ret (some e))
              (λ _. do
                binding ←
                    L.create_or_update Kind.role_binding
                      (record {
                        meta = fresh;
                        subjects = [];
                        role_ref = record { api_group = ""; kind = ""; name = "" };
                      })
                      (λ b. ret (ok (bind_account namespace b)))
                check binding (λ e. ret (some e)) (λ _. ret none)))

  -- `ueransimValidationSpecHash`
  unfoldable pub ueransim_validation_spec_hash : MagmaAgw → String → String
  ueransim_validation_spec_hash agw release_name =
      let spec = agw.spec.ueransim_validation in
      L.sha256_hex (
        release_name
        <> "|"
        <> spec.trigger
        <> "|"
        <> spec.ue_deployment_name
        <> "|"
        <> spec.ping_host
        <> "|"
        <> show spec.iperf_port
        <> "|"
        <> show spec.timeout_seconds
        <> "|"
        <> spec.iperf_server)

  -- What `reconcileUERANSIMValidation` does with a job that exists.
  unfoldable pub inspect_validation_job : String → String → String → Job → Prog Stage
  inspect_validation_job namespace job_name desired_hash existing =
      if not (entry ueransim_validation_hash existing.meta.annotations == desired_hash)
      then (do
        failed ← send (delete Kind.job existing true)
        check_error (ignore_not_found failed)
            (λ e. ret (failure "UERANSIMValidationJobDeleteFailed" e))
            (ret (
              waiting "UERANSIMValidationJobReplacing"
                "UERANSIM validation trigger changed; replacing validation job")))
      else if ltb 0 existing.succeeded
      then ret (passed "UERANSIMValidated" "one-shot UERANSIM validation passed")
      else if ltb 0 existing.failed
      then ret (
          passed "UERANSIMValidationFailed"
            ("one-shot UERANSIM validation job " <> namespace <> "/" <> job_name <> " failed"))
      else ret (
          waiting "UERANSIMValidationRunning"
            ("waiting for one-shot UERANSIM validation job " <> namespace <> "/" <> job_name))

  -- The part of `reconcileUERANSIMValidation` that starts a job.
  unfoldable pub start_validation_job : MagmaAgw → String → String → String → Prog Stage
  start_validation_job agw release_name job_name desired_hash = do
    rollout ← reconcile_ueransim_validation_rollout agw.meta.namespace release_name desired_hash
    if has_error rollout || not rollout.ready then ret (record rollout { ready = false }) else do
      found ← ueransim_ue_pod agw.meta.namespace release_name
      check found (λ e. ret (failure "UERANSIMValidationPodReadFailed" e))
          (λ ue_pod.
            if is_empty ue_pod
            then ret (
                waiting "WaitingForUERANSIMUEPod"
                  "waiting for a running UERANSIM UE pod before one-shot validation")
            else let new_job =
                ueransim_validation_job agw release_name job_name ue_pod desired_hash in
              check (L.set_controller_reference agw.meta new_job.meta)
                (λ e. ret (failure "UERANSIMValidationOwnerRefFailed" e))
                (λ owned. do
                  failed ← send (create Kind.job (record new_job { meta = owned }))
                  check_error failed (λ e. ret (failure "UERANSIMValidationJobCreateFailed" e))
                      (ret (
                        waiting "UERANSIMValidationJobCreated" (
                          "created one-shot UERANSIM validation job " <> agw.meta.namespace <> "/"
                          <> job_name)))))

  -- `removeAGWCondition`
  unfoldable pub remove_agw_condition : MagmaAgw → String → MagmaAgw
  remove_agw_condition agw type = record agw {
    status = record (agw.status) {
      conditions = L.remove_status_condition agw.status.conditions type;
    };
  }

  -- `reconcileUERANSIMValidation`: the resource, which loses a condition where the validation is
  -- disabled, and the stage.
  unfoldable pub reconcile_ueransim_validation : MagmaAgw → String → Prog (MagmaAgw × Stage)
  reconcile_ueransim_validation agw release_name =
      if not (ueransim_validation_enabled agw.spec.ueransim_validation)
      then ret (
        remove_agw_condition agw "UERANSIMValidated",
        passed "UERANSIMValidationDisabled" "UERANSIM validation is disabled",
      )
      else if not agw.spec.enable_ueransim
      then ret (agw, passed "UERANSIMValidationSkipped" "UERANSIM is disabled")
      else do
        rbac ← reconcile_ueransim_validation_rbac agw.meta.namespace
        check_error rbac (λ e. ret (agw, failure "UERANSIMValidationRBACFailed" e))
            (do
              let job_name = release_name <> "-ueransim-validation"
              let desired_hash = ueransim_validation_spec_hash agw release_name
              found ← send (get Kind.job agw.meta.namespace job_name)
              check found
                  (λ e.
                    if not (is_not_found e)
                    then ret (agw, failure "UERANSIMValidationJobReadFailed" e)
                    else do
                      stage ← start_validation_job agw release_name job_name desired_hash
                      ret (agw, stage))
                  (λ existing. do
                    stage ← inspect_validation_job agw.meta.namespace job_name desired_hash existing
                    ret (agw, stage)))
