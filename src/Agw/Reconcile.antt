-- ===== src/Agw/Reconcile.antt =====
-- `Reconcile` of a `MagmaAGW` from its lifecycle prerequisites on, last part first:
-- internal/controller/magmaagw_controller.go.
use magma_operator.Base.{
  String, ◌<>◌, ◌==◌, Bool, false, not, ◌&&◌, some, Dict, insert, entry, or_default, if◌then◌else◌,
  equal_fold,
}
use magma_operator.Kube.Objects.{condition_true, condition_false, condition_unknown}
use magma_operator.Kube.Prog.{
  Kind, Prog, ret, send, ◌>>=◌, Result, ok, err, check, check_error, is_not_found, get,
}
use magma_operator.Kube.Library.{Library}
use magma_operator.Api.Agw.{MagmaAgw}
use magma_operator.Agw.Names.{Stage, gateway_registration_enabled, has_error}
use magma_operator.Agw.Lifecycle.{
  update_agw_lifecycle_status, annotate_agw_core_deployments_for_root_ca,
}
use magma_operator.Agw.RootCa.{reconcile_agw_lifecycle_prereqs}
use magma_operator.Agw.ValidationRun.{reconcile_ueransim_validation, remove_agw_condition}
use magma_operator.Agw.Identity.{IdentityState}
use magma_operator.Agw.Registration.{reconcile_agw_gateway_registration}
use magma_operator.Agw.Datapath.{cleanup_stale_agw_pods, reconcile_agw_datapath_labels}
use magma_operator.Agw.Inputs.{agw_node_selector_of}
use magma_operator.Agw.Status.{
  Outcome, stop, set_agw_condition, update_agw_status, update_agw_status_with_requeue,
  update_agw_ready_status_with_requeue, update_agw_status_details,
}
use magma_operator.Native.Objects.{native_agw_apply_filter}
use magma_operator.Native.Release.{reconcile_native_release}

-- What a reconcile knows of the datapath gate and of the simulator's gate.
pub record Gates : Type 0 where
  pub datapath_enabled : Bool
  pub datapath_ready : Bool
  pub ueransim_gate_pending : Bool
  pub ueransim_gate_name : String

-- `ueransimStartGateReady`: whether the gate is open, and its name.
unfoldable pub ueransim_gate_name_of : MagmaAgw → String → String
ueransim_gate_name_of agw release_name =
    or_default agw.spec.ueransim_ready_config_map (release_name <> "-ueransim-ready")

unfoldable pub ueransim_start_gate_ready : String → MagmaAgw → String → Prog (Result Bool)
ueransim_start_gate_ready namespace agw release_name = do
  found ← send (get Kind.config_map namespace (ueransim_gate_name_of agw release_name))
  check found (λ e. if is_not_found e then ret (ok false) else ret (err e))
      (λ gate. ret (ok (equal_fold (entry "ready" gate.contents) "true")))

module _ (L : Library) where
  -- The condition that the validation leaves.
  unfoldable pub set_validated : MagmaAgw → Stage → MagmaAgw
  set_validated agw s =
      if has_error s
      then set_agw_condition L agw "UERANSIMValidated" condition_false s.reason s.message
      else if s.reason == "UERANSIMValidated"
      then set_agw_condition L agw "UERANSIMValidated" condition_true s.reason s.message
      else if s.reason == "UERANSIMValidationFailed"
      then set_agw_condition L agw "UERANSIMValidated" condition_false s.reason s.message
      else if not s.ready
      then set_agw_condition L agw "UERANSIMValidated" condition_unknown s.reason s.message
      else agw

  -- The validation, and the final status.
  unfoldable pub finish : MagmaAgw → String → Prog Outcome
  finish agw release_name = do
    (agw', stage) ← reconcile_ueransim_validation L agw release_name
    let validated = set_validated agw' stage
    if not stage.ready
        then update_agw_ready_status_with_requeue L validated release_name "NativeResourcesReady"
            "Magma AGW resources are ready" 15
        else update_agw_status L validated release_name condition_true "NativeResourcesReady"
            "Magma AGW resources are ready"

  -- The gates that hold a reconcile back after the resources are applied.
  unfoldable pub pass_gates : String → MagmaAgw → String → Gates → Prog Outcome
  pass_gates namespace agw release_name gates =
      if gates.datapath_enabled && not gates.datapath_ready
      then (do
        labelled ←
            reconcile_agw_datapath_labels namespace (agw_node_selector_of agw) agw.spec.datapath
        check labelled (λ e. stop L agw release_name "DatapathLabelReconcileFailed" e.message)
            (λ (ready_now, message).
              if ready_now
              then update_agw_status_with_requeue L agw release_name condition_false "DatapathReady"
                  "AGW datapath node prep is ready; reconciling AGW workloads" 5
              else stop L agw release_name "WaitingForDatapathReady" message))
      else if gates.ueransim_gate_pending
      then stop L agw release_name "WaitingForUERANSIMGate" (
          "Magma AGW resources are ready with UERANSIM disabled. After AGW is registered with Orc8r and the UE is provisioned in NMS, create or update ConfigMap "
          <> namespace <> "/" <> gates.ueransim_gate_name <> " with data ready=true.")
      else finish agw release_name

  -- The resources of the release are applied.
  unfoldable pub apply_resources : String → MagmaAgw → String → Dict String → Gates → Prog Outcome
  apply_resources namespace agw0 release_name values gates = do
    let agw = remove_agw_condition L agw0 "UERANSIMReady"
    applied ← reconcile_native_release L agw.meta (record {
      release_name = release_name;
      namespace = namespace;
      manifest = "agw.yaml";
      values = values;
      apply_filter = some (native_agw_apply_filter (entry "simulator.enabled" values == "true"));
    })
    check_error applied (λ e. stop L agw release_name "NativeReconcileFailed" e.message)
        (do
          annotated ←
              annotate_agw_core_deployments_for_root_ca namespace release_name
                agw.status.trust_bundle_hash
          check_error annotated
              (λ e. stop L agw release_name "RootCARolloutAnnotationFailed" e.message)
              (do
                cleaned ← cleanup_stale_agw_pods namespace release_name
                check_error cleaned (λ e. stop L agw release_name "StalePodCleanupFailed" e.message)
                    (pass_gates namespace agw release_name gates)))

  -- The start policy of the simulator.
  unfoldable pub start_simulator :
      String → MagmaAgw → String → Dict String → Bool → Bool → Prog Outcome
  start_simulator namespace agw release_name values datapath_enabled datapath_ready = do
    let policy = or_default agw.spec.ueransim_start_policy "AfterAGWReady"
    let no_gate : Gates = record {
      datapath_enabled = datapath_enabled;
      datapath_ready = datapath_ready;
      ueransim_gate_pending = false;
      ueransim_gate_name = "";
    }
    if not agw.spec.enable_ueransim
        then apply_resources namespace agw release_name values no_gate
        else if policy == "Immediate"
        then apply_resources namespace agw release_name (insert "simulator.enabled" "true" values)
            no_gate
        else if policy == "AfterAGWReady"
        then (do
          gate ← ueransim_start_gate_ready namespace agw release_name
          check gate (λ e. stop L agw release_name "UERANSIMGateReadFailed" e.message)
              (λ open_now. do
                let gated : Gates = record no_gate {
                  ueransim_gate_pending = not open_now;
                  ueransim_gate_name = ueransim_gate_name_of agw release_name;
                }
                if open_now
                    then apply_resources namespace agw release_name
                        (insert "simulator.enabled" "true" values) gated
                    else apply_resources namespace agw release_name values gated))
        else stop L agw release_name "InvalidUERANSIMStartPolicy" (
            "unsupported ueransimStartPolicy \"" <> policy
            <> "\"; use \"AfterAGWReady\" or \"Immediate\"")

  -- The gateway's registration.
  unfoldable pub register :
      String → MagmaAgw → String → IdentityState → Dict String → Bool → Bool → Prog Outcome
  register namespace agw0 release_name identity values datapath_enabled datapath_ready = do
    let waiting_message : String = "waiting for AGW identity registration in Orc8r/NMS"
    r ← reconcile_agw_gateway_registration L agw0 identity
    check_error r.error
        (λ e.
          stop L (set_agw_condition L agw0 "GatewayRegistered" condition_false r.reason e.message)
            release_name r.reason e.message)
        (do
          let agw =
              update_agw_status_details agw0 (record identity { gateway_registered = r.registered })
          if not r.registered && gateway_registration_enabled agw.spec.gateway_registration
              then update_agw_status_with_requeue L
                  (set_agw_condition L agw "GatewayRegistered" condition_false r.reason
                    waiting_message)
                  release_name condition_false r.reason waiting_message 20
              else start_simulator namespace
                  (if r.registered
                    then set_agw_condition L agw "GatewayRegistered" condition_true
                        "GatewayRegistered" "AGW is registered in Orc8r/NMS"
                    else set_agw_condition L agw "GatewayRegistered" condition_false
                        "GatewayRegistrationDisabled" "AGW gateway registration is disabled")
                  release_name values datapath_enabled datapath_ready)

  -- The lifecycle prerequisites.
  unfoldable pub prepare_lifecycle :
      String → MagmaAgw → String → IdentityState → Dict String → Bool → Bool → Prog Outcome
  prepare_lifecycle namespace agw0 release_name identity values0 datapath_enabled datapath_ready =
      do
        (lifecycle, stage, values) ← reconcile_agw_lifecycle_prereqs L agw0 release_name values0
        let agw = update_agw_lifecycle_status agw0 lifecycle
        let unsynced =
            set_agw_condition L agw "TrustBundleSynced" condition_false stage.reason stage.message
        if has_error stage
            then stop L unsynced release_name stage.reason stage.message
            else if not stage.ready
            then update_agw_status_with_requeue L unsynced release_name condition_false stage.reason
                stage.message 20
            else register namespace
                (set_agw_condition L agw "TrustBundleSynced" condition_true "TrustBundleSynced"
                  "AGW trust bundle is synced from Orc8r")
                release_name identity values datapath_enabled datapath_ready
