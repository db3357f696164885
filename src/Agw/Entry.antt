-- ===== src/Agw/Entry.antt =====
-- The entry of `Reconcile` of a `MagmaAGW`, up to its lifecycle prerequisites, and the requests
-- that a gate's ConfigMap raises: internal/controller/magmaagw_controller.go.
use magma_operator.Base.{
  String, ◌==◌, Bool, true, false, not, some, List, [], ◌∷◌, Dict, if◌then◌else◌,
}
use magma_operator.Kube.Objects.{Meta, condition_true, condition_false}
use magma_operator.Kube.Prog.{
  Kind, Prog, ret, send, ◌>>=◌, check, check_error, is_not_found, get, list, patch,
}
use magma_operator.Kube.Library.{Library}
use magma_operator.Api.Agw.{MagmaAgw}
use magma_operator.Agw.Names.{magma_agw_finalizer, datapath_gate_enabled}
use magma_operator.Agw.Identity.{IdentityState, reconcile_agw_identity}
use magma_operator.Agw.Datapath.{agw_datapath_nodes_ready}
use magma_operator.Agw.Inputs.{
  initial_values, agw_node_selector_of, datapath_values, final_values, release_name_of,
}
use magma_operator.Agw.Status.{
  Outcome, done, failed_with, stop, set_agw_condition, update_agw_status_details,
}
use magma_operator.Agw.Reconcile.{prepare_lifecycle, ueransim_gate_name_of}
use magma_operator.Agw.Deletion.{reconcile_agw_deletion}
use magma_operator.Native.Values.{set_selector_values}

-- The requests of `mapUERANSIMGateConfigMap` among the resources listed, as namespace and name.
unfoldable pub gate_requests : String → List MagmaAgw → List (String × String)
gate_requests name [] = []
gate_requests name (agw ∷ agws) =
    let rest = gate_requests name agws in
    if not agw.spec.enable_ueransim
    then rest
    else if not (ueransim_gate_name_of agw (release_name_of agw) == name)
    then rest
    else (agw.meta.namespace, agw.meta.name) ∷ rest

-- `mapUERANSIMGateConfigMap`
unfoldable pub map_ueransim_gate_config_map : Meta → Prog (List (String × String))
map_ueransim_gate_config_map object = do
  found ← send (list Kind.agw (some object.namespace) [])
  check found (λ _. ret []) (λ agws. ret (gate_requests object.name agws))

module _ (L : Library) where
  -- The condition that the datapath gate leaves.
  abbrev pub set_datapath_ready : Bool → MagmaAgw → MagmaAgw
  set_datapath_ready ready agw =
      if ready
      then set_agw_condition L agw "DatapathReady" condition_true "DatapathReady"
          "AGW datapath nodes are prepared"
      else set_agw_condition L agw "DatapathReady" condition_false "WaitingForDatapathReady"
          "waiting for AGW datapath node preparation"

  -- The datapath gate, where it is enabled, for a selector.
  unfoldable pub check_gate :
      String → MagmaAgw → String → IdentityState → Dict String → Dict String → Prog Outcome
  check_gate namespace agw release_name identity values [] =
      stop L agw release_name "AGWNodeSelectorRequired"
        "datapath gating requires spec.agwNodeSelector or spec.agwNodeLabelSelector"
  check_gate namespace agw release_name identity values (s ∷ ss) = do
    gate ← agw_datapath_nodes_ready namespace (s ∷ ss) agw.spec.datapath
    check gate
        (λ e.
          stop L
            (set_agw_condition L agw "DatapathReady" condition_false "DatapathReadinessCheckFailed"
              e.message)
            release_name "DatapathReadinessCheckFailed" e.message)
        (λ ready.
          prepare_lifecycle L namespace (set_datapath_ready ready agw) release_name identity
            (final_values agw identity (datapath_values agw.spec.datapath (s ∷ ss) values)) true
            ready)

  -- The datapath gate.
  unfoldable pub check_datapath :
      String → MagmaAgw → String → IdentityState → Dict String → Prog Outcome
  check_datapath namespace agw release_name identity values =
      let selector = agw_node_selector_of agw in
      if not (datapath_gate_enabled agw.spec.datapath)
      then prepare_lifecycle L namespace agw release_name identity
          (final_values agw identity (set_selector_values values "nodeSelector" selector)) false
          true
      else check_gate namespace agw release_name identity values selector

  -- The identity.
  unfoldable pub establish_identity : String → MagmaAgw → String → Prog Outcome
  establish_identity namespace agw release_name = do
    found ← reconcile_agw_identity L agw
    check found
        (λ e.
          stop L
            (set_agw_condition L agw "IdentityReady" condition_false "IdentityReconcileFailed"
              e.message)
            release_name "IdentityReconcileFailed" e.message)
        (λ identity.
          check_datapath namespace
            (set_agw_condition L (update_agw_status_details agw identity) "IdentityReady"
              condition_true "IdentityReady" "AGW bootstrap identity is ready")
            release_name identity (initial_values namespace agw identity))

  -- The finalizer is put on, and the resource is reconciled again.
  unfoldable pub adopt : MagmaAgw → Prog Outcome
  adopt agw = do
    failed ←
        send
          (patch Kind.agw agw (record agw { meta = L.add_finalizer agw.meta magma_agw_finalizer }))
    check_error failed (λ e. ret (failed_with e)) (ret (record done { requeue = true }))

  -- `Reconcile` on the resource that was read.
  unfoldable pub reconcile_agw : String → MagmaAgw → Prog Outcome
  reconcile_agw namespace agw =
      if agw.meta.is_deleted
      then reconcile_agw_deletion L agw (release_name_of agw)
      else if not (L.contains_finalizer agw.meta magma_agw_finalizer)
      then adopt agw
      else establish_identity namespace agw (release_name_of agw)

  -- `Reconcile`
  unfoldable pub reconcile : String → String → Prog Outcome
  reconcile namespace name = do
    found ← send (get Kind.agw namespace name)
    check found (λ e. if is_not_found e then ret done else ret (failed_with e))
        (reconcile_agw namespace)
