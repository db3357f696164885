-- ===== src/Agw/Deletion.antt =====
-- `reconcileAGWDeletion` and `cleanupAGWDurableState`:
-- internal/controller/magmaagw_controller.go.
pub mod Facts
pub mod Guard
pub mod Safety
pub mod Last
pub mod Progress
pub mod Finish
use magma_operator.Base.{
  String, ◌<>◌, false, not, Option, none, some, [], ◌∷◌, or_default, if◌then◌else◌,
}
use magma_operator.Kube.Objects.{new_meta}
use magma_operator.Kube.Prog.{
  Kind, Prog, ret, send, ◌>>=◌, Error, check, check_error, ignore_not_found, patch, delete,
}
use magma_operator.Kube.Library.{Library}
use magma_operator.Api.Agw.{MagmaAgw}
use magma_operator.Agw.Names.{magma_agw_finalizer, default_agw_identity_secret_name}
use magma_operator.Agw.Registration.{reconcile_agw_gateway_deregistration}
use magma_operator.Agw.Datapath.{selected_agw_nodes, remove_agw_datapath_labels}
use magma_operator.Agw.Inputs.{agw_node_selector_of}
use magma_operator.Agw.Status.{Outcome, done, retry_after, failed_with, stop}
use magma_operator.Native.Release.{delete_native_release}

-- The identity secret, where the deletion policy names it.
unfoldable pub delete_identity_secret : MagmaAgw → Prog (Option Error)
delete_identity_secret agw =
    if agw.spec.deletion_policy.delete_identity_secret
    then (do
      let secret_name = or_default agw.spec.identity.secret_name default_agw_identity_secret_name
      failed ← send (
          delete Kind.secret
            (record { meta = new_meta agw.meta.namespace secret_name; type = ""; contents = [] })
            false)
      ret (ignore_not_found failed))
    else ret none

-- `cleanupAGWDurableState`
unfoldable pub cleanup_agw_durable_state : MagmaAgw → String → Prog (Option Error)
cleanup_agw_durable_state agw release_name =
    if agw.spec.deletion_policy.delete_pvc
    then (do
      failed ←
          send (delete Kind.claim (new_meta agw.meta.namespace (release_name <> "-claim")) false)
      check_error (ignore_not_found failed) (λ e. ret (some e)) (delete_identity_secret agw))
    else delete_identity_secret agw

-- The datapath labels are taken off the nodes that the resource selects, if it selects any.
unfoldable pub release_nodes : MagmaAgw → Prog (Option Error)
release_nodes agw = elim (agw_node_selector_of agw) [
  | [] ↦ ret none
  | s ∷ ss ↦ do
    selected ← selected_agw_nodes (s ∷ ss)
    check selected (λ e. ret (some e)) (remove_agw_datapath_labels agw.spec.datapath)
]

module _ (L : Library) where
  -- A status update whose outcome counts only where it fails.
  unfoldable pub report : MagmaAgw → String → String → String → Outcome → Prog Outcome
  report agw release_name reason message outcome = do
    reported ← stop L agw release_name reason message
    check_error reported.error (λ e. ret (failed_with e)) (ret outcome)

  -- The last call: the finalizer is taken off.
  unfoldable pub drop_finalizer : MagmaAgw → Prog Outcome
  drop_finalizer agw = do
    failed ←
        send (
          patch Kind.agw agw
            (record agw { meta = L.remove_finalizer agw.meta magma_agw_finalizer }))
    ret (record done { error = failed })

  -- What follows the deregistration.
  unfoldable pub delete_resources : MagmaAgw → String → Prog Outcome
  delete_resources agw release_name = do
    deleted ← delete_native_release L (record {
      release_name = release_name;
      namespace = agw.meta.namespace;
      manifest = "agw.yaml";
      values = [];
      apply_filter = none;
    })
    check_error deleted
        (λ e. report agw release_name "NativeDeleteFailed" e.message (retry_after 30))
        (do
          released ← release_nodes agw
          check_error released (λ e. ret (failed_with e))
              (do
                cleaned ← cleanup_agw_durable_state agw release_name
                check_error cleaned (λ e. ret (failed_with e)) (drop_finalizer agw)))

  -- `reconcileAGWDeletion`
  unfoldable pub reconcile_agw_deletion : MagmaAgw → String → Prog Outcome
  reconcile_agw_deletion agw release_name =
      if not (L.contains_finalizer agw.meta magma_agw_finalizer) then ret done else do
        stage ← reconcile_agw_gateway_deregistration agw
        check_error stage.error
            (λ e. report agw release_name stage.reason e.message (retry_after 30))
            (if not stage.ready
              then report agw release_name stage.reason stage.message (retry_after 20)
              else delete_resources agw release_name)
