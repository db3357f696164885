-- ===== src/Orc8r/Entry.antt =====
-- `Reconcile` of a `MagmaOrc8r`: internal/controller/magmaorc8r_controller.go.
pub mod Calls
pub mod Ready
pub mod ReadyWhole
pub mod Ends
use magma_operator.Agw.Names.{default_nms_admin_cert_secret_name}
use magma_operator.Agw.Status.{Outcome, done, failed_with}
use magma_operator.Api.Orc8r.{MagmaOrc8r}
use magma_operator.Base.{Option, String, if◌then◌else◌, none, not, some, true, ◌<>◌}
use magma_operator.Base.Int.{ℤ}
use magma_operator.Kube.Library.{Library}
use magma_operator.Kube.Objects.{condition_false, condition_true}
use magma_operator.Kube.Prog.{
  Kind, Prog, check, check_error, get, is_not_found, patch, ret, send, ◌>>=◌,
}
use magma_operator.Native.Release.{reconcile_native_release}
use magma_operator.Orc8r.CertSecret.{reconcile_orc8r_cert_secret}
use magma_operator.Orc8r.Deletion.{reconcile_orc8r_deletion}
use magma_operator.Orc8r.Magmalte.{patch_magmalte_for_http_node_port}
use magma_operator.Orc8r.Names.{magma_orc8r_finalizer, orc8r_release_name_of}
use magma_operator.Orc8r.Rollout.{annotate_orc8r_deployments, recreate_orc8r_bootstrap_job}
use magma_operator.Orc8r.Status.{update_orc8r_status}
use magma_operator.Orc8r.Values.{orc8r_values}

module _ (L : Library) where
  -- A phase that failed: the status says so.
  abbrev pub orc8r_failure : MagmaOrc8r → String → String → Prog Outcome
  orc8r_failure orc8r reason message =
      update_orc8r_status L orc8r (orc8r_release_name_of orc8r) condition_false reason message

  -- The status update at the end
  unfoldable pub report_orc8r_ready : MagmaOrc8r → Prog Outcome
  report_orc8r_ready orc8r =
      update_orc8r_status L orc8r (orc8r_release_name_of orc8r) condition_true
        "NativeResourcesReady" "Magma Orc8r resources are ready"

  -- The patch of magmalte, where the spec has a node port.
  unfoldable pub finish_orc8r : String → MagmaOrc8r → Option ℤ → Prog Outcome
  finish_orc8r namespace orc8r none = report_orc8r_ready orc8r
  finish_orc8r namespace orc8r (some port) = do
    failed ← patch_magmalte_for_http_node_port namespace
    check_error failed (λ e. orc8r_failure orc8r "MagmaltePatchFailed" e.message)
        (report_orc8r_ready orc8r)

  -- The end of a reconcile that replaced the bootstrap job.
  unfoldable pub report_recreated : MagmaOrc8r → Prog Outcome
  report_recreated orc8r = do
    result ←
        orc8r_failure orc8r "Orc8rBootstrapJobRecreated"
          "recreated Orc8r bootstrap job after cert secret change"
    check_error result.error (λ _. ret result) (ret (record result { requeue_after = 10 }))

  -- The bootstrap job, given the hash of the secret.
  unfoldable pub follow_secret : String → MagmaOrc8r → String → Prog Outcome
  follow_secret namespace orc8r hash = do
    followed ←
        recreate_orc8r_bootstrap_job namespace (orc8r_release_name_of orc8r <> "-nms-admin") hash
    check followed (λ e. orc8r_failure orc8r "Orc8rBootstrapJobFailed" e.message)
        (λ recreated.
          if recreated
          then report_recreated orc8r
          else finish_orc8r namespace orc8r orc8r.spec.nms_node_port)

  -- What follows the certificates.
  unfoldable pub roll_out : String → MagmaOrc8r → Prog Outcome
  roll_out namespace orc8r = do
    annotated ←
        annotate_orc8r_deployments L namespace (orc8r_release_name_of orc8r)
          default_nms_admin_cert_secret_name
    check annotated (λ e. orc8r_failure orc8r "Orc8rSecretRolloutFailed" e.message)
        (follow_secret namespace orc8r)

  -- The release, and what follows it.
  unfoldable pub apply_orc8r : String → MagmaOrc8r → Prog Outcome
  apply_orc8r namespace orc8r = do
    failed ← reconcile_native_release L orc8r.meta (record {
      release_name = orc8r_release_name_of orc8r;
      namespace = namespace;
      manifest = "orc8r.yaml";
      values = orc8r_values orc8r;
      apply_filter = none;
    })
    check_error failed (λ e. orc8r_failure orc8r "NativeReconcileFailed" e.message)
        (do
          certified ← reconcile_orc8r_cert_secret L orc8r
          check certified (λ e. orc8r_failure orc8r "Orc8rCertSecretFailed" e.message)
              (λ _. roll_out namespace orc8r))

  -- The finalizer is put on, and the resource is reconciled again.
  unfoldable pub adopt_orc8r : MagmaOrc8r → Prog Outcome
  adopt_orc8r orc8r = do
    failed ← send (
        patch Kind.orc8r orc8r
          (record orc8r { meta = L.add_finalizer orc8r.meta magma_orc8r_finalizer }))
    check_error failed (λ e. ret (failed_with e)) (ret (record done { requeue = true }))

  -- `Reconcile` on the resource that was read.
  unfoldable pub reconcile_orc8r : String → MagmaOrc8r → Prog Outcome
  reconcile_orc8r namespace orc8r =
      if orc8r.meta.is_deleted
      then reconcile_orc8r_deletion L orc8r (orc8r_release_name_of orc8r)
      else if not (L.contains_finalizer orc8r.meta magma_orc8r_finalizer)
      then adopt_orc8r orc8r
      else apply_orc8r namespace orc8r

  -- `Reconcile`
  unfoldable pub reconcile_orc8r_request : String → String → Prog Outcome
  reconcile_orc8r_request namespace name = do
    found ← send (get Kind.orc8r namespace name)
    check found (λ e. if is_not_found e then ret done else ret (failed_with e))
        (reconcile_orc8r namespace)
