-- ===== src/Orc8r/Deletion.antt =====
-- `reconcileOrc8rDeletion` of internal/controller/magmaorc8r_controller.go.
pub mod Last
pub mod Finish
use magma_operator.Agw.Status.{Outcome, done, failed_with, retry_after}
use magma_operator.Api.Orc8r.{MagmaOrc8r}
use magma_operator.Base.{String, [], if◌then◌else◌, none, not}
use magma_operator.Kube.Library.{Library}
use magma_operator.Kube.Objects.{condition_false}
use magma_operator.Kube.Prog.{Error, Kind, Prog, check_error, patch, ret, send, ◌>>=◌}
use magma_operator.Native.Release.{delete_native_release}
use magma_operator.Native.Render.{NativeRelease}
use magma_operator.Orc8r.Names.{magma_orc8r_finalizer}
use magma_operator.Orc8r.Status.{update_orc8r_status}

-- The release that a `MagmaOrc8r` stands for, to be deleted.
abbrev pub orc8r_release : MagmaOrc8r → String → NativeRelease
orc8r_release orc8r release_name = record {
  release_name = release_name;
  namespace = orc8r.meta.namespace;
  manifest = "orc8r.yaml";
  values = [];
  apply_filter = none;
}

module _ (L : Library) where
  -- A deletion that failed: the status says so.
  unfoldable pub report_orc8r_deletion : MagmaOrc8r → String → Error → Prog Outcome
  report_orc8r_deletion orc8r release_name e = do
    reported ←
        update_orc8r_status L orc8r release_name condition_false "NativeDeleteFailed" e.message
    check_error reported.error (λ e. ret (failed_with e)) (ret (retry_after 30))

  -- The last call: the finalizer is taken off.
  unfoldable pub drop_orc8r_finalizer : MagmaOrc8r → Prog Outcome
  drop_orc8r_finalizer orc8r = do
    failed ← send (
        patch Kind.orc8r orc8r
          (record orc8r { meta = L.remove_finalizer orc8r.meta magma_orc8r_finalizer }))
    ret (record done { error = failed })

  -- `reconcileOrc8rDeletion`
  unfoldable pub reconcile_orc8r_deletion : MagmaOrc8r → String → Prog Outcome
  reconcile_orc8r_deletion orc8r release_name =
      if not (L.contains_finalizer orc8r.meta magma_orc8r_finalizer) then ret done else do
        deleted ← delete_native_release L (orc8r_release orc8r release_name)
        check_error deleted (report_orc8r_deletion orc8r release_name) (drop_orc8r_finalizer orc8r)
