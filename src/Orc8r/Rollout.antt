-- ===== src/Orc8r/Rollout.antt =====
-- What follows a change of the certificate secret: `annotateOrc8rDeploymentsForSecretHash` and
-- `recreateOrc8rBootstrapJobForSecretHash` of internal/controller/magmaorc8r_controller.go.
pub mod Annotated
pub mod BootstrapJob
use magma_operator.Agw.Lifecycle.{annotate}
use magma_operator.Agw.Names.{label_app_instance}
use magma_operator.Agw.RootCa.Once.{job_name}
use magma_operator.Base.{
  Bool, List, Option, String, [], entry, false, if◌then◌else◌, insert, is_empty, ltb, none, not,
  some, true, ◌&&◌, ◌==◌, ◌||◌, ◌∷◌,
}
use magma_operator.Kube.Library.{Library}
use magma_operator.Kube.Objects.{Deployment, Job}
use magma_operator.Kube.Prog.{
  Error, Kind, Prog, Result, check, check_error, delete, err, get, ignore_not_found, is_not_found,
  list, ok, patch, ret, send, ◌>>=◌,
}
use magma_operator.Orc8r.Names.{orc8r_secret_hash_annotation}
use magma_operator.Orc8r.SecretHash.{secret_data_hash}

-- The loop over the deployments
unfoldable pub annotate_each_with_secret_hash : String → List Deployment → Prog (Option Error)
annotate_each_with_secret_hash hash [] = ret none
annotate_each_with_secret_hash hash (d ∷ ds) =
    let rest = annotate_each_with_secret_hash hash ds in
    if entry orc8r_secret_hash_annotation d.template_annotations == hash then rest else do
      failed ← send (patch Kind.deployment d (annotate orc8r_secret_hash_annotation hash d))
      check_error failed (λ e. ret (some e)) rest

-- A job with the annotation of a hash.
abbrev pub mark_job : String → Job → Job
mark_job hash j = record j {
  meta = record (j.meta) {
    annotations = insert orc8r_secret_hash_annotation hash j.meta.annotations;
  };
}

-- Whether a job is to be replaced: it failed, or it succeeded with another hash.
abbrev pub is_outdated : String → Job → Bool
is_outdated hash j =
    ltb 0 j.failed
    || (ltb 0 j.succeeded && not (entry orc8r_secret_hash_annotation j.meta.annotations == hash))

-- What `recreateOrc8rBootstrapJobForSecretHash` does with a job that exists.
unfoldable pub refresh_bootstrap_job : String → Job → Prog (Result Bool)
refresh_bootstrap_job hash j =
    if is_outdated hash j
    then (do
      failed ← send (delete Kind.job j true)
      check_error (ignore_not_found failed) (λ e. ret (err e)) (ret (ok true)))
    else if entry orc8r_secret_hash_annotation j.meta.annotations == hash
    then ret (ok false)
    else do
      failed ← send (patch Kind.job j (mark_job hash j))
      check_error failed (λ e. ret (err e)) (ret (ok false))

-- `recreateOrc8rBootstrapJobForSecretHash`
unfoldable pub recreate_orc8r_bootstrap_job : String → String → String → Prog (Result Bool)
recreate_orc8r_bootstrap_job namespace job_name hash = if is_empty hash then ret (ok false) else do
  found ← send (get Kind.job namespace job_name)
  check found (λ e. if is_not_found e then ret (ok false) else ret (err e))
      (refresh_bootstrap_job hash)

module _ (L : Library) where
  -- `annotateOrc8rDeploymentsForSecretHash`: the hash, "" where there is no secret.
  unfoldable pub annotate_orc8r_deployments : String → String → String → Prog (Result String)
  annotate_orc8r_deployments namespace release_name secret_name = do
    found ← send (get Kind.secret namespace secret_name)
    check found (λ e. if is_not_found e then ret (ok "") else ret (err e))
        (λ s. do
          let hash = secret_data_hash L s.contents
          listed ←
              send (list Kind.deployment (some namespace) ((label_app_instance, release_name) ∷ []))
          check listed (λ e. ret (err e))
              (λ ds. do
                failed ← annotate_each_with_secret_hash hash ds
                check_error failed (λ e. ret (err e)) (ret (ok hash))))
