-- ===== src/Agw/RootCa.antt =====
-- The trust bundle that an AGW copies from Orc8r, and the job that installs it on its volume:
-- internal/controller/agw_lifecycle.go.
pub mod Once
pub mod Synced
pub mod Bundle
use magma_operator.Base.{
  String, ◌<>◌, ◌==◌, true, false, not, ltb, none, some, [], ◌∷◌, Dict, entry, insert, remove,
  is_empty, if◌then◌else◌,
}
use magma_operator.Kube.Objects.{Job, Secret, VolumeSource, new_meta}
use magma_operator.Kube.Prog.{
  Kind, Prog, ret, send, ◌>>=◌, ok, check, check_error, is_not_found, ignore_not_found, get, delete,
  create,
}
use magma_operator.Kube.Library.{Library}
use magma_operator.Api.Agw.{MagmaAgw}
use magma_operator.Agw.Names.{
  orc8r_namespace, nms_cert_secret_name, agw_cert_secret_name, root_ca_hash_annotation,
  root_ca_secret_key, label_app_instance, label_app_component, label_app_managed_by,
  managed_by_magma_operator, shell_exit_on_error_command, Stage, waiting, passed, failure,
}
use magma_operator.Agw.Lifecycle.{LifecycleState, reconcile_orc8r_host_alias}

abbrev root_ca_script : String
root_ca_script =
    "mkdir -p /var/opt/magma/certs\nrm -f /var/opt/magma/certs/gateway.crt /var/opt/magma/certs/gateway.key /var/opt/magma/certs/controller.crt /var/opt/magma/certs/controller.key\ncp -f /certs/rootCA.pem /var/opt/magma/certs/rootCA.pem\nchmod 0644 /var/opt/magma/certs/rootCA.pem"

-- `rootCASyncJob`
unfoldable pub root_ca_sync_job : String → String → String → String → String → String → Job
root_ca_sync_job namespace name release_name secret_name pvc_name hash = record {
  meta = record (new_meta namespace name) {
    labels =
        (label_app_component, "agw-rootca-sync")
        ∷ (label_app_instance, release_name)
        ∷ (label_app_managed_by, managed_by_magma_operator)
        ∷ [];
    annotations = (root_ca_hash_annotation, hash) ∷ [];
  };
  backoff_limit = some 1;
  ttl_seconds_after_finished = some 3600;
  active_deadline_seconds = none;
  service_account_name = "";
  restart_policy = "Never";
  containers =
      record {
        name = "sync-rootca";
        image = "busybox:1.36";
        image_pull_policy = "";
        command = "sh" ∷ shell_exit_on_error_command ∷ [];
        args = root_ca_script ∷ [];
        env = [];
        volume_mounts =
            record {
              name = "agwc-claim";
              mount_path = "/var/opt/magma";
              sub_path = "";
              read_only = false;
            }
            ∷ record {
              name = "agwc-secret";
              mount_path = "/certs";
              sub_path = "";
              read_only = true;
            }
            ∷ [];
      }
      ∷ [];
  volumes =
      record { name = "agwc-claim"; source = VolumeSource.claim pvc_name }
      ∷ record { name = "agwc-secret"; source = VolumeSource.secret secret_name 0o444 }
      ∷ [];
  succeeded = 0;
  failed = 0;
}

-- What `reconcileRootCASyncJob` does with a job that exists.
unfoldable pub inspect_root_ca_sync_job : String → String → String → Job → Prog Stage
inspect_root_ca_sync_job namespace job_name hash existing =
    if not (entry root_ca_hash_annotation existing.meta.annotations == hash)
    then (do
      failed ← send (delete Kind.job existing true)
      check_error (ignore_not_found failed) (λ e. ret (failure "RootCASyncJobDeleteFailed" e))
          (ret (waiting "RootCASyncJobReplacing" "root CA changed; replacing AGW PVC sync job")))
    else if ltb 0 existing.succeeded
    then ret (passed "" "")
    else if ltb 0 existing.failed
    then ret (
        waiting "RootCASyncJobFailed"
          ("root CA sync job " <> namespace <> "/" <> job_name <> " failed"))
    else ret (
        waiting "RootCASyncJobRunning"
          ("waiting for root CA sync job " <> namespace <> "/" <> job_name))

-- `reconcileRootCASyncJob`
unfoldable pub reconcile_root_ca_sync_job : String → String → String → String → String → Prog Stage
reconcile_root_ca_sync_job namespace release_name secret_name pvc_name hash = do
  let job_name = release_name <> "-rootca-sync"
  found ← send (get Kind.job namespace job_name)
  check found
      (λ e. if not (is_not_found e) then ret (failure "RootCASyncJobReadFailed" e) else do
        failed ← send (
            create Kind.job
              (root_ca_sync_job namespace job_name release_name secret_name pvc_name hash))
        check_error failed (λ e'. ret (failure "RootCASyncJobCreateFailed" e'))
            (ret (
              waiting "RootCASyncJobCreated"
                ("created root CA sync job " <> namespace <> "/" <> job_name))))
      (inspect_root_ca_sync_job namespace job_name hash)

-- The mutation that `reconcileAGWTrustBundle` hands to `CreateOrUpdate`.
unfoldable pub sync_agw_secret : String → String → Secret → Secret
sync_agw_secret hash root_ca s = record s {
  meta = record (s.meta) {
    labels = insert label_app_managed_by managed_by_magma_operator s.meta.labels;
    annotations = insert root_ca_hash_annotation hash s.meta.annotations;
  };
  type = "Opaque";
  contents = remove "controller.key" (
      remove "controller.crt" (
        remove "gateway.key"
          (remove "gateway.crt" (insert root_ca_secret_key root_ca s.contents))));
}

module _ (L : Library) where
  -- `reconcileAGWTrustBundle`: the hash of the root certificate, and the stage.
  unfoldable pub reconcile_agw_trust_bundle :
      MagmaAgw → String → Dict String → Prog (String × Stage)
  reconcile_agw_trust_bundle agw release_name values = do
    let namespace = orc8r_namespace agw
    let orc8r_secret_name = nms_cert_secret_name agw
    found ← send (get Kind.secret namespace orc8r_secret_name)
    check found
        (λ e.
          if is_not_found e
          then ret (
            "",
            waiting "WaitingForOrc8rCertSecret"
                ("waiting for Orc8r cert Secret " <> namespace <> "/" <> orc8r_secret_name),
          )
          else ret ("", failure "Orc8rCertSecretReadFailed" e))
        (λ orc8r_secret. (do
          let root_ca = entry root_ca_secret_key orc8r_secret.contents
          let hash = L.sha256_hex root_ca
          let agw_secret_name = agw_cert_secret_name release_name values
          let agw_secret : Secret = record {
            meta = new_meta agw.meta.namespace agw_secret_name;
            type = "";
            contents = [];
          }
          if is_empty root_ca
              then ret (
                "",
                waiting "Orc8rRootCAMissing" (
                    "Orc8r cert Secret " <> namespace <> "/" <> orc8r_secret_name <> " is missing "
                    <> root_ca_secret_key),
              )
              else do
                synced ←
                    L.create_or_update Kind.secret agw_secret
                      (λ s. ret (ok (sync_agw_secret hash root_ca s)))
                check synced (λ e. ret (hash, failure "AGWCertSecretSyncFailed" e))
                    (λ _. do
                      let pvc_name = release_name <> "-claim"
                      pvc ← send (get Kind.claim agw.meta.namespace pvc_name)
                      check pvc
                          (λ e.
                            if is_not_found e
                            then ret (hash, passed "" "")
                            else ret (hash, failure "AGWPVCReadFailed" e))
                          (λ _. do
                            stage ←
                                reconcile_root_ca_sync_job agw.meta.namespace release_name
                                  agw_secret_name pvc_name hash
                            ret (hash, stage)))))

  -- `reconcileAGWLifecyclePrereqs`: the state, the stage, and the values with the host alias.
  unfoldable pub reconcile_agw_lifecycle_prereqs :
      MagmaAgw → String → Dict String → Prog (LifecycleState × Stage × Dict String)
  reconcile_agw_lifecycle_prereqs agw release_name values = do
    alias ← reconcile_orc8r_host_alias agw values
    check alias
        (λ e. ret (
          record { orc8r_service_ip = ""; trust_bundle_hash = "" },
          failure "Orc8rServiceDiscoveryFailed" e,
          values,
        ))
        (λ (service_ip, values'). do
          (hash, stage) ← reconcile_agw_trust_bundle agw release_name values'
          ret (record { orc8r_service_ip = service_ip; trust_bundle_hash = hash }, stage, values'))
