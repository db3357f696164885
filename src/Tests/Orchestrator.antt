-- ===== src/Tests/Orchestrator.antt =====
-- Theorems about the orchestrator's controller at concrete inputs.
use magma_operator.Agw.Deletion.Finish.{IsDone}
use magma_operator.Agw.Deletion.Progress.{Ends}
use magma_operator.Api.Orc8r.{MagmaOrc8r}
use magma_operator.Base.{
  Bool-cases, Dict, List, String, [], entry, eq_iff, if◌then◌else◌, inl, inr, lookup, refl, some,
  sym, true, ◌==◌, ◌∷◌, ◌≡◌,
}
use magma_operator.Base.Int.{pos}
use magma_operator.Kube.Always.{Always}
use magma_operator.Kube.Objects.{EnvVar, Manifest, new_meta}
use magma_operator.Kube.Prog.{ok}
use magma_operator.Kube.Sat.{Sat}
use magma_operator.Native.Objects.{native_release_objects, prepare_each}
use magma_operator.Orc8r.CertSecret.{reconcile_orc8r_cert_secret}
use magma_operator.Orc8r.CertSecret.Kept.{
  HashFrom, RenewsOnlyIfNeeded, reconcile_orc8r_cert_secret-Kept,
}
use magma_operator.Orc8r.Deletion.{orc8r_release, reconcile_orc8r_deletion}
use magma_operator.Orc8r.Deletion.Finish.{DoneIfOrc8rDropped, reconcile_orc8r_deletion-Ends}
use magma_operator.Orc8r.Deletion.Last.{Orc8rPatchesLast, reconcile_orc8r_deletion-PatchesLast}
use magma_operator.Orc8r.Entry.{reconcile_orc8r}
use magma_operator.Orc8r.Entry.Ends.{reconcile_orc8r-Reported}
use magma_operator.Orc8r.Entry.Ready.{ReadyAfter}
use magma_operator.Orc8r.Entry.ReadyWhole.{live_release, reconcile_orc8r-ReadyAfter}
use magma_operator.Orc8r.Magmalte.{set_env}
use magma_operator.Orc8r.Magmalte.Env.{env_value, env_value-set_env}
use magma_operator.Orc8r.Names.{magma_orc8r_finalizer}
use magma_operator.Orc8r.Rollout.{annotate_orc8r_deployments, recreate_orc8r_bootstrap_job}
use magma_operator.Orc8r.Rollout.Annotated.{
  OnlyMarks, RolledOut, annotate_orc8r_deployments-RolledOut,
}
use magma_operator.Orc8r.Rollout.BootstrapJob.{
  ChangesJob, JobResult, recreate_orc8r_bootstrap_job-ChangesJob,
}
use magma_operator.Orc8r.SecretHash.{hash_input, secret_data_hash}
use magma_operator.Orc8r.SecretHash.Fields.{
  is_nul_free, key_value_fields, split_fields, split_fields-hash_input,
}
use magma_operator.Orc8r.SecretHash.Sorted.{secret_data_hash-order}
use magma_operator.Orc8r.Status.Reports.{Orc8rReported}
use magma_operator.Tests.Sample.{has_text, sample_library, sample_objects}
use magma_operator.Tests.SampleLaws.{sample_library-IsLawful}

abbrev sample_orc8r : MagmaOrc8r
sample_orc8r = record {
  meta = record (new_meta "ns" "orc8r") { finalizers = magma_orc8r_finalizer ∷ [] };
  spec = record {
    release_name = "orc8r";
    domain_name = "example.org";
    controller_hostname = "";
    nms_node_port = some (pos 30080);
    nms_organization = "";
    nms_admin_email = "admin@example.org";
    nms_admin_password = "";
    nms_custom_domains = [];
    network_id = "";
    network_name = "";
    subscriber_imsi = "";
    values = [];
  };
  status = record {
    observed_generation = 0;
    release_name = "";
    release_namespace = "";
    nms_url = "";
    conditions = [];
  };
}

abbrev live_objects : List Manifest
live_objects = prepare_each sample_library (live_release "ns" sample_orc8r) sample_objects

live_objects_yield :
    native_release_objects sample_library (live_release "ns" sample_orc8r) ≡ ok live_objects
unfolding native_release_objects
live_objects_yield = refl

reconcile_orc8r-ReadyAfter_example :
    Sat
      (ReadyAfter sample_library "ns" sample_orc8r live_objects)
      (λ _ _. Unit {0})
      []
      (reconcile_orc8r sample_library "ns" sample_orc8r)
reconcile_orc8r-ReadyAfter_example =
    reconcile_orc8r-ReadyAfter sample_library-IsLawful "ns" sample_orc8r live_objects
      live_objects_yield refl

orc8r_has_finalizer : has_text magma_orc8r_finalizer sample_orc8r.meta.finalizers ≡ true
unfolding has_text
orc8r_has_finalizer = refl

reconcile_orc8r-Reported_example :
    Always (Orc8rReported sample_orc8r.meta) (reconcile_orc8r sample_library "ns" sample_orc8r)
reconcile_orc8r-Reported_example =
    reconcile_orc8r-Reported sample_library-IsLawful "ns" sample_orc8r refl orc8r_has_finalizer

abbrev gone_objects : List Manifest
gone_objects = prepare_each sample_library (orc8r_release sample_orc8r "orc8r") sample_objects

gone_objects_yield :
    native_release_objects sample_library (orc8r_release sample_orc8r "orc8r") ≡ ok gone_objects
unfolding native_release_objects
gone_objects_yield = refl

reconcile_orc8r_deletion-PatchesLast_example :
    Sat
      (Orc8rPatchesLast gone_objects)
      (λ _ _. Unit {0})
      []
      (reconcile_orc8r_deletion sample_library sample_orc8r "orc8r")
reconcile_orc8r_deletion-PatchesLast_example =
    reconcile_orc8r_deletion-PatchesLast sample_library sample_orc8r "orc8r" gone_objects
      gone_objects_yield

reconcile_orc8r_deletion-Ends_example :
    Sat
      (Orc8rPatchesLast gone_objects)
      (DoneIfOrc8rDropped sample_library sample_orc8r)
      []
      (reconcile_orc8r_deletion sample_library sample_orc8r "orc8r")
    × Ends IsDone (reconcile_orc8r_deletion sample_library sample_orc8r "orc8r")
reconcile_orc8r_deletion-Ends_example =
    reconcile_orc8r_deletion-Ends sample_library sample_orc8r "orc8r" gone_objects
      gone_objects_yield orc8r_has_finalizer

reconcile_orc8r_cert_secret-Kept_example :
    Sat
      (RenewsOnlyIfNeeded sample_orc8r)
      (HashFrom sample_library sample_orc8r)
      []
      (reconcile_orc8r_cert_secret sample_library sample_orc8r)
reconcile_orc8r_cert_secret-Kept_example =
    reconcile_orc8r_cert_secret-Kept sample_library sample_orc8r

annotate_orc8r_deployments-RolledOut_example :
    Sat OnlyMarks
      (λ h r. (hash : String) → r ≡ ok hash → RolledOut sample_library "ns" "orc8r" "certs" hash h)
      []
      (annotate_orc8r_deployments sample_library "ns" "orc8r" "certs")
annotate_orc8r_deployments-RolledOut_example =
    annotate_orc8r_deployments-RolledOut sample_library "ns" "orc8r" "certs" []

recreate_orc8r_bootstrap_job-ChangesJob_example :
    Sat
      (ChangesJob "ns" "orc8r-nms-admin" "h1")
      (JobResult "ns" "orc8r-nms-admin" "h1")
      []
      (recreate_orc8r_bootstrap_job "ns" "orc8r-nms-admin" "h1")
recreate_orc8r_bootstrap_job-ChangesJob_example =
    recreate_orc8r_bootstrap_job-ChangesJob "ns" "orc8r-nms-admin" "h1" []

-- The same map in two orders
abbrev one_order : Dict String
one_order = ("rootCA.pem", "r") ∷ ("certifier.pem", "c") ∷ []

abbrev other_order : Dict String
other_order = ("certifier.pem", "c") ∷ ("rootCA.pem", "r") ∷ []

same_maps : (k : String) → lookup k one_order ≡ lookup k other_order
unfolding lookup
same_maps k = elim (Bool-cases ("rootCA.pem" == k)) [
  | inl same ↦ (let is = (eq_iff "rootCA.pem" k).0 same in rw (sym is) refl)
  | inr differs ↦ rw differs refl
]

secret_data_hash-order_example :
    secret_data_hash sample_library one_order ≡ secret_data_hash sample_library other_order
unfolding lookup
secret_data_hash-order_example =
    secret_data_hash-order sample_library one_order other_order (refl, (refl, tt))
      (refl, (refl, tt)) same_maps

split_fields-hash_input_example :
    split_fields (hash_input one_order ("certifier.pem" ∷ "rootCA.pem" ∷ []))
    ≡ key_value_fields one_order ("certifier.pem" ∷ "rootCA.pem" ∷ [])
unfolding is_nul_free entry lookup
split_fields-hash_input_example =
    split_fields-hash_input one_order ("certifier.pem" ∷ "rootCA.pem" ∷ [])
      ((refl, refl), ((refl, refl), tt))

abbrev sample_env : List EnvVar
sample_env =
    (record { name = "HOST"; value = "a" })
    ∷ (record { name = "NODE_ENV"; value = "production" })
    ∷ []

env_value-set_env_example :
    env_value (set_env sample_env "NODE_ENV" "development") "NODE_ENV"
    ≡ (if "NODE_ENV" == "NODE_ENV" then some "development" else env_value sample_env "NODE_ENV")
env_value-set_env_example = env_value-set_env sample_env "NODE_ENV" "development" "NODE_ENV"
