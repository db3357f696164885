-- ===== src/Tests/Stages.antt =====
-- Theorems about the stages of a reconcile at concrete inputs.
use magma_operator.Agw.Datapath.{agw_datapath_nodes_ready, reconcile_agw_datapath_labels}
use magma_operator.Agw.Datapath.Gate.{GateOpen, Reads, agw_datapath_nodes_ready-GateOpen}
use magma_operator.Agw.Datapath.Labels.{LabelCalls, Says, reconcile_agw_datapath_labels-GateOpened}
use magma_operator.Agw.Identity.{IdentityState, mutate_identity}
use magma_operator.Agw.Identity.Stable.{Kept, NoCalls, mutate_identity-Kept}
use magma_operator.Agw.Inputs.{final_values}
use magma_operator.Agw.Inputs.Precedence.{lookup-final_values}
use magma_operator.Agw.Lifecycle.{check_deployments}
use magma_operator.Agw.Lifecycle.Ready.{check_deployments-ready, lets_pass}
use magma_operator.Agw.Names.{default_agw_challenge_key_secret_key, root_ca_hash_annotation}
use magma_operator.Agw.RootCa.{reconcile_root_ca_sync_job, sync_agw_secret}
use magma_operator.Agw.RootCa.Once.{Copied, JobCalls, reconcile_root_ca_sync_job-Copied}
use magma_operator.Agw.RootCa.Synced.{lookup-sync_agw_secret}
use magma_operator.Base.{
  [], all, any, entry, false, has_prefix, inl, lookup, none, refl, some, true, ◌&&◌, ◌∷◌, ◌≡◌,
}
use magma_operator.Kube.Objects.{Deployment, Meta, Secret, new_meta}
use magma_operator.Kube.Prog.{ok}
use magma_operator.Kube.Sat.{Sat}
use magma_operator.Native.Metadata.{meta_changed, normalize_meta}
use magma_operator.Native.Metadata.Normal.{meta_changed-exact, normalize_meta-lookup}
use magma_operator.Tests.Sample.{sample_agw, sample_library}

abbrev sample_identity : IdentityState
sample_identity = record {
  secret_name = "agw-bootstrap-challenge-key";
  hardware_id = "hw1";
  private_key_b64 = "key";
  public_key_b64 = "pub";
  public_key_hash = "hash";
  gateway_registered = false;
}

abbrev sample_secret : Secret
sample_secret = record {
  meta = new_meta "ns" "agw-bootstrap-challenge-key";
  type = "Opaque";
  contents = (default_agw_challenge_key_secret_key, "pem") ∷ ("hardware_id", "hw1") ∷ [];
}

abbrev sample_deployment : Deployment
sample_deployment = record {
  meta = new_meta "ns" "agwc-magmad";
  replicas = none;
  template_annotations = (root_ca_hash_annotation, "h1") ∷ [];
  containers = [];
  observed_generation = 0;
  ready_replicas = 1;
  available_replicas = 1;
}

abbrev sample_meta : Meta
sample_meta = record (new_meta "ns" "agwc-magmad") {
  labels = ("helm.sh/chart", "agw") ∷ ("app", "magmad") ∷ [];
  annotations = ("helm.sh/hook", "pre-install") ∷ [];
}

agw_datapath_nodes_ready-GateOpen_example :
    Sat Reads
      (λ h r. r ≡ ok true → GateOpen "ns" (("role", "agw") ∷ []) sample_agw.spec.datapath h)
      []
      (agw_datapath_nodes_ready "ns" (("role", "agw") ∷ []) sample_agw.spec.datapath)
agw_datapath_nodes_ready-GateOpen_example =
    agw_datapath_nodes_ready-GateOpen "ns" (("role", "agw") ∷ []) sample_agw.spec.datapath []

reconcile_root_ca_sync_job-Copied_example :
    Sat
      (JobCalls "ns" "agwc-rootca-sync" "h1")
      (λ h stage. stage.ready ≡ true → Copied "ns" "agwc-rootca-sync" "h1" h)
      []
      (reconcile_root_ca_sync_job "ns" "agwc" "agwc-secret-certs" "agwc-claim" "h1")
reconcile_root_ca_sync_job-Copied_example =
    reconcile_root_ca_sync_job-Copied "ns" "agwc" "agwc-secret-certs" "agwc-claim" "h1" []

mutate_identity-Kept_example :
    Sat NoCalls
      (λ _ r. Kept sample_secret r)
      []
      (mutate_identity sample_library sample_agw none sample_secret)
unfolding entry
mutate_identity-Kept_example =
    mutate_identity-Kept sample_library sample_agw sample_secret none [] refl refl (inl refl) refl
      refl

check_deployments-ready_example :
    (check_deployments "ns" "agwc" "core" "h1" (λ _. true) (sample_deployment ∷ []) 0).0 ≡ (
      any (λ _. true) (sample_deployment ∷ [])
      && all (lets_pass "ns" "agwc" "core" "h1" (λ _. true)) (sample_deployment ∷ []))
check_deployments-ready_example =
    check_deployments-ready "ns" "agwc" "core" "h1" (λ _. true) (sample_deployment ∷ [])

lookup-final_values_example :
    lookup "simulator.enabled" (final_values sample_agw sample_identity []) ≡ some "false"
lookup-final_values_example = lookup-final_values "simulator.enabled" sample_agw sample_identity []

normalize_meta-lookup_example :
    (lookup "helm.sh/chart" (normalize_meta sample_meta).labels ≡ none)
    × (lookup "helm.sh/chart" (normalize_meta sample_meta).annotations ≡ none)
unfolding has_prefix
normalize_meta-lookup_example = normalize_meta-lookup "helm.sh/chart" sample_meta

meta_changed-exact_example :
    (meta_changed sample_meta ≡ false → normalize_meta sample_meta ≡ sample_meta)
    × (normalize_meta sample_meta ≡ sample_meta → meta_changed sample_meta ≡ false)
meta_changed-exact_example = meta_changed-exact sample_meta

reconcile_agw_datapath_labels-GateOpened_example :
    Sat
      (LabelCalls "ns" sample_agw.spec.datapath)
      (Says "ns" (("role", "agw") ∷ []) sample_agw.spec.datapath)
      []
      (reconcile_agw_datapath_labels "ns" (("role", "agw") ∷ []) sample_agw.spec.datapath)
reconcile_agw_datapath_labels-GateOpened_example =
    reconcile_agw_datapath_labels-GateOpened "ns" (("role", "agw") ∷ []) sample_agw.spec.datapath []

lookup-sync_agw_secret_example :
    (lookup "gateway.key" (sync_agw_secret "h1" "pem" sample_secret).contents ≡ none)
    × (entry root_ca_hash_annotation (sync_agw_secret "h1" "pem" sample_secret).meta.annotations
        ≡ "h1")
lookup-sync_agw_secret_example = lookup-sync_agw_secret "gateway.key" "h1" "pem" sample_secret
