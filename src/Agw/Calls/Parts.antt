-- ===== src/Agw/Calls/Parts.antt =====
-- The parts of a reconcile make only quiet calls.
use magma_operator.Agw.Calls.{is_quiet_call}
use magma_operator.Agw.Datapath.{
  cleanup_stale_agw_pods, delete_stale, has_label, is_labelled, label_agw_datapath_nodes,
  remove_agw_datapath_labels,
}
use magma_operator.Agw.Lifecycle.{
  annotate_agw_core_deployments_for_root_ca, annotate_deployments_for_root_ca, annotate_each,
  deployments_ready, reconcile_orc8r_host_alias,
}
use magma_operator.Agw.Names.{datapath_ready_label_key, root_ca_hash_annotation}
use magma_operator.Agw.RootCa.{inspect_root_ca_sync_job, reconcile_root_ca_sync_job}
use magma_operator.Agw.Validation.{
  Rollout, is_required, reconcile_ueransim_validation_rollout, rollout_each, ueransim_ue_pod,
  ueransim_validation_rollout_hash,
}
use magma_operator.Api.Agw.{DatapathSpec, MagmaAgw}
use magma_operator.Base.{
  Bool, Dict, List, Option, String, [], entry, false, none, not, refl, some, true, ◌==◌, ◌∷◌, ◌≡◌,
}
use magma_operator.Kube.Objects.{Deployment, Job, Meta, Pod}
use magma_operator.Kube.Only.{Only, Only-if, Only-ret, only_rules}
use magma_operator.Kube.Prog.{
  Error, Kind, Obj, Prog, check_error, delete, ignore_not_found, patch, ret, send, ◌>>=◌,
}

-- An attempt that returns its error, or goes on.
attempt-Quiet :
    {A : Type 0} (k : Kind) (old new : Obj k) (f : Error → Prog A) (rest : Prog A)
    → is_quiet_call (patch k old new) ≡ true
    → ((e : Error) → Only is_quiet_call (f e))
    → Only is_quiet_call rest
    → Only is_quiet_call (send (patch k old new) >>= λ failed. check_error failed f rest)
attempt-Quiet k old new f rest live g r = search only_rules

attempt_delete-Quiet :
    (p : Pod) (rest : Prog (Option Error))
    → Only is_quiet_call rest
    → Only is_quiet_call (
        send (delete Kind.pod p false) >>= λ failed.
        check_error (ignore_not_found failed) (λ e. ret (some e)) rest)
attempt_delete-Quiet p rest r = search only_rules

pub annotate_each-Quiet :
    (include : Deployment → Bool) (hash : String) (ds : List Deployment)
    → Only is_quiet_call (annotate_each include hash ds)
unfolding annotate_each
annotate_each-Quiet include hash [] = Only-ret none
annotate_each-Quiet include hash (d ∷ ds) =
    Only-if (not (include d)) _ _ (annotate_each-Quiet include hash ds) (
      Only-if (entry root_ca_hash_annotation d.template_annotations == hash) _ _
        (annotate_each-Quiet include hash ds)
        (attempt-Quiet _ _ _ _ _ refl (λ e. Only-ret _) (annotate_each-Quiet include hash ds)))

pub annotate_agw_core-Quiet :
    (namespace release_name hash : String)
    → Only is_quiet_call (annotate_agw_core_deployments_for_root_ca namespace release_name hash)
unfolding annotate_agw_core_deployments_for_root_ca annotate_deployments_for_root_ca
annotate_agw_core-Quiet namespace release_name hash = search (only_rules, annotate_each-Quiet)

pub deployments_ready-Quiet :
    (namespace release_name label : String) (include : Deployment → Bool) (hash : String)
    → Only is_quiet_call (deployments_ready namespace release_name label include hash)
unfolding deployments_ready
deployments_ready-Quiet namespace release_name label include hash = search only_rules

pub host_alias-Quiet :
    (agw : MagmaAgw) (values : Dict String)
    → Only is_quiet_call (reconcile_orc8r_host_alias agw values)
unfolding reconcile_orc8r_host_alias
host_alias-Quiet agw values = search only_rules depth 9

pub inspect_root_ca_sync_job-Quiet :
    (namespace name hash : String) (j : Job)
    → Only is_quiet_call (inspect_root_ca_sync_job namespace name hash j)
unfolding inspect_root_ca_sync_job
inspect_root_ca_sync_job-Quiet namespace name hash j = search only_rules depth 9

pub reconcile_root_ca_sync_job-Quiet :
    (namespace release_name secret_name pvc_name hash : String)
    → Only is_quiet_call
        (reconcile_root_ca_sync_job namespace release_name secret_name pvc_name hash)
unfolding reconcile_root_ca_sync_job
reconcile_root_ca_sync_job-Quiet namespace release_name secret_name pvc_name hash =
    search (only_rules, inspect_root_ca_sync_job-Quiet) depth 9

pub rollout_each-Quiet :
    (release_name hash : String) (ds : List Deployment) (r : Rollout)
    → Only is_quiet_call (rollout_each release_name hash ds r)
unfolding rollout_each
rollout_each-Quiet release_name hash [] r = Only-ret _
rollout_each-Quiet release_name hash (d ∷ ds) r =
    Only-if (not (is_required release_name d)) _ _ (rollout_each-Quiet release_name hash ds r) (
      Only-if (entry ueransim_validation_rollout_hash d.template_annotations == hash) _ _
        (rollout_each-Quiet release_name hash ds _)
        (attempt-Quiet _ _ _ _ _ refl (λ e. Only-ret _)
          (rollout_each-Quiet release_name hash ds _)))

pub rollout-Quiet :
    (namespace release_name hash : String)
    → Only is_quiet_call (reconcile_ueransim_validation_rollout namespace release_name hash)
unfolding reconcile_ueransim_validation_rollout
rollout-Quiet namespace release_name hash =
    search (only_rules, rollout_each-Quiet, deployments_ready-Quiet) depth 12

pub ueransim_ue_pod-Quiet :
    (namespace release_name : String) → Only is_quiet_call (ueransim_ue_pod namespace release_name)
unfolding ueransim_ue_pod
ueransim_ue_pod-Quiet namespace release_name = search only_rules depth 9

pub label_nodes-Quiet :
    (datapath : DatapathSpec) (ns : List Meta)
    → Only is_quiet_call (label_agw_datapath_nodes datapath ns)
unfolding label_agw_datapath_nodes
label_nodes-Quiet datapath [] = Only-ret _
label_nodes-Quiet datapath (n ∷ ns) =
    Only-if (is_labelled datapath n) _ _ (label_nodes-Quiet datapath ns)
      (attempt-Quiet _ _ _ _ _ refl (λ e. Only-ret _) (label_nodes-Quiet datapath ns))

pub unlabel_nodes-Quiet :
    (datapath : DatapathSpec) (ns : List Meta)
    → Only is_quiet_call (remove_agw_datapath_labels datapath ns)
unfolding remove_agw_datapath_labels
unlabel_nodes-Quiet datapath [] = Only-ret _
unlabel_nodes-Quiet datapath (n ∷ ns) =
    Only-if (not (has_label (datapath_ready_label_key datapath) n)) _ _
      (unlabel_nodes-Quiet datapath ns)
      (attempt-Quiet _ _ _ _ _ refl (λ e. Only-ret _) (unlabel_nodes-Quiet datapath ns))

pub delete_stale-Quiet : (ps : List Pod) → Only is_quiet_call (delete_stale ps)
unfolding delete_stale
delete_stale-Quiet [] = Only-ret _
delete_stale-Quiet (p ∷ ps) =
    Only-if (not (p.reason == "NodeAffinity")) _ _ (delete_stale-Quiet ps)
      (attempt_delete-Quiet p _ (delete_stale-Quiet ps))

pub cleanup_stale-Quiet :
    (namespace release_name : String)
    → Only is_quiet_call (cleanup_stale_agw_pods namespace release_name)
unfolding cleanup_stale_agw_pods
cleanup_stale-Quiet namespace release_name = search (only_rules, delete_stale-Quiet) depth 9
