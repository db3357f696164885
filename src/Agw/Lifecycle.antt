-- ===== src/Agw/Lifecycle.antt =====
-- The trust bundle of an AGW and the readiness of its deployments:
-- internal/controller/agw_lifecycle.go.
pub mod Ready
use magma_operator.Base.{
  String, ◌<>◌, ◌==◌, Bool, true, false, not, ◌&&◌, ◌||◌, ℕ, zero, suc, ltb, Option, none, some,
  List, [], ◌∷◌, Dict, entry, insert, is_empty, if◌then◌else◌,
}
use magma_operator.Base.Int.{show_ℕ}
use magma_operator.Kube.Objects.{Deployment}
use magma_operator.Kube.Prog.{
  Kind, Prog, ret, send, ◌>>=◌, Result, ok, err, Error, check, check_error, is_not_found, list, get,
  patch,
}
use magma_operator.Api.Agw.{MagmaAgw}
use magma_operator.Agw.Names.{
  orc8r_namespace, api_host, root_ca_hash_annotation, label_app_instance, label_app_name,
  magma_agw_app_name, is_ueransim_deployment,
}

-- `agwLifecycleState`
pub record LifecycleState : Type 0 where
  pub orc8r_service_ip : String
  pub trust_bundle_hash : String

-- `reconcileOrc8rHostAlias`: the address found, and the values with it.
unfoldable pub reconcile_orc8r_host_alias :
    MagmaAgw → Dict String → Prog (Result (String × Dict String))
reconcile_orc8r_host_alias agw values =
    if entry "orc8r.hostAliases.enabled" values == "false" then ret (ok ("", values)) else do
      found ← send (get Kind.service (orc8r_namespace agw) (api_host agw))
      check found (λ e. if is_not_found e then ret (ok ("", values)) else ret (err e))
          (λ svc.
            if is_empty svc.cluster_ip || svc.cluster_ip == "None"
            then ret (ok ("", values))
            else ret (
                ok (
                  svc.cluster_ip,
                  insert "orc8r.hostAliases.ip" svc.cluster_ip
                      (insert "orc8r.hostAliases.enabled" "true" values),
                )))

-- The labels by which the deployments and pods of a release are listed.
abbrev pub release_labels : String → Dict String
release_labels release_name =
    (label_app_instance, release_name) ∷ (label_app_name, magma_agw_app_name) ∷ []

-- A deployment with one annotation of its pod template set.
abbrev pub annotate : String → String → Deployment → Deployment
annotate key value d = record d { template_annotations = insert key value d.template_annotations }

-- The loop of `annotateDeploymentsForRootCA`
unfoldable pub annotate_each : (Deployment → Bool) → String → List Deployment → Prog (Option Error)
annotate_each include hash [] = ret none
annotate_each include hash (d ∷ ds) =
    let rest = annotate_each include hash ds in
    if not (include d)
    then rest
    else if entry root_ca_hash_annotation d.template_annotations == hash
    then rest
    else do
      failed ← send (patch Kind.deployment d (annotate root_ca_hash_annotation hash d))
      check_error failed (λ e. ret (some e)) rest

-- `annotateDeploymentsForRootCA`
unfoldable pub annotate_deployments_for_root_ca :
    String → String → String → (Deployment → Bool) → Prog (Option Error)
annotate_deployments_for_root_ca namespace release_name hash include =
    if is_empty hash then ret none else do
      found ← send (list Kind.deployment (some namespace) (release_labels release_name))
      check found (λ e. ret (some e)) (annotate_each include hash)

-- `annotateAGWCoreDeploymentsForRootCA`
unfoldable pub annotate_agw_core_deployments_for_root_ca :
    String → String → String → Prog (Option Error)
annotate_agw_core_deployments_for_root_ca namespace release_name hash =
    annotate_deployments_for_root_ca namespace release_name hash
      (λ d. not (is_ueransim_deployment d.meta.name))

-- The replicas that a deployment asks for.
abbrev pub desired_replicas : Deployment → ℕ
desired_replicas d = elim d.replicas [ none ↦ 1 | some n ↦ n ]

-- Why one included deployment is not ready, if it is not.
unfoldable pub deployment_blocker : String → String → String → Deployment → Option String
deployment_blocker namespace label required_hash d =
    let what = label <> " deployment " <> namespace <> "/" <> d.meta.name in
    if not (is_empty required_hash)
      && not (entry root_ca_hash_annotation d.template_annotations == required_hash)
    then some ("waiting for " <> what <> " root CA rollout annotation")
    else if ltb d.observed_generation d.meta.generation
    then some ("waiting for " <> what <> " controller observation")
    else if ltb d.ready_replicas (desired_replicas d)
        || ltb d.available_replicas (desired_replicas d)
    then some (
        "waiting for "
        <> what
        <> " readiness: "
        <> show_ℕ d.ready_replicas
        <> "/"
        <> show_ℕ (desired_replicas d)
        <> " ready")
    else none

-- The loop of `deploymentsReady`, with the count of deployments that were included.
unfoldable pub check_deployments :
    String → String → String → String → (Deployment → Bool) → List Deployment → ℕ → Bool × String
check_deployments namespace release_name label required_hash include [] matched = elim matched [
  | zero ↦ (
    false,
    "waiting for " <> label <> " deployments for release " <> namespace <> "/" <> release_name,
  )
  | suc _ ↦ (true, label <> " deployments are ready")
]
check_deployments namespace release_name label required_hash include (d ∷ ds) matched =
    let rest =
      check_deployments namespace release_name label required_hash include ds
        (if include d then suc matched else matched) in
    if not (include d) then rest else elim (deployment_blocker namespace label required_hash d) [
      | none ↦ rest
      | some message ↦ (false, message)
    ]

-- `deploymentsReady`
unfoldable pub deployments_ready :
    String → String → String → (Deployment → Bool) → String → Prog (Result (Bool × String))
deployments_ready namespace release_name label include required_hash = do
  found ← send (list Kind.deployment (some namespace) (release_labels release_name))
  check found (λ e. ret (err e))
      (λ ds. ret (ok (check_deployments namespace release_name label required_hash include ds 0)))

-- `updateAGWLifecycleStatus`
abbrev pub update_agw_lifecycle_status : MagmaAgw → LifecycleState → MagmaAgw
update_agw_lifecycle_status agw state = record agw {
  status = record (agw.status) {
    orc8r_service_ip = state.orc8r_service_ip;
    trust_bundle_hash = state.trust_bundle_hash;
  };
}
