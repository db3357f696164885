-- ===== src/Agw/Validation.antt =====
-- The one-shot UERANSIM validation: internal/controller/agw_validation.go.
pub mod Deadline
use magma_operator.Base.{
  String, ◌<>◌, ◌==◌, Bool, true, false, not, ◌&&◌, ◌||◌, none, some, List, [], ◌∷◌, entry,
  or_default, if◌then◌else◌,
}
use magma_operator.Base.Int.{ℤ, pos, add_int32, not_positive, show}
use magma_operator.Kube.Objects.{Job, Pod, Deployment, new_meta}
use magma_operator.Kube.Prog.{
  Kind, Prog, ret, send, ◌>>=◌, Result, ok, err, check, check_error, list, patch,
}
use magma_operator.Api.Agw.{MagmaAgw}
use magma_operator.Agw.Names.{
  label_app_instance, label_app_component, label_app_managed_by, managed_by_magma_operator,
  shell_exit_on_error_command, Stage, waiting, passed, failure,
}
use magma_operator.Agw.Lifecycle.{annotate, deployments_ready, release_labels}

abbrev pub ueransim_validation_hash : String
ueransim_validation_hash = "magma.infra.don/ueransim-validation-hash"

abbrev pub ueransim_validation_rollout_hash : String
ueransim_validation_rollout_hash = "magma.infra.don/ueransim-validation-rollout-hash"

abbrev pub ueransim_validation_service_acct : String
ueransim_validation_service_acct = "magma-operator-ueransim-validation"

abbrev pub ueransim_validation_component : String
ueransim_validation_component = "ueransim-validation"

abbrev validation_script : String
validation_script =
    "deadline=$(( $(date +%s) + TIMEOUT_SECONDS ))\necho \"Validating UE pod\"\nwhile [ \"$(date +%s)\" -lt \"$deadline\" ]; do\n  ue_ip=\"$(ip -4 -o addr show uesimtun0 2>/dev/null | awk '{print $4}' | cut -d/ -f1 || true)\"\n  if [ -n \"$ue_ip\" ]; then\n    echo \"uesimtun0 is up with $ue_ip\"\n    ping -I uesimtun0 -c 3 -W 3 \"$PING_HOST\"\n    if [ -n \"$IPERF_SERVER\" ]; then\n      iperf3 -c \"$IPERF_SERVER\" -p \"$IPERF_PORT\" -B \"$ue_ip\" -t 5\n    fi\n    exit 0\n  fi\n  sleep 5\ndone\necho \"Timed out waiting for uesimtun0\"\nexit 1"

-- `if v <= 0 { v = d }`
abbrev positive_or : ℤ → ℤ → ℤ
positive_or v d = if not_positive v then d else v

-- `ueransimValidationJob`, before its owner is set
unfoldable pub ueransim_validation_job : MagmaAgw → String → String → String → String → Job
ueransim_validation_job agw release_name job_name ue_pod spec_hash =
    let v = agw.spec.ueransim_validation in
    let timeout = positive_or v.timeout_seconds (pos 180) in
    let iperf_port = positive_or v.iperf_port (pos 5201) in
    record {
      meta = record (new_meta agw.meta.namespace job_name) {
        labels =
            (label_app_component, ueransim_validation_component)
            ∷ (label_app_instance, release_name)
            ∷ (label_app_managed_by, managed_by_magma_operator)
            ∷ [];
        annotations = (ueransim_validation_hash, spec_hash) ∷ [];
      };
      backoff_limit = some 0;
      ttl_seconds_after_finished = none;
      active_deadline_seconds = some (add_int32 timeout 60);
      service_account_name = ueransim_validation_service_acct;
      restart_policy = "Never";
      containers =
          record {
            name = "validate";
            image = "registry.k8s.io/kubectl:v1.36.2";
            image_pull_policy = "IfNotPresent";
            command = [];
            args =
                "exec"
                ∷ "-n"
                ∷ agw.meta.namespace
                ∷ ue_pod
                ∷ "--"
                ∷ "env"
                ∷ ("TIMEOUT_SECONDS=" <> show timeout)
                ∷ ("PING_HOST=" <> or_default v.ping_host "4.2.2.2")
                ∷ ("IPERF_SERVER=" <> v.iperf_server)
                ∷ ("IPERF_PORT=" <> show iperf_port)
                ∷ "sh"
                ∷ shell_exit_on_error_command
                ∷ validation_script
                ∷ [];
            env = [];
            volume_mounts = [];
          }
          ∷ [];
      volumes = [];
      succeeded = 0;
      failed = 0;
    }

abbrev pub gnb_name : String → String
gnb_name release_name = release_name <> "-ueransim-gnb"

abbrev pub ue_name : String → String
ue_name release_name = release_name <> "-ueransim-ue"

-- `required[deployment.Name]`: the two deployments that are rolled out.
abbrev pub is_required : String → Deployment → Bool
is_required release_name d =
    d.meta.name == gnb_name release_name || d.meta.name == ue_name release_name

-- What the loop over the deployments has seen: which of the two, and whether one was patched.
pub record Rollout : Type 0 where
  pub gnb_found : Bool
  pub ue_found : Bool
  pub patched : Bool

abbrev mark_found : String → Deployment → Rollout → Rollout
mark_found release_name d r = record r {
  gnb_found = r.gnb_found || d.meta.name == gnb_name release_name;
  ue_found = r.ue_found || d.meta.name == ue_name release_name;
}

-- The loop of `reconcileUERANSIMValidationRollout`
unfoldable pub rollout_each : String → String → List Deployment → Rollout → Prog (Result Rollout)
rollout_each release_name hash [] r = ret (ok r)
rollout_each release_name hash (d ∷ ds) r =
    let skip = rollout_each release_name hash ds r in
    let seen = mark_found release_name d r in
    let unpatched = rollout_each release_name hash ds seen in
    let go_on = rollout_each release_name hash ds (record seen { patched = true }) in
    if not (is_required release_name d)
    then skip
    else if entry ueransim_validation_rollout_hash d.template_annotations == hash
    then unpatched
    else do
      failed ← send (patch Kind.deployment d (annotate ueransim_validation_rollout_hash hash d))
      check_error failed (λ e. ret (err e)) go_on

-- `reconcileUERANSIMValidationRollout`. Of two missing deployments the source reports either one,
-- as the order of a Go map falls; here it is the gNB.
unfoldable pub reconcile_ueransim_validation_rollout : String → String → String → Prog Stage
reconcile_ueransim_validation_rollout namespace release_name validation_hash = do
  found ← send (list Kind.deployment (some namespace) (release_labels release_name))
  check found (λ e. ret (failure "UERANSIMValidationRolloutReadFailed" e))
      (λ ds. do
        rolled ←
            rollout_each release_name validation_hash ds
              (record { gnb_found = false; ue_found = false; patched = false })
        check rolled (λ e. ret (failure "UERANSIMValidationRolloutPatchFailed" e))
            (λ r.
              if not (r.gnb_found && r.ue_found)
              then ret (
                  waiting "WaitingForUERANSIMDeployment" (
                    "waiting for UERANSIM deployment "
                    <> namespace
                    <> "/"
                    <> (if r.gnb_found then ue_name release_name else gnb_name release_name)
                    <> " before one-shot validation"))
              else if r.patched
              then ret (
                  waiting "UERANSIMValidationRolloutStarted"
                    "recreated UERANSIM gNB and UE deployments for one-shot validation")
              else do
                readiness ←
                    deployments_ready namespace release_name "UERANSIM validation"
                      (is_required release_name) ""
                check readiness (λ e. ret (failure "UERANSIMValidationRolloutReadinessFailed" e))
                    (λ (ready, message).
                      if not ready
                      then ret (waiting "WaitingForUERANSIMValidationRollout" message)
                      else ret (
                          passed "UERANSIMValidationRolloutReady"
                            "UERANSIM gNB and UE deployments were recreated and are ready"))))

abbrev first_running : List Pod → String
first_running [] = ""
first_running (p ∷ ps) =
    let rest = first_running ps in if p.phase == "Running" then p.meta.name else rest

-- `ueransimUEPod`: the name of a running pod, or "".
unfoldable pub ueransim_ue_pod : String → String → Prog (Result String)
ueransim_ue_pod namespace release_name = do
  found ← send (
      list Kind.pod (some namespace)
        ((label_app_instance, release_name) ∷ (label_app_component, "ueransim-ue") ∷ []))
  check found (λ e. ret (err e)) (λ pods. ret (ok (first_running pods)))
