-- ===== src/Tests/Routines.antt =====
-- Theorems about jobs, numbers and texts at concrete inputs.
use Prim.Native.String.{len}
use magma_operator.Agw.Identity.{IdentityState, mark_uuid}
use magma_operator.Agw.Identity.HardwareId.{byte_at, byte_at-mark_uuid, change, uuid_byte}
use magma_operator.Agw.Jobs.{agw_gateway_payload}
use magma_operator.Agw.Names.{orc8r_namespace}
use magma_operator.Agw.OneShot.Settle.{all_ended, is_over}
use magma_operator.Agw.OneShot.Step.{Steps}
use magma_operator.Agw.OneShot.Copying.{
  copied, is_copying, reconcile_root_ca_sync_job-Refines, reconcile_root_ca_sync_job-Settles,
}
use magma_operator.Agw.OneShot.Registering.{
  is_registering, obtain_registration_job-Refines, registered_left,
}
use magma_operator.Agw.RootCa.{root_ca_sync_job}
use magma_operator.Agw.Status.{condition_message}
use magma_operator.Agw.Status.Message.{len-condition_message}
use magma_operator.Agw.Validation.{ueransim_validation_job}
use magma_operator.Agw.Validation.Deadline.{ueransim_validation_job-deadline}
use magma_operator.Api.Agw.{MagmaAgw}
use magma_operator.Base.{
  List, Option, [], arith, false, if◌then◌else◌, ltb, none, refl, some, true, ℕ, ◌+◌, ◌-◌, ◌∷◌, ◌≡◌,
  ◌≤◌,
}
use magma_operator.Base.Int.{negsuc, pos}
use magma_operator.Cmd.{
  SetupStep, add_healthz_check, add_readyz_check, default_flags, main, manager_options, new_manager,
  set_up_agw, set_up_orc8r, setup_steps, start,
}
use magma_operator.Cmd.Start.{AreSafe, IsIn, Succeed, main-Starts}
use magma_operator.Kube.Objects.{Job}
use magma_operator.Kube.Prog.{Error, new_error, ok}
use magma_operator.Native.Values.{escape_value_key, unescape_value_key}
use magma_operator.Native.Values.Keys.{has_no_backslash, unescape_value_key-escape_value_key}
use magma_operator.Tests.Sample.{sample_agw, sample_library}

len-condition_message_example : len (condition_message "waiting for magmalte") ≤ 32013
len-condition_message_example = len-condition_message "waiting for magmalte"

unescape_value_key-escape_value_key_example :
    unescape_value_key (escape_value_key "kubernetes.io/hostname") ≡ "kubernetes.io/hostname"
unfolding has_no_backslash
unescape_value_key-escape_value_key_example =
    unescape_value_key-escape_value_key "kubernetes.io/hostname" refl

abbrev patient_agw : MagmaAgw
patient_agw = record sample_agw {
  spec = record (sample_agw.spec) {
    ueransim_validation = record (sample_agw.spec.ueransim_validation) {
      timeout_seconds = pos 2147483600;
    };
  };
}

ueransim_validation_job-deadline_example :
    (ueransim_validation_job patient_agw "agwc" "job" "pod" "hash").active_deadline_seconds
    ≡ some (
        if ltb 2147483600 2147483588
        then pos (2147483600 + 60)
        else negsuc (4294967295 - (2147483600 + 60)))
ueransim_validation_job-deadline_example =
    ueransim_validation_job-deadline patient_agw "agwc" "job" "pod" "hash" 2147483600 refl
      (omega arith) (omega arith)

-- A job that copied another certificate, and a job of another name.
abbrev some_jobs : List Job
some_jobs =
    root_ca_sync_job "ns" "agwc-rootca-sync" "agwc" "certs" "claim" "h0"
    ∷ root_ca_sync_job "ns" "other-rootca-sync" "other" "certs" "claim" "h1"
    ∷ []

reconcile_root_ca_sync_job-Refines_example :
    Steps "ns" "agwc-rootca-sync"
      (is_copying "h1")
      some_jobs
      (copied "ns" "agwc" "certs" "claim" "h1" some_jobs)
reconcile_root_ca_sync_job-Refines_example =
    reconcile_root_ca_sync_job-Refines "ns" "agwc" "certs" "claim" "h1" some_jobs

abbrev copied_once : List Job → List Job
copied_once s = all_ended (copied "ns" "agwc" "certs" "claim" "h1" s).1

reconcile_root_ca_sync_job-Settles_example :
    is_over (copied "ns" "agwc" "certs" "claim" "h1" (copied_once (copied_once some_jobs))).0 ≡ true
reconcile_root_ca_sync_job-Settles_example =
    reconcile_root_ca_sync_job-Settles "ns" "agwc" "certs" "claim" "h1" some_jobs

abbrev known_gateway : IdentityState
known_gateway = record {
  secret_name = "agw-bootstrap-challenge-key";
  hardware_id = "hw1";
  private_key_b64 = "key";
  public_key_b64 = "pub";
  public_key_hash = "hash";
  gateway_registered = false;
}

payload_made : agw_gateway_payload sample_library sample_agw "hw1" "pub" ≡ ok "{}"
unfolding agw_gateway_payload
payload_made = refl

obtain_registration_job-Refines_example :
    Steps
      (orc8r_namespace sample_agw)
      "gw-register-gateway"
      (is_registering sample_library "{}")
      some_jobs
      (registered_left sample_library sample_agw known_gateway "image" "{}" some_jobs)
obtain_registration_job-Refines_example =
    obtain_registration_job-Refines sample_library sample_agw known_gateway "image" "{}"
      payload_made some_jobs

abbrev sample_bytes : List ℕ
sample_bytes = 1 ∷ 2 ∷ 3 ∷ 4 ∷ 5 ∷ 6 ∷ 255 ∷ 8 ∷ 255 ∷ []

byte_at-mark_uuid_example :
    byte_at (mark_uuid sample_bytes) 6 ≡ change (uuid_byte 6) (byte_at sample_bytes 6)
byte_at-mark_uuid_example = byte_at-mark_uuid sample_bytes 6 (
  omega arith,
  (
    omega arith,
    (
      omega arith,
      (omega arith, (omega arith, (omega arith, (omega arith, (omega arith, (omega arith, tt)))))),
    ),
  ),
)

-- Every call succeeds but the last check.
abbrev no_ready_check : SetupStep → Option Error
no_ready_check add_readyz_check = some (new_error "no check")
no_ready_check _ = none

main-Starts_example :
    (IsIn start (main default_flags no_ready_check).called
      → Succeed no_ready_check (
          new_manager (manager_options default_flags)
          ∷ set_up_orc8r
          ∷ set_up_agw
          ∷ add_healthz_check
          ∷ add_readyz_check
          ∷ []))
    × ((main default_flags no_ready_check).code ≡ 0
        → Succeed no_ready_check (setup_steps default_flags))
    × AreSafe default_flags (manager_options default_flags)
main-Starts_example = main-Starts default_flags no_ready_check
