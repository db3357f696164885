-- ===== src/Agw/Status.antt =====
-- The status of a `MagmaAGW` and the result of a reconcile:
-- internal/controller/magmaagw_controller.go, and `conditionMessage` of native_runner.go.
pub mod Conditions
pub mod Message
use Prim.Native.String.{len, slice}
use magma_operator.Base.{ℕ, leb, String, ◌<>◌, Bool, true, false, Option, none, some, if◌then◌else◌}
use magma_operator.Kube.Objects.{ConditionStatus, condition_true, condition_false}
use magma_operator.Kube.Prog.{
  Kind, Prog, ret, send, ◌>>=◌, Error, check_error, is_conflict, update_status,
}
use magma_operator.Kube.Library.{Library}
use magma_operator.Api.Agw.{MagmaAgw}
use magma_operator.Agw.Identity.{IdentityState}

-- `(ctrl.Result, error)`, the delay in seconds.
pub record Outcome : Type 0 where
  pub requeue : Bool
  pub requeue_after : ℕ
  pub error : Option Error

abbrev pub done : Outcome
done = record { requeue = false; requeue_after = 0; error = none }

abbrev pub retry_after : ℕ → Outcome
retry_after seconds = record { requeue = false; requeue_after = seconds; error = none }

abbrev pub failed_with : Error → Outcome
failed_with e = record { requeue = false; requeue_after = 0; error = some e }

-- `conditionMessage`, for texts of which the first 32000 bytes end with a whole character: Go cuts
-- after 32000 bytes in any case, and a character that these cut in two is left out here whole.
unfoldable pub condition_message : String → String
condition_message message =
    if leb (len message) 32000 then message else slice message 0 32000 <> "... truncated"

-- `updateAGWStatusDetails`
abbrev pub update_agw_status_details : MagmaAgw → IdentityState → MagmaAgw
update_agw_status_details agw identity = record agw {
  status = record (agw.status) {
    identity_secret_name = identity.secret_name;
    hardware_id = identity.hardware_id;
    challenge_public_key_hash = identity.public_key_hash;
    gateway_registered = identity.gateway_registered;
  };
}

abbrev pub is_true : ConditionStatus → Bool
is_true condition_true = true
is_true _ = false

module _ (L : Library) where
  -- `setAGWCondition`
  unfoldable pub set_agw_condition :
      MagmaAgw → String → ConditionStatus → String → String → MagmaAgw
  set_agw_condition agw type status reason message = record agw {
    status = record (agw.status) {
      conditions = L.set_status_condition agw.status.conditions (record {
        type = type;
        status = status;
        reason = reason;
        message = condition_message message;
        observed_generation = agw.meta.generation;
      });
    };
  }

  -- The resource as the status updates send it.
  unfoldable pub with_ready_condition :
      MagmaAgw → String → ConditionStatus → String → String → MagmaAgw
  with_ready_condition agw release_name status reason message =
      set_agw_condition
        (record agw {
          status = record (agw.status) {
            observed_generation = agw.meta.generation;
            release_name = release_name;
            release_namespace = agw.meta.namespace;
          };
        })
        "Ready" status reason message

  -- `updateAGWStatusWithRequeue`
  unfoldable pub update_agw_status_with_requeue :
      MagmaAgw → String → ConditionStatus → String → String → ℕ → Prog Outcome
  update_agw_status_with_requeue agw release_name status reason message requeue_after = do
    failed ←
        send (update_status Kind.agw (with_ready_condition agw release_name status reason message))
    check_error failed (λ e. if is_conflict e then ret (retry_after 5) else ret (failed_with e))
        (if is_true status then ret done else ret (retry_after requeue_after))

  -- `updateAGWStatus`
  unfoldable pub update_agw_status :
      MagmaAgw → String → ConditionStatus → String → String → Prog Outcome
  update_agw_status agw release_name status reason message =
      update_agw_status_with_requeue agw release_name status reason message 120

  -- `updateAGWReadyStatusWithRequeue`
  unfoldable pub update_agw_ready_status_with_requeue :
      MagmaAgw → String → String → String → ℕ → Prog Outcome
  update_agw_ready_status_with_requeue agw release_name reason message requeue_after = do
    failed ← send (
        update_status Kind.agw
          (with_ready_condition agw release_name condition_true reason message))
    check_error failed (λ e. if is_conflict e then ret (retry_after 5) else ret (failed_with e))
        (ret (retry_after requeue_after))

  -- The status with which a reconcile stops on an error.
  abbrev pub stop : MagmaAgw → String → String → String → Prog Outcome
  stop agw release_name reason message =
      update_agw_status agw release_name condition_false reason message
