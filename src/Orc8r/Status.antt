-- ===== src/Orc8r/Status.antt =====
-- The status of a `MagmaOrc8r`: `updateOrc8rStatus` of
-- internal/controller/magmaorc8r_controller.go.
pub mod Reports
use magma_operator.Agw.Status.{Outcome, condition_message, done, failed_with, is_true, retry_after}
use magma_operator.Api.Orc8r.{MagmaOrc8r}
use magma_operator.Base.{Option, String, if◌then◌else◌, none, some, ◌<>◌}
use magma_operator.Base.Int.{show, ℤ}
use magma_operator.Kube.Library.{Library}
use magma_operator.Kube.Objects.{ConditionStatus}
use magma_operator.Kube.Prog.{Kind, Prog, check_error, is_conflict, ret, send, update_status, ◌>>=◌}

unfoldable pub nms_url : Option ℤ → String
nms_url none = "http://<node-ip>:<magmalte-nodeport>/user/login"
nms_url (some port) = "http://<node-ip>:" <> show port <> "/user/login"

module _ (L : Library) where
  -- The resource as the status update sends it.
  unfoldable pub with_orc8r_ready :
      MagmaOrc8r → String → ConditionStatus → String → String → MagmaOrc8r
  with_orc8r_ready orc8r release_name status reason message = record orc8r {
    status = record {
      observed_generation = orc8r.meta.generation;
      release_name = release_name;
      release_namespace = orc8r.meta.namespace;
      nms_url = nms_url orc8r.spec.nms_node_port;
      conditions = L.set_status_condition orc8r.status.conditions (record {
        type = "Ready";
        status = status;
        reason = reason;
        message = condition_message message;
        observed_generation = orc8r.meta.generation;
      });
    };
  }

  -- `updateOrc8rStatus`
  unfoldable pub update_orc8r_status :
      MagmaOrc8r → String → ConditionStatus → String → String → Prog Outcome
  update_orc8r_status orc8r release_name status reason message = do
    failed ←
        send (update_status Kind.orc8r (with_orc8r_ready orc8r release_name status reason message))
    check_error failed (λ e. if is_conflict e then ret (retry_after 5) else ret (failed_with e))
        (if is_true status then ret done else ret (retry_after 120))
