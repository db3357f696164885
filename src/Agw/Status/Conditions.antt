-- ===== src/Agw/Status/Conditions.antt =====
-- The conditions of a `MagmaAGW` after a status update:
-- internal/controller/magmaagw_controller.go.
use magma_operator.Agw.Status.{condition_message, set_agw_condition, with_ready_condition}
use magma_operator.Api.Agw.{MagmaAgw}
use magma_operator.Base.{String, if◌then◌else◌, some, ◌==◌, ◌≡◌}
use magma_operator.Kube.Lawful.{IsLawful}
use magma_operator.Kube.Library.{Library, find_condition}
use magma_operator.Kube.Objects.{ConditionStatus}

module _ {L : Library} (lawful : IsLawful L) where
  -- Where `SetStatusCondition` behaves as documented: the resource that a status update sends has
  -- the condition `Ready` with the status, reason and shortened message of the update and the
  -- generation that was reconciled, and every condition of another type is as it was.
  pub find_condition-with_ready_condition :
      (agw : MagmaAgw) (release_name : String) (s : ConditionStatus) (reason message type : String)
      → find_condition
          (with_ready_condition L agw release_name s reason message).status.conditions
          type
        ≡ (if "Ready" == type
            then some (record {
              type = "Ready";
              status = s;
              reason = reason;
              message = condition_message message;
              observed_generation = agw.meta.generation;
            })
            else find_condition agw.status.conditions type)
  unfolding with_ready_condition set_agw_condition
  find_condition-with_ready_condition agw release_name s reason message type =
      lawful.find-set _ _ type
