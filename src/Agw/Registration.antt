-- ===== src/Agw/Registration.antt =====
-- The gateway record of an AGW in Orc8r: `reconcileAGWGatewayRegistration` and
-- `reconcileAGWGatewayDeregistration` of internal/controller/agw_identity.go.
use magma_operator.Base.{
  String, ◌<>◌, ◌==◌, Bool, true, false, not, ◌||◌, ltb, Option, none, some, List, [], ◌∷◌, entry,
  is_empty, if◌then◌else◌,
}
use magma_operator.Kube.Objects.{Job, Container}
use magma_operator.Kube.Prog.{
  Kind, Prog, ret, send, ◌>>=◌, Error, new_error, check, check_error, is_not_found,
  ignore_not_found, get, delete, create,
}
use magma_operator.Kube.Library.{Library}
use magma_operator.Api.Agw.{MagmaAgw}
use magma_operator.Agw.Names.{
  orc8r_namespace, nms_cert_secret_name, api_host, magmalte_deployment_name,
  gateway_registration_enabled, Stage, waiting, passed, failure,
}
use magma_operator.Agw.Jobs.{
  payload_annotation, agw_gateway_payload, registration_job, deregistration_job,
}
use magma_operator.Agw.Identity.{IdentityState}

-- `(bool, string, error)`
pub record Registered : Type 0 where
  pub registered : Bool
  pub reason : String
  pub error : Option Error

abbrev pub not_yet : String → Registered
not_yet reason = record { registered = false; reason = reason; error = none }

abbrev pub refused : String → Error → Registered
refused reason e = record { registered = false; reason = reason; error = some e }

-- `if len(containers) == 0 { … }`, and what is done with `Containers[0].Image`.
abbrev pub with_first_image : {A : Type 0} → List Container → A → (String → A) → A
with_first_image [] empty k = empty
with_first_image (c ∷ cs) empty k = k c.image

-- What `reconcileAGWGatewayRegistration` does with a job that exists.
unfoldable pub inspect_registration_job : String → String → String → Job → Prog Registered
inspect_registration_job namespace job_name payload_hash existing =
    if not (entry payload_annotation existing.meta.annotations == payload_hash)
    then (do
      failed ← send (delete Kind.job existing true)
      check_error (ignore_not_found failed)
          (λ e. ret (refused "GatewayRegistrationJobDeleteFailed" e))
          (ret (not_yet "GatewayRegistrationJobReplacing")))
    else if ltb 0 existing.succeeded
    then ret (record { registered = true; reason = "GatewayRegistered"; error = none })
    else if ltb 0 existing.failed
    then ret (
        refused "GatewayRegistrationJobFailed"
          (new_error ("gateway registration job " <> namespace <> "/" <> job_name <> " failed")))
    else ret (not_yet "GatewayRegistrationJobRunning")

-- What `reconcileAGWGatewayDeregistration` does with a job that exists.
unfoldable pub inspect_deregistration_job : String → String → Job → Stage
inspect_deregistration_job namespace job_name existing =
    let message = "gateway deregistration job " <> namespace <> "/" <> job_name <> " failed" in
    if ltb 0 existing.succeeded
    then passed "GatewayDeregistered" "AGW gateway record was removed from Orc8r/NMS"
    else if ltb 0 existing.failed
    then failure "GatewayDeregistrationJobFailed" (new_error message)
    else waiting "GatewayDeregistrationJobRunning"
        ("waiting for gateway deregistration job " <> namespace <> "/" <> job_name)

-- The job of `reconcileAGWGatewayDeregistration`, read or created.
unfoldable pub obtain_deregistration_job : MagmaAgw → String → Prog Stage
obtain_deregistration_job agw image = do
  let namespace = orc8r_namespace agw
  let job_name = agw.meta.name <> "-delete-gateway"
  found ← send (get Kind.job namespace job_name)
  check found
      (λ e.
        if not (is_not_found e) then ret (failure "GatewayDeregistrationJobReadFailed" e) else do
          failed ← send (
              create Kind.job (
                deregistration_job namespace job_name image (nms_cert_secret_name agw)
                  (api_host agw) agw.spec.network_id agw.spec.access_gateway_id))
          check_error failed (λ e'. ret (failure "GatewayDeregistrationJobCreateFailed" e'))
              (ret (
                waiting "GatewayDeregistrationJobCreated"
                  ("created gateway deregistration job " <> namespace <> "/" <> job_name))))
      (λ existing. ret (inspect_deregistration_job namespace job_name existing))

-- The part of `reconcileAGWGatewayDeregistration` after its guards.
unfoldable pub deregister_gateway : MagmaAgw → Prog Stage
deregister_gateway agw = do
  let namespace = orc8r_namespace agw
  let secret_name = nms_cert_secret_name agw
  cert_secret ← send (get Kind.secret namespace secret_name)
  check cert_secret
      (λ e.
        if is_not_found e
        then ret (
            waiting "WaitingForNMSCertSecret" (
              "waiting for NMS cert Secret " <> namespace <> "/" <> secret_name
              <> " before gateway deregistration"))
        else ret (failure "NMSCertSecretReadFailed" e))
      (λ _. do
        magmalte ← send (get Kind.deployment namespace magmalte_deployment_name)
        check magmalte
            (λ e.
              if is_not_found e
              then ret (
                  waiting "WaitingForMagmalte" "waiting for magmalte before gateway deregistration")
              else ret (failure "MagmalteReadFailed" e))
            (λ m.
              with_first_image m.containers
                (ret (waiting "MagmalteImageUnavailable" "magmalte deployment has no containers"))
                (obtain_deregistration_job agw)))

-- `reconcileAGWGatewayDeregistration`
unfoldable pub reconcile_agw_gateway_deregistration : MagmaAgw → Prog Stage
reconcile_agw_gateway_deregistration agw =
    if not agw.spec.gateway_registration.delete_on_removal
    then ret (passed "GatewayDeregistrationSkipped" "gatewayRegistration.deleteOnRemoval is false")
    else if not (gateway_registration_enabled agw.spec.gateway_registration)
    then ret (passed "GatewayDeregistrationSkipped" "gateway registration is disabled")
    else if is_empty agw.spec.network_id || is_empty agw.spec.access_gateway_id
    then ret (
        failure "GatewayDeregistrationInvalid"
          (new_error "gateway deregistration requires spec.networkID and spec.accessGatewayID"))
    else deregister_gateway agw

module _ (L : Library) where
  -- The job of `reconcileAGWGatewayRegistration`, read or created.
  unfoldable pub obtain_registration_job : MagmaAgw → IdentityState → String → Prog Registered
  obtain_registration_job agw identity image = do
    let namespace = orc8r_namespace agw
    let job_name = agw.meta.name <> "-register-gateway"
    check (agw_gateway_payload L agw identity.hardware_id identity.public_key_b64)
        (λ e. ret (refused "GatewayPayloadInvalid" e))
        (λ payload. do
          let payload_hash = L.sha256_hex payload
          found ← send (get Kind.job namespace job_name)
          check found
              (λ e.
                if not (is_not_found e)
                then ret (refused "GatewayRegistrationJobReadFailed" e)
                else do
                  failed ← send (
                      create Kind.job (
                        registration_job L namespace job_name image (nms_cert_secret_name agw)
                          (api_host agw) agw.spec.network_id payload payload_hash))
                  check_error failed (λ e'. ret (refused "GatewayRegistrationJobCreateFailed" e'))
                      (ret (not_yet "GatewayRegistrationJobCreated")))
              (inspect_registration_job namespace job_name payload_hash))

  -- The part of `reconcileAGWGatewayRegistration` after its guards.
  unfoldable pub register_gateway : MagmaAgw → IdentityState → Prog Registered
  register_gateway agw identity = do
    let namespace = orc8r_namespace agw
    cert_secret ← send (get Kind.secret namespace (nms_cert_secret_name agw))
    check cert_secret
        (λ e.
          if is_not_found e
          then ret (not_yet "WaitingForNMSCertSecret")
          else ret (refused "NMSCertSecretReadFailed" e))
        (λ _. do
          magmalte ← send (get Kind.deployment namespace magmalte_deployment_name)
          check magmalte
              (λ e.
                if is_not_found e
                then ret (not_yet "WaitingForMagmalte")
                else ret (refused "MagmalteReadFailed" e))
              (λ m.
                with_first_image m.containers (ret (not_yet "MagmalteImageUnavailable"))
                  (obtain_registration_job agw identity)))

  -- `reconcileAGWGatewayRegistration`
  unfoldable pub reconcile_agw_gateway_registration : MagmaAgw → IdentityState → Prog Registered
  reconcile_agw_gateway_registration agw identity =
      if not (gateway_registration_enabled agw.spec.gateway_registration)
      then ret (not_yet "GatewayRegistrationDisabled")
      else if is_empty agw.spec.network_id
      then ret
          (refused "NetworkIDRequired" (new_error "gateway registration requires spec.networkID"))
      else if is_empty agw.spec.access_gateway_id
      then ret (
          refused "AccessGatewayIDRequired"
            (new_error "gateway registration requires spec.accessGatewayID"))
      else register_gateway agw identity
