-- ===== src/Agw/Order/Registered.antt =====
-- When `reconcileAGWGatewayRegistration` of internal/controller/agw_identity.go says that a gateway
-- is registered.
use magma_operator.Agw.Deletion.Facts.{Was}
use magma_operator.Agw.Identity.{IdentityState}
use magma_operator.Agw.Jobs.{agw_gateway_payload, payload_annotation, registration_job}
use magma_operator.Agw.Names.{
  api_host, gateway_registration_enabled, magmalte_deployment_name, nms_cert_secret_name,
  orc8r_namespace,
}
use magma_operator.Agw.Order.{Quiet, SawRegistration, WasRegistered, registration_job_name}
use magma_operator.Agw.Registration.{
  inspect_registration_job, not_yet, obtain_registration_job, reconcile_agw_gateway_registration,
  register_gateway, with_first_image,
}
use magma_operator.Api.Agw.{MagmaAgw}
use magma_operator.Base.{
  List, String, [], arith, entry, inl, is_empty, ltb, not, refl, true, ◌<◌, ◌==◌, ◌∷◌, ◌≡◌,
}
use magma_operator.Kube.Frame.{Sat-weaken}
use magma_operator.Kube.Library.{Library}
use magma_operator.Kube.Objects.{Container, Job}
use magma_operator.Kube.Prog.{Kind, create, delete, get, ignore_not_found, is_not_found, ret}
use magma_operator.Kube.Sat.{History, Sat, Sat-check, Sat-check_error, Sat-if, Sat-ret, Sat-send}

module _ (L : Library) where
  inspect_registration_job-WasRegistered :
      (namespace name hash : String) (j : Job) (h : History)
      → ((entry payload_annotation j.meta.annotations == hash) ≡ true
          → 0 < j.succeeded
          → Was (SawRegistration namespace name hash) h)
      → Sat Quiet
          (λ h' r. r.registered ≡ true → Was (SawRegistration namespace name hash) h')
          h
          (inspect_registration_job namespace name hash j)
  unfolding inspect_registration_job
  inspect_registration_job-WasRegistered namespace name hash j h seen =
      Sat-if (not (entry payload_annotation j.meta.annotations == hash)) h _ _
        (λ _. Sat-send h (delete Kind.job j true) _ refl (λ failed.
          Sat-check_error (ignore_not_found failed) _ _ _ (λ e _. Sat-ret _ _ (λ bad. cc))
            (λ _. Sat-ret _ _ (λ bad. cc))))
        (λ same.
          Sat-if (ltb 0 j.succeeded) h _ _
            (λ succeeded. Sat-ret h _ (λ _. seen (ground arith) (ground arith)))
            (λ _.
              Sat-if (ltb 0 j.failed) h _ _ (λ _. Sat-ret h _ (λ bad. cc))
                (λ _. Sat-ret h _ (λ bad. cc))))

  obtain_registration_job-WasRegistered :
      (agw : MagmaAgw) (identity : IdentityState) (image : String) (h : History)
      → Sat Quiet
          (λ h' r. r.registered ≡ true → WasRegistered L agw h')
          h
          (obtain_registration_job L agw identity image)
  unfolding obtain_registration_job
  obtain_registration_job-WasRegistered agw identity image h =
      Sat-check (agw_gateway_payload L agw identity.hardware_id identity.public_key_b64) h _ _
        (λ e _. Sat-ret h _ (λ bad. cc))
        (λ payload made.
          Sat-send h (get Kind.job (orc8r_namespace agw) (registration_job_name agw)) _ refl (λ r.
            Sat-check r _ _ _
              (λ e _.
                Sat-if (not (is_not_found e)) _ _ _ (λ _. Sat-ret _ _ (λ bad. cc))
                  (λ _.
                    Sat-send _
                      (create Kind.job (
                        registration_job L (orc8r_namespace agw) (registration_job_name agw) image
                          (nms_cert_secret_name agw) (api_host agw) agw.spec.network_id payload
                          (L.sha256_hex payload)))
                      _ refl
                      (λ failed.
                        Sat-check_error failed _ _ _ (λ e' _. Sat-ret _ _ (λ bad. cc))
                          (λ _. Sat-ret _ _ (λ bad. cc)))))
              (λ j found.
                Sat-weaken _ _ (λ _ _ c. c)
                  (λ _ _ seen registered. record {
                    hardware_id = identity.hardware_id;
                    public_key = identity.public_key_b64;
                    payload = payload;
                    made = made;
                    seen = seen registered;
                  })
                  (inspect_registration_job-WasRegistered (orc8r_namespace agw)
                    (registration_job_name agw) (L.sha256_hex payload) j _
                    (λ same succeeded. inl (rw found (refl, refl, same, succeeded)))))))

  first_image-WasRegistered :
      (agw : MagmaAgw) (identity : IdentityState) (cs : List Container) (h : History)
      → Sat Quiet
          (λ h' r. r.registered ≡ true → WasRegistered L agw h')
          h
          (with_first_image cs
            (ret (not_yet "MagmalteImageUnavailable"))
            (obtain_registration_job L agw identity))
  first_image-WasRegistered agw identity [] h = Sat-ret h _ (λ bad. cc)
  first_image-WasRegistered agw identity (c ∷ cs) h =
      obtain_registration_job-WasRegistered agw identity c.image h

  register_gateway-WasRegistered :
      (agw : MagmaAgw) (identity : IdentityState) (h : History)
      → Sat Quiet
          (λ h' r. r.registered ≡ true → WasRegistered L agw h')
          h
          (register_gateway L agw identity)
  unfolding register_gateway
  register_gateway-WasRegistered agw identity h =
      Sat-send h (get Kind.secret (orc8r_namespace agw) (nms_cert_secret_name agw)) _ refl (λ r.
        Sat-check r _ _ _
          (λ e _.
            Sat-if (is_not_found e) _ _ _ (λ _. Sat-ret _ _ (λ bad. cc))
              (λ _. Sat-ret _ _ (λ bad. cc)))
          (λ _ _.
            Sat-send _ (get Kind.deployment (orc8r_namespace agw) magmalte_deployment_name) _ refl
              (λ r'.
                Sat-check r' _ _ _
                  (λ e _.
                    Sat-if (is_not_found e) _ _ _ (λ _. Sat-ret _ _ (λ bad. cc))
                      (λ _. Sat-ret _ _ (λ bad. cc)))
                  (λ m _. first_image-WasRegistered agw identity m.containers _))))

  -- The function `reconcileAGWGatewayRegistration` makes only quiet calls, and says registered only after the
  -- job for the resource's payload was read as succeeded.
  pub reconcile_agw_gateway_registration-WasRegistered :
      (agw : MagmaAgw) (identity : IdentityState) (h : History)
      → Sat Quiet
          (λ h' r. r.registered ≡ true → WasRegistered L agw h')
          h
          (reconcile_agw_gateway_registration L agw identity)
  unfolding reconcile_agw_gateway_registration
  reconcile_agw_gateway_registration-WasRegistered agw identity h =
      Sat-if (not (gateway_registration_enabled agw.spec.gateway_registration)) h _ _
        (λ _. Sat-ret h _ (λ bad. cc))
        (λ _.
          Sat-if (is_empty agw.spec.network_id) h _ _ (λ _. Sat-ret h _ (λ bad. cc))
            (λ _.
              Sat-if (is_empty agw.spec.access_gateway_id) h _ _ (λ _. Sat-ret h _ (λ bad. cc))
                (λ _. register_gateway-WasRegistered agw identity h)))
