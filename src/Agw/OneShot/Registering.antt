-- ===== src/Agw/OneShot/Registering.antt =====
-- The job that registers a gateway is a job that runs once: `reconcileAGWGatewayRegistration` of
-- internal/controller/agw_identity.go.
use magma_operator.Agw.Identity.{IdentityState}
use magma_operator.Agw.Jobs.{agw_gateway_payload, payload_annotation, registration_job}
use magma_operator.Agw.Names.{api_host, nms_cert_secret_name, orc8r_namespace}
use magma_operator.Agw.OneShot.{
  Verdict, broken, find_job, find_job-itself, finished, run-create, run-delete, run-get, run-ret,
  run_with_jobs, waits,
}
use magma_operator.Agw.OneShot.Step.{Steps, Steps-by, Steps-create, Steps-delete, Steps-keep}
use magma_operator.Agw.Registration.{
  Registered, inspect_registration_job, not_yet, obtain_registration_job,
}
use magma_operator.Api.Agw.{MagmaAgw}
use magma_operator.Base.{
  Bool, Bool-cases, List, Option, String, ap, entry, eq_refl, if◌then◌else◌, inl, inr, lookup, ltb,
  none, refl, some, true, ◌<>◌, ◌==◌, ◌∙◌, ◌∷◌, ◌≡◌,
}
use magma_operator.Kube.Library.{Library}
use magma_operator.Kube.Objects.{Job}
use magma_operator.Kube.Prog.{ok}

-- What the registration says of the job.
abbrev pub registration_verdict : Registered → Verdict
registration_verdict r =
    if r.registered
    then finished
    else if r.reason == "GatewayRegistrationJobFailed"
    then broken
    else waits

abbrev pub registration_left : Registered × List Job → Verdict × List Job
registration_left r = (registration_verdict r.0, r.1)

-- The job is for a payload, of which the hash is the version.
abbrev pub is_registering : Library → String → Job → Bool
is_registering L payload j = entry payload_annotation j.meta.annotations == L.sha256_hex payload

module _ (L : Library) (agw : MagmaAgw) (identity : IdentityState) (image payload : String) where
  -- One reconcile of the jobs that there are.
  abbrev pub registered_left : List Job → Verdict × List Job
  registered_left s =
      registration_left (run_with_jobs (obtain_registration_job L agw identity image) s)

  abbrev RegisterSteps : List Job → Verdict × List Job → Type 0
  RegisterSteps s r =
      Steps (orc8r_namespace agw) (agw.meta.name <> "-register-gateway") (is_registering L payload)
        s r

  abbrev fresh_job : Job
  fresh_job =
      registration_job L (orc8r_namespace agw) (agw.meta.name <> "-register-gateway") image
        (nms_cert_secret_name agw) (api_host agw) agw.spec.network_id payload (L.sha256_hex payload)

  create-Steps :
      (j : Job) (s : List Job)
      → find_job (orc8r_namespace agw) (agw.meta.name <> "-register-gateway") s ≡ none
      → j ≡ fresh_job
      → RegisterSteps s (waits, j ∷ s)
  unfolding registration_job entry lookup
  create-Steps j s missing is =
      rw is (Steps-create _ s missing refl refl (eq_refl (L.sha256_hex payload)) refl refl)

  create-there :
      (s : List Job)
      → find_job (orc8r_namespace agw) (agw.meta.name <> "-register-gateway") s ≡ none
      → find_job fresh_job.meta.namespace fresh_job.meta.name s ≡ none
  unfolding registration_job
  create-there s missing = missing

  inspect-Steps :
      (j : Job) (s : List Job)
      → find_job (orc8r_namespace agw) (agw.meta.name <> "-register-gateway") s ≡ some j
      → RegisterSteps s (
          registration_left (
            run_with_jobs
              (inspect_registration_job
                (orc8r_namespace agw)
                (agw.meta.name <> "-register-gateway")
                (L.sha256_hex payload)
                j)
              s))
  unfolding inspect_registration_job
  inspect-Steps j s found = elim (Bool-cases (is_registering L payload j)) [
    | inr other ↦
        Steps-by
          (rw other (
            ap registration_left
              (run-delete _ j j true s (find_job-itself _ _ s j found) ∙ run-ret _ _)))
          (Steps-delete j s found other)
    | inl same ↦
        Steps-by
          (elim (Bool-cases (ltb 0 j.succeeded)) [
            | inl succeeded ↦ rw (same, succeeded) (ap registration_left (run-ret _ s))
            | inr not_yet ↦ elim (Bool-cases (ltb 0 j.failed)) [
              | inl failed ↦ rw (same, not_yet, failed) (ap registration_left (run-ret _ s))
              | inr running ↦ rw (same, not_yet, running) (ap registration_left (run-ret _ s))
            ]
          ])
          (Steps-keep j s found same)
  ]

  by_found :
      (r : Option Job) (s : List Job)
      → agw_gateway_payload L agw identity.hardware_id identity.public_key_b64 ≡ ok payload
      → find_job (orc8r_namespace agw) (agw.meta.name <> "-register-gateway") s ≡ r
      → RegisterSteps s (registered_left s)
  unfolding obtain_registration_job
  by_found none s made missing =
      Steps-by
        (rw made (
          ap registration_left (
            run-get (orc8r_namespace agw) (agw.meta.name <> "-register-gateway") _ s none missing
            ∙ run-create _ _ s (create-there s missing)
            ∙ run-ret _ _)))
        (create-Steps _ s missing refl)
  by_found (some j) s made found =
      Steps-by
        (rw made (
          ap registration_left (
            run-get (orc8r_namespace agw) (agw.meta.name <> "-register-gateway") _ s (some j)
              found)))
        (inspect-Steps j s found)

  -- Where the gateway has a payload: against a server that holds jobs under their namespaces and
  -- names, the part of `reconcileAGWGatewayRegistration` that reads or creates the job refines one
  -- step of a job that runs once for each payload: it says of the job of its namespace and name
  -- whether it has succeeded, has failed or is waited for, leaves that job where the step leaves
  -- it, a new one for this payload and not ended, and leaves the jobs of all other namespaces and
  -- names as they were.
  pub obtain_registration_job-Refines :
      agw_gateway_payload L agw identity.hardware_id identity.public_key_b64 ≡ ok payload
      → (s : List Job)
      → Steps
          (orc8r_namespace agw)
          (agw.meta.name <> "-register-gateway")
          (is_registering L payload)
          s
          (registered_left s)
  obtain_registration_job-Refines made s = by_found _ s made refl
