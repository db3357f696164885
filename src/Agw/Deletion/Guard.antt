-- ===== src/Agw/Deletion/Guard.antt =====
-- What must have happened before the finalizer of a `MagmaAGW` is taken off.
use magma_operator.Agw.Datapath.{has_label, remove_agw_datapath_labels}
use magma_operator.Agw.Deletion.Facts.{
  AllUnlabelled, Removed, SawSuccess, Unlabelled, Was, is_agw_patch,
}
use magma_operator.Agw.Jobs.{deregistration_job}
use magma_operator.Agw.Names.{
  Stage, api_host, datapath_ready_label_key, default_agw_identity_secret_name,
  gateway_registration_enabled, magmalte_deployment_name, nms_cert_secret_name, orc8r_namespace,
  waiting,
}
use magma_operator.Agw.Registration.{
  deregister_gateway, inspect_deregistration_job, obtain_deregistration_job,
  reconcile_agw_gateway_deregistration, with_first_image,
}
use magma_operator.Api.Agw.{DatapathSpec, GatewayRegistrationSpec, MagmaAgw}
use magma_operator.Base.{
  All, List, String, [], arith, false, inl, inr, is_empty, ltb, none, not, or_default, refl, remove,
  true, ◌<>◌, ◌<◌, ◌||◌, ◌∷◌, ◌≡◌,
}
use magma_operator.Kube.Frame.{IsStable, Sat-frame, Sat-weaken}
use magma_operator.Kube.Objects.{Container, Job, Manifest, Meta, new_meta}
use magma_operator.Kube.Prog.{
  Call, Error, Kind, Prog, check_error, create, delete, get, is_not_found, ok, patch, ret,
}
use magma_operator.Kube.Sat.{
  History, Sat, Sat-bind, Sat-check, Sat-check_error, Sat-if, Sat-ret, Sat-send,
}
use magma_operator.Native.Release.{delete_each, delete_native_object}

-- The calls of the parts that precede the last one.
abbrev pub Keeps : History → Call → Type 0
Keeps h c = is_agw_patch c ≡ false

abbrev pub Was-IsStable :
    (P : (c : Call) → magma_operator.Kube.Prog.Answer c → Type 0) → IsStable (Was P)
Was-IsStable P h c r s = inr s

module _ {C : History → Call → Type 0}
    (allowed : (h : History) (o : Manifest) → C h (delete Kind.manifest o true)) where
  pub delete_native_object-Removed :
      (o : Manifest) (h : History)
      → Sat C (λ h' failed. failed ≡ none → Was (Removed o) h') h (delete_native_object o)
  unfolding delete_native_object
  delete_native_object-Removed o h =
      Sat-send h (delete Kind.manifest o true) _ (allowed h o)
        (λ r. Sat-ret _ _ (λ e. inl (refl, e)))

  pub delete_each-Removed :
      (os : List Manifest) (h : History)
      → Sat C (λ h' failed. failed ≡ none → All (λ o. Was (Removed o) h') os) h (delete_each os)
  unfolding delete_each
  delete_each-Removed [] h = Sat-ret h none (λ _. tt)
  delete_each-Removed (o ∷ os) h =
      Sat-bind _ h _ _ (delete_native_object-Removed o h) (λ h' failed q.
        Sat-check_error failed h' _ _ (λ e _. Sat-ret h' _ (λ bad. cc))
          (λ fine.
            Sat-weaken h' _ (λ _ _ c. c) (λ _ _ s none_failed. (s.1, s.0 none_failed))
              (Sat-frame (Was (Removed o)) (Was-IsStable (Removed o)) h' _ (q fine)
                (delete_each-Removed os h'))))

pub remove_agw_datapath_labels-AllUnlabelled :
    (datapath : DatapathSpec) (nodes : List Meta) (h : History)
    → Sat Keeps
        (λ h' failed. failed ≡ none → AllUnlabelled (datapath_ready_label_key datapath) nodes h')
        h
        (remove_agw_datapath_labels datapath nodes)
unfolding remove_agw_datapath_labels
remove_agw_datapath_labels-AllUnlabelled datapath [] h = Sat-ret h none (λ _. tt)
remove_agw_datapath_labels-AllUnlabelled datapath (n ∷ ns) h =
    let key : String = datapath_ready_label_key datapath in
    Sat-if (not (has_label key n)) h _ _
      (λ bare.
        Sat-weaken h _ (λ _ _ c. c) (λ _ _ s none_failed. (λ labelled. ground arith, s none_failed))
          (remove_agw_datapath_labels-AllUnlabelled datapath ns h))
      (λ _. Sat-send h (patch Kind.node n (record n { labels = remove key n.labels })) _ refl (λ r.
        Sat-check_error r _ _ _ (λ e _. Sat-ret _ _ (λ bad. cc))
          (λ fine.
            Sat-weaken _ _ (λ _ _ c. c) (λ _ _ s none_failed. (λ _. s.1, s.0 none_failed))
              (Sat-frame (Was (Unlabelled key n)) (Was-IsStable (Unlabelled key n)) _ _
                (inl (refl, refl, fine))
                (remove_agw_datapath_labels-AllUnlabelled datapath ns _)))))

-- The records of durable state that the deletion policy names.
abbrev pub claim_of : MagmaAgw → String → Meta
claim_of agw release_name = new_meta agw.meta.namespace (release_name <> "-claim")

abbrev pub identity_secret_of : MagmaAgw → Meta
identity_secret_of agw =
    new_meta agw.meta.namespace
      (or_default agw.spec.identity.secret_name default_agw_identity_secret_name)

abbrev pub GatewayGone : MagmaAgw → History → Type 0
GatewayGone agw h =
    agw.spec.gateway_registration.delete_on_removal ≡ true
    → gateway_registration_enabled agw.spec.gateway_registration ≡ true
    → Was (SawSuccess (orc8r_namespace agw) (agw.meta.name <> "-delete-gateway")) h

-- What the deregistration shows where it lets the deletion go on.
abbrev Passed : Stage → Type 0
Passed stage = (stage.error ≡ none) × (stage.ready ≡ true)

inspect_deregistration_job-succeeded :
    (namespace name : String) (j : Job)
    → Passed (inspect_deregistration_job namespace name j)
    → ltb 0 j.succeeded ≡ true
unfolding inspect_deregistration_job
inspect_deregistration_job-succeeded namespace name j p = ground arith

-- The job that a deregistration reads.
abbrev JobDone : MagmaAgw → History → Type 0
JobDone agw = Was (SawSuccess (orc8r_namespace agw) (agw.meta.name <> "-delete-gateway"))

module _ (agw : MagmaAgw) where
  -- A stage that does not pass shows nothing.
  failed-JobDone :
      (h : History) (s : Stage)
      → ¬ Passed s
      → Sat Keeps (λ h' s'. Passed s' → JobDone agw h') h (ret s)
  failed-JobDone h s bad = Sat-ret h s (λ p. absurd (bad p))

  obtain_deregistration_job-JobDone :
      (image : String) (h : History)
      → Sat Keeps (λ h' s. Passed s → JobDone agw h') h (obtain_deregistration_job agw image)
  unfolding obtain_deregistration_job
  obtain_deregistration_job-JobDone image h =
      let name : String = agw.meta.name <> "-delete-gateway" in
      Sat-send h (get Kind.job (orc8r_namespace agw) name) _ refl (λ r.
        Sat-check r _ _ _
          (λ e _.
            Sat-if (not (is_not_found e)) _ _ _ (λ _. failed-JobDone _ _ (λ p. cc p.0))
              (λ _.
                Sat-send _
                  (create Kind.job (
                    deregistration_job (orc8r_namespace agw) name image (nms_cert_secret_name agw)
                      (api_host agw) agw.spec.network_id agw.spec.access_gateway_id))
                  _ refl
                  (λ r'.
                    Sat-check_error r' _ _ _ (λ e' _. failed-JobDone _ _ (λ p. cc p.0))
                      (λ _. failed-JobDone _ _ (λ p. cc p.1)))))
          (λ j found. Sat-ret _ _ (λ p.
            let seen : 0 < j.succeeded =
              ground (arith, inspect_deregistration_job-succeeded _ _ j p) in
            inl (rw found (refl, refl, seen)))))

  deregister_gateway-JobDone :
      (h : History) → Sat Keeps (λ h' s. Passed s → JobDone agw h') h (deregister_gateway agw)
  unfolding deregister_gateway
  deregister_gateway-JobDone h =
      Sat-send h (get Kind.secret (orc8r_namespace agw) (nms_cert_secret_name agw)) _ refl (λ r.
        Sat-check r _ _ _
          (λ e _.
            Sat-if (is_not_found e) _ _ _ (λ _. failed-JobDone _ _ (λ p. cc p.1))
              (λ _. failed-JobDone _ _ (λ p. cc p.0)))
          (λ _ _.
            Sat-send _ (get Kind.deployment (orc8r_namespace agw) magmalte_deployment_name) _ refl
              (λ r'.
                Sat-check r' _ _ _
                  (λ e _.
                    Sat-if (is_not_found e) _ _ _ (λ _. failed-JobDone _ _ (λ p. cc p.1))
                      (λ _. failed-JobDone _ _ (λ p. cc p.0)))
                  (λ m _. image_case m.containers _))))
    where
      image_case :
          (cs : List Container) (h' : History)
          → Sat Keeps
              (λ h'' s. Passed s → JobDone agw h'')
              h'
              (with_first_image cs
                (ret (waiting "MagmalteImageUnavailable" "magmalte deployment has no containers"))
                (obtain_deregistration_job agw))
      image_case [] h' = failed-JobDone _ _ (λ p. cc p.1)
      image_case (c ∷ cs) h' = obtain_deregistration_job-JobDone c.image h'

  pub reconcile_agw_gateway_deregistration-GatewayGone :
      (h : History)
      → Sat Keeps
          (λ h' s. Passed s → GatewayGone agw h')
          h
          (reconcile_agw_gateway_deregistration agw)
  unfolding reconcile_agw_gateway_deregistration
  reconcile_agw_gateway_deregistration-GatewayGone h =
      let g : GatewayRegistrationSpec = agw.spec.gateway_registration in
      Sat-if (not g.delete_on_removal) h _ _ (λ off. Sat-ret h _ (λ _ on. ground arith))
        (λ _.
          Sat-if (not (gateway_registration_enabled g)) h _ _
            (λ off. Sat-ret h _ (λ _ _ on. ground arith))
            (λ _.
              Sat-if (is_empty agw.spec.network_id || is_empty agw.spec.access_gateway_id) h _ _
                (λ _. Sat-ret h _ (λ p. cc p.0))
                (λ _.
                  Sat-weaken h _ (λ _ _ c. c) (λ _ _ s p _ _. s p) (deregister_gateway-JobDone h))))
