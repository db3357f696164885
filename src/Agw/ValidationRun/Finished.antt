-- ===== src/Agw/ValidationRun/Finished.antt =====
-- When the one-shot validation is over: `reconcileUERANSIMValidation` of
-- internal/controller/agw_validation.go.
use magma_operator.Agw.Deletion.Facts.{Was}
use magma_operator.Agw.Names.{Stage, has_error, ueransim_validation_enabled}
use magma_operator.Agw.Validation.{ueransim_validation_hash, ueransim_validation_job}
use magma_operator.Agw.ValidationRun.{
  inspect_validation_job, reconcile_ueransim_validation, start_validation_job,
  ueransim_validation_spec_hash,
}
use magma_operator.Api.Agw.{MagmaAgw}
use magma_operator.Base.{
  String, [], arith, entry, false, inl, is_empty, ltb, not, refl, true, ◌<>◌, ◌==◌, ◌||◌, ◌≡◌,
}
use magma_operator.Kube.Frame.{AnyCall, Sat-any}
use magma_operator.Kube.Library.{Library}
use magma_operator.Kube.Objects.{Job}
use magma_operator.Kube.Prog.{
  Answer, Call, Kind, create, delete, get, ignore_not_found, is_not_found, ok,
}
use magma_operator.Kube.Sat.{
  History, Sat, Sat-bind, Sat-check, Sat-check_error, Sat-if, Sat-ret, Sat-send,
}

-- The job of a namespace and name was read with a hash, and had succeeded or failed.
abbrev pub SawFinished : String → String → String → (c : Call) → Answer c → Type 0
SawFinished namespace name hash (get Kind.job namespace' name') (ok j) =
    (namespace' ≡ namespace)
    × (name' ≡ name)
    × ((entry ueransim_validation_hash j.meta.annotations == hash) ≡ true)
    × ((ltb 0 j.succeeded || ltb 0 j.failed) ≡ true)
SawFinished namespace name hash _ _ = ⊥

abbrev NotReady : History → Stage → Type 0
NotReady _ stage = stage.ready ≡ false

module _ (L : Library) where
  start_validation_job-NotReady :
      (agw : MagmaAgw) (release_name name hash : String) (h : History)
      → Sat AnyCall NotReady h (start_validation_job L agw release_name name hash)
  unfolding start_validation_job
  start_validation_job-NotReady agw release_name name hash h =
      Sat-bind (λ _ _. Unit {0}) h _ _ (Sat-any h _)
        (λ h1 rollout _.
          Sat-if (has_error rollout || not rollout.ready) h1 _ _ (λ _. Sat-ret h1 _ refl)
            (λ _.
              Sat-bind (λ _ _. Unit {0}) h1 _ _ (Sat-any h1 _)
                (λ h2 found _.
                  Sat-check found h2 _ _ (λ e _. Sat-ret h2 _ refl)
                    (λ pod _.
                      Sat-if (is_empty pod) h2 _ _ (λ _. Sat-ret h2 _ refl)
                        (λ _.
                          Sat-check
                            (L.set_controller_reference agw.meta
                              (ueransim_validation_job agw release_name name pod hash).meta)
                            h2 _ _ (λ e _. Sat-ret h2 _ refl)
                            (λ owned _. Sat-send h2 (create Kind.job _) _ tt (λ failed.
                              Sat-check_error failed _ _ _ (λ e _. Sat-ret _ _ refl)
                                (λ _. Sat-ret _ _ refl))))))))

  inspect_validation_job-Finished :
      (namespace name hash : String) (j : Job) (h : History)
      → (((entry ueransim_validation_hash j.meta.annotations == hash) ≡ true)
          → ((ltb 0 j.succeeded || ltb 0 j.failed) ≡ true)
          → Was (SawFinished namespace name hash) h)
      → Sat AnyCall
          (λ h' stage. stage.ready ≡ true → Was (SawFinished namespace name hash) h')
          h
          (inspect_validation_job L namespace name hash j)
  unfolding inspect_validation_job
  inspect_validation_job-Finished namespace name hash j h over =
      Sat-if (not (entry ueransim_validation_hash j.meta.annotations == hash)) h _ _
        (λ _. Sat-send h (delete Kind.job j true) _ tt (λ failed.
          Sat-check_error (ignore_not_found failed) _ _ _ (λ e _. Sat-ret _ _ (λ bad. cc))
            (λ _. Sat-ret _ _ (λ bad. cc))))
        (λ same.
          Sat-if (ltb 0 j.succeeded) h _ _
            (λ s. Sat-ret h _ (λ _. over (ground arith) (ground arith)))
            (λ _.
              Sat-if (ltb 0 j.failed) h _ _
                (λ f. Sat-ret h _ (λ _. over (ground arith) (ground arith)))
                (λ _. Sat-ret h _ (λ bad. cc))))

  abbrev pub validation_job_name : String → String
  validation_job_name release_name = release_name <> "-ueransim-validation"

  -- Where the simulator and its validation are enabled, `reconcileUERANSIMValidation` says that the
  -- validation is over only after the job with the hash of the resource's present settings was read
  -- as succeeded or failed.
  pub reconcile_ueransim_validation-Finished :
      (agw : MagmaAgw) (release_name : String)
      → ueransim_validation_enabled agw.spec.ueransim_validation ≡ true
      → agw.spec.enable_ueransim ≡ true
      → Sat AnyCall
          (λ h r.
            r.1.ready ≡ true
            → Was
                (SawFinished agw.meta.namespace
                  (validation_job_name release_name)
                  (ueransim_validation_spec_hash L agw release_name))
                h)
          []
          (reconcile_ueransim_validation L agw release_name)
  unfolding reconcile_ueransim_validation
  reconcile_ueransim_validation-Finished agw release_name enabled simulated =
      Sat-if (not (ueransim_validation_enabled agw.spec.ueransim_validation)) [] _ _
        (λ bad. ground arith)
        (λ _.
          Sat-if (not agw.spec.enable_ueransim) [] _ _ (λ bad. ground arith)
            (λ _.
              Sat-bind (λ _ _. Unit {0}) [] _ _ (Sat-any [] _)
                (λ h rbac _.
                  Sat-check_error rbac h _ _ (λ e _. Sat-ret h _ (λ bad. cc))
                    (λ _.
                      Sat-send h
                        (get Kind.job agw.meta.namespace (validation_job_name release_name)) _ tt
                        (λ r.
                          Sat-check r _ _ _
                            (λ e _.
                              Sat-if (not (is_not_found e)) _ _ _ (λ _. Sat-ret _ _ (λ bad. cc))
                                (λ _.
                                  Sat-bind NotReady _ _ _
                                    (start_validation_job-NotReady agw release_name _ _ _)
                                    (λ h' stage off. Sat-ret h' _ (λ bad. cc))))
                            (λ j found.
                              Sat-bind _ _ _ _
                                (inspect_validation_job-Finished agw.meta.namespace
                                  (validation_job_name release_name)
                                  (ueransim_validation_spec_hash L agw release_name) j _
                                  (λ same over. inl (rw found (refl, refl, same, over))))
                                (λ h' stage q. Sat-ret h' _ q)))))))
