-- ===== src/Agw/OneShot/Copying.antt =====
-- The job that copies the root certificate is a job that runs once: `reconcileRootCASyncJob` of
-- internal/controller/agw_lifecycle.go.
use magma_operator.Agw.Names.{Stage, root_ca_hash_annotation}
use magma_operator.Agw.OneShot.{
  Phase, Verdict, broken, find_job, find_job-itself, finished, next, phase_of, run-create,
  run-delete, run-get, run-ret, run_with_jobs, says, waits,
}
use magma_operator.Agw.OneShot.Settle.{
  all_ended, find_job-all_ended, is_over, phase_of-complete, settle, third-over,
}
use magma_operator.Agw.OneShot.Step.{Steps, Steps-by, Steps-create, Steps-delete, Steps-keep}
use magma_operator.Agw.RootCa.{
  inspect_root_ca_sync_job, reconcile_root_ca_sync_job, root_ca_sync_job,
}
use magma_operator.Base.{
  Bool, Bool-cases, List, Option, String, ap, entry, eq_refl, if◌then◌else◌, inl, inr, lookup, ltb,
  none, refl, some, true, ◌<>◌, ◌==◌, ◌∙◌, ◌∷◌, ◌≡◌,
}
use magma_operator.Kube.Objects.{Job}

-- What a stage says of the job.
abbrev pub verdict_of : Stage → Verdict
verdict_of stage =
    if stage.ready
    then finished
    else if stage.reason == "RootCASyncJobFailed"
    then broken
    else waits

abbrev pub verdict_left : Stage × List Job → Verdict × List Job
verdict_left r = (verdict_of r.0, r.1)

-- The job is for the certificate of a hash, which is its version.
abbrev pub is_copying : String → Job → Bool
is_copying hash j = entry root_ca_hash_annotation j.meta.annotations == hash

module _ (namespace release_name secret_name pvc_name hash : String) where
  -- One reconcile of the jobs that there are.
  abbrev pub copied : List Job → Verdict × List Job
  copied s = verdict_left (
      run_with_jobs (reconcile_root_ca_sync_job namespace release_name secret_name pvc_name hash) s)

  abbrev CopySteps : List Job → Verdict × List Job → Type 0
  CopySteps s r = Steps namespace (release_name <> "-rootca-sync") (is_copying hash) s r

  create-Steps :
      (j : Job) (s : List Job)
      → find_job namespace (release_name <> "-rootca-sync") s ≡ none
      → j
        ≡ root_ca_sync_job namespace
            (release_name <> "-rootca-sync")
            release_name
            secret_name
            pvc_name
            hash
      → CopySteps s (waits, j ∷ s)
  unfolding root_ca_sync_job entry lookup
  create-Steps j s missing is = rw is (Steps-create _ s missing refl refl (eq_refl hash) refl refl)

  create-there :
      (s : List Job)
      → find_job namespace (release_name <> "-rootca-sync") s ≡ none
      → (let fresh =
            root_ca_sync_job namespace
              (release_name <> "-rootca-sync")
              release_name
              secret_name
              pvc_name
              hash in
          find_job fresh.meta.namespace fresh.meta.name s ≡ none)
  unfolding root_ca_sync_job
  create-there s missing = missing

  inspect-Steps :
      (j : Job) (s : List Job)
      → find_job namespace (release_name <> "-rootca-sync") s ≡ some j
      → CopySteps s (
          verdict_left (
            run_with_jobs
              (inspect_root_ca_sync_job namespace (release_name <> "-rootca-sync") hash j)
              s))
  unfolding inspect_root_ca_sync_job
  inspect-Steps j s found = elim (Bool-cases (is_copying hash j)) [
    | inr other ↦
        Steps-by
          (rw other (
            ap verdict_left
              (run-delete _ j j true s (find_job-itself _ _ s j found) ∙ run-ret _ _)))
          (Steps-delete j s found other)
    | inl same ↦
        Steps-by
          (elim (Bool-cases (ltb 0 j.succeeded)) [
            | inl succeeded ↦ rw (same, succeeded) (ap verdict_left (run-ret _ s))
            | inr not_yet ↦ elim (Bool-cases (ltb 0 j.failed)) [
              | inl failed ↦ rw (same, not_yet, failed) (ap verdict_left (run-ret _ s))
              | inr running ↦ rw (same, not_yet, running) (ap verdict_left (run-ret _ s))
            ]
          ])
          (Steps-keep j s found same)
  ]

  by_found :
      (r : Option Job) (s : List Job)
      → find_job namespace (release_name <> "-rootca-sync") s ≡ r
      → CopySteps s (copied s)
  unfolding reconcile_root_ca_sync_job
  by_found none s missing =
      Steps-by
        (ap verdict_left (
          run-get namespace (release_name <> "-rootca-sync") _ s none missing
          ∙ run-create _ _ s (create-there s missing)
          ∙ run-ret _ _))
        (create-Steps _ s missing refl)
  by_found (some j) s found =
      Steps-by
        (ap verdict_left (run-get namespace (release_name <> "-rootca-sync") _ s (some j) found))
        (inspect-Steps j s found)

  -- Against a server that holds jobs under their namespaces and names, `reconcileRootCASyncJob`
  -- refines one step of a job that runs once for each certificate: it says of the job of its
  -- namespace and name whether it has succeeded, has failed or is waited for, leaves that job where
  -- the step leaves it, a new one for this certificate and not ended, and leaves the jobs of all
  -- other namespaces and names as they were.
  pub reconcile_root_ca_sync_job-Refines :
      (s : List Job)
      → Steps namespace (release_name <> "-rootca-sync") (is_copying hash) s (copied s)
  reconcile_root_ca_sync_job-Refines s = by_found _ s refl

  abbrev phase_at : List Job → Phase
  phase_at s = phase_of (is_copying hash) (find_job namespace (release_name <> "-rootca-sync") s)

  -- Where the job stands when the jobs have ended after a reconcile.
  copied-phase : (s : List Job) → phase_at (all_ended (copied s).1) ≡ settle (next (phase_at s))
  copied-phase s =
      ap (phase_of (is_copying hash)) (find_job-all_ended _ _ (copied s).1)
      ∙ phase_of-complete (is_copying hash) (λ j. refl) _
      ∙ ap settle ((reconcile_root_ca_sync_job-Refines s).phase)

  -- Against a server that holds jobs under their namespaces and names, and where each job that has
  -- not failed succeeds between two reconciles, the third `reconcileRootCASyncJob` at the latest
  -- says that its job has succeeded or failed, whatever jobs were there before.
  pub reconcile_root_ca_sync_job-Settles :
      (s : List Job) → is_over (copied (all_ended (copied (all_ended (copied s).1)).1)).0 ≡ true
  reconcile_root_ca_sync_job-Settles s =
      let t = all_ended (copied (all_ended (copied s).1)).1 in
      ap is_over ((reconcile_root_ca_sync_job-Refines t).verdict)
      ∙ ap (λ p. is_over (says p))
          (copied-phase (all_ended (copied s).1) ∙ ap (λ p. settle (next p)) (copied-phase s))
      ∙ third-over (phase_at s)
