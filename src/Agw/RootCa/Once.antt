-- ===== src/Agw/RootCa/Once.antt =====
-- The job that copies the root certificate into the volume claim: `reconcileRootCASyncJob` of
-- internal/controller/agw_lifecycle.go.
use magma_operator.Agw.Deletion.Facts.{Was}
use magma_operator.Agw.Names.{root_ca_hash_annotation}
use magma_operator.Agw.RootCa.{
  inspect_root_ca_sync_job, reconcile_root_ca_sync_job, root_ca_sync_job,
}
use magma_operator.Base.{
  Bool, String, arith, entry, eq_iff, false, inl, lookup, ltb, not, refl, true, ◌<>◌, ◌<◌, ◌==◌,
  ◌≡◌,
}
use magma_operator.Kube.Objects.{Job}
use magma_operator.Kube.Prog.{
  Answer, Call, Kind, create, delete, err, get, ignore_not_found, is_not_found, ok,
}
use magma_operator.Kube.Sat.{History, Sat, Sat-check, Sat-check_error, Sat-if, Sat-ret, Sat-send}

-- A job of a namespace and name was read.
abbrev pub SawJob : String → String → Job → (c : Call) → Answer c → Type 0
SawJob namespace name j (get Kind.job namespace' name') (ok found) =
    (namespace' ≡ namespace) × (name' ≡ name) × (found ≡ j)
SawJob namespace name j _ _ = ⊥

-- There was no such job.
abbrev pub SawNoJob : String → String → (c : Call) → Answer c → Type 0
SawNoJob namespace name (get Kind.job namespace' name') (err e) =
    (namespace' ≡ namespace) × (name' ≡ name) × (is_not_found e ≡ true)
SawNoJob namespace name _ _ = ⊥

abbrev pub has_hash : String → Job → Bool
has_hash hash j = entry root_ca_hash_annotation j.meta.annotations == hash

-- A job of the namespace and name is created where there was none, and the one that was read is
-- deleted where it has another hash; but for these and reads there are no calls.
abbrev pub JobCalls : String → String → String → History → Call → Type 0
JobCalls namespace name hash h (get k namespace' name') = Unit
JobCalls namespace name hash h (create Kind.job j) =
    (j.meta.namespace ≡ namespace)
    × (j.meta.name ≡ name)
    × Was (SawNoJob namespace name) h
    × (has_hash hash j ≡ true)
JobCalls namespace name hash h (delete Kind.job j background) =
    Was (SawJob namespace name j) h × (has_hash hash j ≡ false)
JobCalls namespace name hash h _ = ⊥

-- The job of this hash was read, and had succeeded.
abbrev pub Copied : String → String → String → History → Type 0
Copied namespace name hash h =
    (j : Job) × Was (SawJob namespace name j) h × (has_hash hash j ≡ true) × (0 < j.succeeded)

module _ (namespace release_name secret_name pvc_name hash : String) where
  abbrev pub job_name : String
  job_name = release_name <> "-rootca-sync"

  root_ca_sync_job-has_hash :
      has_hash hash (root_ca_sync_job namespace job_name release_name secret_name pvc_name hash)
      ≡ true
  unfolding root_ca_sync_job entry lookup
  root_ca_sync_job-has_hash = ground (arith, eq_iff hash hash)

  root_ca_sync_job-named :
      (j : Job)
      → j ≡ root_ca_sync_job namespace job_name release_name secret_name pvc_name hash
      → (j.meta.namespace ≡ namespace) × (j.meta.name ≡ job_name)
  unfolding root_ca_sync_job
  root_ca_sync_job-named j is = rw is (refl, refl)

  inspect-Copied :
      (j : Job) (h : History)
      → Was (SawJob namespace job_name j) h
      → Sat
          (JobCalls namespace job_name hash)
          (λ h' stage. stage.ready ≡ true → Copied namespace job_name hash h')
          h
          (inspect_root_ca_sync_job namespace job_name hash j)
  unfolding inspect_root_ca_sync_job
  inspect-Copied j h seen =
      Sat-if (not (has_hash hash j)) h _ _
        (λ other.
          Sat-send h (delete Kind.job j true) _ (seen, ground arith)
            (λ failed.
              Sat-check_error (ignore_not_found failed) _ _ _ (λ e _. Sat-ret _ _ (λ bad. cc))
                (λ _. Sat-ret _ _ (λ bad. cc))))
        (λ same.
          Sat-if (ltb 0 j.succeeded) h _ _
            (λ succeeded. Sat-ret h _ (λ _. (j, seen, ground arith, ground arith)))
            (λ _.
              Sat-if (ltb 0 j.failed) h _ _ (λ _. Sat-ret h _ (λ bad. cc))
                (λ _. Sat-ret h _ (λ bad. cc))))

  -- `reconcileRootCASyncJob` creates no job but the one of its namespace and name, which then
  -- carries the hash of the certificate, and only after it was not there; it deletes a job only
  -- after it was read, under these, with another hash; it makes no other call but reads; and it
  -- says ready only after the job was read with the hash and had succeeded.
  pub reconcile_root_ca_sync_job-Copied :
      (h : History)
      → Sat
          (JobCalls namespace job_name hash)
          (λ h' stage. stage.ready ≡ true → Copied namespace job_name hash h')
          h
          (reconcile_root_ca_sync_job namespace release_name secret_name pvc_name hash)
  unfolding reconcile_root_ca_sync_job
  reconcile_root_ca_sync_job-Copied h = Sat-send h (get Kind.job namespace job_name) _ tt (λ r.
      Sat-check r _ _ _
        (λ e missing.
          Sat-if (not (is_not_found e)) _ _ _ (λ _. Sat-ret _ _ (λ bad. cc))
            (λ not_there.
              Sat-send _
                (create Kind.job
                  (root_ca_sync_job namespace job_name release_name secret_name pvc_name hash))
                _
                (
                  (root_ca_sync_job-named _ refl).0,
                  (root_ca_sync_job-named _ refl).1,
                  inl (rw missing (refl, refl, ground arith)),
                  root_ca_sync_job-has_hash,
                )
                (λ failed.
                  Sat-check_error failed _ _ _ (λ e' _. Sat-ret _ _ (λ bad. cc))
                    (λ _. Sat-ret _ _ (λ bad. cc)))))
        (λ j found. inspect-Copied j _ (inl (rw found (refl, refl, refl)))))
