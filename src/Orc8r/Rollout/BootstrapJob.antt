-- ===== src/Orc8r/Rollout/BootstrapJob.antt =====
-- When the bootstrap job is replaced: `recreateOrc8rBootstrapJobForSecretHash` of
-- internal/controller/magmaorc8r_controller.go.
use magma_operator.Agw.Deletion.Facts.{Was}
use magma_operator.Base.{
  Bool, Bool-cases, String, arith, entry, eq_iff, false, inl, inr, is_empty, ltb, refl, true, ◌<◌,
  ◌==◌, ◌≡◌, ◌⊎◌,
}
use magma_operator.Kube.Frame.{IsStable, NoError}
use magma_operator.Kube.Objects.{Job}
use magma_operator.Kube.Prog.{
  Answer, Call, Kind, Result, delete, err, get, ignore_not_found, is_not_found, ok, patch,
}
use magma_operator.Kube.Sat.{History, Sat, Sat-check, Sat-check_error, Sat-if, Sat-ret, Sat-send}
use magma_operator.Orc8r.Names.{orc8r_secret_hash_annotation}
use magma_operator.Orc8r.Rollout.{
  is_outdated, mark_job, recreate_orc8r_bootstrap_job, refresh_bootstrap_job,
}

-- A job failed, or it succeeded with another hash.
abbrev pub Outdated : String → Job → Type 0
Outdated hash j =
    (0 < j.failed)
    ⊎ ((0 < j.succeeded)
        × ((entry orc8r_secret_hash_annotation j.meta.annotations == hash) ≡ false))

is_outdated-Outdated : (hash : String) (j : Job) → is_outdated hash j ≡ true → Outdated hash j
is_outdated-Outdated hash j p = by_cases (Bool-cases (ltb 0 j.failed))
  where
    by_cases : (ltb 0 j.failed ≡ true) ⊎ (ltb 0 j.failed ≡ false) → Outdated hash j
    by_cases (inl failed) = inl (ground arith)
    by_cases (inr fine) = inr (ground arith, ground arith)

is_outdated-not : (hash : String) (j : Job) → is_outdated hash j ≡ false → ¬ Outdated hash j
is_outdated-not hash j p (inl failed) = ground arith
is_outdated-not hash j p (inr (succeeded, differs)) = ground arith

-- A job of a namespace and name was read.
abbrev pub SawJob : String → String → (Job → Type 0) → (c : Call) → Answer c → Type 0
SawJob namespace name P (get Kind.job namespace' name') (ok j) =
    (namespace' ≡ namespace) × (name' ≡ name) × P j
SawJob namespace name P _ _ = ⊥

-- A job was not there.
abbrev pub SawNoJob : String → String → (c : Call) → Answer c → Type 0
SawNoJob namespace name (get Kind.job namespace' name') (err e) =
    (namespace' ≡ namespace) × (name' ≡ name) × (is_not_found e ≡ true)
SawNoJob namespace name _ _ = ⊥

-- A job was deleted, or was gone already.
abbrev pub DeletedJob : (Job → Type 0) → (c : Call) → Answer c → Type 0
DeletedJob P (delete Kind.job j background) failed = P j × NoError failed
DeletedJob P _ _ = ⊥

-- Only a job that was read is changed: it is deleted if it is outdated, else it gets the hash.
abbrev pub ChangesJob : String → String → String → History → Call → Type 0
ChangesJob namespace name hash h (get Kind.job namespace' name') = Unit
ChangesJob namespace name hash h (delete Kind.job j background) =
    Was (SawJob namespace name (λ j'. j' ≡ j)) h × Outdated hash j
ChangesJob namespace name hash h (patch Kind.job j new) =
    Was (SawJob namespace name (λ j'. j' ≡ j)) h × (¬ Outdated hash j) × (new ≡ mark_job hash j)
ChangesJob namespace name hash h _ = ⊥

-- Nothing holds the rollout up: there is no hash, or no job, or the job is not outdated.
pub data JobSettled (namespace name hash : String) (h : History) : Type 0 where
  no_hash : hash ≡ "" → JobSettled namespace name hash h
  no_job : Was (SawNoJob namespace name) h → JobSettled namespace name hash h
  settled :
      Was (SawJob namespace name (λ j. ¬ Outdated hash j)) h → JobSettled namespace name hash h

pub JobSettled-IsStable : (namespace name hash : String) → IsStable (JobSettled namespace name hash)
JobSettled-IsStable namespace name hash h c r (no_hash e) = no_hash e
JobSettled-IsStable namespace name hash h c r (no_job s) = no_job (inr s)
JobSettled-IsStable namespace name hash h c r (settled s) = settled (inr s)

-- What a result without an error shows.
abbrev pub JobResult : String → String → String → History → Result Bool → Type 0
JobResult namespace name hash h (ok true) = Was (DeletedJob (Outdated hash)) h
JobResult namespace name hash h (ok false) = JobSettled namespace name hash h
JobResult namespace name hash h (err e) = Unit

refresh_bootstrap_job-ChangesJob :
    (namespace name hash : String) (j : Job) (h : History)
    → ((P : Job → Type 0) → P j → Was (SawJob namespace name P) h)
    → Sat
        (ChangesJob namespace name hash)
        (JobResult namespace name hash)
        h
        (refresh_bootstrap_job hash j)
unfolding refresh_bootstrap_job
refresh_bootstrap_job-ChangesJob namespace name hash j h seen =
    Sat-if (is_outdated hash j) h _ _
      (λ outdated.
        Sat-send h (delete Kind.job j true) _ (seen _ refl, is_outdated-Outdated hash j outdated)
          (λ r.
            Sat-check_error (ignore_not_found r) _ _ _ (λ e _. Sat-ret _ _ tt)
              (λ fine. Sat-ret _ _ (inl (is_outdated-Outdated hash j outdated, fine)))))
      (λ current.
        let not_outdated = is_outdated-not hash j current in
        Sat-if (entry orc8r_secret_hash_annotation j.meta.annotations == hash) h _ _
          (λ _. Sat-ret h _ (settled (seen _ not_outdated)))
          (λ _.
            Sat-send h (patch Kind.job j (mark_job hash j)) _ (seen _ refl, not_outdated, refl)
              (λ r.
                Sat-check_error r _ _ _ (λ e _. Sat-ret _ _ tt)
                  (λ _. Sat-ret _ _ (settled (inr (seen _ not_outdated)))))))

-- `recreateOrc8rBootstrapJobForSecretHash` changes only the job of the namespace and name as it
-- was read: it deletes it only where it failed, or succeeded with an annotation other than the
-- hash, and otherwise patches nothing but that annotation. It reports that the job was replaced
-- only after such a delete; and it lets the reconcile go on only where the hash is empty, or the
-- job was not there, or was read and was not to be replaced.
pub recreate_orc8r_bootstrap_job-ChangesJob :
    (namespace name hash : String) (h : History)
    → Sat
        (ChangesJob namespace name hash)
        (JobResult namespace name hash)
        h
        (recreate_orc8r_bootstrap_job namespace name hash)
unfolding recreate_orc8r_bootstrap_job
recreate_orc8r_bootstrap_job-ChangesJob namespace name hash h =
    Sat-if (is_empty hash) h _ _ (λ empty. Sat-ret h _ (no_hash (ground (arith, eq_iff hash ""))))
      (λ _. Sat-send h (get Kind.job namespace name) _ tt (λ r.
        Sat-check r _ _ _
          (λ e is_e.
            Sat-if (is_not_found e) _ _ _
              (λ missing. Sat-ret _ _ (no_job (inl (rw is_e (refl, refl, missing)))))
              (λ _. Sat-ret _ _ tt))
          (λ j is_j.
            refresh_bootstrap_job-ChangesJob namespace name hash j _
              (λ P p. inl (rw is_j (refl, refl, p))))))

-- Where the job was not replaced and there was no error, the job is settled.
pub JobResult-settled :
    (namespace name hash : String) (h : History) (r : Result Bool) (b : Bool)
    → JobResult namespace name hash h r
    → r ≡ ok b
    → b ≡ false
    → JobSettled namespace name hash h
JobResult-settled namespace name hash h (ok true) b q e f = cc
JobResult-settled namespace name hash h (ok false) b q e f = q
JobResult-settled namespace name hash h (err x) b q e f = cc
