-- ===== src/Agw/OneShot/Settle.antt =====
-- A job that runs once settles, where jobs run to their end.
use magma_operator.Agw.OneShot.{
  Phase, Verdict, absent, find_job, has_failed, has_succeeded, is_job, next, outdated, phase_of,
  running, says, waits,
}
use magma_operator.Base.{
  Bool, Bool-cases, List, Option, String, [], arith, false, if◌then◌else◌, inl, inr, ltb, none,
  refl, some, true, ◌∷◌, ◌≡◌,
}
use magma_operator.Kube.Objects.{Job}

abbrev pub is_over : Verdict → Bool
is_over waits = false
is_over _ = true

-- Between two reconciles a job runs to its end: one that has not failed succeeds.
abbrev pub ended : Job → Job
ended j = if ltb 0 j.failed then j else record j { succeeded = 1 }

abbrev pub all_ended : List Job → List Job
all_ended [] = []
all_ended (j ∷ js) = ended j ∷ all_ended js

abbrev pub complete : Option Job → Option Job
complete none = none
complete (some j) = some (ended j)

abbrev pub settle : Phase → Phase
settle running = has_succeeded
settle p = p

is_job-ended :
    (namespace name : String) (j : Job) → is_job namespace name (ended j) ≡ is_job namespace name j
is_job-ended namespace name j = elim (Bool-cases (ltb 0 j.failed)) [
  | inl bad ↦ rw bad refl
  | inr fine ↦ rw fine refl
]

pub find_job-all_ended :
    (namespace name : String) (s : List Job)
    → find_job namespace name (all_ended s) ≡ complete (find_job namespace name s)
unfolding find_job
find_job-all_ended namespace name [] = refl
find_job-all_ended namespace name (j ∷ s) = elim (Bool-cases (is_job namespace name j)) [
  | inl here ↦ rw (is_job-ended namespace name j, here) refl
  | inr other ↦ rw (is_job-ended namespace name j, other) (find_job-all_ended namespace name s)
]

-- A job is for the same input when it has succeeded.
abbrev pub IsKept : (Job → Bool) → Type 0
IsKept is_current = (j : Job) → is_current (record j { succeeded = 1 }) ≡ is_current j

pub phase_of-complete :
    (is_current : Job → Bool)
    → IsKept is_current
    → (o : Option Job) → phase_of is_current (complete o) ≡ settle (phase_of is_current o)
phase_of-complete is_current kept none = refl
phase_of-complete is_current kept (some j) = elim (Bool-cases (ltb 0 j.failed)) [
  | inl bad ↦ rw bad (ground (arith, bad))
  | inr fine ↦ rw (fine, kept j) (ground (arith, fine))
]

-- Whatever job was there, the third reconcile at the latest finds it ended.
pub third-over : (p : Phase) → is_over (says (settle (next (settle (next p))))) ≡ true
third-over absent = refl
third-over outdated = refl
third-over running = refl
third-over has_succeeded = refl
third-over has_failed = refl
