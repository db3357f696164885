-- ===== src/Agw/OneShot.antt =====
-- What the jobs of the operator promise, whichever job it is: a job runs once for each version of
-- its input. The functions of agw_lifecycle.go and agw_identity.go that start and watch jobs refine
-- this, against a server that holds the jobs of the cluster.
pub mod Step
pub mod Settle
pub mod Copying
pub mod Registering
use magma_operator.Base.{
  ap, Bool, Bool-cases, List, Option, String, [], arith, eq_iff, eq_refl, false, if◌then◌else◌, inl,
  inr, ltb, none, not, refl, some, sym, true, ◌&&◌, ◌==◌, ◌∙◌, ◌∷◌, ◌≡◌,
}
use magma_operator.Kube.Objects.{Job}
use magma_operator.Kube.Prog.{
  Answer, Call, Error, ErrorClass, Kind, Prog, Result, apply, call, create, delete, err,
  generate_key, generate_rsa_key, get, get_manifest, list, new_error, now, ok, patch, random_below,
  random_bytes, ret, send, update, update_status, ◌>>=◌,
}

-- What a reconcile says of a job.
pub data Verdict : Type 0 where
  waits finished broken : Verdict

-- Where a job stands: not there; there, for another input; and else running or ended.
pub data Phase : Type 0 where
  absent outdated running has_succeeded has_failed : Phase

-- One reconcile: what it says of the job, and where the job then stands. A job that is not there is
-- started, one for another input is taken away, and one for this input is left alone.
abbrev pub says : Phase → Verdict
says has_succeeded = finished
says has_failed = broken
says _ = waits

abbrev pub next : Phase → Phase
next absent = running
next outdated = absent
next p = p

-- Where a job stands that may be there, given whether a job is for the current input.
abbrev pub phase_of : (Job → Bool) → Option Job → Phase
phase_of is_current none = absent
phase_of is_current (some j) =
    if not (is_current j)
    then outdated
    else if ltb 0 j.succeeded
    then has_succeeded
    else if ltb 0 j.failed
    then has_failed
    else running

abbrev pub is_job : String → String → Job → Bool
is_job namespace name j = j.meta.namespace == namespace && j.meta.name == name

-- The job of a namespace and name.
unfoldable pub find_job : String → String → List Job → Option Job
find_job namespace name [] = none
find_job namespace name (j ∷ js) =
    if is_job namespace name j then some j else find_job namespace name js

unfoldable pub remove_job : String → String → List Job → List Job
remove_job namespace name [] = []
remove_job namespace name (j ∷ js) =
    let rest = remove_job namespace name js in if is_job namespace name j then rest else j ∷ rest

abbrev pub job_not_found : Error
job_not_found = record { class = ErrorClass.not_found; message = "not found" }

-- The answers about jobs, given the job of the namespace and name that is there, if there is one:
-- a job is created only where there is none, and deleted only where there is one.
abbrev pub job_answer : Option Job → Result Job
job_answer none = err job_not_found
job_answer (some j) = ok j

abbrev pub created : Option Job → Job → List Job → Option Error × List Job
created none j s = (none, j ∷ s)
created (some _) j s = (some (new_error "already exists"), s)

abbrev pub deleted : Option Job → Job → List Job → Option Error × List Job
deleted none j s = (some job_not_found, s)
deleted (some _) j s = (none, remove_job j.meta.namespace j.meta.name s)

-- A server that holds jobs, each under its own namespace and name, and nothing else.
unfoldable pub serve_jobs : List Job → (c : Call) → Answer c × List Job
serve_jobs s (get Kind.job namespace name) = (job_answer (find_job namespace name s), s)
serve_jobs s (get k namespace name) = (err job_not_found, s)
serve_jobs s (get_manifest o) = (err job_not_found, s)
serve_jobs s (list k namespace labels) = (ok [], s)
serve_jobs s (create Kind.job j) = created (find_job j.meta.namespace j.meta.name s) j s
serve_jobs s (create k o) = (none, s)
serve_jobs s (update k o) = (none, s)
serve_jobs s (update_status k o) = (none, s)
serve_jobs s (patch k old new) = (none, s)
serve_jobs s (apply o) = (none, s)
serve_jobs s (delete Kind.job j background) = deleted (find_job j.meta.namespace j.meta.name s) j s
serve_jobs s (delete k o background) = (none, s)
serve_jobs s generate_key = (err (new_error "no keys"), s)
serve_jobs s (random_bytes n) = (err (new_error "no random bytes"), s)
serve_jobs s generate_rsa_key = (err (new_error "no keys"), s)
serve_jobs s (random_below n) = (err (new_error "no random numbers"), s)
serve_jobs s now = (0, s)

-- A run against this server: the result, and the jobs that are left.
unfoldable pub run_with_jobs : {A : Type 0} → Prog A → List Job → A × List Job
run_with_jobs (ret a) s = (a, s)
run_with_jobs (call c k) s = let (r, s') = serve_jobs s c in run_with_jobs (k r) s'

-- What each call of a job does in a run.
module _ {A : Type 0} where
  pub run-get :
      (namespace name : String) (f : Result Job → Prog A) (s : List Job) (r : Option Job)
      → find_job namespace name s ≡ r
      → run_with_jobs (send (get Kind.job namespace name) >>= f) s
        ≡ run_with_jobs (f (job_answer r)) s
  unfolding run_with_jobs serve_jobs ◌>>=◌ send
  run-get namespace name f s r found = ap (λ o. run_with_jobs (f (job_answer o)) s) found

  pub run-create :
      (f : Option Error → Prog A) (j : Job) (s : List Job)
      → find_job j.meta.namespace j.meta.name s ≡ none
      → run_with_jobs (send (create Kind.job j) >>= f) s ≡ run_with_jobs (f none) (j ∷ s)
  unfolding run_with_jobs serve_jobs ◌>>=◌ send
  run-create f j s missing = ap (λ o. run_with_jobs (f (created o j s).0) (created o j s).1) missing

  pub run-delete :
      (f : Option Error → Prog A) (j found : Job) (background : Bool) (s : List Job)
      → find_job j.meta.namespace j.meta.name s ≡ some found
      → run_with_jobs (send (delete Kind.job j background) >>= f) s
        ≡ run_with_jobs (f none) (remove_job j.meta.namespace j.meta.name s)
  unfolding run_with_jobs serve_jobs ◌>>=◌ send
  run-delete f j found background s there =
      ap (λ o. run_with_jobs (f (deleted o j s).0) (deleted o j s).1) there

  pub run-ret : (a : A) (s : List Job) → run_with_jobs (ret a) s ≡ (a, s)
  unfolding run_with_jobs
  run-ret a s = refl

-- A job that is found has the namespace and name that it was looked up by.
pub find_job-named :
    (namespace name : String) (s : List Job) (j : Job)
    → find_job namespace name s ≡ some j
    → (j.meta.namespace ≡ namespace) × (j.meta.name ≡ name)
unfolding find_job
find_job-named namespace name [] j found = cc
find_job-named namespace name (i ∷ s) j found = elim (Bool-cases (is_job namespace name i)) [
  | inl same ↦ ground (arith, eq_iff i.meta.namespace namespace, eq_iff i.meta.name name)
  | inr other ↦ find_job-named namespace name s j (ground arith)
]

pub find_job-here :
    (namespace name : String) (j : Job) (s : List Job)
    → j.meta.namespace ≡ namespace
    → j.meta.name ≡ name
    → find_job namespace name (j ∷ s) ≡ some j
unfolding find_job
find_job-here namespace name j s in_namespace named =
    let there : is_job namespace name j ≡ true =
      ground (arith, eq_iff j.meta.namespace namespace, eq_iff j.meta.name name) in
    rw there refl

-- Of two names, a job that has the first has the second exactly where they are the same.
is_job-other :
    (namespace name namespace' name' : String) (j : Job)
    → is_job namespace' name' j ≡ true
    → is_job namespace name j ≡ (namespace' == namespace && name' == name)
is_job-other namespace name namespace' name' j named =
    let in_namespace : j.meta.namespace ≡ namespace' =
      ground (arith, eq_iff j.meta.namespace namespace', eq_iff j.meta.name name') in
    let has_name : j.meta.name ≡ name' =
      ground (arith, eq_iff j.meta.namespace namespace', eq_iff j.meta.name name') in
    ap (λ t. t == namespace && j.meta.name == name) in_namespace
    ∙ ap (λ t. namespace' == namespace && t == name) has_name

apart :
    (namespace name namespace' name' : String) (j : Job)
    → is_job namespace name j ≡ true
    → is_job namespace' name' j ≡ false
    → (namespace' == namespace && name' == name) ≡ false
apart namespace name namespace' name' j here kept =
    elim (Bool-cases (namespace' == namespace && name' == name)) [
      | inl same ↦
          (let in_namespace : namespace' ≡ namespace =
              ground (arith, eq_iff namespace' namespace) in
            let named : name' ≡ name = ground (arith, eq_iff name' name) in
            let not_here : is_job namespace name j ≡ false =
              rw (sym in_namespace, sym named) kept in
            cc)
      | inr other ↦ other
    ]

pub find_job-remove_job :
    (namespace name namespace' name' : String) (s : List Job)
    → find_job namespace name (remove_job namespace' name' s)
      ≡ (if namespace' == namespace && name' == name then none else find_job namespace name s)
unfolding find_job remove_job
find_job-remove_job namespace name namespace' name' [] = ground arith
find_job-remove_job namespace name namespace' name' (i ∷ s) =
    let rest = find_job-remove_job namespace name namespace' name' s in
    elim (Bool-cases (is_job namespace' name' i)) [
      | inl gone ↦
          rw (gone, is_job-other namespace name namespace' name' i gone) (ground (arith, rest))
      | inr kept ↦ rw kept (elim (Bool-cases (is_job namespace name i)) [
        | inl here ↦ rw (here, apart namespace name namespace' name' i here kept) refl
        | inr other ↦ rw other rest
      ])
    ]

pub find_job-itself :
    (namespace name : String) (s : List Job) (j : Job)
    → find_job namespace name s ≡ some j
    → find_job j.meta.namespace j.meta.name s ≡ some j
find_job-itself namespace name s j found =
    let (in_namespace, named) = find_job-named namespace name s j found in
    ap (λ t. find_job t j.meta.name s) in_namespace ∙ ap (λ t. find_job namespace t s) named ∙ found
