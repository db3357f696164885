-- ===== src/Agw/OneShot/Step.antt =====
-- One reconcile of a job that runs once, for every function that starts and watches such a job.
use magma_operator.Agw.OneShot.{
  Verdict, find_job, find_job-here, find_job-named, find_job-remove_job, next, phase_of, remove_job,
  running, says, waits,
}
use magma_operator.Base.{
  Bool, List, String, ap, arith, eq_refl, false, none, refl, some, sym, true, ◌&&◌, ◌==◌, ◌∙◌, ◌∷◌,
  ◌≡◌,
}
use magma_operator.Kube.Objects.{Job}

-- A run in which a reconcile said something of the job of a namespace and name: it and the job that
-- is left are a step of a job that runs once, and the jobs of all other namespaces and names are as
-- they were.
pub record Steps (namespace name : String) (is_current : Job → Bool) (s : List Job)
    (r : Verdict × List Job) : Type 0 where
  pub verdict : r.0 ≡ says (phase_of is_current (find_job namespace name s))
  pub phase :
      phase_of is_current (find_job namespace name r.1)
      ≡ next (phase_of is_current (find_job namespace name s))
  pub others :
      (namespace' name' : String)
      → (namespace == namespace' && name == name') ≡ false
      → find_job namespace' name' r.1 ≡ find_job namespace' name' s

next-kept :
    (is_current : Job → Bool) (j : Job)
    → is_current j ≡ true
    → phase_of is_current (some j) ≡ next (phase_of is_current (some j))
next-kept is_current j current = ground (arith, current)

module _ {namespace name : String} {is_current : Job → Bool} where
  -- A new job for the input.
  pub Steps-create :
      (j : Job) (s : List Job)
      → find_job namespace name s ≡ none
      → j.meta.namespace ≡ namespace
      → j.meta.name ≡ name
      → is_current j ≡ true
      → j.succeeded ≡ 0
      → j.failed ≡ 0
      → Steps namespace name is_current s (waits, j ∷ s)
  unfolding find_job
  Steps-create j s missing in_namespace named current unfinished fine =
      let is_new : phase_of is_current (some j) ≡ running = rw (current, unfinished, fine) refl in
      record {
        verdict = rw missing refl;
        phase =
            ap (phase_of is_current) (find_job-here namespace name j s in_namespace named)
            ∙ is_new
            ∙ sym (ap (λ o. next (phase_of is_current o)) missing);
        others = λ namespace' name' other. rw (in_namespace, named, other) refl;
      }

  pub Steps-by :
      {s : List Job} {r r' : Verdict × List Job}
      → r ≡ r'
      → Steps namespace name is_current s r'
      → Steps namespace name is_current s r
  Steps-by same steps = rw same steps

  -- A job for another input is taken away.
  pub Steps-delete :
      (j : Job) (s : List Job)
      → find_job namespace name s ≡ some j
      → is_current j ≡ false
      → Steps namespace name is_current s (waits, remove_job j.meta.namespace j.meta.name s)
  Steps-delete j s found other =
      let self = eq_refl namespace in
      let self' = eq_refl name in
      let (in_namespace, named) = find_job-named namespace name s j found in
      Steps-by
        (ap (λ t. (waits, remove_job t j.meta.name s)) in_namespace
          ∙ ap (λ t. (waits, remove_job namespace t s)) named)
        (record {
          verdict = rw (found, other) refl;
          phase =
              rw (find_job-remove_job namespace name namespace name s, self, self', found, other)
                refl;
          others = λ namespace' name' apart.
              rw (find_job-remove_job namespace' name' namespace name s, apart) refl;
        })

  -- A job for this input is left alone.
  pub Steps-keep :
      (j : Job) (s : List Job)
      → find_job namespace name s ≡ some j
      → is_current j ≡ true
      → Steps namespace name is_current s (says (phase_of is_current (some j)), s)
  Steps-keep j s found current = record {
    verdict = rw found refl;
    phase = rw found (next-kept is_current j current);
    others = λ _ _ _. refl;
  }
