-- ===== src/Orc8r/Entry/Ends.antt =====
-- How a reconcile of a `MagmaOrc8r` ends: internal/controller/magmaorc8r_controller.go.
use magma_operator.Agw.Status.{Outcome}
use magma_operator.Api.Orc8r.{MagmaOrc8r}
use magma_operator.Base.{Option, String, [], arith, false, none, not, some, true, ◌∷◌, ◌≡◌}
use magma_operator.Base.Int.{ℤ}
use magma_operator.Kube.Always.{Always, always_rules}
use magma_operator.Kube.Lawful.{IsLawful}
use magma_operator.Kube.Library.{Library}
use magma_operator.Kube.Objects.{Meta}
use magma_operator.Kube.Prog.{Answer, Call, Kind, update_status}
use magma_operator.Kube.Sat.{History, Sat-bind, Sat-check_error, Sat-if, Sat-ret}
use magma_operator.Orc8r.Entry.{
  apply_orc8r, finish_orc8r, follow_secret, reconcile_orc8r, report_orc8r_ready, report_recreated,
  roll_out,
}
use magma_operator.Orc8r.Names.{magma_orc8r_finalizer}
use magma_operator.Orc8r.Status.Reports.{IsOrc8rReport, Orc8rReported, status-Orc8rReported}

module _ {L : Library} (lawful : IsLawful L) where
  finish-Reported :
      (namespace : String) (orc8r : MagmaOrc8r) (port : Option ℤ)
      → Always (Orc8rReported orc8r.meta) (finish_orc8r L namespace orc8r port)
  unfolding finish_orc8r report_orc8r_ready
  finish-Reported namespace orc8r none = search (status-Orc8rReported lawful)
  finish-Reported namespace orc8r (some port) =
      search (always_rules, status-Orc8rReported lawful) depth 9

  -- Ten seconds instead of the delay keep what the report says.
  sooner-Reported :
      (m : Meta) (h : History) (o : Outcome)
      → Orc8rReported m h o
      → Orc8rReported m h (record o { requeue_after = 10 })
  sooner-Reported m [] o r = r
  sooner-Reported m (e ∷ h) o r = report_sooner e.call e.answer r
    where
      report_sooner :
          (c : Call) (a : Answer c)
          → IsOrc8rReport m o c a
          → IsOrc8rReport m (record o { requeue_after = 10 }) c a
      report_sooner (update_status Kind.orc8r x) a (its, c, found, _, error) =
          (its, c, found, (λ _ bad. ground arith), error)
      report_sooner _ a bad = bad

  recreated-Reported :
      (orc8r : MagmaOrc8r) → Always (Orc8rReported orc8r.meta) (report_recreated L orc8r)
  unfolding report_recreated
  recreated-Reported orc8r = record {
    at = λ h.
        Sat-bind (Orc8rReported orc8r.meta) h _ _ ((status-Orc8rReported lawful orc8r _ _ _ _).at h)
          (λ h' result q.
            Sat-check_error result.error h' _ _ (λ _ _. Sat-ret h' _ q)
              (λ _. Sat-ret h' _ (sooner-Reported orc8r.meta h' result q)));
  }

  follow_secret-Reported :
      (namespace : String) (orc8r : MagmaOrc8r) (hash : String)
      → Always (Orc8rReported orc8r.meta) (follow_secret L namespace orc8r hash)
  unfolding follow_secret
  follow_secret-Reported namespace orc8r hash =
      search (always_rules, status-Orc8rReported lawful, recreated-Reported, finish-Reported) depth
        9

  apply_orc8r-Reported :
      (namespace : String) (orc8r : MagmaOrc8r)
      → Always (Orc8rReported orc8r.meta) (apply_orc8r L namespace orc8r)
  unfolding apply_orc8r roll_out
  apply_orc8r-Reported namespace orc8r =
      search (always_rules, status-Orc8rReported lawful, follow_secret-Reported) depth 14

  -- Where `SetStatusCondition` behaves as documented: a reconcile of a `MagmaOrc8r` that has the
  -- finalizer and is not being deleted ends with a status update of the resource, with its metadata,
  -- as its last call, which sets the condition `Ready`; where the outcome is no error and asks for no further
  -- reconcile after a delay, that update sets it to true; and an error that it returns is the one
  -- that this update was answered with, so that every other error is left to the condition.
  pub reconcile_orc8r-Reported :
      (namespace : String) (orc8r : MagmaOrc8r)
      → orc8r.meta.is_deleted ≡ false
      → L.contains_finalizer orc8r.meta magma_orc8r_finalizer ≡ true
      → Always (Orc8rReported orc8r.meta) (reconcile_orc8r L namespace orc8r)
  unfolding reconcile_orc8r
  reconcile_orc8r-Reported namespace orc8r live has_finalizer = record {
    at = λ h.
        Sat-if orc8r.meta.is_deleted h _ _ (λ deleted. cc)
          (λ _.
            Sat-if (not (L.contains_finalizer orc8r.meta magma_orc8r_finalizer)) h _ _
              (λ missing. ground arith) (λ _. (apply_orc8r-Reported namespace orc8r).at h));
  }
