-- ===== src/Orc8r/Entry/Ready.antt =====
-- What precedes a report that a `MagmaOrc8r` is ready:
-- internal/controller/magmaorc8r_controller.go.
use magma_operator.Agw.Names.{default_nms_admin_cert_secret_name}
use magma_operator.Agw.Status.{done, is_true}
use magma_operator.Api.Orc8r.{MagmaOrc8r}
use magma_operator.Base.{All, List, Option, String, false, none, some, ◌<>◌, ◌≡◌}
use magma_operator.Base.Int.{ℤ}
use magma_operator.Kube.Frame.{All-IsStable, IsStable, Sat-frame, Sat-weaken}
use magma_operator.Kube.Lawful.{IsLawful}
use magma_operator.Kube.Library.{Library, find_condition}
use magma_operator.Kube.Objects.{
  Condition, ConditionStatus, Manifest, condition_false, condition_true,
}
use magma_operator.Kube.Prog.{Call, Kind, Prog, is_conflict, update_status}
use magma_operator.Kube.Sat.{History, Sat, Sat-bind, Sat-check_error, Sat-if, Sat-ret, Sat-send}
use magma_operator.Native.Release.Complete.{Done, Done-IsStable}
use magma_operator.Orc8r.Entry.{finish_orc8r, orc8r_failure, report_orc8r_ready, report_recreated}
use magma_operator.Orc8r.Magmalte.Served.{NoStatus, Served, is_orc8r_status, patch_magmalte-Served}
use magma_operator.Orc8r.Names.{orc8r_release_name_of}
use magma_operator.Orc8r.Rollout.Annotated.{RolledOut, RolledOut-IsStable}
use magma_operator.Orc8r.Rollout.BootstrapJob.{JobSettled, JobSettled-IsStable}
use magma_operator.Orc8r.Status.{update_orc8r_status, with_orc8r_ready}
use magma_operator.Orc8r.Status.Reports.{ready_condition_found}

-- A status update of the resource that sets the condition `Ready` to true.
abbrev pub SaysReady : Call → Type 0
SaysReady (update_status Kind.orc8r a) =
    (c : Condition) × (find_condition a.status.conditions "Ready" ≡ some c)
    × (c.status ≡ condition_true)
SaysReady _ = ⊥

no_status_not_ready : (c : Call) → is_orc8r_status c ≡ false → ¬ SaysReady c
no_status_not_ready (update_status Kind.orc8r a) bad _ = cc
no_status_not_ready _ _ bad = bad

abbrev pub bootstrap_job_name : MagmaOrc8r → String
bootstrap_job_name orc8r = orc8r_release_name_of orc8r <> "-nms-admin"

-- The port is asked for.
abbrev pub IsGiven : Option ℤ → Type 0
IsGiven none = ⊥
IsGiven (some port) = Unit

not_set : (port : Option ℤ) → port ≡ none → ¬ IsGiven port
not_set none e set = set
not_set (some p) e set = cc

-- What was seen of a resource that is ready, with the objects of its release.
pub record OrchestratorReady (L : Library) (namespace : String) (orc8r : MagmaOrc8r)
    (objects : List Manifest) (h : History) : Type 0 where
  pub applied : All (λ o. Done L orc8r.meta none o h) objects
  pub hash : String
  pub rolled_out :
      RolledOut L namespace (orc8r_release_name_of orc8r) default_nms_admin_cert_secret_name hash h
  pub bootstrapped : JobSettled namespace (bootstrap_job_name orc8r) hash h
  pub plain_http : IsGiven orc8r.spec.nms_node_port → Served namespace h

abbrev pub ReadyAfter : Library → String → MagmaOrc8r → List Manifest → History → Call → Type 0
ReadyAfter L namespace orc8r objects h c =
    SaysReady c → OrchestratorReady L namespace orc8r objects h

module _ {L : Library} (lawful : IsLawful L) (namespace : String) (orc8r : MagmaOrc8r)
    (objects : List Manifest) where
  abbrev Calls : History → Call → Type 0
  Calls = ReadyAfter L namespace orc8r objects

  pub quiet :
      {A : Type 0} {Q : History → A → Type 0} (h : History) (m : Prog A)
      → Sat NoStatus Q h m
      → Sat Calls Q h m
  quiet h m s =
      Sat-weaken h m (λ _ c still says. absurd (no_status_not_ready c still says)) (λ _ _ q. q) s

  -- A status update, where the facts are known if it says that the resource is ready.
  pub status-Calls :
      (s : ConditionStatus) (reason message : String) (h : History)
      → (s ≡ condition_true → OrchestratorReady L namespace orc8r objects h)
      → Sat Calls
          (λ _ _. Unit {0})
          h
          (update_orc8r_status L orc8r (orc8r_release_name_of orc8r) s reason message)
  unfolding update_orc8r_status
  status-Calls s reason message h ready =
      Sat-send h
        (update_status Kind.orc8r
          (with_orc8r_ready L orc8r (orc8r_release_name_of orc8r) s reason message))
        _
        (λ (c, found, says).
          let (c', found', is_s) =
            ready_condition_found lawful orc8r (orc8r_release_name_of orc8r) s reason message in
          ready cc)
        (λ r.
          Sat-check_error r _ _ _
            (λ e _. Sat-if (is_conflict e) _ _ _ (λ _. Sat-ret _ _ tt) (λ _. Sat-ret _ _ tt))
            (λ _. Sat-if (is_true s) _ _ _ (λ _. Sat-ret _ _ tt) (λ _. Sat-ret _ _ tt)))

  pub failure-Calls :
      (reason message : String) (h : History)
      → Sat Calls (λ _ _. Unit {0}) h (orc8r_failure L orc8r reason message)
  failure-Calls reason message h = status-Calls condition_false reason message h (λ bad. cc)

  -- What is known when the bootstrap job has been looked at.
  abbrev Facts : String → History → Type 0
  Facts hash h =
      All (λ o. Done L orc8r.meta none o h) objects
      × RolledOut L namespace (orc8r_release_name_of orc8r) default_nms_admin_cert_secret_name hash
          h
      × JobSettled namespace (bootstrap_job_name orc8r) hash h

  Facts-IsStable : (hash : String) → IsStable (Facts hash)
  Facts-IsStable hash h c r (done, rolled, job) = (
    All-IsStable (Done L orc8r.meta none) (Done-IsStable L orc8r.meta none) objects h c r done,
    RolledOut-IsStable L _ _ _ hash h c r rolled,
    JobSettled-IsStable _ _ hash h c r job,
  )

  pub finish-Calls :
      (hash : String) (port : Option ℤ) (h : History)
      → orc8r.spec.nms_node_port ≡ port
      → Facts hash h
      → Sat Calls (λ _ _. Unit {0}) h (finish_orc8r L namespace orc8r port)
  unfolding finish_orc8r report_orc8r_ready
  finish-Calls hash none h is_port (done, rolled, job) = status-Calls condition_true _ _ h (λ _.
      record {
        applied = done;
        hash = hash;
        rolled_out = rolled;
        bootstrapped = job;
        plain_http = λ set. absurd (not_set _ is_port set);
      })
  finish-Calls hash (some port) h is_port facts =
      Sat-bind _ h _ _
        (quiet h _ (
          Sat-frame (Facts hash) (Facts-IsStable hash) h _ facts
            (patch_magmalte-Served namespace h)))
        (λ h' failed q.
          Sat-check_error failed h' _ _ (λ e _. failure-Calls _ _ h')
            (λ fine.
              let (done, rolled, job) = q.1 in
              status-Calls condition_true _ _ h' (λ _. record {
                applied = done;
                hash = hash;
                rolled_out = rolled;
                bootstrapped = job;
                plain_http = λ _. q.0 fine;
              })))

  pub recreated-Calls : (h : History) → Sat Calls (λ _ _. Unit {0}) h (report_recreated L orc8r)
  unfolding report_recreated
  recreated-Calls h =
      Sat-bind (λ _ _. Unit {0}) h _ _ (failure-Calls _ _ h)
        (λ h' result _.
          Sat-check_error result.error h' _ _ (λ _ _. Sat-ret h' _ tt) (λ _. Sat-ret h' _ tt))
