-- ===== src/Agw/Reports.antt =====
-- How a reconcile of a live `MagmaAGW` ends: internal/controller/magmaagw_controller.go.
pub mod Whole
use magma_operator.Agw.Status.{
  Outcome, is_true, set_agw_condition, update_agw_ready_status_with_requeue, update_agw_status,
  update_agw_status_with_requeue, with_ready_condition,
}
use magma_operator.Agw.Status.Conditions.{find_condition-with_ready_condition}
use magma_operator.Api.Agw.{MagmaAgw}
use magma_operator.Base.{
  Bool, Option, String, [], arith, false, if◌then◌else◌, nat_eq, none, refl, some, true, ℕ, ◌∙◌,
  ◌∷◌, ◌≡◌,
}
use magma_operator.Kube.Always.{Always, always_rules}
use magma_operator.Kube.Frame.{AnyCall, Sat-any}
use magma_operator.Kube.Lawful.{IsLawful}
use magma_operator.Kube.Library.{Library, find_condition}
use magma_operator.Kube.Objects.{
  Condition, ConditionStatus, Meta, condition_false, condition_true, condition_unknown,
}
use magma_operator.Kube.Prog.{
  Call, Error, Kind, Prog, Result, call, check, check_error, is_conflict, ret, update_status, ◌>>=◌,
}
use magma_operator.Kube.Sat.{
  History, Holds, Sat, Sat-bind, Sat-check, Sat-check_error, Sat-if, Sat-ret, Sat-send, after,
}

-- The last call was a status update of the resource, of which this is the metadata, with a condition `Ready`, which is true if
-- the outcome is no error and asks for no further reconcile.
abbrev pub IsReport : Meta → Outcome → Call → Type 0
IsReport m o (update_status Kind.agw a) =
    (a.meta ≡ m)
    × (c : Condition) × (find_condition a.status.conditions "Ready" ≡ some c)
    × (o.error ≡ none → o.requeue_after ≡ 0 → c.status ≡ condition_true)
IsReport m o _ = ⊥

abbrev pub ReportedLast : Meta → History → Outcome → Type 0
ReportedLast m [] o = ⊥
ReportedLast m (e ∷ h) o = IsReport m o e.call

-- Whatever was exchanged, a program ends with a report.
abbrev pub Reports : Meta → Prog Outcome → Type 0
Reports m p = Always (ReportedLast m) p

module _ (L : Library) {m : Meta} where
  -- Setting a condition keeps the metadata.
  pub set_agw_condition-meta :
      (agw : MagmaAgw) (type : String) (s : ConditionStatus) (reason message : String)
      → agw.meta ≡ m
      → (set_agw_condition L agw type s reason message).meta ≡ m
  unfolding set_agw_condition
  set_agw_condition-meta agw type s reason message same = same

  with_ready_condition-meta :
      (agw : MagmaAgw) (release_name : String) (s : ConditionStatus) (reason message : String)
      → agw.meta ≡ m
      → (with_ready_condition L agw release_name s reason message).meta ≡ m
  unfolding with_ready_condition set_agw_condition
  with_ready_condition-meta agw release_name s reason message same = same

module _ {L : Library} (lawful : IsLawful L) where
  ready_found :
      (agw : MagmaAgw) (release_name : String) (s : ConditionStatus) (reason message : String)
      → (c : Condition) × (find_condition
            (with_ready_condition L agw release_name s reason message).status.conditions
            "Ready"
          ≡ some c)
        × (c.status ≡ s)
  ready_found agw release_name s reason message = (
    _,
    find_condition-with_ready_condition lawful agw release_name s reason message "Ready",
    refl,
  )

module _ {L : Library} (lawful : IsLawful L) {m : Meta} where
  -- A status update of a condition that is not true asks to be called again.
  pub status-Reports :
      (agw : MagmaAgw) (release_name : String) (s : ConditionStatus) (reason message : String)
      (seconds : ℕ)
      → nat_eq seconds 0 ≡ false
      → agw.meta ≡ m
      → Reports m (update_agw_status_with_requeue L agw release_name s reason message seconds)
  unfolding update_agw_status_with_requeue
  status-Reports agw release_name s reason message seconds later same = record {
    at = λ h.
        let (c, found, is_s) = ready_found lawful agw release_name s reason message in
        let its = with_ready_condition-meta L agw release_name s reason message same in
        Sat-send h
          (update_status Kind.agw (with_ready_condition L agw release_name s reason message)) _ tt
          (λ failed.
            Sat-check_error failed _ _ _
              (λ e _.
                Sat-if (is_conflict e) _ _ _
                  (λ _. Sat-ret _ _ (its, c, found, λ _ bad. ground arith))
                  (λ _. Sat-ret _ _ (its, c, found, λ bad _. cc)))
              (λ _.
                Sat-if (is_true s) _ _ _
                  (λ true_now. Sat-ret _ _ (its, c, found, λ _ _. is_s ∙ true_status s true_now))
                  (λ _. Sat-ret _ _ (its, c, found, λ _ bad. ground arith))));
  }
    where
      true_status : (t : ConditionStatus) → is_true t ≡ true → t ≡ condition_true
      true_status condition_true _ = refl
      true_status condition_false bad = cc
      true_status condition_unknown bad = cc

  pub plain_status-Reports :
      (agw : MagmaAgw) (release_name : String) (s : ConditionStatus) (reason message : String)
      → agw.meta ≡ m
      → Reports m (update_agw_status L agw release_name s reason message)
  unfolding update_agw_status
  plain_status-Reports agw release_name s reason message same =
      status-Reports agw release_name s reason message 120 refl same

  pub ready_status-Reports :
      (agw : MagmaAgw) (release_name reason message : String) (seconds : ℕ)
      → agw.meta ≡ m
      → Reports m (update_agw_ready_status_with_requeue L agw release_name reason message seconds)
  unfolding update_agw_ready_status_with_requeue
  ready_status-Reports agw release_name reason message seconds same = record {
    at = λ h.
        let (c, found, is_s) = ready_found lawful agw release_name condition_true reason message in
        let its = with_ready_condition-meta L agw release_name condition_true reason message same in
        Sat-send h
          (update_status Kind.agw
            (with_ready_condition L agw release_name condition_true reason message))
          _ tt
          (λ failed.
            Sat-check_error failed _ _ _
              (λ e _.
                Sat-if (is_conflict e) _ _ _ (λ _. Sat-ret _ _ (its, c, found, λ _ _. is_s))
                  (λ _. Sat-ret _ _ (its, c, found, λ _ _. is_s)))
              (λ _. Sat-ret _ _ (its, c, found, λ _ _. is_s)));
  }

pub ruleset report_rules = (
  always_rules, status-Reports, plain_status-Reports, ready_status-Reports, set_agw_condition-meta,
)
