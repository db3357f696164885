-- ===== src/Orc8r/Status/Reports.antt =====
-- How a reconcile of a `MagmaOrc8r` ends: its last call and what becomes of errors.
-- internal/controller/magmaorc8r_controller.go.
use magma_operator.Agw.Status.{Outcome, is_true}
use magma_operator.Api.Orc8r.{MagmaOrc8r}
use magma_operator.Base.{
  String, [], arith, inl, inr, none, refl, some, sym, true, ◌∙◌, ◌∷◌, ◌≡◌, ◌⊎◌,
}
use magma_operator.Kube.Always.{Always}
use magma_operator.Kube.Lawful.{IsLawful}
use magma_operator.Kube.Library.{Library, find_condition}
use magma_operator.Kube.Objects.{
  Condition, ConditionStatus, Meta, condition_false, condition_true, condition_unknown,
}
use magma_operator.Kube.Prog.{Answer, Call, Kind, is_conflict, update_status}
use magma_operator.Kube.Sat.{History, Sat-check_error, Sat-if, Sat-ret, Sat-send}
use magma_operator.Orc8r.Status.{update_orc8r_status, with_orc8r_ready}

-- The last call was a status update of the resource, of which this is the metadata, with a condition
-- `Ready`, which is true if the outcome is no error and asks for no further reconcile. An error is
-- the answer of that call.
abbrev pub IsOrc8rReport : Meta → Outcome → (c : Call) → Answer c → Type 0
IsOrc8rReport m o (update_status Kind.orc8r a) failed =
    (a.meta ≡ m)
    × (c : Condition) × (find_condition a.status.conditions "Ready" ≡ some c)
    × (o.error ≡ none → o.requeue_after ≡ 0 → c.status ≡ condition_true)
    × (o.error ≡ none ⊎ o.error ≡ failed)
IsOrc8rReport m o _ _ = ⊥

abbrev pub Orc8rReported : Meta → History → Outcome → Type 0
Orc8rReported m [] o = ⊥
Orc8rReported m (e ∷ h) o = IsOrc8rReport m o e.call e.answer

with_orc8r_ready-meta :
    (L : Library) (orc8r : MagmaOrc8r) (release_name : String) (s : ConditionStatus)
    (reason message : String)
    → (with_orc8r_ready L orc8r release_name s reason message).meta ≡ orc8r.meta
unfolding with_orc8r_ready
with_orc8r_ready-meta L orc8r release_name s reason message = refl

module _ {L : Library} (lawful : IsLawful L) where
  pub ready_condition_found :
      (orc8r : MagmaOrc8r) (release_name : String) (s : ConditionStatus) (reason message : String)
      → (c : Condition) × (find_condition
            (with_orc8r_ready L orc8r release_name s reason message).status.conditions
            "Ready"
          ≡ some c)
        × (c.status ≡ s)
  unfolding with_orc8r_ready
  ready_condition_found orc8r release_name s reason message =
      (_, lawful.find-set orc8r.status.conditions _ "Ready", refl)

  pub status-Orc8rReported :
      (orc8r : MagmaOrc8r) (release_name : String) (s : ConditionStatus) (reason message : String)
      → Always
          (Orc8rReported orc8r.meta)
          (update_orc8r_status L orc8r release_name s reason message)
  unfolding update_orc8r_status
  status-Orc8rReported orc8r release_name s reason message = record {
    at = λ h.
        let (c, found, is_s) = ready_condition_found orc8r release_name s reason message in
        let its = with_orc8r_ready-meta L orc8r release_name s reason message in
        Sat-send h
          (update_status Kind.orc8r (with_orc8r_ready L orc8r release_name s reason message)) _ tt
          (λ failed.
            Sat-check_error failed _ _ _
              (λ e is_e.
                Sat-if (is_conflict e) _ _ _
                  (λ _. Sat-ret _ _ (its, c, found, (λ _ bad. ground arith), inl refl))
                  (λ _. Sat-ret _ _ (its, c, found, (λ bad _. cc), inr (sym is_e))))
              (λ _.
                Sat-if (is_true s) _ _ _
                  (λ true_now.
                    Sat-ret _ _ (its, c, found, (λ _ _. is_s ∙ true_status s true_now), inl refl))
                  (λ _. Sat-ret _ _ (its, c, found, (λ _ bad. ground arith), inl refl))));
  }
    where
      true_status : (t : ConditionStatus) → is_true t ≡ true → t ≡ condition_true
      true_status condition_true _ = refl
      true_status condition_false bad = cc
      true_status condition_unknown bad = cc
