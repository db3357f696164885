-- ===== src/Agw/Deletion/Finish.antt =====
-- The theorem that a deletion without errors is finished: `reconcileAGWDeletion` of
-- internal/controller/magmaagw_controller.go.
use magma_operator.Agw.Deletion.{delete_resources, drop_finalizer, reconcile_agw_deletion, report}
use magma_operator.Agw.Deletion.Facts.{Was}
use magma_operator.Agw.Deletion.Last.{PatchesLast, reconcile_agw_deletion-TornDown}
use magma_operator.Kube.Always.{Always, Always-bind, Always-check_error, always_rules}
use magma_operator.Kube.Frame.{Sat-both, Sat-weaken}
use magma_operator.Kube.Sat.{History, Sat, Sat-if, Sat-ret, Sat-send}
use magma_operator.Agw.Deletion.Progress.{
  Ends, Ends-bind, Ends-if, Ends-ret, Ends-send, Succeeds, cleanup-Succeeds, delete_each-Succeeds,
  release_nodes-Succeeds,
}
use magma_operator.Agw.Deletion.Safety.{deletion_release}
use magma_operator.Agw.Names.{
  Stage, gateway_registration_enabled, magma_agw_finalizer, magmalte_deployment_name,
  nms_cert_secret_name, orc8r_namespace,
}
use magma_operator.Agw.Registration.{
  deregister_gateway, inspect_deregistration_job, obtain_deregistration_job,
  reconcile_agw_gateway_deregistration,
}
use magma_operator.Agw.Status.{Outcome, done, failed_with, retry_after}
use magma_operator.Api.Agw.{MagmaAgw}
use magma_operator.Base.{
  [], ap, inl, ℕ, List, String, arith, false, is_empty, ltb, none, not, refl, true, ◌<>◌, ◌<◌, ◌||◌,
  ◌≡◌,
}
use magma_operator.Kube.Library.{Library}
use magma_operator.Kube.Objects.{Job, Manifest}
use magma_operator.Kube.Prog.{Answer, Call, Error, Kind, get, ok, patch, ret}
use magma_operator.Native.Objects.{native_release_objects}
use magma_operator.Native.Release.{delete_native_release}

-- The gateway is deregistered.
abbrev Passes : Stage → Type 0
Passes stage = (stage.ready ≡ true) × (stage.error ≡ none)

inspect-Passes :
    (namespace name : String) (j : Job)
    → 0 < j.succeeded
    → Passes (inspect_deregistration_job namespace name j)
unfolding inspect_deregistration_job
inspect-Passes namespace name j succeeded =
    let yes : ltb 0 j.succeeded ≡ true = ground arith in rw yes (refl, refl)

obtain-Passes :
    (agw : MagmaAgw) (image : String) → Ends Passes (obtain_deregistration_job agw image)
unfolding obtain_deregistration_job
obtain-Passes agw image =
    Ends-send Passes (get Kind.job (orc8r_namespace agw) (agw.meta.name <> "-delete-gateway")) _
      (λ r (j, found, succeeded). rw found (Ends-ret Passes _ (inspect-Passes _ _ j succeeded)))

deregister-Passes : (agw : MagmaAgw) → Ends Passes (deregister_gateway agw)
unfolding deregister_gateway
deregister-Passes agw =
    Ends-send Passes (get Kind.secret (orc8r_namespace agw) (nms_cert_secret_name agw)) _
      (λ r (s, found). rw found (
        Ends-send Passes (get Kind.deployment (orc8r_namespace agw) magmalte_deployment_name) _
          (λ r' (d, image, others, found', containers).
            rw found' (rw containers (obtain-Passes agw image.image)))))

deregistration-Passes :
    (agw : MagmaAgw)
    → (is_empty agw.spec.network_id || is_empty agw.spec.access_gateway_id) ≡ false
    → Ends Passes (reconcile_agw_gateway_deregistration agw)
unfolding reconcile_agw_gateway_deregistration
deregistration-Passes agw ids =
    Ends-if Passes (not agw.spec.gateway_registration.delete_on_removal) _ _
      (λ _. Ends-ret Passes _ (refl, refl))
      (λ _.
        Ends-if Passes (not (gateway_registration_enabled agw.spec.gateway_registration)) _ _
          (λ _. Ends-ret Passes _ (refl, refl))
          (λ _.
            Ends-if Passes (is_empty agw.spec.network_id || is_empty agw.spec.access_gateway_id) _ _
              (λ bad. cc) (λ _. deregister-Passes agw)))

abbrev pub IsDone : Outcome → Type 0
IsDone o = o ≡ done

-- The finalizer was taken off the resource, without an error.
abbrev pub Dropped : Library → MagmaAgw → (c : Call) → Answer c → Type 0
Dropped L agw (patch Kind.agw old new) failed =
    (old ≡ agw) × (new.meta ≡ L.remove_finalizer agw.meta magma_agw_finalizer) × (failed ≡ none)
Dropped L agw _ _ = ⊥

-- A reconcile is done only after that.
abbrev pub DoneIfDropped : Library → MagmaAgw → History → Outcome → Type 0
DoneIfDropped L agw h o = IsDone o → Was (Dropped L agw) h

-- An outcome with an error or a delay is not done.
pub failed_with-not-IsDone : (e : Error) → ¬ IsDone (failed_with e)
failed_with-not-IsDone e bad = cc

pub retry_after-not-IsDone : (seconds : ℕ) → 0 < seconds → ¬ IsDone (retry_after seconds)
retry_after-not-IsDone seconds later bad =
    let none_asked = ap (λ o. o.requeue_after) bad in omega arith

module _ (L : Library) (agw : MagmaAgw) (release_name : String) (objects : List Manifest)
    (found : native_release_objects L (deletion_release agw release_name) ≡ ok objects) where
  delete_native_release-Succeeds :
      Succeeds (delete_native_release L (deletion_release agw release_name))
  unfolding delete_native_release
  delete_native_release-Succeeds = rw found (delete_each-Succeeds objects)

  drop_finalizer-Ends : Ends IsDone (drop_finalizer L agw)
  unfolding drop_finalizer
  drop_finalizer-Ends =
      Ends-send IsDone (patch Kind.agw agw _) _ (λ failed fine. Ends-ret IsDone _ (rw fine refl))

  delete_resources-Ends : Ends IsDone (delete_resources L agw release_name)
  unfolding delete_resources
  delete_resources-Ends =
      Ends-bind (λ failed. failed ≡ none) IsDone _ _ delete_native_release-Succeeds
        (λ deleted fine1. rw fine1 (
          Ends-bind (λ failed. failed ≡ none) IsDone _ _ (release_nodes-Succeeds agw)
            (λ released fine2. rw fine2 (
              Ends-bind (λ failed. failed ≡ none) IsDone _ _ (cleanup-Succeeds agw release_name)
                (λ cleaned fine3. rw fine3 drop_finalizer-Ends)))))

  report-NotDone :
      (reason message : String) (seconds : ℕ)
      → 0 < seconds
      → Always
          (DoneIfDropped L agw)
          (report L agw release_name reason message (retry_after seconds))
  unfolding report
  report-NotDone reason message seconds later = Always-bind _ _ (λ reported.
      Always-check_error reported.error _ _
        (λ e. record { at = λ h. Sat-ret h _ (λ bad. absurd (failed_with-not-IsDone e bad)) })
        (record {
          at = λ h. Sat-ret h _ (λ bad. absurd (retry_after-not-IsDone seconds later bad));
        }))

  drop_finalizer-Dropped : Always (DoneIfDropped L agw) (drop_finalizer L agw)
  unfolding drop_finalizer
  drop_finalizer-Dropped = record {
    at = λ h.
        Sat-send h
          (patch Kind.agw agw
            (record agw { meta = L.remove_finalizer agw.meta magma_agw_finalizer }))
          _ tt (λ failed. Sat-ret _ _ (λ finished. inl (refl, refl, ap (λ o. o.error) finished)));
  }

  fails-NotDone : (e : Error) → Always (DoneIfDropped L agw) (ret (failed_with e))
  fails-NotDone e = record { at = λ h. Sat-ret h _ (λ bad. absurd (failed_with-not-IsDone e bad)) }

  report-Later :
      (reason message : String)
      → Always (DoneIfDropped L agw) (report L agw release_name reason message (retry_after 30))
  report-Later reason message = report-NotDone reason message 30 (omega arith)

  report-Soon :
      (reason message : String)
      → Always (DoneIfDropped L agw) (report L agw release_name reason message (retry_after 20))
  report-Soon reason message = report-NotDone reason message 20 (omega arith)

  delete_resources-Dropped : Always (DoneIfDropped L agw) (delete_resources L agw release_name)
  unfolding delete_resources
  delete_resources-Dropped =
      search (always_rules, report-Later, fails-NotDone, drop_finalizer-Dropped) depth 9

  reconcile_agw_deletion-Dropped :
      L.contains_finalizer agw.meta magma_agw_finalizer ≡ true
      → Always (DoneIfDropped L agw) (reconcile_agw_deletion L agw release_name)
  unfolding reconcile_agw_deletion
  reconcile_agw_deletion-Dropped has_finalizer = record {
    at = λ h.
        Sat-if (not (L.contains_finalizer agw.meta magma_agw_finalizer)) h _ _ (λ bad. ground arith)
          (λ _.
            (Always-bind (reconcile_agw_gateway_deregistration agw) _ (λ stage.
                search (always_rules, report-Later, report-Soon, delete_resources-Dropped) depth
                  9)).at
              h);
  }

  reconcile_agw_deletion-Finishes :
      L.contains_finalizer agw.meta magma_agw_finalizer ≡ true
      → (is_empty agw.spec.network_id || is_empty agw.spec.access_gateway_id) ≡ false
      → Ends IsDone (reconcile_agw_deletion L agw release_name)
  unfolding reconcile_agw_deletion
  reconcile_agw_deletion-Finishes has_finalizer ids =
      Ends-if IsDone (not (L.contains_finalizer agw.meta magma_agw_finalizer)) _ _
        (λ bad. ground arith)
        (λ _.
          Ends-bind Passes IsDone _ _ (deregistration-Passes agw ids)
            (λ stage (ready, no_error). rw no_error (rw ready delete_resources-Ends)))

  -- For a resource with the finalizer, a network id and a gateway id, where the manifest of the
  -- release yields objects. Whatever the answers are, `reconcileAGWDeletion` patches the resource
  -- only after the whole teardown was seen, and ends without an error and without asking for a
  -- further reconcile only after a patch, answered without an error, took the finalizer off. And it
  -- does end so if reads find what they ask for, the deregistration job has succeeded, magmalte has
  -- a container, and no change fails, where a delete may find nothing.
  pub reconcile_agw_deletion-Ends :
      L.contains_finalizer agw.meta magma_agw_finalizer ≡ true
      → (is_empty agw.spec.network_id || is_empty agw.spec.access_gateway_id) ≡ false
      → Sat
          (PatchesLast agw release_name objects)
          (DoneIfDropped L agw)
          []
          (reconcile_agw_deletion L agw release_name)
        × Ends IsDone (reconcile_agw_deletion L agw release_name)
  reconcile_agw_deletion-Ends has_finalizer ids = (
    Sat-weaken [] _ (λ _ _ both. both.0) (λ _ _ both. both.1)
        (Sat-both [] _ (reconcile_agw_deletion-TornDown L agw release_name objects found)
          ((reconcile_agw_deletion-Dropped has_finalizer).at [])),
    reconcile_agw_deletion-Finishes has_finalizer ids,
  )
