-- ===== src/Orc8r/Deletion/Finish.antt =====
-- A deletion that meets no error is finished: `reconcileOrc8rDeletion` of
-- internal/controller/magmaorc8r_controller.go.
use magma_operator.Agw.Deletion.Facts.{Was}
use magma_operator.Agw.Deletion.Finish.{IsDone, failed_with-not-IsDone, retry_after-not-IsDone}
use magma_operator.Agw.Status.{Outcome}
use magma_operator.Orc8r.Deletion.Last.{Orc8rPatchesLast, reconcile_orc8r_deletion-PatchesLast}
use magma_operator.Kube.Always.{Always, Always-bind, Always-check_error, always_rules}
use magma_operator.Kube.Frame.{Sat-both, Sat-weaken}
use magma_operator.Kube.Sat.{History, Sat, Sat-if, Sat-ret, Sat-send}
use magma_operator.Agw.Deletion.Progress.{
  Ends, Ends-bind, Ends-if, Ends-ret, Ends-send, Succeeds, delete_each-Succeeds,
}
use magma_operator.Api.Orc8r.{MagmaOrc8r}
use magma_operator.Base.{[], ap, inl, List, String, arith, none, not, refl, true, ◌≡◌}
use magma_operator.Kube.Library.{Library}
use magma_operator.Kube.Objects.{Manifest}
use magma_operator.Kube.Prog.{Answer, Call, Error, Kind, ok, patch}
use magma_operator.Native.Objects.{native_release_objects}
use magma_operator.Native.Release.{delete_native_release}
use magma_operator.Orc8r.Deletion.{
  drop_orc8r_finalizer, orc8r_release, reconcile_orc8r_deletion, report_orc8r_deletion,
}
use magma_operator.Orc8r.Names.{magma_orc8r_finalizer}

-- The finalizer was taken off the resource, without an error.
abbrev pub Orc8rDropped : Library → MagmaOrc8r → (c : Call) → Answer c → Type 0
Orc8rDropped L orc8r (patch Kind.orc8r old new) failed =
    (old ≡ orc8r)
    × (new.meta ≡ L.remove_finalizer orc8r.meta magma_orc8r_finalizer)
    × (failed ≡ none)
Orc8rDropped L orc8r _ _ = ⊥

-- A reconcile is done only after that.
abbrev pub DoneIfOrc8rDropped : Library → MagmaOrc8r → History → Outcome → Type 0
DoneIfOrc8rDropped L orc8r h o = IsDone o → Was (Orc8rDropped L orc8r) h

module _ (L : Library) (orc8r : MagmaOrc8r) (release_name : String) (objects : List Manifest)
    (found : native_release_objects L (orc8r_release orc8r release_name) ≡ ok objects) where
  delete_orc8r_release-Succeeds :
      Succeeds (delete_native_release L (orc8r_release orc8r release_name))
  unfolding delete_native_release
  delete_orc8r_release-Succeeds = rw found (delete_each-Succeeds objects)

  drop-Dropped : Always (DoneIfOrc8rDropped L orc8r) (drop_orc8r_finalizer L orc8r)
  unfolding drop_orc8r_finalizer
  drop-Dropped = record {
    at = λ h.
        Sat-send h
          (patch Kind.orc8r orc8r
            (record orc8r { meta = L.remove_finalizer orc8r.meta magma_orc8r_finalizer }))
          _ tt (λ failed. Sat-ret _ _ (λ finished. inl (refl, refl, ap (λ o. o.error) finished)));
  }

  report-NotDone :
      (e : Error)
      → Always (DoneIfOrc8rDropped L orc8r) (report_orc8r_deletion L orc8r release_name e)
  unfolding report_orc8r_deletion
  report-NotDone e = Always-bind _ _ (λ reported.
      Always-check_error reported.error _ _
        (λ e'. record { at = λ h. Sat-ret h _ (λ bad. absurd (failed_with-not-IsDone e' bad)) })
        (record {
          at = λ h. Sat-ret h _ (λ bad. absurd (retry_after-not-IsDone 30 (omega arith) bad));
        }))

  reconcile_orc8r_deletion-Dropped :
      L.contains_finalizer orc8r.meta magma_orc8r_finalizer ≡ true
      → Always (DoneIfOrc8rDropped L orc8r) (reconcile_orc8r_deletion L orc8r release_name)
  unfolding reconcile_orc8r_deletion
  reconcile_orc8r_deletion-Dropped has_finalizer = record {
    at = λ h.
        Sat-if (not (L.contains_finalizer orc8r.meta magma_orc8r_finalizer)) h _ _
          (λ bad. ground arith)
          (λ _.
            (Always-bind (delete_native_release L (orc8r_release orc8r release_name)) _
                (λ deleted. search (always_rules, report-NotDone, drop-Dropped) depth 9)).at
              h);
  }

  reconcile_orc8r_deletion-Finishes :
      L.contains_finalizer orc8r.meta magma_orc8r_finalizer ≡ true
      → Ends IsDone (reconcile_orc8r_deletion L orc8r release_name)
  unfolding reconcile_orc8r_deletion drop_orc8r_finalizer
  reconcile_orc8r_deletion-Finishes has_finalizer =
      Ends-if IsDone (not (L.contains_finalizer orc8r.meta magma_orc8r_finalizer)) _ _
        (λ bad. ground arith)
        (λ _.
          Ends-bind (λ failed. failed ≡ none) IsDone _ _ delete_orc8r_release-Succeeds
            (λ deleted fine. rw fine (
              Ends-send IsDone (patch Kind.orc8r orc8r _) _
                (λ failed fine'. Ends-ret IsDone _ (rw fine' refl)))))

  -- For a resource with the finalizer, where the manifest of the release yields objects. Whatever
  -- the answers are, `reconcileOrc8rDeletion` patches the resource only after every object was
  -- deleted or was not there, and ends without an error and without asking for a further reconcile
  -- only after a patch, answered without an error, took the finalizer off. And it does end so if no
  -- change fails, where a delete may find nothing.
  pub reconcile_orc8r_deletion-Ends :
      L.contains_finalizer orc8r.meta magma_orc8r_finalizer ≡ true
      → Sat
          (Orc8rPatchesLast objects)
          (DoneIfOrc8rDropped L orc8r)
          []
          (reconcile_orc8r_deletion L orc8r release_name)
        × Ends IsDone (reconcile_orc8r_deletion L orc8r release_name)
  reconcile_orc8r_deletion-Ends has_finalizer = (
    Sat-weaken [] _ (λ _ _ both. both.0) (λ _ _ both. both.1)
        (Sat-both [] _ (reconcile_orc8r_deletion-PatchesLast L orc8r release_name objects found)
          ((reconcile_orc8r_deletion-Dropped has_finalizer).at [])),
    reconcile_orc8r_deletion-Finishes has_finalizer,
  )
