-- ===== src/Orc8r/Deletion/Last.antt =====
-- The order of a deletion: `reconcileOrc8rDeletion` of
-- internal/controller/magmaorc8r_controller.go.
use magma_operator.Agw.Deletion.Facts.{Removed, Was}
use magma_operator.Agw.Deletion.Guard.{delete_each-Removed}
use magma_operator.Api.Orc8r.{MagmaOrc8r}
use magma_operator.Base.{All, Bool, List, String, [], false, none, not, true, ◌≡◌}
use magma_operator.Kube.Library.{Library}
use magma_operator.Kube.Objects.{Manifest, condition_false}
use magma_operator.Kube.Prog.{Call, Error, Kind, is_conflict, ok, patch, update_status}
use magma_operator.Kube.Sat.{History, Sat, Sat-bind, Sat-check_error, Sat-if, Sat-ret, Sat-send}
use magma_operator.Native.Objects.{native_release_objects}
use magma_operator.Native.Release.{delete_native_release}
use magma_operator.Orc8r.Deletion.{
  drop_orc8r_finalizer, orc8r_release, reconcile_orc8r_deletion, report_orc8r_deletion,
}
use magma_operator.Orc8r.Names.{magma_orc8r_finalizer}
use magma_operator.Orc8r.Status.{update_orc8r_status, with_orc8r_ready}

-- A patch of the resource itself, which is how its finalizers change.
abbrev pub is_orc8r_patch : Call → Bool
is_orc8r_patch (patch Kind.orc8r old new) = true
is_orc8r_patch _ = false

-- Where the resource is patched, these objects have been seen to be gone.
abbrev pub Orc8rPatchesLast : List Manifest → History → Call → Type 0
Orc8rPatchesLast objects h c = is_orc8r_patch c ≡ true → All (λ o. Was (Removed o) h) objects

module _ (L : Library) (orc8r : MagmaOrc8r) (release_name : String) (objects : List Manifest)
    (found : native_release_objects L (orc8r_release orc8r release_name) ≡ ok objects) where
  report-PatchesLast :
      (e : Error) (h : History)
      → Sat
          (Orc8rPatchesLast objects)
          (λ _ _. Unit {0})
          h
          (report_orc8r_deletion L orc8r release_name e)
  unfolding report_orc8r_deletion update_orc8r_status
  report-PatchesLast e h =
      Sat-bind (λ _ _. Unit {0}) h _ _
        (Sat-send h
          (update_status Kind.orc8r
            (with_orc8r_ready L orc8r release_name condition_false "NativeDeleteFailed" e.message))
          _ (λ bad. cc)
          (λ r.
            Sat-check_error r _ _ _
              (λ e' _. Sat-if (is_conflict e') _ _ _ (λ _. Sat-ret _ _ tt) (λ _. Sat-ret _ _ tt))
              (λ _. Sat-ret _ _ tt)))
        (λ h' reported _.
          Sat-check_error reported.error h' _ _ (λ _ _. Sat-ret _ _ tt) (λ _. Sat-ret _ _ tt))

  delete_orc8r_release-Removed :
      (h : History)
      → Sat
          (Orc8rPatchesLast objects)
          (λ h' failed. failed ≡ none → All (λ o. Was (Removed o) h') objects)
          h
          (delete_native_release L (orc8r_release orc8r release_name))
  unfolding delete_native_release
  delete_orc8r_release-Removed h = rw found (delete_each-Removed (λ _ _ bad. cc) objects h)

  -- Where the manifest of the release yields these objects, `reconcileOrc8rDeletion` patches the
  -- resource, and so takes its finalizer off, only after every object was deleted or was not there.
  pub reconcile_orc8r_deletion-PatchesLast :
      Sat
        (Orc8rPatchesLast objects)
        (λ _ _. Unit {0})
        []
        (reconcile_orc8r_deletion L orc8r release_name)
  unfolding reconcile_orc8r_deletion drop_orc8r_finalizer
  reconcile_orc8r_deletion-PatchesLast =
      Sat-if (not (L.contains_finalizer orc8r.meta magma_orc8r_finalizer)) [] _ _
        (λ _. Sat-ret [] _ tt)
        (λ _. Sat-bind _ [] _ _ (delete_orc8r_release-Removed []) (λ h deleted q.
          Sat-check_error deleted h _ _ (λ e _. report-PatchesLast e h)
            (λ fine.
              Sat-send h
                (patch Kind.orc8r orc8r
                  (record orc8r { meta = L.remove_finalizer orc8r.meta magma_orc8r_finalizer }))
                _ (λ _. q fine) (λ r. Sat-ret _ _ tt))))
