-- ===== src/Native/Release.antt =====
-- Applying and deleting a release: `reconcileNativeRelease`, `deleteNativeRelease` and what they
-- call, of internal/controller/native_runner.go.
pub mod Secrets
pub mod Complete
pub mod Calls
use magma_operator.Base.{
  ◌==◌, Bool, true, false, not, ◌&&◌, Option, none, some, List, [], ◌∷◌, if◌then◌else◌,
}
use magma_operator.Kube.Objects.{Meta, Manifest}
use magma_operator.Kube.Prog.{
  Kind, Prog, ret, send, ◌>>=◌, Error, check, check_error, is_not_found, is_invalid,
  ignore_not_found, get_manifest, update, apply, delete,
}
use magma_operator.Kube.Library.{Library}
use magma_operator.Native.Metadata.{normalize_meta, meta_changed}
use magma_operator.Native.Render.{NativeRelease}
use magma_operator.Native.Objects.{native_release_objects}

-- `deleteNativeObject`
unfoldable pub delete_native_object : Manifest → Prog (Option Error)
delete_native_object o = do
  failed ← send (delete Kind.manifest o true)
  ret (ignore_not_found failed)

-- The loop of `deleteNativeRelease`
unfoldable pub delete_each : List Manifest → Prog (Option Error)
delete_each [] = ret none
delete_each (o ∷ os) = do
  failed ← delete_native_object o
  check_error failed (λ e. ret (some e)) (delete_each os)

-- `cleanupNativeObjectMetadata`
unfoldable pub cleanup_native_object_metadata : Manifest → Prog (Option Error)
cleanup_native_object_metadata o = do
  found ← send (get_manifest o)
  check found (λ e. ret (some e))
      (λ current.
        if not (meta_changed current.meta)
        then ret none
        else send (update Kind.manifest (record current { meta = normalize_meta current.meta })))

-- Whether the filter of a release, if it has one, lets an object through.
abbrev pub lets_through : Option (Manifest → Bool) → Manifest → Bool
lets_through none o = true
lets_through (some f) o = f o

module _ (L : Library) where
  -- `preserveExistingNativeSecret`: whether the secret exists, and the error.
  unfoldable pub preserve_existing_native_secret : Meta → Manifest → Prog (Bool × Option Error)
  preserve_existing_native_secret owner o = do
    found ← send (get_manifest o)
    check found (λ e. if is_not_found e then ret (false, none) else ret (false, some e))
        (λ current.
          check (L.set_controller_reference owner current.meta) (λ e. ret (false, some e))
            (λ owned. do
              failed ← send (update Kind.manifest (record current { meta = normalize_meta owned }))
              ret (true, failed)))

  -- The server-side apply of one object and what follows it.
  unfoldable pub apply_native_object : Meta → Manifest → Prog (Option Error)
  apply_native_object owner o =
      check (L.set_controller_reference owner o.meta) (λ e. ret (some e))
        (λ owned. do
          let owned_object = record o { meta = owned }
          failed ← send (apply owned_object)
          check_error failed
              (λ e.
                if is_invalid e && o.kind == "Job"
                then delete_native_object owned_object
                else ret (some e))
              (cleanup_native_object_metadata owned_object))

  -- The body of the loop of `reconcileNativeRelease`
  unfoldable pub reconcile_object : Meta → Option (Manifest → Bool) → Manifest → Prog (Option Error)
  reconcile_object owner filter o =
      if not (lets_through filter o)
      then delete_native_object o
      else if o.kind == "Secret"
      then (do
        (exists, failed) ← preserve_existing_native_secret owner o
        check_error failed (λ e. ret (some e))
            (if exists then ret none else apply_native_object owner o))
      else apply_native_object owner o

  unfoldable pub reconcile_each :
      Meta → Option (Manifest → Bool) → List Manifest → Prog (Option Error)
  reconcile_each owner filter [] = ret none
  reconcile_each owner filter (o ∷ os) = do
    failed ← reconcile_object owner filter o
    check_error failed (λ e. ret (some e)) (reconcile_each owner filter os)

  -- `reconcileNativeRelease`
  unfoldable pub reconcile_native_release : Meta → NativeRelease → Prog (Option Error)
  reconcile_native_release owner release =
      check (native_release_objects L release) (λ e. ret (some e))
        (reconcile_each owner release.apply_filter)

  -- `deleteNativeRelease`
  unfoldable pub delete_native_release : NativeRelease → Prog (Option Error)
  delete_native_release release =
      check (native_release_objects L release) (λ e. ret (some e)) delete_each
