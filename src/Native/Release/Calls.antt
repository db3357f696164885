-- ===== src/Native/Release/Calls.antt =====
-- The calls that applying a release makes: internal/controller/native_runner.go.
use magma_operator.Base.{Bool, List, Option, [], false, some, true, ◌∷◌}
use magma_operator.Kube.Library.{Library}
use magma_operator.Kube.Objects.{Manifest, Meta}
use magma_operator.Kube.Only.{Only, Only-ret, only_rules}
use magma_operator.Kube.Prog.{
  Call, Error, Kind, Prog, apply, check_error, delete, get_manifest, ret, update, ◌>>=◌,
}
use magma_operator.Native.Release.{
  apply_native_object, cleanup_native_object_metadata, delete_native_object,
  preserve_existing_native_secret, reconcile_each, reconcile_native_release, reconcile_object,
}
use magma_operator.Native.Render.{NativeRelease}

-- Reads, updates, applies and deletions of manifest objects.
abbrev pub is_native_call : Call → Bool
is_native_call (get_manifest o) = true
is_native_call (update Kind.manifest o) = true
is_native_call (delete Kind.manifest o background) = true
is_native_call (apply o) = true
is_native_call _ = false

pub delete_object-Native : (o : Manifest) → Only is_native_call (delete_native_object o)
unfolding delete_native_object
delete_object-Native o = search only_rules

cleanup_metadata-Native : (o : Manifest) → Only is_native_call (cleanup_native_object_metadata o)
unfolding cleanup_native_object_metadata
cleanup_metadata-Native o = search only_rules depth 9

go_on-Native :
    (m : Prog (Option Error)) (rest : Prog (Option Error))
    → Only is_native_call m
    → Only is_native_call rest
    → Only is_native_call (m >>= λ failed. check_error failed (λ e. ret (some e)) rest)
go_on-Native m rest p q = search only_rules

module _ (L : Library) where
  preserve_secret-Native :
      (owner : Meta) (o : Manifest)
      → Only is_native_call (preserve_existing_native_secret L owner o)
  unfolding preserve_existing_native_secret
  preserve_secret-Native owner o = search only_rules depth 12

  apply_object-Native :
      (owner : Meta) (o : Manifest) → Only is_native_call (apply_native_object L owner o)
  unfolding apply_native_object
  apply_object-Native owner o =
      search (only_rules, delete_object-Native, cleanup_metadata-Native) depth 12

  reconcile_object-Native :
      (owner : Meta) (filter : Option (Manifest → Bool)) (o : Manifest)
      → Only is_native_call (reconcile_object L owner filter o)
  unfolding reconcile_object
  reconcile_object-Native owner filter o =
      search (only_rules, delete_object-Native, preserve_secret-Native, apply_object-Native) depth
        12

  reconcile_each-Native :
      (owner : Meta) (filter : Option (Manifest → Bool)) (os : List Manifest)
      → Only is_native_call (reconcile_each L owner filter os)
  unfolding reconcile_each
  reconcile_each-Native owner filter [] = Only-ret _
  reconcile_each-Native owner filter (o ∷ os) =
      go_on-Native _ _ (reconcile_object-Native owner filter o)
        (reconcile_each-Native owner filter os)

  pub native_release-Native :
      (owner : Meta) (release : NativeRelease)
      → Only is_native_call (reconcile_native_release L owner release)
  unfolding reconcile_native_release
  native_release-Native owner release = search (only_rules, reconcile_each-Native)
