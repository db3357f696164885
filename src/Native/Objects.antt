-- ===== src/Native/Objects.antt =====
-- The objects of a release: `nativeReleaseObjects`, `applyNodeSelectors`, `setPodSpecNodeSelector`
-- and `nativeAGWApplyFilter` of internal/controller/native_runner.go.
use magma_operator.Base.{
  String, ◌<>◌, ◌==◌, Bool, true, not, ◌&&◌, ◌||◌, List, [], ◌∷◌, ◌++◌, Dict, is_empty,
  if◌then◌else◌, contains,
}
use magma_operator.Kube.Objects.{Manifest}
use magma_operator.Kube.Prog.{Result, ok, err, check}
use magma_operator.Kube.Library.{Library}
use magma_operator.Native.Values.{selector_for_object}
use magma_operator.Native.Metadata.{normalize_meta}
use magma_operator.Native.Render.{NativeRelease, render_native_manifest}

-- Where the pod of an object of a kind is specified, [] if it has none.
unfoldable pub pod_spec_path : String → List String
pod_spec_path kind =
    if kind == "Deployment" || kind == "DaemonSet" || kind == "StatefulSet" || kind == "Job"
    then "spec" ∷ "template" ∷ "spec" ∷ []
    else if kind == "CronJob"
    then "spec" ∷ "jobTemplate" ∷ "spec" ∷ "template" ∷ "spec" ∷ []
    else if kind == "Pod"
    then "spec" ∷ []
    else []

-- What every object of a release gets: a namespace, unless it has one or is one.
unfoldable pub set_namespace : String → Manifest → Manifest
set_namespace namespace o =
    if is_empty o.meta.namespace && not (o.kind == "Namespace")
    then record o { meta = record (o.meta) { namespace = namespace } }
    else o

module _ (L : Library) where
  unfoldable pub set_pod_spec_node_selector : Manifest → Dict String → List String → Manifest
  set_pod_spec_node_selector o selector fields =
      let path = fields ++ "nodeSelector" ∷ [] in
      record o { body = L.set_nested_string_map (L.remove_nested_field o.body path) selector path }

  -- `applyNodeSelectors`
  unfoldable pub apply_node_selectors : Manifest → Dict String → Manifest
  unfolding pod_spec_path set_pod_spec_node_selector
  apply_node_selectors o values = elim (selector_for_object o.meta.name values) [
    | [] ↦ o
    | s ∷ ss ↦ elim (pod_spec_path o.kind) [
      | [] ↦ o
      | f ∷ fs ↦ set_pod_spec_node_selector o (s ∷ ss) (f ∷ fs)
    ]
  ]

  -- What the decoding loop does with one object that has a kind and a name.
  unfoldable pub prepare : NativeRelease → Manifest → Manifest
  unfolding set_namespace normalize_meta apply_node_selectors
  prepare release o =
      let placed = set_namespace release.namespace o in
      apply_node_selectors (record placed { meta = normalize_meta placed.meta }) release.values

  -- The decoding loop: documents without a kind or a name are left out.
  unfoldable pub prepare_each : NativeRelease → List Manifest → List Manifest
  unfolding prepare
  prepare_each release [] = []
  prepare_each release (o ∷ os) =
      let rest = prepare_each release os in
      if is_empty o.kind || is_empty o.meta.name then rest else prepare release o ∷ rest

  -- `nativeReleaseObjects`
  unfoldable pub native_release_objects : NativeRelease → Result (List Manifest)
  unfolding prepare_each
  native_release_objects release =
      check (L.read_file ("native_manifests/" <> release.manifest)) err (λ raw.
        check (L.decode_yaml (render_native_manifest raw release)) err
          (λ documents. ok (prepare_each release documents)))

-- `nativeAGWApplyFilter`
unfoldable pub native_agw_apply_filter : Bool → Manifest → Bool
native_agw_apply_filter enable_ueransim o =
    let name = o.meta.name in
    if enable_ueransim
    then true
    else not (contains name "ueransim")
      && not (contains name "simulator")
      && not (contains name "iperf3")
