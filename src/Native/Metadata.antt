-- ===== src/Native/Metadata.antt =====
-- The labels and annotations of applied objects: `nativeObjectMetadata` of
-- internal/controller/native_runner.go.
pub mod Normal
use magma_operator.Base.{
  String, ◌==◌, Bool, true, false, not, ◌||◌, none, some, [], ◌∷◌, Dict, lookup, entry, insert,
  remove, if◌then◌else◌, has_prefix,
}
use magma_operator.Kube.Objects.{Meta}
use magma_operator.Agw.Names.{label_app_managed_by, managed_by_magma_operator}

abbrev pub has_key : String → Dict String → Bool
has_key k m = elim (lookup k m) [ none ↦ false | some _ ↦ true ]

-- The loop over the annotations, and whether it deletes one.
unfoldable pub drop_helm : Dict String → Dict String
drop_helm [] = []
drop_helm ((k, v) ∷ m) =
    let rest = drop_helm m in if has_prefix k "helm.sh/" then rest else (k, v) ∷ rest

unfoldable pub any_helm : Dict String → Bool
any_helm [] = false
any_helm ((k, v) ∷ m) = has_prefix k "helm.sh/" || any_helm m

-- The labels without the chart.
unfoldable pub drop_chart : Dict String → Dict String
drop_chart labels = if has_key "helm.sh/chart" labels then remove "helm.sh/chart" labels else labels

abbrev pub is_managed : Dict String → Bool
is_managed labels = entry label_app_managed_by labels == managed_by_magma_operator

unfoldable pub set_managed : Dict String → Dict String
set_managed labels =
    if not (is_managed labels)
    then insert label_app_managed_by managed_by_magma_operator labels
    else labels

-- `nativeObjectMetadata`: the labels, the annotations, and whether they changed.
unfoldable pub native_object_metadata : Dict String → Dict String → Dict String × Dict String × Bool
unfolding drop_chart set_managed drop_helm any_helm
native_object_metadata labels annotations = (
  set_managed (drop_chart labels),
  drop_helm annotations,
  has_key "helm.sh/chart" labels || not (is_managed (drop_chart labels)) || any_helm annotations,
)

-- `normalizeNativeObjectMetadata`, and the same on an object that was read.
unfoldable pub normalize_meta : Meta → Meta
unfolding native_object_metadata
normalize_meta m = record m {
  labels = (native_object_metadata m.labels m.annotations).0;
  annotations = (native_object_metadata m.labels m.annotations).1;
}

abbrev pub meta_changed : Meta → Bool
meta_changed m = (native_object_metadata m.labels m.annotations).2
