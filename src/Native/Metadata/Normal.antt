-- ===== src/Native/Metadata/Normal.antt =====
-- What `nativeObjectMetadata` of internal/controller/native_runner.go leaves of labels and
-- annotations.
use mathlib.Core.Path.{subst}
use magma_operator.Agw.Names.{label_app_managed_by, managed_by_magma_operator}
use magma_operator.Base.{
  Bool-cases, Dict, String, [], arith, entry-lookup, eq_iff, false, has_prefix, if◌then◌else◌, inl,
  inr, lookup, lookup-entry, lookup-insert, lookup-remove, none, refl, some, true, ◌==◌, ◌∷◌, ◌≡◌,
}
use magma_operator.Kube.Objects.{Meta}
use magma_operator.Native.Metadata.{
  any_helm, drop_chart, drop_helm, has_key, is_managed, meta_changed, native_object_metadata,
  normalize_meta, set_managed,
}

lookup-drop_helm :
    (k : String) (m : Dict String)
    → lookup k (drop_helm m) ≡ (if has_prefix k "helm.sh/" then none else lookup k m)
unfolding lookup drop_helm
lookup-drop_helm k [] = ground arith
lookup-drop_helm k ((j, v) ∷ m) = ground (arith, lookup-drop_helm k m, eq_iff j k)

any_helm-drop_helm : (m : Dict String) → any_helm (drop_helm m) ≡ false
unfolding any_helm drop_helm
any_helm-drop_helm [] = refl
any_helm-drop_helm ((j, v) ∷ m) = ground (arith, any_helm-drop_helm m)

drop_helm-unchanged : (m : Dict String) → any_helm m ≡ false → drop_helm m ≡ m
unfolding any_helm drop_helm
drop_helm-unchanged [] none_there = refl
drop_helm-unchanged ((j, v) ∷ m) none_there = ground (arith, drop_helm-unchanged m)

lookup-drop_chart :
    (k : String) (m : Dict String)
    → lookup k (drop_chart m) ≡ (if "helm.sh/chart" == k then none else lookup k m)
unfolding drop_chart
lookup-drop_chart k m = ground (arith, lookup-remove "helm.sh/chart" k m, eq_iff "helm.sh/chart" k)

lookup-set_managed :
    (k : String) (m : Dict String)
    → lookup k (set_managed m)
      ≡ (if label_app_managed_by == k then some managed_by_magma_operator else lookup k m)
unfolding set_managed
lookup-set_managed k m = elim (Bool-cases (is_managed m)) [
  | inl p ↦
      let found = lookup-entry label_app_managed_by managed_by_magma_operator m p refl in
      ground (arith, found, eq_iff label_app_managed_by k)
  | inr p ↦ ground (
    arith,
    lookup-insert label_app_managed_by k managed_by_magma_operator m,
    eq_iff label_app_managed_by k,
  )
]

set_managed-unchanged : (m : Dict String) → is_managed m ≡ true → set_managed m ≡ m
unfolding set_managed
set_managed-unchanged m p = ground arith

drop_chart-unchanged : (m : Dict String) → has_key "helm.sh/chart" m ≡ false → drop_chart m ≡ m
unfolding drop_chart
drop_chart-unchanged m p = ground arith

-- A label key: what is under it after the two steps.
pub lookup-labels :
    (k : String) (labels : Dict String)
    → lookup k (set_managed (drop_chart labels)) ≡ (
        if label_app_managed_by == k
        then some managed_by_magma_operator
        else if "helm.sh/chart" == k
        then none
        else lookup k labels)
lookup-labels k labels = rw lookup-set_managed (rw lookup-drop_chart refl)

-- What `normalizeNativeObjectMetadata` leaves under any key of an object's labels and annotations:
-- the operator's mark under the label `app.kubernetes.io/managed-by`, nothing under the label
-- `helm.sh/chart` and under annotations that begin with `helm.sh/`, and else what was there.
pub normalize_meta-lookup :
    (k : String) (m : Meta)
    → (lookup k (normalize_meta m).labels ≡ (
        if label_app_managed_by == k
        then some managed_by_magma_operator
        else if "helm.sh/chart" == k
        then none
        else lookup k m.labels))
      × (lookup k (normalize_meta m).annotations
          ≡ (if has_prefix k "helm.sh/" then none else lookup k m.annotations))
unfolding normalize_meta native_object_metadata
normalize_meta-lookup k m = (lookup-labels k m.labels, lookup-drop_helm k m.annotations)

-- Labels that went through the two steps have no chart and are managed.
no_chart :
    (labels : Dict String) → has_key "helm.sh/chart" (set_managed (drop_chart labels)) ≡ false
no_chart labels = let found = lookup-labels "helm.sh/chart" labels in ground (arith, found)

managed_after : (labels : Dict String) → is_managed (set_managed (drop_chart labels)) ≡ true
managed_after labels =
    let found = lookup-labels label_app_managed_by labels in
    rw (entry-lookup label_app_managed_by managed_by_magma_operator _ found) refl

pub meta_changed-normalize_meta : (m : Meta) → meta_changed (normalize_meta m) ≡ false
unfolding normalize_meta native_object_metadata
meta_changed-normalize_meta m =
    let chart = no_chart m.labels in
    let kept = drop_chart-unchanged (set_managed (drop_chart m.labels)) chart in
    let managed = managed_after m.labels in
    let helm = any_helm-drop_helm m.annotations in rw chart (rw managed (rw helm refl))

normalize_meta-unchanged : (m : Meta) → meta_changed m ≡ false → normalize_meta m ≡ m
unfolding normalize_meta native_object_metadata
normalize_meta-unchanged m unchanged =
    let no_chart_there : has_key "helm.sh/chart" m.labels ≡ false = ground arith in
    let no_helm : any_helm m.annotations ≡ false = ground arith in
    let kept = drop_chart-unchanged m.labels no_chart_there in
    let managed : is_managed m.labels ≡ true = rw⁻¹ kept (ground arith) in
    let set = set_managed-unchanged m.labels managed in
    rw kept (rw set (rw (drop_helm-unchanged m.annotations no_helm) refl))

-- `nativeObjectMetadata` reports a change exactly where normalizing the metadata changes it.
pub meta_changed-exact :
    (m : Meta)
    → (meta_changed m ≡ false → normalize_meta m ≡ m)
      × (normalize_meta m ≡ m → meta_changed m ≡ false)
meta_changed-exact m = (
  normalize_meta-unchanged m,
  λ same. subst (λ n. meta_changed n ≡ false) same (meta_changed-normalize_meta m),
)
