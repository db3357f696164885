-- ===== src/Tests/Claims.antt =====
-- Theorems about the AGW controller at concrete inputs.
use magma_operator.Agw.Deletion.{reconcile_agw_deletion}
use magma_operator.Agw.Deletion.Facts.{Was}
use magma_operator.Agw.Deletion.Finish.{DoneIfDropped, IsDone, reconcile_agw_deletion-Ends}
use magma_operator.Agw.Deletion.Last.{PatchesLast, reconcile_agw_deletion-TornDown}
use magma_operator.Agw.Deletion.Progress.{Ends}
use magma_operator.Agw.Deletion.Safety.{deletion_release}
use magma_operator.Agw.Entry.{reconcile_agw}
use magma_operator.Agw.Names.{magma_agw_finalizer, ueransim_validation_enabled}
use magma_operator.Agw.Order.{ApplyAfter}
use magma_operator.Agw.Order.Stages.{reconcile_agw-ApplyAfter}
use magma_operator.Agw.Reports.{Reports}
use magma_operator.Agw.Reports.Whole.{reconcile_agw-Reports}
use magma_operator.Agw.ValidationRun.{reconcile_ueransim_validation, ueransim_validation_spec_hash}
use magma_operator.Agw.ValidationRun.Finished.{SawFinished, reconcile_ueransim_validation-Finished}
use magma_operator.Api.Agw.{MagmaAgw}
use magma_operator.Base.{All, [], false, none, refl, some, true, ◌≡◌}
use magma_operator.Kube.Frame.{AnyCall}
use magma_operator.Kube.Prog.{ok}
use magma_operator.Kube.Sat.{Sat}
use magma_operator.Native.Objects.{native_agw_apply_filter, native_release_objects, prepare_each}
use magma_operator.Native.Release.{reconcile_native_release}
use magma_operator.Native.Release.Complete.{Done, reconcile_native_release-Done}
use magma_operator.Native.Render.{NativeRelease}
use magma_operator.Tests.Sample.{has_text, sample_agw, sample_library, sample_objects}
use magma_operator.Tests.SampleLaws.{sample_library-IsLawful}

sample_release_objects :
    native_release_objects sample_library (deletion_release sample_agw "agwc")
    ≡ ok (prepare_each sample_library (deletion_release sample_agw "agwc") sample_objects)
unfolding native_release_objects
sample_release_objects = refl

reconcile_agw_deletion-TornDown_example :
    Sat
      (PatchesLast sample_agw "agwc"
        (prepare_each sample_library (deletion_release sample_agw "agwc") sample_objects))
      (λ _ _. Unit {0})
      []
      (reconcile_agw_deletion sample_library sample_agw "agwc")
reconcile_agw_deletion-TornDown_example =
    reconcile_agw_deletion-TornDown sample_library sample_agw "agwc"
      (prepare_each sample_library (deletion_release sample_agw "agwc") sample_objects)
      sample_release_objects

reconcile_agw-ApplyAfter_example :
    Sat
      (ApplyAfter sample_library sample_agw)
      (λ _ _. Unit {0})
      []
      (reconcile_agw sample_library "ns" sample_agw)
reconcile_agw-ApplyAfter_example =
    reconcile_agw-ApplyAfter sample_library sample_library-IsLawful sample_agw "ns" refl

sample_has_finalizer : has_text magma_agw_finalizer sample_agw.meta.finalizers ≡ true
unfolding has_text
sample_has_finalizer = refl

reconcile_agw-Reports_example :
    Reports sample_agw.meta (reconcile_agw sample_library "ns" sample_agw)
reconcile_agw-Reports_example =
    reconcile_agw-Reports sample_library-IsLawful "ns" sample_agw refl sample_has_finalizer

abbrev sample_release : NativeRelease
sample_release = record (deletion_release sample_agw "agwc") {
  apply_filter = some (native_agw_apply_filter false);
}

sample_release_yields :
    native_release_objects sample_library sample_release
    ≡ ok (prepare_each sample_library sample_release sample_objects)
unfolding native_release_objects
sample_release_yields = refl

reconcile_native_release-Done_example :
    Sat AnyCall
      (λ h failed.
        failed ≡ none
        → All
            (λ o. Done sample_library sample_agw.meta sample_release.apply_filter o h)
            (prepare_each sample_library sample_release sample_objects))
      []
      (reconcile_native_release sample_library sample_agw.meta sample_release)
reconcile_native_release-Done_example =
    reconcile_native_release-Done sample_library sample_agw.meta sample_release
      (prepare_each sample_library sample_release sample_objects) [] sample_release_yields

reconcile_agw_deletion-Ends_example :
    Sat
      (PatchesLast sample_agw "agwc"
        (prepare_each sample_library (deletion_release sample_agw "agwc") sample_objects))
      (DoneIfDropped sample_library sample_agw)
      []
      (reconcile_agw_deletion sample_library sample_agw "agwc")
    × Ends IsDone (reconcile_agw_deletion sample_library sample_agw "agwc")
reconcile_agw_deletion-Ends_example =
    reconcile_agw_deletion-Ends sample_library sample_agw "agwc"
      (prepare_each sample_library (deletion_release sample_agw "agwc") sample_objects)
      sample_release_objects sample_has_finalizer refl

abbrev validating_agw : MagmaAgw
validating_agw = record sample_agw {
  spec = record (sample_agw.spec) {
    ueransim_validation = record (sample_agw.spec.ueransim_validation) { enabled = some true };
  };
}

validating_agw_enabled : ueransim_validation_enabled validating_agw.spec.ueransim_validation ≡ true
unfolding ueransim_validation_enabled
validating_agw_enabled = refl

reconcile_ueransim_validation-Finished_example :
    Sat AnyCall
      (λ h r.
        r.1.ready ≡ true
        → Was
            (SawFinished "ns" "agwc-ueransim-validation"
              (ueransim_validation_spec_hash sample_library validating_agw "agwc"))
            h)
      []
      (reconcile_ueransim_validation sample_library validating_agw "agwc")
reconcile_ueransim_validation-Finished_example =
    reconcile_ueransim_validation-Finished sample_library validating_agw "agwc"
      validating_agw_enabled refl
