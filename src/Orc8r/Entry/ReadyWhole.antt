-- ===== src/Orc8r/Entry/ReadyWhole.antt =====
-- The theorem on the reports that a `MagmaOrc8r` is ready:
-- internal/controller/magmaorc8r_controller.go.
use magma_operator.Agw.Names.{default_nms_admin_cert_secret_name}
use magma_operator.Agw.Status.{done}
use magma_operator.Api.Orc8r.{MagmaOrc8r}
use magma_operator.Base.{All, List, String, [], false, none, not, refl, true, ◌≡◌}
use magma_operator.Kube.Frame.{All-IsStable, IsStable, Sat-both, Sat-frame, Sat-weaken}
use magma_operator.Kube.Lawful.{IsLawful}
use magma_operator.Kube.Library.{Library}
use magma_operator.Kube.Objects.{Manifest}
use magma_operator.Kube.Prog.{Call, Kind, ok, patch, update_status}
use magma_operator.Kube.Sat.{
  History, Sat, Sat-bind, Sat-check, Sat-check_error, Sat-if, Sat-ret, Sat-send,
}
use magma_operator.Native.Objects.{native_release_objects}
use magma_operator.Native.Release.Complete.{Done, Done-IsStable, reconcile_native_release-Done}
use magma_operator.Native.Render.{NativeRelease}
use magma_operator.Orc8r.Entry.{adopt_orc8r, apply_orc8r, follow_secret, reconcile_orc8r, roll_out}
use magma_operator.Orc8r.Entry.Calls.{cert_secret-Phase, is_phase_call, native_release-Phase}
use magma_operator.Orc8r.Entry.Ready.{
  ReadyAfter, bootstrap_job_name, failure-Calls, finish-Calls, quiet, recreated-Calls,
}
use magma_operator.Orc8r.Magmalte.Served.{is_orc8r_status}
use magma_operator.Orc8r.Names.{magma_orc8r_finalizer, orc8r_release_name_of}
use magma_operator.Orc8r.Rollout.Annotated.{
  OnlyMarks, RolledOut, RolledOut-IsStable, annotate_orc8r_deployments-RolledOut,
}
use magma_operator.Orc8r.Rollout.BootstrapJob.{
  ChangesJob, JobResult-settled, recreate_orc8r_bootstrap_job-ChangesJob,
}
use magma_operator.Orc8r.Values.{orc8r_values}

-- The release that is applied.
abbrev pub live_release : String → MagmaOrc8r → NativeRelease
live_release namespace orc8r = record {
  release_name = orc8r_release_name_of orc8r;
  namespace = namespace;
  manifest = "orc8r.yaml";
  values = orc8r_values orc8r;
  apply_filter = none;
}

module _ {L : Library} (lawful : IsLawful L) (namespace : String) (orc8r : MagmaOrc8r)
    (objects : List Manifest) where
  -- What is known when the hash is on the deployments.
  abbrev Rolled : String → History → Type 0
  Rolled hash h =
      All (λ o. Done L orc8r.meta none o h) objects
      × RolledOut L namespace (orc8r_release_name_of orc8r) default_nms_admin_cert_secret_name hash
          h

  Rolled-IsStable : (hash : String) → IsStable (Rolled hash)
  Rolled-IsStable hash h c r (done, rolled) = (
    All-IsStable (Done L orc8r.meta none) (Done-IsStable L orc8r.meta none) objects h c r done,
    RolledOut-IsStable L _ _ _ hash h c r rolled,
  )

  changes_no_status :
      (h : History) (c : Call) (name hash : String)
      → ChangesJob namespace name hash h c
      → is_orc8r_status c ≡ false
  changes_no_status h (update_status Kind.orc8r a) name hash bad = absurd bad
  changes_no_status h _ name hash _ = refl

  follow_secret-Calls :
      (hash : String) (h : History)
      → Rolled hash h
      → Sat
          (ReadyAfter L namespace orc8r objects)
          (λ _ _. Unit {0})
          h
          (follow_secret L namespace orc8r hash)
  unfolding follow_secret
  follow_secret-Calls hash h facts =
      Sat-bind _ h _ _
        (quiet lawful namespace orc8r objects h _ (
          Sat-frame (Rolled hash) (Rolled-IsStable hash) h _ facts (
            Sat-weaken h _ (λ h' c. changes_no_status h' c _ hash) (λ _ _ q. q)
              (recreate_orc8r_bootstrap_job-ChangesJob namespace (bootstrap_job_name orc8r) hash
                h))))
        (λ h' followed q.
          Sat-check followed h' _ _ (λ e _. failure-Calls lawful namespace orc8r objects _ _ h')
            (λ recreated is_ok.
              Sat-if recreated h' _ _ (λ _. recreated-Calls lawful namespace orc8r objects h')
                (λ not_recreated.
                  let job =
                    JobResult-settled namespace (bootstrap_job_name orc8r) hash h' followed
                      recreated q.0 is_ok not_recreated in
                  finish-Calls lawful namespace orc8r objects hash orc8r.spec.nms_node_port h' refl
                    (q.1.0, q.1.1, job))))

  -- What is known when the release is applied.
  abbrev AllDone : History → Type 0
  AllDone h = All (λ o. Done L orc8r.meta none o h) objects

  AllDone-IsStable : IsStable AllDone
  AllDone-IsStable = All-IsStable (Done L orc8r.meta none) (Done-IsStable L orc8r.meta none) objects

  marks_no_status : (h : History) (c : Call) → OnlyMarks h c → is_orc8r_status c ≡ false
  marks_no_status h (update_status Kind.orc8r a) bad = absurd bad
  marks_no_status h _ _ = refl

  phase_no_status : (c : Call) → is_phase_call c ≡ true → is_orc8r_status c ≡ false
  phase_no_status (update_status Kind.orc8r a) bad = cc
  phase_no_status _ _ = refl

  roll_out-Calls :
      (h : History)
      → AllDone h
      → Sat (ReadyAfter L namespace orc8r objects) (λ _ _. Unit {0}) h (roll_out L namespace orc8r)
  unfolding roll_out
  roll_out-Calls h done =
      Sat-bind _ h _ _
        (quiet lawful namespace orc8r objects h _ (
          Sat-frame AllDone AllDone-IsStable h _ done (
            Sat-weaken h _ marks_no_status (λ _ _ q. q)
              (annotate_orc8r_deployments-RolledOut L namespace (orc8r_release_name_of orc8r)
                default_nms_admin_cert_secret_name h))))
        (λ h' annotated q.
          Sat-check annotated h' _ _ (λ e _. failure-Calls lawful namespace orc8r objects _ _ h')
            (λ hash is_ok. follow_secret-Calls hash h' (q.1, q.0 hash is_ok)))

  module _ (found : native_release_objects L (live_release namespace orc8r) ≡ ok objects) where
    apply_orc8r-Calls :
        (h : History)
        → Sat
            (ReadyAfter L namespace orc8r objects)
            (λ _ _. Unit {0})
            h
            (apply_orc8r L namespace orc8r)
    unfolding apply_orc8r
    apply_orc8r-Calls h =
        Sat-bind (λ h' failed. failed ≡ none → AllDone h') h _ _
          (quiet lawful namespace orc8r objects h _ (
            Sat-weaken h _ (λ _ c both. phase_no_status c both.0) (λ _ _ both. both.1)
              (Sat-both h _
                ((native_release-Phase L orc8r.meta (live_release namespace orc8r)).at h)
                (reconcile_native_release-Done L orc8r.meta (live_release namespace orc8r) objects h
                  found))))
          (λ h1 failed q1.
            Sat-check_error failed h1 _ _
              (λ e _. failure-Calls lawful namespace orc8r objects _ _ h1)
              (λ fine.
                Sat-bind _ h1 _ _
                  (quiet lawful namespace orc8r objects h1 _ (
                    Sat-frame AllDone AllDone-IsStable h1 _ (q1 fine) (
                      Sat-weaken h1 _ (λ _. phase_no_status) (λ _ _ q. q)
                        ((cert_secret-Phase lawful orc8r).at h1))))
                  (λ h2 certified q2.
                    Sat-check certified h2 _ _
                      (λ e _. failure-Calls lawful namespace orc8r objects _ _ h2)
                      (λ _ _. roll_out-Calls h2 q2.1))))

    -- Where the library behaves as documented and the manifest of the release yields these objects,
    -- a reconcile of a `MagmaOrc8r` that is not being deleted sets its condition `Ready` to true
    -- only after this was seen: each object was applied with its own kind and body, or is a secret
    -- that was there, or is a job that the server refused as invalid; either the certificate secret
    -- was not there, or its contents were read and each deployment that was listed for the release
    -- had their hash or was patched to have it; the bootstrap job was not there or was not to be
    -- replaced for that hash, or the hash is empty; and where the spec has a node port, magmalte was
    -- read, and has no containers or was updated to serve plain HTTP.
    pub reconcile_orc8r-ReadyAfter :
        orc8r.meta.is_deleted ≡ false
        → Sat
            (ReadyAfter L namespace orc8r objects)
            (λ _ _. Unit {0})
            []
            (reconcile_orc8r L namespace orc8r)
    unfolding reconcile_orc8r adopt_orc8r
    reconcile_orc8r-ReadyAfter live =
        Sat-if orc8r.meta.is_deleted [] _ _ (λ deleted. cc)
          (λ _.
            Sat-if (not (L.contains_finalizer orc8r.meta magma_orc8r_finalizer)) [] _ _
              (λ _.
                Sat-send []
                  (patch Kind.orc8r orc8r
                    (record orc8r { meta = L.add_finalizer orc8r.meta magma_orc8r_finalizer }))
                  _ (λ bad. absurd bad)
                  (λ r. Sat-check_error r _ _ _ (λ _ _. Sat-ret _ _ tt) (λ _. Sat-ret _ _ tt)))
              (λ _. apply_orc8r-Calls []))
