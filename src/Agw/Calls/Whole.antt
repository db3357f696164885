-- ===== src/Agw/Calls/Whole.antt =====
-- A live reconcile as a whole: internal/controller/magmaagw_controller.go and native_runner.go.
use magma_operator.Agw.Calls.{is_live_call, is_quiet_call}
use magma_operator.Agw.Calls.Gates.{
  datapath_labels-Quiet, datapath_ready-Quiet, plain_status-Quiet, ready_status-Quiet,
  start_gate-Quiet, status-Quiet,
}
use magma_operator.Agw.Calls.Parts.{annotate_agw_core-Quiet, cleanup_stale-Quiet}
use magma_operator.Agw.Calls.Stages.{
  identity-Quiet, lifecycle_prereqs-Quiet, registration-Quiet, validation-Quiet,
}
use magma_operator.Agw.Entry.{adopt, check_datapath, check_gate, establish_identity, reconcile_agw}
use magma_operator.Agw.Identity.{IdentityState}
use magma_operator.Agw.Reconcile.{
  Gates, apply_resources, finish, pass_gates, prepare_lifecycle, register, start_simulator,
}
use magma_operator.Api.Agw.{MagmaAgw}
use magma_operator.Base.{Bool, Dict, String, [], arith, false, refl, true, ◌∷◌, ◌≡◌}
use magma_operator.Kube.Lawful.{IsLawful}
use magma_operator.Kube.Library.{Library}
use magma_operator.Kube.Objects.{Meta}
use magma_operator.Kube.Only.{Only, Only-else, Only-weaken, only_rules}
use magma_operator.Kube.Prog.{Call, Kind, Prog, apply, delete, get_manifest, update}
use magma_operator.Native.Release.{reconcile_native_release}
use magma_operator.Native.Release.Calls.{is_native_call, native_release-Native}
use magma_operator.Native.Render.{NativeRelease}

allowed_live : (c : Call) → is_quiet_call c ≡ true → is_live_call c ≡ true
allowed_live (delete Kind.manifest o background) _ = refl
allowed_live (apply o) _ = refl
allowed_live c quiet = ground arith

quiet-Live : {A : Type 0} (m : Prog A) → Only is_quiet_call m → Only is_live_call m
quiet-Live m quiet = Only-weaken m allowed_live quiet

module _ (L : Library) where
  native_release-Live :
      (owner : Meta) (release : NativeRelease)
      → Only is_live_call (reconcile_native_release L owner release)
  native_release-Live owner release =
      Only-weaken _ native_allowed (native_release-Native L owner release)
    where
      native_allowed : (c : Call) → is_native_call c ≡ true → is_live_call c ≡ true
      native_allowed (get_manifest o) _ = refl
      native_allowed (update Kind.manifest o) _ = refl
      native_allowed (delete Kind.manifest o background) _ = refl
      native_allowed (apply o) _ = refl
      native_allowed _ bad = cc

ruleset phase_rules = (
  only_rules, quiet-Live, status-Quiet, plain_status-Quiet, ready_status-Quiet, native_release-Live,
  start_gate-Quiet, datapath_labels-Quiet, datapath_ready-Quiet, annotate_agw_core-Quiet,
  cleanup_stale-Quiet,
)

module _ {L : Library} (lawful : IsLawful L) where
  finish-Live :
      (agw : MagmaAgw) (release_name : String) → Only is_live_call (finish L agw release_name)
  unfolding finish
  finish-Live agw release_name = search (phase_rules, validation-Quiet lawful) depth 9

  pass_gates-Live :
      (namespace : String) (agw : MagmaAgw) (release_name : String) (gates : Gates)
      → Only is_live_call (pass_gates L namespace agw release_name gates)
  unfolding pass_gates
  pass_gates-Live namespace agw release_name gates = search (phase_rules, finish-Live) depth 12

  apply_resources-Live :
      (namespace : String) (agw : MagmaAgw) (release_name : String) (values : Dict String)
      (gates : Gates)
      → Only is_live_call (apply_resources L namespace agw release_name values gates)
  unfolding apply_resources
  apply_resources-Live namespace agw release_name values gates =
      search (phase_rules, pass_gates-Live) depth 12

  start_simulator-Live :
      (namespace : String) (agw : MagmaAgw) (release_name : String) (values : Dict String)
      (enabled ready : Bool)
      → Only is_live_call (start_simulator L namespace agw release_name values enabled ready)
  unfolding start_simulator
  start_simulator-Live namespace agw release_name values enabled ready =
      search (phase_rules, apply_resources-Live) depth 12

  register-Live :
      (namespace : String) (agw : MagmaAgw) (release_name : String) (identity : IdentityState)
      (values : Dict String) (enabled ready : Bool)
      → Only is_live_call (register L namespace agw release_name identity values enabled ready)
  unfolding register
  register-Live namespace agw release_name identity values enabled ready =
      search (phase_rules, start_simulator-Live, registration-Quiet lawful) depth 12

  prepare_lifecycle-Live :
      (namespace : String) (agw : MagmaAgw) (release_name : String) (identity : IdentityState)
      (values : Dict String) (enabled ready : Bool)
      → Only is_live_call
          (prepare_lifecycle L namespace agw release_name identity values enabled ready)
  unfolding prepare_lifecycle
  prepare_lifecycle-Live namespace agw release_name identity values enabled ready =
      search (phase_rules, register-Live, lifecycle_prereqs-Quiet lawful) depth 12

  check_gate-Live :
      (namespace : String) (agw : MagmaAgw) (release_name : String) (identity : IdentityState)
      (values selector : Dict String)
      → Only is_live_call (check_gate L namespace agw release_name identity values selector)
  unfolding check_gate
  check_gate-Live namespace agw release_name identity values [] = search phase_rules
  check_gate-Live namespace agw release_name identity values (s ∷ ss) =
      search (phase_rules, prepare_lifecycle-Live) depth 9

  check_datapath-Live :
      (namespace : String) (agw : MagmaAgw) (release_name : String) (identity : IdentityState)
      (values : Dict String)
      → Only is_live_call (check_datapath L namespace agw release_name identity values)
  unfolding check_datapath
  check_datapath-Live namespace agw release_name identity values =
      search (phase_rules, prepare_lifecycle-Live, check_gate-Live)

  establish_identity-Live :
      (namespace : String) (agw : MagmaAgw) (release_name : String)
      → Only is_live_call (establish_identity L namespace agw release_name)
  unfolding establish_identity
  establish_identity-Live namespace agw release_name =
      search (phase_rules, check_datapath-Live, identity-Quiet lawful) depth 12

  -- While a resource is not being deleted, a reconcile of it deletes nothing but jobs, pods and
  -- manifest objects, so neither a volume claim nor a secret by its own kind; it patches nothing
  -- but resources of its kind, deployments and nodes; and it updates no status but of this kind.
  pub reconcile_agw-Live :
      (namespace : String) (agw : MagmaAgw)
      → agw.meta.is_deleted ≡ false
      → Only is_live_call (reconcile_agw L namespace agw)
  unfolding reconcile_agw adopt
  reconcile_agw-Live namespace agw live =
      Only-else _ _ live (search (phase_rules, establish_identity-Live) depth 12)
