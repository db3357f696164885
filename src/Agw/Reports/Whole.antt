-- ===== src/Agw/Reports/Whole.antt =====
-- The stages of `Reconcile` of internal/controller/magmaagw_controller.go end with a status update.
use magma_operator.Agw.Entry.{
  check_datapath, check_gate, establish_identity, reconcile_agw, set_datapath_ready,
}
use magma_operator.Agw.Identity.{IdentityState}
use magma_operator.Agw.Inputs.{release_name_of}
use magma_operator.Agw.Names.{Stage, magma_agw_finalizer}
use magma_operator.Agw.Reconcile.{
  Gates, apply_resources, finish, pass_gates, prepare_lifecycle, register, set_validated,
  start_simulator,
}
use magma_operator.Agw.Reports.{Reports, report_rules, set_agw_condition-meta}
use magma_operator.Api.Agw.{MagmaAgw}
use magma_operator.Base.{
  Bool, Dict, String, [], arith, false, if◌then◌else◌, not, refl, true, ◌∷◌, ◌≡◌,
}
use magma_operator.Kube.Lawful.{IsLawful}
use magma_operator.Kube.Library.{Library}
use magma_operator.Kube.Objects.{Meta, condition_true}
use magma_operator.Kube.Always.{Always, always_rules}
use magma_operator.Agw.ValidationRun.{reconcile_ueransim_validation, remove_agw_condition}
use magma_operator.Agw.Status.{update_agw_ready_status_with_requeue, update_agw_status}
use magma_operator.Kube.Prog.{ret}
use magma_operator.Kube.Sat.{History, Sat-bind, Sat-if, Sat-ret}

-- A resource that a program returns is the one of this metadata.
abbrev ReturnsIt : Meta → History → MagmaAgw × Stage → Type 0
ReturnsIt m h r = r.0.meta ≡ m

module _ {m : Meta} where
  if-meta : (b : Bool) (x y : MagmaAgw) → x.meta ≡ m → y.meta ≡ m → (if b then x else y).meta ≡ m
  if-meta true x y p q = p
  if-meta false x y p q = q

  ret-ReturnsIt :
      (agw : MagmaAgw) (stage : Stage) → agw.meta ≡ m → Always (ReturnsIt m) (ret (agw, stage))
  ret-ReturnsIt agw stage same = record { at = λ h. Sat-ret h _ same }

module _ (L : Library) {m : Meta} where
  set_validated-meta :
      (agw : MagmaAgw) (stage : Stage) → agw.meta ≡ m → (set_validated L agw stage).meta ≡ m
  unfolding set_validated
  set_validated-meta agw stage same = search (if-meta, set_agw_condition-meta L) depth 12

  set_datapath_ready-meta :
      (ready : Bool) (agw : MagmaAgw) → agw.meta ≡ m → (set_datapath_ready L ready agw).meta ≡ m
  set_datapath_ready-meta true agw same = set_agw_condition-meta L agw _ _ _ _ same
  set_datapath_ready-meta false agw same = set_agw_condition-meta L agw _ _ _ _ same

  remove_agw_condition-meta :
      (agw : MagmaAgw) (type : String) → agw.meta ≡ m → (remove_agw_condition L agw type).meta ≡ m
  unfolding remove_agw_condition
  remove_agw_condition-meta agw type same = same

  validation-ReturnsIt :
      (agw : MagmaAgw) (release_name : String)
      → agw.meta ≡ m
      → Always (ReturnsIt m) (reconcile_ueransim_validation L agw release_name)
  unfolding reconcile_ueransim_validation
  validation-ReturnsIt agw release_name same =
      search (always_rules, ret-ReturnsIt, remove_agw_condition-meta) depth 14

module _ {L : Library} (lawful : IsLawful L) {m : Meta} where
  finish-Reports :
      (agw : MagmaAgw) (release_name : String)
      → agw.meta ≡ m
      → Reports m (finish L agw release_name)
  unfolding finish
  finish-Reports agw release_name same = record {
    at = λ h.
        Sat-bind (ReturnsIt m) h _ _ ((validation-ReturnsIt L agw release_name same).at h)
          (λ h' (agw', stage) returned.
            (end agw' stage (set_validated-meta L agw' stage returned)).at h');
  }
    where
      end :
          (agw' : MagmaAgw) (stage : Stage)
          → (set_validated L agw' stage).meta ≡ m
          → Reports m (
              if not stage.ready
              then update_agw_ready_status_with_requeue L
                  (set_validated L agw' stage)
                  release_name
                  "NativeResourcesReady"
                  "Magma AGW resources are ready"
                  15
              else update_agw_status L
                  (set_validated L agw' stage)
                  release_name
                  condition_true
                  "NativeResourcesReady"
                  "Magma AGW resources are ready")
      end agw' stage its = search report_rules

  pass_gates-Reports :
      (namespace : String) (agw : MagmaAgw) (release_name : String) (gates : Gates)
      → agw.meta ≡ m
      → Reports m (pass_gates L namespace agw release_name gates)
  unfolding pass_gates
  pass_gates-Reports namespace agw release_name gates same =
      search (report_rules, finish-Reports) depth 9

  apply_resources-Reports :
      (namespace : String) (agw : MagmaAgw) (release_name : String) (values : Dict String)
      (gates : Gates)
      → agw.meta ≡ m
      → Reports m (apply_resources L namespace agw release_name values gates)
  unfolding apply_resources
  apply_resources-Reports namespace agw release_name values gates same =
      search (report_rules, pass_gates-Reports, remove_agw_condition-meta L) depth 12

  start_simulator-Reports :
      (namespace : String) (agw : MagmaAgw) (release_name : String) (values : Dict String)
      (enabled ready : Bool)
      → agw.meta ≡ m
      → Reports m (start_simulator L namespace agw release_name values enabled ready)
  unfolding start_simulator
  start_simulator-Reports namespace agw release_name values enabled ready same =
      search (report_rules, apply_resources-Reports) depth 12

  register-Reports :
      (namespace : String) (agw : MagmaAgw) (release_name : String) (identity : IdentityState)
      (values : Dict String) (enabled ready : Bool)
      → agw.meta ≡ m
      → Reports m (register L namespace agw release_name identity values enabled ready)
  unfolding register
  register-Reports namespace agw release_name identity values enabled ready same =
      search (report_rules, start_simulator-Reports, set_agw_condition-meta L, if-meta) depth 12

  prepare_lifecycle-Reports :
      (namespace : String) (agw : MagmaAgw) (release_name : String) (identity : IdentityState)
      (values : Dict String) (enabled ready : Bool)
      → agw.meta ≡ m
      → Reports m (prepare_lifecycle L namespace agw release_name identity values enabled ready)
  unfolding prepare_lifecycle
  prepare_lifecycle-Reports namespace agw release_name identity values enabled ready same =
      search (report_rules, register-Reports) depth 12

  check_gate-Reports :
      (namespace : String) (agw : MagmaAgw) (release_name : String) (identity : IdentityState)
      (values selector : Dict String)
      → agw.meta ≡ m
      → Reports m (check_gate L namespace agw release_name identity values selector)
  unfolding check_gate
  check_gate-Reports namespace agw release_name identity values [] same = search report_rules
  check_gate-Reports namespace agw release_name identity values (s ∷ ss) same =
      search
        (
          report_rules,
          prepare_lifecycle-Reports,
          set_datapath_ready-meta L,
          set_agw_condition-meta L,
        )
        depth 9

  check_datapath-Reports :
      (namespace : String) (agw : MagmaAgw) (release_name : String) (identity : IdentityState)
      (values : Dict String)
      → agw.meta ≡ m
      → Reports m (check_datapath L namespace agw release_name identity values)
  unfolding check_datapath
  check_datapath-Reports namespace agw release_name identity values same =
      search (report_rules, prepare_lifecycle-Reports, check_gate-Reports)

  establish_identity-Reports :
      (namespace : String) (agw : MagmaAgw) (release_name : String)
      → agw.meta ≡ m
      → Reports m (establish_identity L namespace agw release_name)
  unfolding establish_identity
  establish_identity-Reports namespace agw release_name same =
      search (report_rules, check_datapath-Reports) depth 12

module _ {L : Library} (lawful : IsLawful L) where
  -- Where `SetStatusCondition` behaves as documented: a reconcile of a resource that has the
  -- finalizer and is not being deleted ends with a status update of the resource, with its metadata,
  -- as its last call, which sets the condition `Ready`; and where the outcome is no error and asks for no further
  -- reconcile, that update sets it to true.
  pub reconcile_agw-Reports :
      (namespace : String) (agw : MagmaAgw)
      → agw.meta.is_deleted ≡ false
      → L.contains_finalizer agw.meta magma_agw_finalizer ≡ true
      → Reports agw.meta (reconcile_agw L namespace agw)
  unfolding reconcile_agw
  reconcile_agw-Reports namespace agw live has_finalizer = record {
    at = λ h.
        Sat-if agw.meta.is_deleted h _ _ (λ deleted. cc)
          (λ _.
            Sat-if (not (L.contains_finalizer agw.meta magma_agw_finalizer)) h _ _
              (λ missing. ground arith)
              (λ _.
                (establish_identity-Reports lawful namespace agw (release_name_of agw) refl).at h));
  }
