-- ===== src/Agw/Order/Stages.antt =====
-- The stages of `Reconcile` of internal/controller/magmaagw_controller.go up to the registration
-- touch no manifest objects, and what follows is reached by a registered gateway alone.
use magma_operator.Agw.Calls.{is_quiet_call}
use magma_operator.Agw.Calls.Gates.{datapath_ready-Quiet, plain_status-Quiet, status-Quiet}
use magma_operator.Agw.Calls.Stages.{identity-Quiet, lifecycle_prereqs-Quiet}
use magma_operator.Agw.Entry.{
  adopt, check_datapath, check_gate, establish_identity, reconcile_agw, set_datapath_ready,
}
use magma_operator.Agw.Identity.{IdentityState}
use magma_operator.Agw.Inputs.{release_name_of}
use magma_operator.Agw.Jobs.{agw_gateway_payload, gateway_fields}
use magma_operator.Agw.Names.{
  datapath_gate_enabled, gateway_registration_enabled, has_error, magma_agw_finalizer,
  orc8r_namespace,
}
use magma_operator.Agw.Order.{ApplyAfter, MayApply, SameSpec, WasRegistered, touches_manifest}
use magma_operator.Agw.Order.Registered.{reconcile_agw_gateway_registration-WasRegistered}
use magma_operator.Agw.Reconcile.{prepare_lifecycle, register}
use magma_operator.Agw.Status.{set_agw_condition}
use magma_operator.Api.Agw.{MagmaAgw}
use magma_operator.Base.{
  Bool, Dict, String, [], arith, false, inr, not, refl, sym, true, ◌&&◌, ◌∙◌, ◌∷◌, ◌≡◌,
}
use magma_operator.Kube.Frame.{IsStable, Sat-known, Sat-weaken}
use magma_operator.Kube.Lawful.{IsLawful}
use magma_operator.Kube.Library.{Library}
use magma_operator.Kube.Objects.{ConditionStatus}
use magma_operator.Kube.Only.{Only, Only-Sat, only_rules}
use magma_operator.Kube.Prog.{Call, Kind, Prog, apply, delete}
use magma_operator.Kube.Sat.{History, Sat, Sat-bind, Sat-check, Sat-check_error, Sat-if}

pub quiet_is_not_touch : (c : Call) → is_quiet_call c ≡ true → touches_manifest c ≡ true → ⊥
quiet_is_not_touch (apply o) quiet touch = cc
quiet_is_not_touch (delete Kind.manifest o background) quiet touch = cc
quiet_is_not_touch c quiet touch = cc

payload-SameSpec :
    (L : Library) (agw' agw : MagmaAgw) (hardware_id public_key : String)
    → SameSpec agw' agw
    → agw_gateway_payload L agw' hardware_id public_key
      ≡ agw_gateway_payload L agw hardware_id public_key
unfolding agw_gateway_payload gateway_fields
payload-SameSpec L agw' agw hardware_id public_key same = rw same.0 refl

WasRegistered-SameSpec :
    (L : Library) (agw' agw : MagmaAgw) (h : History)
    → SameSpec agw' agw
    → WasRegistered L agw' h
    → WasRegistered L agw h
unfolding orc8r_namespace
WasRegistered-SameSpec L agw' agw h same was = record {
  hardware_id = was.hardware_id;
  public_key = was.public_key;
  payload = was.payload;
  made = sym (payload-SameSpec L agw' agw was.hardware_id was.public_key same) ∙ was.made;
  seen = rw⁻¹ same.0 (rw⁻¹ same.1 was.seen);
}

MayApply-IsStable : (L : Library) (agw : MagmaAgw) → IsStable (MayApply L agw)
MayApply-IsStable L agw h c r may enabled =
    let was = may enabled in
    record {
      hardware_id = was.hardware_id;
      public_key = was.public_key;
      payload = was.payload;
      made = was.made;
      seen = inr was.seen;
    }

set_agw_condition-SameSpec :
    (L : Library) (agw' agw : MagmaAgw) (type : String) (s : ConditionStatus)
    (reason message : String)
    → SameSpec agw' agw
    → SameSpec (set_agw_condition L agw' type s reason message) agw
unfolding set_agw_condition
set_agw_condition-SameSpec L agw' agw type s reason message same = same

module _ (L : Library) (lawful : IsLawful L) (agw : MagmaAgw) where
  -- A part that makes only quiet calls.
  quiet_part :
      {A : Type 0} (h : History) (m : Prog A)
      → Only is_quiet_call m
      → Sat (ApplyAfter L agw) (λ _ _. Unit {0}) h m
  quiet_part h m quiet = Only-Sat h m (λ _ c q touch. elim (quiet_is_not_touch c q touch) [ ]) quiet

  register-ApplyAfter :
      (namespace : String) (agw' : MagmaAgw) (release_name : String) (identity : IdentityState)
      (values : Dict String) (enabled ready : Bool) (h : History)
      → SameSpec agw' agw
      → Sat
          (ApplyAfter L agw)
          (λ _ _. Unit {0})
          h
          (register L namespace agw' release_name identity values enabled ready)
  unfolding register
  register-ApplyAfter namespace agw' release_name identity values enabled ready h same =
      Sat-bind (λ h' r. r.registered ≡ true → WasRegistered L agw h') h _ _
        (Sat-weaken h _ (λ _ c q touch. elim (quiet_is_not_touch c q touch) [ ])
          (λ h' r was registered. WasRegistered-SameSpec L agw' agw h' same (was registered))
          (reconcile_agw_gateway_registration-WasRegistered L agw' identity h))
        (λ h' r was.
          Sat-check_error r.error h' _ _ (λ e _. quiet_part h' _ (plain_status-Quiet L _ _ _ _ _))
            (λ _.
              Sat-if
                (not r.registered && gateway_registration_enabled agw'.spec.gateway_registration) h'
                _ _ (λ _. quiet_part h' _ (status-Quiet L _ _ _ _ _ _))
                (λ go_on.
                  Sat-known (MayApply L agw) (MayApply-IsStable L agw) (λ _ _ may _. may) h' _
                    (λ enabled_here. was (
                      registered_now r.registered
                        (gateway_registration_enabled agw'.spec.gateway_registration) go_on
                        (rw same.0 enabled_here))))))
    where
      registered_now : (b e : Bool) → (not b && e) ≡ false → e ≡ true → b ≡ true
      registered_now b e p q = ground arith

  prepare_lifecycle-ApplyAfter :
      (namespace : String) (agw' : MagmaAgw) (release_name : String) (identity : IdentityState)
      (values : Dict String) (enabled ready : Bool) (h : History)
      → SameSpec agw' agw
      → Sat
          (ApplyAfter L agw)
          (λ _ _. Unit {0})
          h
          (prepare_lifecycle L namespace agw' release_name identity values enabled ready)
  unfolding prepare_lifecycle
  prepare_lifecycle-ApplyAfter namespace agw' release_name identity values enabled ready h same =
      Sat-bind (λ _ _. Unit {0}) h _ _
        (quiet_part h _ (lifecycle_prereqs-Quiet lawful agw' release_name values))
        (λ h' (lifecycle, stage, values') _.
          Sat-if (has_error stage) h' _ _ (λ _. quiet_part h' _ (plain_status-Quiet L _ _ _ _ _))
            (λ _.
              Sat-if (not stage.ready) h' _ _ (λ _. quiet_part h' _ (status-Quiet L _ _ _ _ _ _))
                (λ _.
                  register-ApplyAfter namespace _ release_name identity values' enabled ready h'
                    (set_agw_condition-SameSpec L _ agw _ _ _ _ same))))

  check_gate-ApplyAfter :
      (namespace : String) (agw' : MagmaAgw) (release_name : String) (identity : IdentityState)
      (values selector : Dict String) (h : History)
      → SameSpec agw' agw
      → Sat
          (ApplyAfter L agw)
          (λ _ _. Unit {0})
          h
          (check_gate L namespace agw' release_name identity values selector)
  unfolding check_gate
  check_gate-ApplyAfter namespace agw' release_name identity values [] h same =
      quiet_part h _ (plain_status-Quiet L _ _ _ _ _)
  check_gate-ApplyAfter namespace agw' release_name identity values (s ∷ ss) h same =
      Sat-bind (λ _ _. Unit {0}) h _ _
        (quiet_part h _ (datapath_ready-Quiet namespace (s ∷ ss) agw'.spec.datapath))
        (λ h' r _.
          Sat-check r h' _ _ (λ e _. quiet_part h' _ (plain_status-Quiet L _ _ _ _ _))
            (λ ready _.
              prepare_lifecycle-ApplyAfter namespace _ release_name identity _ true ready h'
                (gate_condition ready)))
    where
      gate_condition : (ready : Bool) → SameSpec (set_datapath_ready L ready agw') agw
      gate_condition true = set_agw_condition-SameSpec L agw' agw _ _ _ _ same
      gate_condition false = set_agw_condition-SameSpec L agw' agw _ _ _ _ same

  check_datapath-ApplyAfter :
      (namespace : String) (agw' : MagmaAgw) (release_name : String) (identity : IdentityState)
      (values : Dict String) (h : History)
      → SameSpec agw' agw
      → Sat
          (ApplyAfter L agw)
          (λ _ _. Unit {0})
          h
          (check_datapath L namespace agw' release_name identity values)
  unfolding check_datapath
  check_datapath-ApplyAfter namespace agw' release_name identity values h same =
      Sat-if (not (datapath_gate_enabled agw'.spec.datapath)) h _ _
        (λ _. prepare_lifecycle-ApplyAfter namespace agw' release_name identity _ false true h same)
        (λ _. check_gate-ApplyAfter namespace agw' release_name identity values _ h same)

  establish_identity-ApplyAfter :
      (namespace release_name : String) (h : History)
      → Sat (ApplyAfter L agw) (λ _ _. Unit {0}) h (establish_identity L namespace agw release_name)
  unfolding establish_identity
  establish_identity-ApplyAfter namespace release_name h =
      Sat-bind (λ _ _. Unit {0}) h _ _ (quiet_part h _ (identity-Quiet lawful agw))
        (λ h' r _.
          Sat-check r h' _ _ (λ e _. quiet_part h' _ (plain_status-Quiet L _ _ _ _ _))
            (λ identity _.
              check_datapath-ApplyAfter namespace _ release_name identity _ h'
                (set_agw_condition-SameSpec L _ agw _ _ _ _ (refl, refl))))

  -- While a resource is not being deleted, and `CreateOrUpdate` makes no calls but reads and writes
  -- and those of its mutation, a reconcile of the resource applies or deletes a manifest object
  -- only if the resource does not ask to be registered, or after the registration job for the
  -- gateway's payload, with the hash of that payload, was read as succeeded.
  pub reconcile_agw-ApplyAfter :
      (namespace : String)
      → agw.meta.is_deleted ≡ false
      → Sat (ApplyAfter L agw) (λ _ _. Unit {0}) [] (reconcile_agw L namespace agw)
  unfolding reconcile_agw adopt
  reconcile_agw-ApplyAfter namespace live =
      Sat-if agw.meta.is_deleted [] _ _ (λ deleted. cc)
        (λ _.
          Sat-if (not (L.contains_finalizer agw.meta magma_agw_finalizer)) [] _ _
            (λ _. quiet_part [] _ (search only_rules))
            (λ _. establish_identity-ApplyAfter namespace (release_name_of agw) []))
