-- ===== src/Agw/Deletion/Safety.antt =====
-- The finalizer of a `MagmaAGW` is taken off last: `reconcileAGWDeletion` of
-- internal/controller/magmaagw_controller.go.
use magma_operator.Agw.Datapath.{remove_agw_datapath_labels, selected_agw_nodes}
use magma_operator.Agw.Deletion.{cleanup_agw_durable_state, delete_identity_secret, release_nodes}
use magma_operator.Agw.Deletion.Facts.{
  AllUnlabelled, Removed, RemovedClaim, RemovedSecret, SawNodes, Was,
}
use magma_operator.Agw.Deletion.Guard.{
  GatewayGone, Keeps, Was-IsStable, claim_of, identity_secret_of,
  remove_agw_datapath_labels-AllUnlabelled,
}
use magma_operator.Agw.Inputs.{agw_node_selector_of}
use magma_operator.Agw.Names.{datapath_ready_label_key}
use magma_operator.Api.Agw.{MagmaAgw}
use magma_operator.Base.{
  All, Dict, List, String, [], arith, false, inl, none, refl, some, true, ◌∷◌, ◌≡◌,
}
use magma_operator.Kube.Frame.{Sat-frame, Sat-weaken}
use magma_operator.Kube.Objects.{Manifest, Meta}
use magma_operator.Kube.Prog.{Kind, check, delete, ignore_not_found, list, ret, ◌>>=◌}
use magma_operator.Kube.Sat.{History, Sat, Sat-check, Sat-check_error, Sat-if, Sat-ret, Sat-send}
use magma_operator.Native.Render.{NativeRelease}

abbrev pub deletion_release : MagmaAgw → String → NativeRelease
deletion_release agw release_name = record {
  release_name = release_name;
  namespace = agw.meta.namespace;
  manifest = "agw.yaml";
  values = [];
  apply_filter = none;
}

-- The nodes of a selector were read, and the label of the gate was taken off each that had it.
abbrev pub NodesReleased : MagmaAgw → Dict String → History → Type 0
NodesReleased agw [] h = Unit
NodesReleased agw (s ∷ ss) h =
    (nodes : List Meta) × Was (SawNodes (s ∷ ss) nodes) h
    × AllUnlabelled (datapath_ready_label_key agw.spec.datapath) nodes h

-- The durable state that the deletion policy names was deleted, or was not there.
pub record DurableStateGone (agw : MagmaAgw) (release_name : String) (h : History) : Type 0 where
  pub claim :
      agw.spec.deletion_policy.delete_pvc ≡ true → Was (RemovedClaim (claim_of agw release_name)) h
  pub secret :
      agw.spec.deletion_policy.delete_identity_secret ≡ true
      → Was (RemovedSecret (identity_secret_of agw)) h

-- All that must have happened before the finalizer goes.
pub record TornDown (agw : MagmaAgw) (release_name : String) (objects : List Manifest) (h : History)
    : Type 0 where
  pub gateway : GatewayGone agw h
  pub removed : All (λ o. Was (Removed o) h) objects
  pub released : NodesReleased agw (agw_node_selector_of agw) h
  pub durable : DurableStateGone agw release_name h

module _ (agw : MagmaAgw) where
  delete_identity_secret-gone :
      (h : History)
      → Sat Keeps
          (λ h' failed.
            failed ≡ none
            → agw.spec.deletion_policy.delete_identity_secret ≡ true
            → Was (RemovedSecret (identity_secret_of agw)) h')
          h
          (delete_identity_secret agw)
  unfolding delete_identity_secret
  delete_identity_secret-gone h =
      Sat-if agw.spec.deletion_policy.delete_identity_secret h _ _
        (λ _.
          Sat-send h
            (delete Kind.secret (record { meta = identity_secret_of agw; type = ""; contents = [] })
              false)
            _ refl (λ r. Sat-ret _ _ (λ fine _. inl (refl, fine))))
        (λ off. Sat-ret h _ (λ _ on. ground arith))

  pub cleanup-DurableStateGone :
      (release_name : String) (h : History)
      → Sat Keeps
          (λ h' failed. failed ≡ none → DurableStateGone agw release_name h')
          h
          (cleanup_agw_durable_state agw release_name)
  unfolding cleanup_agw_durable_state
  cleanup-DurableStateGone release_name h =
      let claimed : History → Type 0 = Was (RemovedClaim (claim_of agw release_name)) in
      Sat-if agw.spec.deletion_policy.delete_pvc h _ _
        (λ _. Sat-send h (delete Kind.claim (claim_of agw release_name) false) _ refl (λ r.
          Sat-check_error (ignore_not_found r) _ _ _ (λ e _. Sat-ret _ _ (λ bad. cc))
            (λ fine.
              Sat-weaken _ _ (λ _ _ c. c)
                (λ _ _ s none_failed. record { claim = λ _. s.1; secret = s.0 none_failed })
                (Sat-frame claimed (Was-IsStable (RemovedClaim (claim_of agw release_name))) _ _
                  (inl (refl, fine)) (delete_identity_secret-gone _)))))
        (λ off.
          Sat-weaken h _ (λ _ _ c. c)
            (λ _ _ s none_failed. record { claim = λ on. ground arith; secret = s none_failed })
            (delete_identity_secret-gone h))

  pub release_nodes-NodesReleased :
      (h : History)
      → Sat Keeps
          (λ h' failed. failed ≡ none → NodesReleased agw (agw_node_selector_of agw) h')
          h
          (release_nodes agw)
  unfolding release_nodes
  release_nodes-NodesReleased h = go (agw_node_selector_of agw)
    where
      go :
          (selector : Dict String)
          → Sat Keeps
              (λ h' failed. failed ≡ none → NodesReleased agw selector h')
              h
              (elim selector [
                | [] ↦ ret none
                | s ∷ ss ↦ do
                  selected ← selected_agw_nodes (s ∷ ss)
                  check selected (λ e. ret (some e)) (remove_agw_datapath_labels agw.spec.datapath)
              ])
      go [] = Sat-ret h none (λ _. tt)
      go (s ∷ ss) = Sat-send h (list Kind.node none (s ∷ ss)) _ refl (λ r.
          Sat-check r _ _ _ (λ e _. Sat-ret _ _ (λ bad. cc))
            (λ nodes found.
              Sat-weaken _ _ (λ _ _ c. c) (λ _ _ q none_failed. (nodes, q.1, q.0 none_failed))
                (Sat-frame (Was (SawNodes (s ∷ ss) nodes)) (Was-IsStable (SawNodes (s ∷ ss) nodes))
                  _ _ (inl (rw found (refl, refl)))
                  (remove_agw_datapath_labels-AllUnlabelled agw.spec.datapath nodes _))))
