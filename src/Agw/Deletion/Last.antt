-- ===== src/Agw/Deletion/Last.antt =====
-- The theorem on `reconcileAGWDeletion` of internal/controller/magmaagw_controller.go.
use magma_operator.Agw.Deletion.{delete_resources, drop_finalizer, reconcile_agw_deletion, report}
use magma_operator.Agw.Deletion.Facts.{All-Was, AllUnlabelled-IsStable, Removed, Was, is_agw_patch}
use magma_operator.Agw.Deletion.Guard.{
  GatewayGone, Keeps, delete_each-Removed, reconcile_agw_gateway_deregistration-GatewayGone,
}
use magma_operator.Agw.Deletion.Safety.{
  NodesReleased, TornDown, cleanup-DurableStateGone, deletion_release, release_nodes-NodesReleased,
}
use magma_operator.Agw.Inputs.{agw_node_selector_of}
use magma_operator.Agw.Names.{magma_agw_finalizer}
use magma_operator.Agw.Status.{
  Outcome, update_agw_status, update_agw_status_with_requeue, with_ready_condition,
}
use magma_operator.Api.Agw.{MagmaAgw}
use magma_operator.Base.{All, Dict, List, String, [], arith, inr, none, not, refl, true, ◌∷◌, ◌≡◌}
use magma_operator.Kube.Frame.{IsStable, Sat-frame, Sat-weaken}
use magma_operator.Kube.Library.{Library}
use magma_operator.Kube.Objects.{Manifest, condition_false}
use magma_operator.Kube.Prog.{Call, Kind, Prog, is_conflict, ok, patch, update_status}
use magma_operator.Kube.Sat.{History, Sat, Sat-bind, Sat-check_error, Sat-if, Sat-ret, Sat-send}
use magma_operator.Native.Objects.{native_release_objects}
use magma_operator.Native.Release.{delete_native_release}

-- Where the resource is patched, all the teardown has been seen.
abbrev pub PatchesLast : MagmaAgw → String → List Manifest → History → Call → Type 0
PatchesLast agw release_name objects h c =
    is_agw_patch c ≡ true → TornDown agw release_name objects h

module _ (L : Library) (agw : MagmaAgw) (release_name : String) (objects : List Manifest) where
  -- A part that does not patch the resource meets that.
  no_patch :
      {A : Type 0} {Q : History → A → Type 0} (h : History) (m : Prog A)
      → Sat Keeps Q h m
      → Sat (PatchesLast agw release_name objects) Q h m
  no_patch h m s = Sat-weaken h m (λ _ _ keeps patches. cc) (λ _ _ q. q) s

  report-Keeps :
      (reason message : String) (o : Outcome) (h : History)
      → Sat
          (PatchesLast agw release_name objects)
          (λ _ _. Unit {0})
          h
          (report L agw release_name reason message o)
  unfolding report update_agw_status update_agw_status_with_requeue
  report-Keeps reason message o h = no_patch h _ (
      Sat-bind (λ _ _. Unit {0}) h _ _
        (Sat-send h
          (update_status Kind.agw
            (with_ready_condition L agw release_name condition_false reason message))
          _ refl
          (λ r.
            Sat-check_error r _ _ _
              (λ e _. Sat-if (is_conflict e) _ _ _ (λ _. Sat-ret _ _ tt) (λ _. Sat-ret _ _ tt))
              (λ _. Sat-ret _ _ tt)))
        (λ h' reported _.
          Sat-check_error reported.error h' _ _ (λ e _. Sat-ret _ _ tt) (λ _. Sat-ret _ _ tt)))

  drop_finalizer-PatchesLast :
      (h : History)
      → TornDown agw release_name objects h
      → Sat (PatchesLast agw release_name objects) (λ _ _. Unit {0}) h (drop_finalizer L agw)
  unfolding drop_finalizer
  drop_finalizer-PatchesLast h t =
      Sat-send h
        (patch Kind.agw agw (record agw { meta = L.remove_finalizer agw.meta magma_agw_finalizer }))
        _ (λ _. t) (λ r. Sat-ret _ _ tt)

  delete_native_release-Removed :
      native_release_objects L (deletion_release agw release_name) ≡ ok objects
      → (h : History)
      → Sat Keeps
          (λ h' failed. failed ≡ none → All (λ o. Was (Removed o) h') objects)
          h
          (delete_native_release L (deletion_release agw release_name))
  unfolding delete_native_release
  delete_native_release-Removed found h = rw found (delete_each-Removed (λ _ _. refl) objects h)

  -- What is known before each of the last three parts.
  abbrev Gone : History → Type 0
  Gone h = GatewayGone agw h × All (λ o. Was (Removed o) h) objects

  abbrev GoneReleased : History → Type 0
  GoneReleased h = Gone h × NodesReleased agw (agw_node_selector_of agw) h

  NodesReleased-IsStable : (selector : Dict String) → IsStable (NodesReleased agw selector)
  NodesReleased-IsStable [] h c r s = tt
  NodesReleased-IsStable (x ∷ xs) h c r (nodes, seen, all_off) =
      (nodes, inr seen, AllUnlabelled-IsStable _ nodes h c r all_off)

  Gone-IsStable : IsStable Gone
  Gone-IsStable h c r (gateway, removed) =
      (λ on enabled. inr (gateway on enabled), All-Was Removed objects h c r removed)

  GoneReleased-IsStable : IsStable GoneReleased
  GoneReleased-IsStable h c r (gone, released) =
      (Gone-IsStable h c r gone, NodesReleased-IsStable (agw_node_selector_of agw) h c r released)

  module _ (found : native_release_objects L (deletion_release agw release_name) ≡ ok objects) where
    delete_resources-PatchesLast :
        (h : History)
        → GatewayGone agw h
        → Sat
            (PatchesLast agw release_name objects)
            (λ _ _. Unit {0})
            h
            (delete_resources L agw release_name)
    unfolding delete_resources
    delete_resources-PatchesLast h gateway =
        Sat-bind _ h _ _
          (no_patch h _ (
            Sat-frame (GatewayGone agw) (λ h' c r g on enabled. inr (g on enabled)) h _ gateway
              (delete_native_release-Removed found h)))
          (λ h1 deleted q1.
            Sat-check_error deleted h1 _ _ (λ e _. report-Keeps _ _ _ h1)
              (λ fine1.
                Sat-bind _ h1 _ _
                  (no_patch h1 _ (
                    Sat-frame Gone Gone-IsStable h1 _ (q1.1, q1.0 fine1)
                      (release_nodes-NodesReleased agw h1)))
                  (λ h2 released q2.
                    Sat-check_error released h2 _ _ (λ e _. Sat-ret h2 _ tt)
                      (λ fine2.
                        Sat-bind _ h2 _ _
                          (no_patch h2 _ (
                            Sat-frame GoneReleased GoneReleased-IsStable h2 _ (q2.1, q2.0 fine2)
                              (cleanup-DurableStateGone agw release_name h2)))
                          (λ h3 cleaned q3.
                            Sat-check_error cleaned h3 _ _ (λ e _. Sat-ret h3 _ tt)
                              (λ fine3. drop_finalizer-PatchesLast h3 (record {
                                gateway = q3.1.0.0;
                                removed = q3.1.0.1;
                                released = q3.1.1;
                                durable = q3.0 fine3;
                              })))))))

    -- Where the manifest of the release yields these objects, `reconcileAGWDeletion` patches the
    -- resource, and so takes its finalizer off, only after these were seen: every object, the
    -- volume claim of the manifest included, was deleted or was not there; where deregistration is
    -- asked for and enabled, the deregistration job was read as succeeded; every selected node that
    -- had the label of the gate was patched to lack it; and the claim and the identity secret were
    -- deleted or were not there, where the deletion policy names them.
    pub reconcile_agw_deletion-TornDown :
        Sat
          (PatchesLast agw release_name objects)
          (λ _ _. Unit {0})
          []
          (reconcile_agw_deletion L agw release_name)
    unfolding reconcile_agw_deletion
    reconcile_agw_deletion-TornDown =
        Sat-if (not (L.contains_finalizer agw.meta magma_agw_finalizer)) [] _ _
          (λ _. Sat-ret [] _ tt)
          (λ _.
            Sat-bind _ [] _ _
              (no_patch [] _ (reconcile_agw_gateway_deregistration-GatewayGone agw []))
              (λ h stage q.
                Sat-check_error stage.error h _ _ (λ e _. report-Keeps _ _ _ h)
                  (λ no_error.
                    Sat-if (not stage.ready) h _ _ (λ _. report-Keeps _ _ _ h)
                      (λ ready. delete_resources-PatchesLast h (q (no_error, ground arith))))))
