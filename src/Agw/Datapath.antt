-- ===== src/Agw/Datapath.antt =====
-- The gate on the datapath nodes, the labels that open it, and the pods that are cleaned up:
-- internal/controller/magmaagw_controller.go.
pub mod Gate
pub mod Labels
use magma_operator.Base.{
  String, ◌<>◌, ◌==◌, Bool, true, false, not, ltb, nat_eq, all, Option, none, some, List, [], ◌∷◌,
  Dict, lookup, entry, insert, remove, copy, if◌then◌else◌,
}
use magma_operator.Base.Int.{show_ℕ}
use magma_operator.Kube.Objects.{Meta, Pod, DaemonSet}
use magma_operator.Kube.Prog.{
  Kind, Prog, ret, send, ◌>>=◌, Result, ok, err, Error, check, check_error, is_not_found,
  ignore_not_found, get, list, patch, delete,
}
use magma_operator.Api.Agw.{DatapathSpec}
use magma_operator.Agw.Names.{
  agw_node_prep_name, datapath_ready_label_key, datapath_ready_label_value,
}
use magma_operator.Agw.Lifecycle.{release_labels}

-- `mergedSelectors`, which the operator calls with two maps.
unfoldable pub merged_selectors : Dict String → Dict String → Dict String
merged_selectors first second = copy (copy [] first) second

-- `selectedAGWNodes`
abbrev pub selected_agw_nodes : Dict String → Prog (Result (List Meta))
selected_agw_nodes selector = send (list Kind.node none selector)

-- `labelAGWDatapathNodes`
unfoldable pub label_agw_datapath_nodes : DatapathSpec → List Meta → Prog (Option Error)
label_agw_datapath_nodes datapath [] = ret none
label_agw_datapath_nodes datapath (n ∷ ns) =
    let key = datapath_ready_label_key datapath in
    let value = datapath_ready_label_value datapath in
    let rest = label_agw_datapath_nodes datapath ns in
    if entry key n.labels == value then rest else do
      failed ← send (patch Kind.node n (record n { labels = insert key value n.labels }))
      check_error failed (λ e. ret (some e)) rest

abbrev pub has_label : String → Meta → Bool
has_label key n = elim (lookup key n.labels) [ none ↦ false | some _ ↦ true ]

-- `removeAGWDatapathLabels`
unfoldable pub remove_agw_datapath_labels : DatapathSpec → List Meta → Prog (Option Error)
remove_agw_datapath_labels datapath [] = ret none
remove_agw_datapath_labels datapath (n ∷ ns) =
    let key = datapath_ready_label_key datapath in
    let rest = remove_agw_datapath_labels datapath ns in
    if not (has_label key n) then rest else do
      failed ← send (patch Kind.node n (record n { labels = remove key n.labels }))
      check_error failed (λ e. ret (some e)) rest

-- The labels are taken away, and the gate stays shut for a reason.
unfoldable pub close_gate : DatapathSpec → List Meta → String → Prog (Result (Bool × String))
close_gate datapath nodes message = do
  failed ← remove_agw_datapath_labels datapath nodes
  check_error failed (λ e. ret (err e)) (ret (ok (false, message)))

-- The readiness counts of the node preparation.
abbrev pub none_scheduled : DaemonSet → Bool
none_scheduled ds = nat_eq ds.desired_number_scheduled 0

abbrev pub some_unready : DaemonSet → Bool
some_unready ds = ltb ds.number_ready ds.desired_number_scheduled

-- The rest of `reconcileAGWDatapathLabels` once the nodes are listed.
unfoldable pub label_or_close : String → DatapathSpec → List Meta → Prog (Result (Bool × String))
label_or_close namespace datapath [] = ret (ok (false, "no nodes match the AGW datapath selector"))
label_or_close namespace datapath (n ∷ ns) = do
  found ← send (get Kind.daemon_set namespace agw_node_prep_name)
  check found
      (λ e.
        if is_not_found e
        then close_gate datapath (n ∷ ns) "waiting for agw-node-prep DaemonSet to be created"
        else ret (err e))
      (λ ds.
        if none_scheduled ds
        then close_gate datapath (n ∷ ns) "agw-node-prep DaemonSet has no scheduled pods"
        else if some_unready ds
        then close_gate datapath (n ∷ ns) (
            "waiting for agw-node-prep DaemonSet readiness: "
            <> show_ℕ ds.number_ready
            <> "/"
            <> show_ℕ ds.desired_number_scheduled
            <> " ready")
        else do
          failed ← label_agw_datapath_nodes datapath (n ∷ ns)
          check_error failed (λ e. ret (err e)) (ret (ok (true, ""))))

-- `reconcileAGWDatapathLabels`
unfoldable pub reconcile_agw_datapath_labels :
    String → Dict String → DatapathSpec → Prog (Result (Bool × String))
reconcile_agw_datapath_labels namespace selector datapath = do
  selected ← selected_agw_nodes selector
  check selected (λ e. ret (err e)) (label_or_close namespace datapath)

-- Whether a node carries the label of the gate.
abbrev pub is_labelled : DatapathSpec → Meta → Bool
is_labelled datapath n =
    entry (datapath_ready_label_key datapath) n.labels == datapath_ready_label_value datapath

-- The rest of `agwDatapathNodesReady` once the nodes are listed.
unfoldable pub nodes_ready : String → DatapathSpec → List Meta → Prog (Result Bool)
nodes_ready namespace datapath [] = ret (ok false)
nodes_ready namespace datapath (n ∷ ns) =
    if not (all (is_labelled datapath) (n ∷ ns)) then ret (ok false) else do
      found ← send (get Kind.daemon_set namespace agw_node_prep_name)
      check found (λ e. if is_not_found e then ret (ok false) else ret (err e))
          (λ ds.
            if none_scheduled ds
            then ret (ok false)
            else if some_unready ds
            then ret (ok false)
            else ret (ok true))

-- `agwDatapathNodesReady`
unfoldable pub agw_datapath_nodes_ready : String → Dict String → DatapathSpec → Prog (Result Bool)
agw_datapath_nodes_ready namespace selector datapath = do
  selected ← selected_agw_nodes selector
  check selected (λ e. ret (err e)) (nodes_ready namespace datapath)

-- The loop of `cleanupStaleAGWPods`
unfoldable pub delete_stale : List Pod → Prog (Option Error)
delete_stale [] = ret none
delete_stale (p ∷ ps) =
    let rest = delete_stale ps in
    if not (p.reason == "NodeAffinity") then rest else do
      failed ← send (delete Kind.pod p false)
      check_error (ignore_not_found failed) (λ e. ret (some e)) rest

-- `cleanupStaleAGWPods`
unfoldable pub cleanup_stale_agw_pods : String → String → Prog (Option Error)
cleanup_stale_agw_pods namespace release_name = do
  found ← send (list Kind.pod (some namespace) (release_labels release_name))
  check found (λ e. ret (some e)) delete_stale
