-- ===== src/Agw/Datapath/Labels.antt =====
-- When nodes get and lose the label of the gate: `reconcileAGWDatapathLabels` of
-- internal/controller/magmaagw_controller.go.
use magma_operator.Agw.Datapath.{
  close_gate, has_label, is_labelled, label_agw_datapath_nodes, label_or_close, none_scheduled,
  reconcile_agw_datapath_labels, remove_agw_datapath_labels, some_unready,
}
use magma_operator.Agw.Datapath.Gate.{SawPrepared, is_read}
use magma_operator.Agw.Deletion.Facts.{SawNodes, Was}
use magma_operator.Agw.Names.{
  agw_node_prep_name, datapath_ready_label_key, datapath_ready_label_value,
}
use magma_operator.Api.Agw.{DatapathSpec}
use magma_operator.Base.{
  All, Bool, Dict, List, String, [], arith, entry-insert, eq_iff, inl, inr, insert, none, not, refl,
  remove, true, ◌∷◌, ◌≡◌, ◌⊎◌,
}
use magma_operator.Kube.Frame.{IsStable, Sat-frame, Sat-weaken}
use magma_operator.Kube.Objects.{Meta}
use magma_operator.Kube.Prog.{
  Answer, Call, Kind, Prog, Result, check_error, err, get, is_not_found, list, ok, patch, ret,
  ◌>>=◌,
}
use magma_operator.Kube.Sat.{
  History, Sat, Sat-bind, Sat-check, Sat-check_error, Sat-if, Sat-ret, Sat-send,
}

-- The only changes are patches of nodes: one that takes the label off, or any after the node
-- preparation was read as running everywhere.
abbrev pub LabelCalls : String → DatapathSpec → History → Call → Type 0
LabelCalls namespace datapath h (patch Kind.node old new) =
    Was (SawPrepared namespace) h
    ⊎ (new ≡ record old { labels = remove (datapath_ready_label_key datapath) old.labels })
LabelCalls namespace datapath h c = is_read c ≡ true

-- A node was patched, and the patch leaves it with the label.
abbrev pub Labelled : DatapathSpec → Meta → (c : Call) → Answer c → Type 0
Labelled datapath n (patch Kind.node old new) failed =
    (old ≡ n) × (is_labelled datapath new ≡ true) × (failed ≡ none)
Labelled datapath n _ _ = ⊥

-- Each node has the label, or was given it.
abbrev pub AllLabelled : DatapathSpec → List Meta → History → Type 0
AllLabelled datapath nodes h =
    All (λ n. (is_labelled datapath n ≡ true) ⊎ Was (Labelled datapath n) h) nodes

-- The nodes of the selector were listed, there is one, and all are labelled; and the preparation
-- runs everywhere.
abbrev pub GateOpened : String → Dict String → DatapathSpec → History → Type 0
GateOpened namespace selector datapath h =
    (n : Meta) × (ns : List Meta) × AllLabelled datapath (n ∷ ns) h
    × Was (SawNodes selector (n ∷ ns)) h
    × Was (SawPrepared namespace) h

-- Where the answer is ready, the gate is open.
abbrev pub Says : String → Dict String → DatapathSpec → History → Result (Bool × String) → Type 0
Says namespace selector datapath h r =
    (m : String) → r ≡ ok (true, m) → GateOpened namespace selector datapath h

module _ (namespace : String) (selector : Dict String) (datapath : DatapathSpec) where
  labelled_now :
      (n : Meta)
      → is_labelled datapath (record n {
        labels =
            insert
              (datapath_ready_label_key datapath)
              (datapath_ready_label_value datapath)
              n.labels;
      })
        ≡ true
  labelled_now n =
      let key = datapath_ready_label_key datapath in
      let value = datapath_ready_label_value datapath in
      ground (arith, entry-insert key key value n.labels, eq_iff key key, eq_iff value value)

  FirstLabelled-IsStable :
      (n : Meta) → IsStable (λ h. (is_labelled datapath n ≡ true) ⊎ Was (Labelled datapath n) h)
  FirstLabelled-IsStable n h c r (inl already) = inl already
  FirstLabelled-IsStable n h c r (inr was) = inr (inr was)

  -- The first node is labelled, and the others will be.
  and_rest :
      (n : Meta) (ns : List Meta) (h : History)
      → (is_labelled datapath n ≡ true) ⊎ Was (Labelled datapath n) h
      → Sat
          (LabelCalls namespace datapath)
          (λ h' failed. failed ≡ none → AllLabelled datapath ns h')
          h
          (label_agw_datapath_nodes datapath ns)
      → Sat
          (LabelCalls namespace datapath)
          (λ h' failed. failed ≡ none → AllLabelled datapath (n ∷ ns) h')
          h
          (label_agw_datapath_nodes datapath ns)
  and_rest n ns h first others =
      Sat-weaken h _ (λ _ _ c. c) (λ _ _ s none_failed. (s.1, s.0 none_failed))
        (Sat-frame (λ h'. (is_labelled datapath n ≡ true) ⊎ Was (Labelled datapath n) h')
          (FirstLabelled-IsStable n) h _ first others)

  label_nodes-AllLabelled :
      (nodes : List Meta) (h : History)
      → Was (SawPrepared namespace) h
      → Sat
          (LabelCalls namespace datapath)
          (λ h' failed. failed ≡ none → AllLabelled datapath nodes h')
          h
          (label_agw_datapath_nodes datapath nodes)
  unfolding label_agw_datapath_nodes
  label_nodes-AllLabelled [] h prepared = Sat-ret h none (λ _. tt)
  label_nodes-AllLabelled (n ∷ ns) h prepared =
      Sat-if (is_labelled datapath n) h _ _
        (λ already. and_rest n ns h (inl already) (label_nodes-AllLabelled ns h prepared))
        (λ _. Sat-send h (patch Kind.node n _) _ (inl prepared) (λ failed.
          Sat-check_error failed _ _ _ (λ e _. Sat-ret _ _ (λ bad. cc))
            (λ fine.
              and_rest n ns _ (inr (inl (refl, labelled_now n, fine)))
                (label_nodes-AllLabelled ns _ (inr prepared)))))

  remove_labels-LabelCalls :
      (nodes : List Meta) (h : History)
      → Sat
          (LabelCalls namespace datapath)
          (λ _ _. Unit {0})
          h
          (remove_agw_datapath_labels datapath nodes)
  unfolding remove_agw_datapath_labels
  remove_labels-LabelCalls [] h = Sat-ret h none tt
  remove_labels-LabelCalls (n ∷ ns) h =
      Sat-if (not (has_label (datapath_ready_label_key datapath) n)) h _ _
        (λ _. remove_labels-LabelCalls ns h)
        (λ _. Sat-send h (patch Kind.node n _) _ (inr refl) (λ failed.
          Sat-check_error failed _ _ _ (λ e _. Sat-ret _ _ tt)
            (λ _. remove_labels-LabelCalls ns _)))

  close_gate-LabelCalls :
      (nodes : List Meta) (message : String) (h : History)
      → Sat
          (LabelCalls namespace datapath)
          (Says namespace selector datapath)
          h
          (close_gate datapath nodes message)
  unfolding close_gate
  close_gate-LabelCalls nodes message h =
      Sat-bind (λ _ _. Unit {0}) h _ _ (remove_labels-LabelCalls nodes h)
        (λ h' failed _.
          Sat-check_error failed h' _ _ (λ e _. Sat-ret h' _ (λ m bad. cc))
            (λ _. Sat-ret h' _ (λ m bad. cc)))

  abbrev open_labels : List Meta → Prog (Result (Bool × String))
  open_labels nodes = label_agw_datapath_nodes datapath nodes >>= λ failed.
      check_error failed (λ e. ret (err e)) (ret (ok (true, "")))

  open_gate :
      (n : Meta) (ns : List Meta) (h : History)
      → Was (SawNodes selector (n ∷ ns)) h
      → Was (SawPrepared namespace) h
      → Sat
          (LabelCalls namespace datapath)
          (Says namespace selector datapath)
          h
          (open_labels (n ∷ ns))
  open_gate n ns h listed prepared =
      Sat-bind
        (λ h' failed.
          (failed ≡ none → AllLabelled datapath (n ∷ ns) h')
          × (Was (SawNodes selector (n ∷ ns)) h' × Was (SawPrepared namespace) h'))
        h _ _
        (Sat-frame (λ h'. Was (SawNodes selector (n ∷ ns)) h' × Was (SawPrepared namespace) h')
          (λ h' c r both. (inr both.0, inr both.1)) h _ (listed, prepared)
          (label_nodes-AllLabelled (n ∷ ns) h prepared))
        (λ h' failed q.
          Sat-check_error failed h' _ _ (λ e _. Sat-ret h' _ (λ m bad. cc))
            (λ fine. Sat-ret h' _ (λ m _. (n, ns, q.0 fine, q.1.0, q.1.1))))

  label_or_close-GateOpened :
      (nodes : List Meta) (h : History)
      → Was (SawNodes selector nodes) h
      → Sat
          (LabelCalls namespace datapath)
          (Says namespace selector datapath)
          h
          (label_or_close namespace datapath nodes)
  unfolding label_or_close
  label_or_close-GateOpened [] h listed = Sat-ret h _ (λ m bad. cc)
  label_or_close-GateOpened (n ∷ ns) h listed =
      Sat-send h (get Kind.daemon_set namespace agw_node_prep_name) _ refl (λ r.
        Sat-check r _ _ _
          (λ e _.
            Sat-if (is_not_found e) _ _ _ (λ _. close_gate-LabelCalls _ _ _)
              (λ _. Sat-ret _ _ (λ m bad. cc)))
          (λ ds found.
            Sat-if (none_scheduled ds) _ _ _ (λ _. close_gate-LabelCalls _ _ _)
              (λ some_scheduled.
                Sat-if (some_unready ds) _ _ _ (λ _. close_gate-LabelCalls _ _ _)
                  (λ all_ready.
                    open_gate n ns _ (inr listed) (inl (rw found (refl, refl, ground arith)))))))

  -- The function `reconcileAGWDatapathLabels` changes nothing but nodes, and while the DaemonSet of the node
  -- preparation was not read with pods scheduled and all of them ready, a change of a node is just
  -- the removal of the label of the gate. Where it says ready, that DaemonSet was read, nodes were
  -- listed for the selector, and each of them had the label or was patched to have it.
  pub reconcile_agw_datapath_labels-GateOpened :
      (h : History)
      → Sat
          (LabelCalls namespace datapath)
          (Says namespace selector datapath)
          h
          (reconcile_agw_datapath_labels namespace selector datapath)
  unfolding reconcile_agw_datapath_labels
  reconcile_agw_datapath_labels-GateOpened h =
      Sat-send h (list Kind.node none selector) _ refl (λ r.
        Sat-check r _ _ _ (λ e _. Sat-ret _ _ (λ m bad. cc))
          (λ nodes found. label_or_close-GateOpened nodes _ (inl (rw found (refl, refl)))))
