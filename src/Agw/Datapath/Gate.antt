-- ===== src/Agw/Datapath/Gate.antt =====
-- When the datapath gate opens: `agwDatapathNodesReady` of
-- internal/controller/magmaagw_controller.go.
use magma_operator.Agw.Datapath.{
  agw_datapath_nodes_ready, is_labelled, nodes_ready, none_scheduled, some_unready,
}
use magma_operator.Agw.Deletion.Facts.{SawNodes, Was}
use magma_operator.Agw.Names.{agw_node_prep_name}
use magma_operator.Api.Agw.{DatapathSpec}
use magma_operator.Base.{
  Bool, Dict, List, String, [], all, arith, false, inl, inr, leb, ltb, none, not, refl, true, ◌&&◌,
  ◌∷◌, ◌≡◌,
}
use magma_operator.Kube.Objects.{DaemonSet, Meta}
use magma_operator.Kube.Prog.{Answer, Call, Kind, get, is_not_found, list, ok}
use magma_operator.Kube.Sat.{History, Sat, Sat-check, Sat-if, Sat-ret, Sat-send}

-- The preparation runs everywhere it should.
abbrev pub is_prepared : DaemonSet → Bool
is_prepared ds =
    ltb 0 ds.desired_number_scheduled && leb ds.desired_number_scheduled ds.number_ready

-- The node preparation was read, and runs everywhere.
abbrev pub SawPrepared : String → (c : Call) → Answer c → Type 0
SawPrepared namespace (get Kind.daemon_set namespace' name) (ok ds) =
    (namespace' ≡ namespace) × (name ≡ agw_node_prep_name) × (is_prepared ds ≡ true)
SawPrepared namespace _ _ = ⊥

-- Some nodes were listed for the selector, and each has the label of the gate; and the
-- preparation runs everywhere.
abbrev pub GateOpen : String → Dict String → DatapathSpec → History → Type 0
GateOpen namespace selector datapath h =
    (n : Meta) × (ns : List Meta) × (all (is_labelled datapath) (n ∷ ns) ≡ true)
    × Was (SawNodes selector (n ∷ ns)) h
    × Was (SawPrepared namespace) h

abbrev pub is_read : Call → Bool
is_read (get k namespace name) = true
is_read (list k namespace labels) = true
is_read _ = false

abbrev pub Reads : History → Call → Type 0
Reads h c = is_read c ≡ true

module _ (namespace : String) (selector : Dict String) (datapath : DatapathSpec) where
  nodes_ready-GateOpen :
      (nodes : List Meta) (h : History)
      → Was (SawNodes selector nodes) h
      → Sat Reads
          (λ h' r. r ≡ ok true → GateOpen namespace selector datapath h')
          h
          (nodes_ready namespace datapath nodes)
  unfolding nodes_ready
  nodes_ready-GateOpen [] h seen = Sat-ret h _ (λ bad. cc)
  nodes_ready-GateOpen (n ∷ ns) h seen =
      Sat-if (not (all (is_labelled datapath) (n ∷ ns))) h _ _ (λ _. Sat-ret h _ (λ bad. cc))
        (λ labelled. Sat-send h (get Kind.daemon_set namespace agw_node_prep_name) _ refl (λ r.
          Sat-check r _ _ _
            (λ e _.
              Sat-if (is_not_found e) _ _ _ (λ _. Sat-ret _ _ (λ bad. cc))
                (λ _. Sat-ret _ _ (λ bad. cc)))
            (λ ds found.
              Sat-if (none_scheduled ds) _ _ _ (λ _. Sat-ret _ _ (λ bad. cc))
                (λ some_scheduled.
                  Sat-if (some_unready ds) _ _ _ (λ _. Sat-ret _ _ (λ bad. cc))
                    (λ all_ready. Sat-ret _ _ (λ _. (
                      n,
                      ns,
                      ground arith,
                      inr seen,
                      inl (rw found (refl, refl, ground arith)),
                    )))))))

  -- `agwDatapathNodesReady` only reads; and where it says that the nodes are ready, nodes were
  -- listed for the selector, each of them has the label of the gate, and the DaemonSet of the node
  -- preparation was read with pods scheduled and all of them ready.
  pub agw_datapath_nodes_ready-GateOpen :
      (h : History)
      → Sat Reads
          (λ h' r. r ≡ ok true → GateOpen namespace selector datapath h')
          h
          (agw_datapath_nodes_ready namespace selector datapath)
  unfolding agw_datapath_nodes_ready
  agw_datapath_nodes_ready-GateOpen h = Sat-send h (list Kind.node none selector) _ refl (λ r.
      Sat-check r _ _ _ (λ e _. Sat-ret _ _ (λ bad. cc))
        (λ nodes found. nodes_ready-GateOpen nodes _ (inl (rw found (refl, refl)))))
