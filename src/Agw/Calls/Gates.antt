-- ===== src/Agw/Calls/Gates.antt =====
-- The gates and the status updates of a reconcile make only quiet calls.
use magma_operator.Agw.Calls.{is_quiet_call}
use magma_operator.Agw.Calls.Parts.{label_nodes-Quiet, unlabel_nodes-Quiet}
use magma_operator.Agw.Datapath.{
  agw_datapath_nodes_ready, close_gate, label_or_close, nodes_ready, reconcile_agw_datapath_labels,
}
use magma_operator.Agw.Reconcile.{ueransim_start_gate_ready}
use magma_operator.Agw.Status.{
  update_agw_ready_status_with_requeue, update_agw_status, update_agw_status_with_requeue,
}
use magma_operator.Api.Agw.{DatapathSpec, MagmaAgw}
use magma_operator.Base.{Dict, List, String, [], ℕ, ◌∷◌}
use magma_operator.Kube.Library.{Library}
use magma_operator.Kube.Objects.{ConditionStatus, Meta}
use magma_operator.Kube.Only.{Only, Only-ret, only_rules}
use magma_operator.Kube.Prog.{send, ◌>>=◌}

nodes_ready-Quiet :
    (namespace : String) (datapath : DatapathSpec) (nodes : List Meta)
    → Only is_quiet_call (nodes_ready namespace datapath nodes)
unfolding nodes_ready
nodes_ready-Quiet namespace datapath [] = Only-ret _
nodes_ready-Quiet namespace datapath (n ∷ ns) = search only_rules depth 12

pub datapath_ready-Quiet :
    (namespace : String) (selector : Dict String) (datapath : DatapathSpec)
    → Only is_quiet_call (agw_datapath_nodes_ready namespace selector datapath)
unfolding agw_datapath_nodes_ready ◌>>=◌ send
datapath_ready-Quiet namespace selector datapath = search (only_rules, nodes_ready-Quiet)

close_gate-Quiet :
    (datapath : DatapathSpec) (nodes : List Meta) (message : String)
    → Only is_quiet_call (close_gate datapath nodes message)
unfolding close_gate
close_gate-Quiet datapath nodes message = search (only_rules, unlabel_nodes-Quiet)

label_or_close-Quiet :
    (namespace : String) (datapath : DatapathSpec) (nodes : List Meta)
    → Only is_quiet_call (label_or_close namespace datapath nodes)
unfolding label_or_close
label_or_close-Quiet namespace datapath [] = Only-ret _
label_or_close-Quiet namespace datapath (n ∷ ns) =
    search (only_rules, close_gate-Quiet, label_nodes-Quiet) depth 14

pub datapath_labels-Quiet :
    (namespace : String) (selector : Dict String) (datapath : DatapathSpec)
    → Only is_quiet_call (reconcile_agw_datapath_labels namespace selector datapath)
unfolding reconcile_agw_datapath_labels ◌>>=◌ send
datapath_labels-Quiet namespace selector datapath = search (only_rules, label_or_close-Quiet)

pub start_gate-Quiet :
    (namespace : String) (agw : MagmaAgw) (release_name : String)
    → Only is_quiet_call (ueransim_start_gate_ready namespace agw release_name)
unfolding ueransim_start_gate_ready
start_gate-Quiet namespace agw release_name = search only_rules depth 9

module _ (L : Library) where
  pub status-Quiet :
      (agw : MagmaAgw) (release_name : String) (s : ConditionStatus) (reason message : String)
      (seconds : ℕ)
      → Only is_quiet_call
          (update_agw_status_with_requeue L agw release_name s reason message seconds)
  unfolding update_agw_status_with_requeue
  status-Quiet agw release_name s reason message seconds = search only_rules depth 9

  pub plain_status-Quiet :
      (agw : MagmaAgw) (release_name : String) (s : ConditionStatus) (reason message : String)
      → Only is_quiet_call (update_agw_status L agw release_name s reason message)
  unfolding update_agw_status
  plain_status-Quiet agw release_name s reason message =
      status-Quiet agw release_name s reason message 120

  pub ready_status-Quiet :
      (agw : MagmaAgw) (release_name reason message : String) (seconds : ℕ)
      → Only is_quiet_call
          (update_agw_ready_status_with_requeue L agw release_name reason message seconds)
  unfolding update_agw_ready_status_with_requeue
  ready_status-Quiet agw release_name reason message seconds = search only_rules depth 9
