-- ===== src/Agw/Inputs.antt =====
-- The map of values that `Reconcile` renders the manifests with:
-- internal/controller/magmaagw_controller.go.
pub mod Precedence
use magma_operator.Base.{String, [], ◌∷◌, Dict, insert, or_default}
use magma_operator.Api.Agw.{MagmaAgw, DatapathSpec}
use magma_operator.Agw.Names.{datapath_ready_label_key, datapath_ready_label_value, bool_string}
use magma_operator.Agw.Identity.{IdentityState}
use magma_operator.Agw.Datapath.{merged_selectors}
use magma_operator.Native.Values.{set_value, set_selector_values, merge_values}

-- The two entries of the identity.
abbrev pub set_identity : IdentityState → Dict String → Dict String
set_identity identity values =
    insert "gatewayIdentity.snowflake" identity.hardware_id
      (insert "config.gwChallenge" identity.private_key_b64 values)

-- The values before the datapath gate.
unfoldable pub initial_values : String → MagmaAgw → IdentityState → Dict String
initial_values namespace agw identity = set_identity identity (
    set_value
      (set_value
        (("namespace", namespace)
          ∷ ("agwAntiAffinity.enabled", "true")
          ∷ ("simulator.enabled", "false")
          ∷ ("simulator.antiAffinity.separateFromAgw", "true")
          ∷ [])
        "nodePrep.interfaces.s1.parent" agw.spec.s1_interface)
      "nodePrep.interfaces.nat.parent" agw.spec.sgi_interface)

unfoldable pub agw_node_selector_of : MagmaAgw → Dict String
agw_node_selector_of agw =
    merged_selectors agw.spec.agw_node_selector agw.spec.agw_node_label_selector

-- The values of the datapath gate, where it is enabled.
unfoldable pub datapath_values : DatapathSpec → Dict String → Dict String → Dict String
datapath_values datapath selector values =
    set_value
      (insert "nodePrep.requireMagmaOvsKmod" (bool_string datapath.require_magma_ovs_kmod) (
        set_selector_values (set_selector_values values "nodePrep.nodeSelector" selector)
          "nodeSelector"
          (insert (datapath_ready_label_key datapath) (datapath_ready_label_value datapath)
            selector)))
      "nodePrep.magmaOvsKmodUpgradePath" datapath.ovs_kmod_upgrade_path

-- The values after the gate: the simulator's selector, the resource's own values over all that is
-- before them, and over those the identity and the simulator's switch.
unfoldable pub final_values : MagmaAgw → IdentityState → Dict String → Dict String
final_values agw identity values = insert "simulator.enabled" "false" (
    set_identity identity (
      merge_values
        (set_selector_values values "simulator.nodeSelector" agw.spec.ueransim_node_selector)
        agw.spec.values))

-- `releaseName`
unfoldable pub release_name_of : MagmaAgw → String
release_name_of agw = or_default agw.spec.release_name agw.meta.name
