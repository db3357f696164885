-- ===== src/Agw/Inputs/Precedence.antt =====
-- Which value wins in the map that `Reconcile` of internal/controller/magmaagw_controller.go
-- renders the manifests with.
use magma_operator.Agw.Identity.{IdentityState}
use magma_operator.Agw.Inputs.{final_values}
use magma_operator.Api.Agw.{MagmaAgw}
use magma_operator.Base.{
  Dict, String, if◌then◌else◌, lookup, lookup-copy, lookup-insert, none, refl, some, ◌==◌, ◌≡◌,
}
use magma_operator.Native.Values.{merge_values, set_selector_values}

-- Of the values after the datapath gate, the simulator's switch is off and the two entries of the
-- identity are the identity's, whatever the resource's own values say; under any other key the
-- resource's own value wins, and the values before it stand only where it has none.
pub lookup-final_values :
    (k : String) (agw : MagmaAgw) (identity : IdentityState) (values : Dict String)
    → lookup k (final_values agw identity values) ≡ (
        if "simulator.enabled" == k
        then some "false"
        else if "gatewayIdentity.snowflake" == k
        then some identity.hardware_id
        else if "config.gwChallenge" == k
        then some identity.private_key_b64
        else elim (lookup k agw.spec.values) [
          | some v ↦ some v
          | none ↦
              lookup k (
                set_selector_values values "simulator.nodeSelector" agw.spec.ueransim_node_selector)
        ])
unfolding final_values merge_values
lookup-final_values k agw identity values =
    rw lookup-insert (rw lookup-insert (rw lookup-insert (rw lookup-copy refl)))
