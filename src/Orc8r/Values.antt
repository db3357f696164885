-- ===== src/Orc8r/Values.antt =====
-- The map of values that `Reconcile` of internal/controller/magmaorc8r_controller.go renders the
-- manifests with.
use magma_operator.Api.Orc8r.{MagmaOrc8r}
use magma_operator.Base.{Dict, Option, String, [], insert, none, some, ◌∷◌}
use magma_operator.Base.Int.{show, ℤ}
use magma_operator.Native.Values.{merge_values, set_list_values, set_value}

-- The values of the spec's own fields.
unfoldable pub spec_values : MagmaOrc8r → Dict String
spec_values orc8r =
    let spec = orc8r.spec in
    set_value
      (set_value
        (set_value
          (set_list_values
            (set_value
              (set_value
                (set_value
                  (set_value
                    (set_value
                      (set_value
                        (set_value
                          (set_value
                            (("orc8r.nms.magmalte.service.type", "NodePort")
                              ∷ ("orc8r.nms.nginx.create", "false")
                              ∷ [])
                            "global.domainName" spec.domain_name)
                          "orc8r.controller.image.env.orc8r_domain_name" spec.domain_name)
                        "lte-orc8r.controller.image.env.orc8r_domain_name" spec.domain_name)
                      "orc8r.nms.controllerHostname" spec.controller_hostname)
                    "orc8r.nginx.spec.hostname" spec.controller_hostname)
                  "nmsAdmin.organization" spec.nms_organization)
                "nmsAdmin.email" spec.nms_admin_email)
              "nmsAdmin.password" spec.nms_admin_password)
            "nmsAdmin.customDomains" spec.nms_custom_domains)
          "provisioning.network.id" spec.network_id)
        "provisioning.network.name" spec.network_name)
      "provisioning.subscriber.imsi" spec.subscriber_imsi

-- The node port, where the spec has one.
unfoldable pub set_node_port : Option ℤ → Dict String → Dict String
set_node_port none values = values
set_node_port (some port) values =
    insert "orc8r.nms.magmalte.service.http.nodePort" (show port) values

-- All the values: those of the spec's fields, and over them the spec's own values.
unfoldable pub orc8r_values : MagmaOrc8r → Dict String
orc8r_values orc8r =
    merge_values (set_node_port orc8r.spec.nms_node_port (spec_values orc8r)) orc8r.spec.values
