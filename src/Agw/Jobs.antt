-- ===== src/Agw/Jobs.antt =====
-- The jobs that register and deregister a gateway in Orc8r: `registrationJob`, `deregistrationJob`
-- and `agwGatewayPayload` of internal/controller/agw_identity.go.
use magma_operator.Base.{String, true, none, some, List, [], ◌∷◌, or_default}
use magma_operator.Base.Json.{Fields, text, number, boolean, array, object, nil, end, field}
use magma_operator.Kube.Objects.{Job, EnvVar, VolumeMount, Volume, VolumeSource, new_meta}
use magma_operator.Kube.Prog.{Result}
use magma_operator.Kube.Library.{Library}
use magma_operator.Api.Agw.{MagmaAgw}
use magma_operator.Agw.Names.{
  label_app_component, label_app_managed_by, managed_by_magma_operator, shell_exit_on_error_command,
  admin_operator_cert_path, admin_operator_key_path, admin_operator_cert_key,
  admin_operator_key_key, default_nms_admin_cert_secret_name, default_agw_registration_tier,
}

abbrev pub payload_annotation : String
payload_annotation = "magma.infra.don/payload-sha256"

abbrev registration_script : String
registration_script =
    "until curl -sk --cert \"$API_CERT_FILENAME\" --key \"$API_PRIVATE_KEY_FILENAME\" \"https://$API_HOST/magma/v1/networks\" >/dev/null; do sleep 5; done\nuntil [ \"$(curl -sk -o /tmp/network-get.out -w '%{http_code}' --cert \"$API_CERT_FILENAME\" --key \"$API_PRIVATE_KEY_FILENAME\" \"https://$API_HOST/magma/v1/networks/$NETWORK_ID\")\" = \"200\" ]; do sleep 5; done\ncat > /tmp/tier.json <<EOF\n{\"id\":\"$GATEWAY_TIER\",\"version\":\"1.0.0\",\"images\":[],\"gateways\":[]}\nEOF\ntier_code=\"$(curl -sk -o /tmp/tier-get.out -w '%{http_code}' --cert \"$API_CERT_FILENAME\" --key \"$API_PRIVATE_KEY_FILENAME\" \"https://$API_HOST/magma/v1/networks/$NETWORK_ID/tiers/$GATEWAY_TIER\")\"\nif [ \"$tier_code\" = \"200\" ]; then\n  curl -skf -X PUT --cert \"$API_CERT_FILENAME\" --key \"$API_PRIVATE_KEY_FILENAME\" -H \"Content-Type: application/json\" --data @/tmp/tier.json \"https://$API_HOST/magma/v1/networks/$NETWORK_ID/tiers/$GATEWAY_TIER\" >/dev/null\nelse\n  curl -skf -X POST --cert \"$API_CERT_FILENAME\" --key \"$API_PRIVATE_KEY_FILENAME\" -H \"Content-Type: application/json\" --data @/tmp/tier.json \"https://$API_HOST/magma/v1/networks/$NETWORK_ID/tiers\" >/dev/null\nfi\ncat > /tmp/gateway.json <<EOF\n$GATEWAY_PAYLOAD\nEOF\ncode=\"$(curl -sk -o /tmp/gateway-get.out -w '%{http_code}' --cert \"$API_CERT_FILENAME\" --key \"$API_PRIVATE_KEY_FILENAME\" \"https://$API_HOST/magma/v1/lte/$NETWORK_ID/gateways/$GATEWAY_ID\")\"\nif [ \"$code\" = \"200\" ]; then\n  exit 0\nfi\ngeneric_code=\"$(curl -sk -o /tmp/generic-gateway-get.out -w '%{http_code}' --cert \"$API_CERT_FILENAME\" --key \"$API_PRIVATE_KEY_FILENAME\" \"https://$API_HOST/magma/v1/networks/$NETWORK_ID/gateways/$GATEWAY_ID\")\"\nif [ \"$generic_code\" = \"200\" ]; then\n  curl -skf -X DELETE --cert \"$API_CERT_FILENAME\" --key \"$API_PRIVATE_KEY_FILENAME\" \"https://$API_HOST/magma/v1/networks/$NETWORK_ID/gateways/$GATEWAY_ID\" >/dev/null\nfi\ncurl -skf -X POST --cert \"$API_CERT_FILENAME\" --key \"$API_PRIVATE_KEY_FILENAME\" -H \"Content-Type: application/json\" --data @/tmp/gateway.json \"https://$API_HOST/magma/v1/lte/$NETWORK_ID/gateways\" >/dev/null\ncurl -skf --cert \"$API_CERT_FILENAME\" --key \"$API_PRIVATE_KEY_FILENAME\" \"https://$API_HOST/magma/v1/lte/$NETWORK_ID/gateways/$GATEWAY_ID\" >/dev/null"

abbrev deregistration_script : String
deregistration_script =
    "until curl -sk --cert \"$API_CERT_FILENAME\" --key \"$API_PRIVATE_KEY_FILENAME\" \"https://$API_HOST/magma/v1/networks\" >/dev/null; do sleep 5; done\ncurl -skf -X DELETE --cert \"$API_CERT_FILENAME\" --key \"$API_PRIVATE_KEY_FILENAME\" \"https://$API_HOST/magma/v1/lte/$NETWORK_ID/gateways/$GATEWAY_ID\" >/dev/null || true\ncurl -skf -X DELETE --cert \"$API_CERT_FILENAME\" --key \"$API_PRIVATE_KEY_FILENAME\" \"https://$API_HOST/magma/v1/networks/$NETWORK_ID/gateways/$GATEWAY_ID\" >/dev/null || true"

-- The mounts and the volume of the admin certificate, which both jobs have.
abbrev cert_mounts : List VolumeMount
cert_mounts =
    record {
      name = default_nms_admin_cert_secret_name;
      mount_path = admin_operator_cert_path;
      sub_path = admin_operator_cert_key;
      read_only = true;
    }
    ∷ record {
      name = default_nms_admin_cert_secret_name;
      mount_path = admin_operator_key_path;
      sub_path = admin_operator_key_key;
      read_only = true;
    }
    ∷ []

abbrev cert_volumes : String → List Volume
cert_volumes cert_secret =
    record {
      name = default_nms_admin_cert_secret_name;
      source = VolumeSource.secret cert_secret 0o444;
    }
    ∷ []

abbrev env_var : String → String → EnvVar
env_var name value = record { name = name; value = value }

-- `agwGatewayPayload`, with the public parts of the identity.
unfoldable pub gateway_fields : MagmaAgw → String → String → Fields
gateway_fields agw hardware_id public_key_b64 =
    let g = agw.spec.gateway_registration in
    field "id" (text agw.spec.access_gateway_id) (
      field "name" (text (or_default g.name agw.spec.access_gateway_id)) (
        field "description" (text (or_default g.description "Managed by magma-operator")) (
          field "tier" (text (or_default g.tier default_agw_registration_tier)) (
            field "device"
              (object (
                field "hardware_id" (text hardware_id) (
                  field "key"
                    (object (
                      field "key" (text public_key_b64)
                        (field "key_type" (text "SOFTWARE_ECDSA_SHA256") end)))
                    end)))
              (field "magmad"
                (object (
                  field "autoupgrade_enabled" (boolean true) (
                    field "autoupgrade_poll_interval" (number 60) (
                      field "checkin_interval" (number 60) (
                        field "checkin_timeout" (number 30)
                          (field "dynamic_services" (array nil) end))))))
                (field "cellular"
                  (object (
                    field "epc"
                      (object (
                        field "ip_block" (text "192.168.128.0/24") (
                          field "nat_enabled" (boolean true) (
                            field "dns_primary" (text "8.8.8.8")
                              (field "dns_secondary" (text "8.8.4.4") end)))))
                      (field "ran"
                        (object
                          (field "pci" (number 260) (field "transmit_enabled" (boolean true) end)))
                        end)))
                  (field "connected_enodeb_serials" (array nil) end)))))))

module _ (L : Library) where
  unfoldable pub agw_gateway_payload : MagmaAgw → String → String → Result String
  unfolding gateway_fields
  agw_gateway_payload agw hardware_id public_key_b64 =
      L.json_marshal (object (gateway_fields agw hardware_id public_key_b64))

  unfoldable pub gateway_id_from_payload : String → String
  gateway_id_from_payload payload = L.json_field payload "id"

  unfoldable pub gateway_tier_from_payload : String → String
  gateway_tier_from_payload payload =
      or_default (L.json_field payload "tier") default_agw_registration_tier

  -- `registrationJob`
  unfoldable pub registration_job :
      String → String → String → String → String → String → String → String → Job
  unfolding gateway_id_from_payload gateway_tier_from_payload
  registration_job namespace name image cert_secret api_host network_id payload payload_hash =
      record {
        meta = record (new_meta namespace name) {
          labels =
              (label_app_component, "agw-registration")
              ∷ (label_app_managed_by, managed_by_magma_operator)
              ∷ [];
          annotations = (payload_annotation, payload_hash) ∷ [];
        };
        backoff_limit = some 6;
        ttl_seconds_after_finished = some 3600;
        active_deadline_seconds = none;
        service_account_name = "";
        restart_policy = "OnFailure";
        containers =
            record {
              name = "register";
              image = image;
              image_pull_policy = "IfNotPresent";
              command = "/bin/sh" ∷ shell_exit_on_error_command ∷ [];
              args = registration_script ∷ [];
              env =
                  env_var "API_HOST" api_host
                  ∷ env_var "NETWORK_ID" network_id
                  ∷ env_var "GATEWAY_ID" (gateway_id_from_payload payload)
                  ∷ env_var "GATEWAY_TIER" (gateway_tier_from_payload payload)
                  ∷ env_var "GATEWAY_PAYLOAD" payload
                  ∷ env_var "API_CERT_FILENAME" admin_operator_cert_path
                  ∷ env_var "API_PRIVATE_KEY_FILENAME" admin_operator_key_path
                  ∷ [];
              volume_mounts = cert_mounts;
            }
            ∷ [];
        volumes = cert_volumes cert_secret;
        succeeded = 0;
        failed = 0;
      }

-- `deregistrationJob`
unfoldable pub deregistration_job :
    String → String → String → String → String → String → String → Job
deregistration_job namespace name image cert_secret api_host network_id gateway_id = record {
  meta = record (new_meta namespace name) {
    labels =
        (label_app_component, "agw-deregistration")
        ∷ (label_app_managed_by, managed_by_magma_operator)
        ∷ [];
  };
  backoff_limit = some 6;
  ttl_seconds_after_finished = some 3600;
  active_deadline_seconds = none;
  service_account_name = "";
  restart_policy = "OnFailure";
  containers =
      record {
        name = "deregister";
        image = image;
        image_pull_policy = "IfNotPresent";
        command = "/bin/sh" ∷ shell_exit_on_error_command ∷ [];
        args = deregistration_script ∷ [];
        env =
            env_var "API_HOST" api_host
            ∷ env_var "NETWORK_ID" network_id
            ∷ env_var "GATEWAY_ID" gateway_id
            ∷ env_var "API_CERT_FILENAME" admin_operator_cert_path
            ∷ env_var "API_PRIVATE_KEY_FILENAME" admin_operator_key_path
            ∷ [];
        volume_mounts = cert_mounts;
      }
      ∷ [];
  volumes = cert_volumes cert_secret;
  succeeded = 0;
  failed = 0;
}
