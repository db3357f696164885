-- ===== src/Agw/Names.antt =====
-- The constants and defaults of the AGW controller: internal/controller/constants.go, and the
-- `const` blocks and small helpers of agw_identity.go, agw_lifecycle.go and magmaagw_controller.go.
use magma_operator.Base.{
  String, ◌<>◌, Bool, true, false, Option, none, some, Dict, entry, or_default, if◌then◌else◌,
  contains, to_lower,
}
use magma_operator.Kube.Prog.{Error}
use magma_operator.Api.Agw.{MagmaAgw, DatapathSpec, GatewayRegistrationSpec, UeransimValidationSpec}

-- What the phases of a reconcile return: `(bool, string, string, error)`.
pub record Stage : Type 0 where
  pub ready : Bool
  pub reason : String
  pub message : String
  pub error : Option Error

-- `err != nil`
abbrev pub has_error : Stage → Bool
has_error s = elim s.error [ none ↦ false | some _ ↦ true ]

abbrev pub waiting : String → String → Stage
waiting reason message = record { ready = false; reason = reason; message = message; error = none }

abbrev pub passed : String → String → Stage
passed reason message = record { ready = true; reason = reason; message = message; error = none }

-- `return false, reason, err.Error(), err`
abbrev pub failure : String → Error → Stage
failure reason e = record { ready = false; reason = reason; message = e.message; error = some e }

abbrev pub label_app_component : String
label_app_component = "app.kubernetes.io/component"

abbrev pub label_app_instance : String
label_app_instance = "app.kubernetes.io/instance"

abbrev pub label_app_managed_by : String
label_app_managed_by = "app.kubernetes.io/managed-by"

abbrev pub label_app_name : String
label_app_name = "app.kubernetes.io/name"

abbrev pub managed_by_magma_operator : String
managed_by_magma_operator = "magma-operator"

abbrev pub magma_agw_app_name : String
magma_agw_app_name = "magma-agw-upstream"

abbrev pub agw_node_prep_name : String
agw_node_prep_name = "agw-node-prep"

abbrev pub magmalte_deployment_name : String
magmalte_deployment_name = "nms-magmalte"

abbrev pub shell_exit_on_error_command : String
shell_exit_on_error_command = "-ceu"

abbrev pub admin_operator_cert_path : String
admin_operator_cert_path = "/run/secrets/admin_operator.pem"

abbrev pub admin_operator_key_path : String
admin_operator_key_path = "/run/secrets/admin_operator.key.pem"

abbrev pub admin_operator_cert_key : String
admin_operator_cert_key = "admin_operator.pem"

abbrev pub admin_operator_key_key : String
admin_operator_key_key = "admin_operator.key.pem"

abbrev pub default_agw_identity_secret_name : String
default_agw_identity_secret_name = "agw-bootstrap-challenge-key"

abbrev pub default_agw_challenge_key_secret_key : String
default_agw_challenge_key_secret_key = "gw_challenge.key"

abbrev pub default_agw_registration_tier : String
default_agw_registration_tier = "default"

abbrev pub default_orc8r_namespace : String
default_orc8r_namespace = "magma"

abbrev pub default_orc8r_release_name : String
default_orc8r_release_name = "magma-fullstack"

abbrev pub default_nms_admin_cert_secret_name : String
default_nms_admin_cert_secret_name = "orc8r-secrets-certs"

abbrev pub root_ca_secret_key : String
root_ca_secret_key = "rootCA.pem"

abbrev pub root_ca_hash_annotation : String
root_ca_hash_annotation = "magma.infra.don/rootca-sha256"

abbrev pub magma_agw_finalizer : String
magma_agw_finalizer = "magma.infra.don/magmaagw-finalizer"

abbrev pub default_datapath_ready_label_key : String
default_datapath_ready_label_key = "magma.io/agw-datapath-ready"

unfoldable pub orc8r_namespace : MagmaAgw → String
orc8r_namespace agw = or_default agw.spec.orc8r_namespace default_orc8r_namespace

unfoldable pub orc8r_release_name : MagmaAgw → String
orc8r_release_name agw = or_default agw.spec.orc8r_release_name default_orc8r_release_name

unfoldable pub nms_cert_secret_name : MagmaAgw → String
nms_cert_secret_name agw =
    or_default agw.spec.nms_admin_cert_secret_name default_nms_admin_cert_secret_name

-- `apiHost`, and the name of the service looked up for the host alias
unfoldable pub api_host : MagmaAgw → String
unfolding orc8r_release_name
api_host agw = or_default agw.spec.nms_api_host (orc8r_release_name agw <> "-nginx-proxy")

unfoldable pub agw_cert_secret_name : String → Dict String → String
agw_cert_secret_name release_name values =
    or_default (entry "secret.certs" values) (release_name <> "-secret-certs")

-- A pointer to a Boolean that is true where it is nil, and one that is false.
abbrev pub enabled_or_nil : Option Bool → Bool
enabled_or_nil none = true
enabled_or_nil (some b) = b

abbrev pub set_and_true : Option Bool → Bool
set_and_true none = false
set_and_true (some b) = b

unfoldable pub gateway_registration_enabled : GatewayRegistrationSpec → Bool
gateway_registration_enabled spec = enabled_or_nil spec.enabled

unfoldable pub ueransim_validation_enabled : UeransimValidationSpec → Bool
ueransim_validation_enabled spec = set_and_true spec.enabled

unfoldable pub datapath_gate_enabled : DatapathSpec → Bool
datapath_gate_enabled datapath = enabled_or_nil datapath.enabled

unfoldable pub datapath_ready_label_key : DatapathSpec → String
datapath_ready_label_key datapath =
    or_default datapath.ready_label_key default_datapath_ready_label_key

unfoldable pub datapath_ready_label_value : DatapathSpec → String
datapath_ready_label_value datapath = or_default datapath.ready_label_value "true"

unfoldable pub is_ueransim_deployment : String → Bool
is_ueransim_deployment name = contains (to_lower name) "ueransim"

abbrev pub bool_string : Bool → String
bool_string value = if value then "true" else "false"
