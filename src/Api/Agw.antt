-- ===== src/Api/Agw.antt =====
-- `MagmaAGW`: api/v1alpha1/magmaagw_types.go.
use magma_operator.Base.{ℕ, String, Bool, Option, List, Dict}
use magma_operator.Base.Int.{ℤ}
use magma_operator.Kube.Objects.{Meta, Condition}

-- `MagmaAGWIdentitySpec`
pub record IdentitySpec : Type 0 where
  pub secret_name : String
  pub import_secret_name : String
  pub import_secret_key : String
  pub hardware_id : String
  pub rotation_policy : String

-- `MagmaAGWGatewayRegistrationSpec`; a nil pointer is `none`.
pub record GatewayRegistrationSpec : Type 0 where
  pub enabled : Option Bool
  pub delete_on_removal : Bool
  pub name : String
  pub description : String
  pub tier : String

-- `MagmaAGWDeletionPolicySpec`
pub record DeletionPolicySpec : Type 0 where
  pub delete_pvc : Bool
  pub delete_identity_secret : Bool

-- `MagmaAGWUERANSIMValidationSpec`
pub record UeransimValidationSpec : Type 0 where
  pub enabled : Option Bool
  pub trigger : String
  pub ue_deployment_name : String
  pub ping_host : String
  pub iperf_server : String
  pub iperf_port : ℤ
  pub timeout_seconds : ℤ

-- `MagmaAGWDatapathSpec`
pub record DatapathSpec : Type 0 where
  pub enabled : Option Bool
  pub ready_label_key : String
  pub ready_label_value : String
  pub require_magma_ovs_kmod : Bool
  pub ovs_kmod_upgrade_path : String

-- `MagmaAGWSpec`
pub record AgwSpec : Type 0 where
  pub release_name : String
  pub access_gateway_id : String
  pub network_id : String
  pub orc8r_namespace : String
  pub orc8r_release_name : String
  pub nms_api_host : String
  pub nms_admin_cert_secret_name : String
  pub identity : IdentitySpec
  pub gateway_registration : GatewayRegistrationSpec
  pub deletion_policy : DeletionPolicySpec
  pub agw_node_selector : Dict String
  pub agw_node_label_selector : Dict String
  pub enable_ueransim : Bool
  pub ueransim_start_policy : String
  pub ueransim_ready_config_map : String
  pub ueransim_node_selector : Dict String
  pub ueransim_validation : UeransimValidationSpec
  pub s1_interface : String
  pub sgi_interface : String
  pub datapath : DatapathSpec
  pub values : Dict String

-- `MagmaAGWStatus`
pub record AgwStatus : Type 0 where
  pub observed_generation : ℕ
  pub release_name : String
  pub release_namespace : String
  pub identity_secret_name : String
  pub hardware_id : String
  pub challenge_public_key_hash : String
  pub gateway_registered : Bool
  pub orc8r_service_ip : String
  pub trust_bundle_hash : String
  pub conditions : List Condition

-- `MagmaAGW`
pub record MagmaAgw : Type 0 where
  pub meta : Meta
  pub spec : AgwSpec
  pub status : AgwStatus
