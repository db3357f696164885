-- ===== src/Api/Orc8r.antt =====
-- `MagmaOrc8r`: api/v1alpha1/magmaorc8r_types.go.
use magma_operator.Base.{ℕ, String, Option, List, Dict}
use magma_operator.Base.Int.{ℤ}
use magma_operator.Kube.Objects.{Meta, Condition}

-- `MagmaOrc8rSpec`
pub record Orc8rSpec : Type 0 where
  pub release_name : String
  pub domain_name : String
  pub controller_hostname : String
  pub nms_node_port : Option ℤ
  pub nms_organization : String
  pub nms_admin_email : String
  pub nms_admin_password : String
  pub nms_custom_domains : List String
  pub network_id : String
  pub network_name : String
  pub subscriber_imsi : String
  pub values : Dict String

-- `MagmaOrc8rStatus`
pub record Orc8rStatus : Type 0 where
  pub observed_generation : ℕ
  pub release_name : String
  pub release_namespace : String
  pub nms_url : String
  pub conditions : List Condition

-- `MagmaOrc8r`
pub record MagmaOrc8r : Type 0 where
  pub meta : Meta
  pub spec : Orc8rSpec
  pub status : Orc8rStatus
