-- ===== src/Kube/Certificate.antt =====
-- The fields of an `x509.Certificate` that the operator sets or reads.
use magma_operator.Base.{ℕ, String, Bool, List}

pub data KeyUsage : Type 0 where
  digital_signature key_encipherment cert_sign : KeyUsage

pub data ExtKeyUsage : Type 0 where
  server_auth client_auth : ExtKeyUsage

-- A template has no raw bytes; times are seconds since 1970.
pub record Certificate : Type 0 where
  pub raw : String
  pub serial_number : ℕ
  pub common_name : String
  pub not_before : ℕ
  pub not_after : ℕ
  pub dns_names : List String
  pub key_usage : List KeyUsage
  pub ext_key_usage : List ExtKeyUsage
  pub is_ca : Bool
  pub basic_constraints_valid : Bool
