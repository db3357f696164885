-- ===== src/Kube/Library.antt =====
-- What the operator calls and does not implement: functions of the Kubernetes libraries, and the
-- hashes, keys and encodings of Go's `crypto` and `encoding` packages, which are parameters.
use magma_operator.Base.{ℕ}
use magma_operator.Kube.Certificate.{Certificate}
use magma_operator.Base.{String, ◌==◌, Bool, Option, none, some, List, Dict, if◌then◌else◌}
use magma_operator.Kube.Objects.{Meta, Condition, Manifest}
use magma_operator.Kube.Prog.{Kind, Obj, Prog, Result}
use magma_operator.Base.Json.{Json}

pub record Library : Type 0 where
  -- `controllerutil.CreateOrUpdate`, given the object that names what to fetch and the mutation.
  pub create_or_update :
      (k : Kind) → Obj k → (Obj k → Prog (Result (Obj k))) → Prog (Result (Obj k))
  -- `controllerutil.SetControllerReference(owner, object)`, on the metadata of both.
  pub set_controller_reference : Meta → Meta → Result Meta
  pub contains_finalizer : Meta → String → Bool
  pub add_finalizer : Meta → String → Meta
  pub remove_finalizer : Meta → String → Meta
  -- `meta.SetStatusCondition`, `meta.RemoveStatusCondition`
  pub set_status_condition : List Condition → Condition → List Condition
  pub remove_status_condition : List Condition → String → List Condition
  -- `unstructured.RemoveNestedField`, `unstructured.SetNestedStringMap`
  pub remove_nested_field : String → List String → String
  pub set_nested_string_map : String → Dict String → List String → String
  -- The embedded manifest file, and the documents that the YAML decoder reads in it.
  pub read_file : String → Result String
  pub decode_yaml : String → Result (List Manifest)
  pub sha256_hex : String → String
  pub base64_encode : String → String
  pub base64_decode : String → Result String
  -- The bytes of the PEM block in a text (white space around it trimmed), if there is one.
  pub decode_pem : String → Option String
  -- `pem.EncodeToMemory`: a block's type and its bytes.
  pub encode_pem : String → String → String
  -- `x509.ParseECPrivateKey`, `x509.ParsePKCS8PrivateKey`; the latter may find another kind of key.
  pub parse_ec_private_key : String → Result String
  pub parse_pkcs8_private_key : String → Result (Option String)
  pub marshal_ec_private_key : String → Result String
  -- The PKIX form of the public half of a private key.
  pub marshal_public_key : String → Result String
  -- `x509.CreateCertificate(template, parent, public key, signer)`, with the bytes made, and
  -- `x509.ParseCertificate`.
  pub create_certificate : Certificate → Certificate → String → String → Result String
  pub parse_certificate : String → Result Certificate
  -- `key.PublicKey` and `x509.MarshalPKCS1PrivateKey` of an RSA key.
  pub rsa_public_key : String → String
  pub marshal_pkcs1_private_key : String → String
  -- `t.AddDate(years, 0, 0)` on seconds since 1970.
  pub add_years : ℕ → ℕ → ℕ
  -- `json.Marshal`, and `json.Unmarshal` into a structure of one text field, "" if there is none.
  pub json_marshal : Json → Result String
  pub json_field : String → String → String

-- The first condition of a type.
unfoldable pub find_condition : List Condition → String → Option Condition
find_condition List.[] t = none
find_condition (List.◌∷◌ c cs) t = if c.type == t then some c else find_condition cs t
