-- ===== src/Tests/Sample.antt =====
-- A concrete library and concrete resources, which the tests use.
use magma_operator.Agw.Names.{magma_agw_finalizer}
use magma_operator.Api.Agw.{AgwSpec, MagmaAgw}
use magma_operator.Base.{
  Bool, List, String, [], false, if◌then◌else◌, none, some, true, ◌*◌, ◌+◌, ◌==◌, ◌||◌, ◌∷◌,
}
use magma_operator.Base.Int.{pos}
use magma_operator.Kube.Certificate.{Certificate}
use magma_operator.Kube.Library.{Library}
use magma_operator.Kube.Objects.{Condition, Manifest, Meta, new_meta}
use magma_operator.Kube.Prog.{
  Kind, Obj, Prog, Result, check, check_error, create, err, get, is_not_found, ok, ret, send,
  update, ◌>>=◌,
}

abbrev pub name_of : (k : Kind) → Obj k → Meta
name_of Kind.agw o = o.meta
name_of Kind.orc8r o = o.meta
name_of Kind.secret o = o.meta
name_of Kind.config_map o = o.meta
name_of Kind.service o = o.meta
name_of Kind.claim o = o
name_of Kind.pod o = o.meta
name_of Kind.node o = o
name_of Kind.job o = o.meta
name_of Kind.deployment o = o.meta
name_of Kind.daemon_set o = o.meta
name_of Kind.service_account o = o
name_of Kind.role o = o.meta
name_of Kind.role_binding o = o.meta
name_of Kind.manifest o = o.meta

-- The object is read, or created where it is not there, and updated after the mutation.
unfoldable pub get_or_create :
    (k : Kind) → Obj k → (Obj k → Prog (Result (Obj k))) → Prog (Result (Obj k))
get_or_create k o mutate = do
  found ← send (get k (name_of k o).namespace (name_of k o).name)
  check found
      (λ e.
        if is_not_found e
        then (do
          changed ← mutate o
          check changed (λ e'. ret (err e'))
              (λ new. do
                failed ← send (create k new)
                check_error failed (λ e'. ret (err e')) (ret (ok new))))
        else ret (err e))
      (λ current. do
        changed ← mutate current
        check changed (λ e'. ret (err e'))
            (λ new. do
              failed ← send (update k new)
              check_error failed (λ e'. ret (err e')) (ret (ok new))))

unfoldable pub has_text : String → List String → Bool
has_text t [] = false
has_text t (u ∷ us) = u == t || has_text t us

unfoldable pub drop_text : String → List String → List String
drop_text t [] = []
drop_text t (u ∷ us) = let rest = drop_text t us in if u == t then rest else u ∷ rest

unfoldable pub set_condition : List Condition → Condition → List Condition
set_condition [] c = c ∷ []
set_condition (d ∷ ds) c = if d.type == c.type then c ∷ ds else d ∷ set_condition ds c

unfoldable pub drop_condition : List Condition → String → List Condition
drop_condition [] t = []
drop_condition (d ∷ ds) t = let rest = drop_condition ds t in if d.type == t then rest else d ∷ rest

abbrev pub sample_manifest : String → String → Manifest
sample_manifest kind name = record { kind = kind; meta = new_meta "" name; body = "" }

-- The objects of the sample release.
abbrev pub sample_objects : List Manifest
sample_objects =
    sample_manifest "Secret" "agwc-secret-certs"
    ∷ sample_manifest "PersistentVolumeClaim" "agwc-claim"
    ∷ sample_manifest "Deployment" "agwc-magmad"
    ∷ sample_manifest "Deployment" "agwc-ueransim-ue"
    ∷ []

abbrev sample_certificate : String → Certificate
sample_certificate raw = record {
  raw = raw;
  serial_number = 0;
  common_name = raw;
  not_before = 0;
  not_after = 0;
  dns_names = [];
  key_usage = [];
  ext_key_usage = [];
  is_ca = false;
  basic_constraints_valid = false;
}

abbrev pub sample_library : Library
sample_library = record {
  create_or_update = get_or_create;
  set_controller_reference =
      λ owner m. ok (record m { owner_references = owner.name ∷ m.owner_references });
  contains_finalizer = λ m f. has_text f m.finalizers;
  add_finalizer = λ m f. record m { finalizers = f ∷ m.finalizers };
  remove_finalizer = λ m f. record m { finalizers = drop_text f m.finalizers };
  set_status_condition = set_condition;
  remove_status_condition = drop_condition;
  remove_nested_field = λ body path. body;
  set_nested_string_map = λ body selector path. body;
  read_file = λ path. ok path;
  decode_yaml = λ text. ok sample_objects;
  sha256_hex = λ t. t;
  base64_encode = λ t. t;
  base64_decode = ok;
  decode_pem = some;
  encode_pem = λ type bytes. bytes;
  parse_ec_private_key = ok;
  parse_pkcs8_private_key = λ bytes. ok (some bytes);
  marshal_ec_private_key = ok;
  marshal_public_key = ok;
  create_certificate = λ template parent public signer. ok template.common_name;
  parse_certificate = λ raw. ok (sample_certificate raw);
  rsa_public_key = λ key. key;
  marshal_pkcs1_private_key = λ key. key;
  add_years = λ t years. t + years * 31556952;
  json_marshal = λ _. ok "{}";
  json_field = λ payload key. "";
}

abbrev sample_spec : AgwSpec
sample_spec = record {
  release_name = "agwc";
  access_gateway_id = "gw1";
  network_id = "net1";
  orc8r_namespace = "orc8r";
  orc8r_release_name = "orc8r";
  nms_api_host = "";
  nms_admin_cert_secret_name = "";
  identity = record {
    secret_name = "";
    import_secret_name = "";
    import_secret_key = "";
    hardware_id = "";
    rotation_policy = "";
  };
  gateway_registration = record {
    enabled = none;
    delete_on_removal = true;
    name = "";
    description = "";
    tier = "";
  };
  deletion_policy = record { delete_pvc = true; delete_identity_secret = true };
  agw_node_selector = ("role", "agw") ∷ [];
  agw_node_label_selector = [];
  enable_ueransim = true;
  ueransim_start_policy = "";
  ueransim_ready_config_map = "";
  ueransim_node_selector = [];
  ueransim_validation = record {
    enabled = none;
    trigger = "";
    ue_deployment_name = "";
    ping_host = "";
    iperf_server = "";
    iperf_port = pos 0;
    timeout_seconds = pos 0;
  };
  s1_interface = "eth1";
  sgi_interface = "eth2";
  datapath = record {
    enabled = some true;
    ready_label_key = "";
    ready_label_value = "";
    require_magma_ovs_kmod = false;
    ovs_kmod_upgrade_path = "";
  };
  values = ("config.domainName", "example.org") ∷ ("simulator.enabled", "true") ∷ [];
}

-- A resource that has the finalizer and is not deleted.
abbrev pub sample_agw : MagmaAgw
sample_agw = record {
  meta = record (new_meta "ns" "gw") { finalizers = magma_agw_finalizer ∷ [] };
  spec = sample_spec;
  status = record {
    observed_generation = 0;
    release_name = "";
    release_namespace = "";
    identity_secret_name = "";
    hardware_id = "";
    challenge_public_key_hash = "";
    gateway_registered = false;
    orc8r_service_ip = "";
    trust_bundle_hash = "";
    conditions = [];
  };
}
