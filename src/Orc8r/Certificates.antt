-- ===== src/Orc8r/Certificates.antt =====
-- The certificates of the orchestrator: `generateOrc8rCertSecretData`, `controllerSANs`,
-- `signedCert`, `createCertificate`, `pemCert` and `pemKey` of internal/controller/orc8r_certs.go.
-- A `big.Int` is a natural number, and a time is in seconds since 1970.
pub mod Chain
use magma_operator.Agw.Names.{admin_operator_cert_key, admin_operator_key_key, root_ca_secret_key}
use magma_operator.Base.{
  Bool, Dict, List, Option, String, [], entry, false, none, some, true, ℕ, ◌-◌, ◌<>◌, ◌∷◌,
}
use magma_operator.Kube.Certificate.{Certificate, ExtKeyUsage, KeyUsage}
use magma_operator.Kube.Library.{Library}
use magma_operator.Kube.Prog.{
  Error, Prog, Result, attempt, check, err, generate_rsa_key, now, ok, random_below, ret, send,
  ◌>>=◌,
}
use magma_operator.Native.Render.{domain_name}

-- What a CA's template has, beside what every template has.
abbrev pub key_usages : Bool → List KeyUsage
key_usages true = KeyUsage.digital_signature ∷ KeyUsage.key_encipherment ∷ KeyUsage.cert_sign ∷ []
key_usages false = KeyUsage.digital_signature ∷ KeyUsage.key_encipherment ∷ []

-- `serialLimit`, 2 to the 128
abbrev pub serial_limit : ℕ
serial_limit = 340282366920938463463374607431768211456

-- The error of `fmt.Errorf("create certificate %s: %w", commonName, err)`, of the class of `err`.
abbrev pub create_certificate_error : String → Error → Error
create_certificate_error common_name e = record e {
  message = "create certificate " <> common_name <> ": " <> e.message;
}

-- `controllerSANs`
unfoldable pub controller_sans : String → String → List String
controller_sans domain_name controller_hostname =
    controller_hostname
    ∷ ("controller." <> domain_name)
    ∷ ("api." <> domain_name)
    ∷ ("*.nms." <> domain_name)
    ∷ ("bootstrapper-controller." <> domain_name)
    ∷ []

-- The pairs of key and certificate that the secret is made of.
pub record Signed : Type 0 where
  pub key : String
  pub cert : Certificate

-- `parent`: the CA, or the template itself.
abbrev pub parent_of : Option Certificate → Certificate → Certificate
parent_of none template = template
parent_of (some ca) template = ca

module _ (L : Library) where
  -- The template of `createCertificate`, given the serial number and the clock.
  unfoldable pub certificate_template : String → List String → Bool → ℕ → ℕ → Certificate
  certificate_template common_name sans is_ca serial clock =
      let not_before = clock - 3600 in
      record {
        raw = "";
        serial_number = serial;
        common_name = common_name;
        not_before = not_before;
        not_after = L.add_years not_before 10;
        dns_names = sans;
        key_usage = key_usages is_ca;
        ext_key_usage = ExtKeyUsage.server_auth ∷ ExtKeyUsage.client_auth ∷ [];
        is_ca = is_ca;
        basic_constraints_valid = is_ca;
      }

  -- The end of `createCertificate`: the bytes, and what is read back from them.
  unfoldable pub issue : Certificate → Option Certificate → String → String → Result Certificate
  issue template ca public_key signer =
      check (L.create_certificate template (parent_of ca template) public_key signer)
        (λ e. err (create_certificate_error template.common_name e)) L.parse_certificate

  -- `createCertificate`
  unfoldable pub create_certificate :
      String → List String → Option Certificate → String → String → Bool → Prog (Result Certificate)
  create_certificate common_name sans ca public_key signer is_ca =
      attempt (send (random_below serial_limit)) (λ serial. do
        clock ← send now
        ret (issue (certificate_template common_name sans is_ca serial clock) ca public_key signer))

  -- `signedCert`
  unfoldable pub signed_cert : String → List String → Certificate → String → Prog (Result Signed)
  signed_cert common_name sans ca ca_key = attempt (send generate_rsa_key) (λ key.
      attempt (create_certificate common_name sans (some ca) (L.rsa_public_key key) ca_key false)
        (λ cert. ret (ok (record { key = key; cert = cert }))))

  -- A CA's certificate, signed with its own key.
  unfoldable pub self_signed : String → String → Prog (Result Signed)
  self_signed common_name key =
      attempt (create_certificate common_name [] none (L.rsa_public_key key) key true)
        (λ cert. ret (ok (record { key = key; cert = cert })))

  -- `pemCert`
  unfoldable pub pem_cert : Certificate → String
  pem_cert cert = L.encode_pem "CERTIFICATE" cert.raw

  -- `pemKey`
  unfoldable pub pem_key : String → String
  pem_key key = L.encode_pem "RSA PRIVATE KEY" (L.marshal_pkcs1_private_key key)

  -- The contents of the secret, given the pairs.
  unfoldable pub cert_secret_data :
      Signed → Signed → Signed → Signed → Signed → Signed → Dict String
  cert_secret_data root certifier vpn controller admin fluentd =
      (root_ca_secret_key, pem_cert root.cert)
      ∷ ("controller.crt", pem_cert controller.cert)
      ∷ ("controller.key", pem_key controller.key)
      ∷ (admin_operator_cert_key, pem_cert admin.cert)
      ∷ (admin_operator_key_key, pem_key admin.key)
      ∷ ("certifier.pem", pem_cert certifier.cert)
      ∷ ("certifier.key", pem_key certifier.key)
      ∷ ("vpn_ca.crt", pem_cert vpn.cert)
      ∷ ("vpn_ca.key", pem_key vpn.key)
      ∷ ("fluentd.pem", pem_cert fluentd.cert)
      ∷ ("fluentd.key", pem_key fluentd.key)
      ∷ ("bootstrapper.key", pem_key root.key)
      ∷ []

  -- The hash that goes with the contents.
  unfoldable pub cert_secret_hash : String → String → Dict String → String
  cert_secret_hash domain_name controller_hostname contents =
      L.sha256_hex (domain_name <> "|" <> controller_hostname <> entry root_ca_secret_key contents)

  -- The certificates that the CAs sign, and what comes of it all.
  unfoldable pub sign_certificates :
      String → String → Signed → Signed → Signed → Prog (Result (Dict String × String))
  sign_certificates domain_name controller_hostname root certifier vpn =
      attempt
        (signed_cert ("controller." <> domain_name)
          (controller_sans domain_name controller_hostname) root.cert root.key)
        (λ controller.
          attempt (signed_cert "admin_operator" [] certifier.cert certifier.key) (λ admin.
            attempt
              (signed_cert ("fluentd." <> domain_name)
                ("fluentd" ∷ ("fluentd." <> domain_name) ∷ []) certifier.cert certifier.key)
              (λ fluentd.
                let contents = cert_secret_data root certifier vpn controller admin fluentd in
                ret (ok (contents, cert_secret_hash domain_name controller_hostname contents)))))

  -- `generateOrc8rCertSecretData`
  unfoldable pub generate_orc8r_cert_secret_data :
      String → String → Prog (Result (Dict String × String))
  generate_orc8r_cert_secret_data domain_name controller_hostname =
      attempt (send generate_rsa_key) (λ root_key. attempt (send generate_rsa_key) (λ certifier_key.
        attempt (send generate_rsa_key) (λ vpn_key.
          attempt (self_signed ("rootca." <> domain_name) root_key) (λ root.
            attempt (self_signed ("certifier." <> domain_name) certifier_key) (λ certifier.
              attempt (self_signed ("vpnca." <> domain_name) vpn_key)
                (sign_certificates domain_name controller_hostname root certifier))))))
