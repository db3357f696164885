-- ===== src/Orc8r/Certificates/Chain.antt =====
-- Who signs what: `generateOrc8rCertSecretData` of internal/controller/orc8r_certs.go.
use magma_operator.Base.{
  Bool, Dict, List, Option, String, [], false, lookup, none, some, true, ◌&&◌, ◌<>◌, ◌∷◌, ◌≡◌,
}
use magma_operator.Kube.Certificate.{Certificate}
use magma_operator.Kube.Library.{Library}
use magma_operator.Kube.Prog.{Result, err, ok}
use magma_operator.Kube.Sat.{History, Sat}
use magma_operator.Native.Render.{domain_name}
use magma_operator.Orc8r.Certificates.{
  Signed, controller_sans, create_certificate, key_usages, parent_of,
}

-- What is relied on of `x509`: what is parsed from the bytes of a certificate that was made has the
-- names and the key usages of its template, and these bytes; and it is a CA's where the template
-- says so and its basic constraints are valid, without which they are not encoded.
pub record IsX509Lawful (L : Library) : Type 0 where
  pub parse-create :
      (template parent : Certificate) (public_key signer raw : String) (cert : Certificate)
      → L.create_certificate template parent public_key signer ≡ ok raw
      → L.parse_certificate raw ≡ ok cert
      → (cert.raw ≡ raw)
        × (cert.common_name ≡ template.common_name)
        × (cert.dns_names ≡ template.dns_names)
        × (cert.is_ca ≡ (template.is_ca && template.basic_constraints_valid))
        × (cert.key_usage ≡ template.key_usage)

-- A pair of key and certificate for a name, signed with a key: for a CA's certificate, or for
-- itself where there is no CA.
pub record IsSigned (L : Library) (common_name : String) (sans : List String) (is_ca : Bool)
    (ca : Option Certificate) (signer : String) (s : Signed) : Type 0 where
  pub template : Certificate
  pub made :
      L.create_certificate template (parent_of ca template) (L.rsa_public_key s.key) signer
      ≡ ok s.cert.raw
  pub names : s.cert.common_name ≡ common_name
  pub hosts : s.cert.dns_names ≡ sans
  pub ca_only : s.cert.is_ca ≡ is_ca
  pub may_sign : s.cert.key_usage ≡ key_usages is_ca

-- The contents of a secret have a pair's certificate and key, as PEM blocks, under two keys.
abbrev pub HasPair : Library → String → String → Signed → Dict String → Type 0
HasPair L cert_key key_key s contents =
    (lookup cert_key contents ≡ some (L.encode_pem "CERTIFICATE" s.cert.raw))
    × (lookup key_key contents
        ≡ some (L.encode_pem "RSA PRIVATE KEY" (L.marshal_pkcs1_private_key s.key)))

-- What the secret holds: three CAs, each signed with its own key; the controller's certificate,
-- signed by the root; and the operator's and fluentd's, signed by the certifier.
pub record IsChain (L : Library) (domain_name controller_hostname : String)
    (made : Dict String × String) : Type 0 where
  pub root : Signed
  pub certifier : Signed
  pub vpn : Signed
  pub controller : Signed
  pub admin : Signed
  pub fluentd : Signed
  pub root_signed : IsSigned L ("rootca." <> domain_name) [] true none root.key root
  pub certifier_signed :
      IsSigned L ("certifier." <> domain_name) [] true none certifier.key certifier
  pub vpn_signed : IsSigned L ("vpnca." <> domain_name) [] true none vpn.key vpn
  pub controller_signed :
      IsSigned L
        ("controller." <> domain_name)
        (controller_sans domain_name controller_hostname)
        false
        (some root.cert)
        root.key
        controller
  pub admin_signed : IsSigned L "admin_operator" [] false (some certifier.cert) certifier.key admin
  pub fluentd_signed :
      IsSigned L
        ("fluentd." <> domain_name)
        ("fluentd" ∷ ("fluentd." <> domain_name) ∷ [])
        false
        (some certifier.cert)
        certifier.key
        fluentd
  pub contents :
      HasPair L "rootCA.pem" "bootstrapper.key" root made.0
      × HasPair L "controller.crt" "controller.key" controller made.0
      × HasPair L "admin_operator.pem" "admin_operator.key.pem" admin made.0
      × HasPair L "certifier.pem" "certifier.key" certifier made.0
      × HasPair L "vpn_ca.crt" "vpn_ca.key" vpn made.0
      × HasPair L "fluentd.pem" "fluentd.key" fluentd made.0
  pub hash :
      made.1
      ≡ L.sha256_hex
          (domain_name <> "|" <> controller_hostname <> L.encode_pem "CERTIFICATE" root.cert.raw)

-- What a result without an error satisfies.
abbrev pub IfOk : {A : Type 0} → (A → Type 0) → History → Result A → Type 0
IfOk P h (ok a) = P a
IfOk P h (err e) = Unit
