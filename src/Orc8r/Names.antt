-- ===== src/Orc8r/Names.antt =====
-- The constants of internal/controller/magmaorc8r_controller.go and orc8r_certs.go, and the names
-- that a `MagmaOrc8r` stands for.
use magma_operator.Api.Orc8r.{MagmaOrc8r}
use magma_operator.Base.{String, or_default, ◌<>◌}

abbrev pub magma_orc8r_finalizer : String
magma_orc8r_finalizer = "magma.infra.don/magmaorc8r-finalizer"

abbrev pub orc8r_secret_hash_annotation : String
orc8r_secret_hash_annotation = "magma.infra.don/orc8r-secret-hash"

abbrev pub orc8r_cert_domain_annotation : String
orc8r_cert_domain_annotation = "magma.infra.don/orc8r-cert-domain"

abbrev pub orc8r_cert_hash_annotation : String
orc8r_cert_hash_annotation = "magma.infra.don/orc8r-cert-hash"

-- `releaseName` of `Reconcile`
unfoldable pub orc8r_release_name_of : MagmaOrc8r → String
orc8r_release_name_of orc8r = or_default orc8r.spec.release_name orc8r.meta.name

-- `domainName`, `controllerHostname` and `domainKey` of `reconcileOrc8rCertSecret`
unfoldable pub cert_domain_name : MagmaOrc8r → String
cert_domain_name orc8r = or_default orc8r.spec.domain_name "magma.local"

unfoldable pub cert_controller_hostname : MagmaOrc8r → String
cert_controller_hostname orc8r =
    or_default orc8r.spec.controller_hostname ("controller." <> cert_domain_name orc8r)

unfoldable pub cert_domain_key : MagmaOrc8r → String
cert_domain_key orc8r = cert_domain_name orc8r <> "|" <> cert_controller_hostname orc8r
