-- ===== src/Agw/RootCa/Synced.antt =====
-- The certificate secret of an AGW: the mutation of `reconcileAGWTrustBundle` of
-- internal/controller/agw_lifecycle.go.
use magma_operator.Agw.Names.{root_ca_hash_annotation, root_ca_secret_key}
use magma_operator.Agw.RootCa.{sync_agw_secret}
use magma_operator.Base.{
  String, entry, entry-insert, if◌then◌else◌, lookup, lookup-insert, lookup-remove, none, refl,
  some, ◌==◌, ◌≡◌,
}
use magma_operator.Kube.Objects.{Secret}

-- What the mutation leaves under any key of the secret: nothing under the keys of the private keys
-- and certificates of the gateway and the controller, the root certificate under `rootCA.pem`, and
-- else what was there; and the secret's annotation has the hash.
pub lookup-sync_agw_secret :
    (k hash root_ca : String) (s : Secret)
    → (lookup k (sync_agw_secret hash root_ca s).contents ≡ (
        if "controller.key" == k
        then none
        else if "controller.crt" == k
        then none
        else if "gateway.key" == k
        then none
        else if "gateway.crt" == k
        then none
        else if root_ca_secret_key == k
        then some root_ca
        else lookup k s.contents))
      × (entry root_ca_hash_annotation (sync_agw_secret hash root_ca s).meta.annotations ≡ hash)
unfolding sync_agw_secret
lookup-sync_agw_secret k hash root_ca s = (
  rw lookup-remove (rw lookup-remove (rw lookup-remove (rw lookup-remove (rw lookup-insert refl)))),
  rw entry-insert refl,
)
