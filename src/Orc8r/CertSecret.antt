-- ===== src/Orc8r/CertSecret.antt =====
-- The secret with the orchestrator's certificates: `reconcileOrc8rCertSecret` of
-- internal/controller/orc8r_certs.go.
pub mod Kept
use magma_operator.Agw.Names.{
  default_nms_admin_cert_secret_name, label_app_managed_by, managed_by_magma_operator,
  root_ca_secret_key,
}
use magma_operator.Api.Orc8r.{MagmaOrc8r}
use magma_operator.Base.{
  Bool, Dict, String, [], entry, if◌then◌else◌, insert, is_empty, not, ◌&&◌, ◌==◌,
}
use magma_operator.Kube.Library.{Library}
use magma_operator.Kube.Objects.{Secret, new_meta}
use magma_operator.Kube.Prog.{
  Kind, Prog, Result, attempt, check, err, get, is_not_found, ok, ret, send, ◌>>=◌,
}
use magma_operator.Orc8r.Certificates.{generate_orc8r_cert_secret_data}
use magma_operator.Orc8r.Names.{
  cert_controller_hostname, cert_domain_key, cert_domain_name, orc8r_cert_domain_annotation,
  orc8r_cert_hash_annotation,
}

-- The secret of the certificates, before it is made.
abbrev pub fresh_cert_secret : MagmaOrc8r → Secret
fresh_cert_secret orc8r = record {
  meta = new_meta orc8r.meta.namespace default_nms_admin_cert_secret_name;
  type = "";
  contents = [];
}

-- Whether the secret's certificates are those of the names in the spec.
unfoldable pub is_current : MagmaOrc8r → Secret → Bool
is_current orc8r s =
    entry orc8r_cert_domain_annotation s.meta.annotations == cert_domain_key orc8r
    && not (is_empty (entry root_ca_secret_key s.contents))

-- What `Reconcile` reads: a secret, or a fresh one where none is found.
abbrev pub found_cert_secret : MagmaOrc8r → Result Secret → Result Secret
found_cert_secret orc8r (ok s) = ok s
found_cert_secret orc8r (err e) = if is_not_found e then ok (fresh_cert_secret orc8r) else err e

-- The secret with the names, the hash and the contents, before it has an owner.
abbrev pub fill_cert_secret : MagmaOrc8r → Dict String → String → Secret → Secret
fill_cert_secret orc8r contents hash s = record {
  meta = record (s.meta) {
    labels = insert label_app_managed_by managed_by_magma_operator s.meta.labels;
    annotations =
        insert orc8r_cert_hash_annotation hash
          (insert orc8r_cert_domain_annotation (cert_domain_key orc8r) s.meta.annotations);
  };
  type = "Opaque";
  contents = contents;
}

module _ (L : Library) where
  -- The mutation that `CreateOrUpdate` is given.
  unfoldable pub mutate_cert_secret :
      MagmaOrc8r → Dict String → String → Secret → Prog (Result Secret)
  mutate_cert_secret orc8r contents hash s =
      let filled = fill_cert_secret orc8r contents hash s in
      check (L.set_controller_reference orc8r.meta filled.meta) (λ e. ret (err e))
        (λ m. ret (ok (record filled { meta = m })))

  -- New certificates
  unfoldable pub renew_cert_secret : MagmaOrc8r → Secret → Prog (Result String)
  renew_cert_secret orc8r s =
      attempt
        (generate_orc8r_cert_secret_data L (cert_domain_name orc8r)
          (cert_controller_hostname orc8r))
        (λ generated.
          attempt
            (L.create_or_update Kind.secret s
              (mutate_cert_secret orc8r (generated.0) (generated.1)))
            (λ _. ret (ok (generated.1))))

  -- `reconcileOrc8rCertSecret`
  unfoldable pub reconcile_orc8r_cert_secret : MagmaOrc8r → Prog (Result String)
  reconcile_orc8r_cert_secret orc8r = do
    found ← send (get Kind.secret orc8r.meta.namespace default_nms_admin_cert_secret_name)
    check (found_cert_secret orc8r found) (λ e. ret (err e))
        (λ s.
          if is_current orc8r s
          then ret (ok (entry orc8r_cert_hash_annotation s.meta.annotations))
          else renew_cert_secret orc8r s)
