-- ===== src/Agw/RootCa/Bundle.antt =====
-- When the trust bundle of an AGW is in place: `reconcileAGWTrustBundle` of
-- internal/controller/agw_lifecycle.go.
use magma_operator.Agw.Deletion.Facts.{Was}
use magma_operator.Agw.Names.{
  Stage, agw_cert_secret_name, nms_cert_secret_name, orc8r_namespace, root_ca_secret_key,
}
use magma_operator.Agw.RootCa.{sync_agw_secret}
use magma_operator.Agw.RootCa.Once.{Copied}
use magma_operator.Api.Agw.{MagmaAgw}
use magma_operator.Base.{[], Dict, String, entry, false, is_empty, true, ◌<>◌, ◌≡◌, ◌⊎◌}
use magma_operator.Kube.Library.{Library}
use magma_operator.Kube.Stores.{HasMutated}
use magma_operator.Kube.Objects.{Secret, new_meta}
use magma_operator.Kube.Prog.{Answer, Call, Kind, err, get, is_not_found, ok}
use magma_operator.Kube.Sat.{History, Sat}

-- A secret of a namespace and name was read.
abbrev pub SawSecret : String → String → Secret → (c : Call) → Answer c → Type 0
SawSecret namespace name s (get Kind.secret namespace' name') (ok found) =
    (namespace' ≡ namespace) × (name' ≡ name) × (found ≡ s)
SawSecret namespace name s _ _ = ⊥

-- There was no volume claim of a namespace and name.
abbrev pub SawNoClaim : String → String → (c : Call) → Answer c → Type 0
SawNoClaim namespace name (get Kind.claim namespace' name') (err e) =
    (namespace' ≡ namespace) × (name' ≡ name) × (is_not_found e ≡ true)
SawNoClaim namespace name _ _ = ⊥

-- The secret of the AGW as `CreateOrUpdate` is given it.
abbrev pub named_agw_secret : MagmaAgw → String → Dict String → Secret
named_agw_secret agw release_name values = record {
  meta = new_meta agw.meta.namespace (agw_cert_secret_name release_name values);
  type = "";
  contents = [];
}

-- The certificate secret of Orc8r was read, and has a root certificate of this hash.
abbrev pub SawRootCa : Library → MagmaAgw → String → Secret → History → Type 0
SawRootCa L agw hash s h =
    Was (SawSecret (orc8r_namespace agw) (nms_cert_secret_name agw) s) h
    × (is_empty (entry root_ca_secret_key s.contents) ≡ false)
    × (hash ≡ L.sha256_hex (entry root_ca_secret_key s.contents))

-- That, and the server has the secret of the AGW with this root certificate and hash.
abbrev pub IsSynced : Library → MagmaAgw → String → Dict String → String → History → Type 0
IsSynced L agw release_name values hash h =
    (s : Secret) × SawRootCa L agw hash s h
    × HasMutated (named_agw_secret agw release_name values)
        (sync_agw_secret hash (entry root_ca_secret_key s.contents)) h

-- The secret is in place; and there is no volume claim of this name, or the job that copies the
-- certificate to it has succeeded.
abbrev pub InPlace : Library → MagmaAgw → String → Dict String → String → History → Type 0
InPlace L agw release_name values hash h =
    IsSynced L agw release_name values hash h
    × (Was (SawNoClaim agw.meta.namespace (release_name <> "-claim")) h
        ⊎ Copied agw.meta.namespace (release_name <> "-rootca-sync") hash h)

module _ (L : Library) (agw : MagmaAgw) (release_name : String) (values : Dict String) where
  abbrev pub BundleReady : History → String × Stage → Type 0
  BundleReady h r = r.1.ready ≡ true → InPlace L agw release_name values r.0 h
