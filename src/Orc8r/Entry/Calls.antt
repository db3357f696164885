-- ===== src/Orc8r/Entry/Calls.antt =====
-- The calls that a reconcile of a `MagmaOrc8r` makes: internal/controller/magmaorc8r_controller.go
-- and what it calls.
use magma_operator.Api.Orc8r.{MagmaOrc8r}
use magma_operator.Base.{
  Bool, List, Option, String, [], arith, entry, false, none, refl, some, true, ◌==◌, ◌∷◌, ◌≡◌,
}
use magma_operator.Base.Int.{ℤ}
use magma_operator.Kube.Certificate.{Certificate}
use magma_operator.Kube.Lawful.{IsLawful, reads_or_writes}
use magma_operator.Kube.Library.{Library}
use magma_operator.Kube.Objects.{ConditionStatus, Container, Deployment, Meta}
use magma_operator.Kube.Only.{Only, Only-else, Only-if, Only-ret, Only-weaken, only_rules}
use magma_operator.Kube.Prog.{
  Call, Error, Kind, Obj, Prog, Result, apply, check_error, create, delete, generate_rsa_key, get,
  get_manifest, list, now, patch, random_below, ret, send, update, update_status, ◌>>=◌,
}
use magma_operator.Native.Release.{reconcile_native_release}
use magma_operator.Native.Release.Calls.{is_native_call, native_release-Native}
use magma_operator.Native.Render.{NativeRelease, domain_name}
use magma_operator.Orc8r.CertSecret.{
  mutate_cert_secret, reconcile_orc8r_cert_secret, renew_cert_secret,
}
use magma_operator.Orc8r.Certificates.{
  Signed, create_certificate, generate_orc8r_cert_secret_data, self_signed, sign_certificates,
  signed_cert,
}
use magma_operator.Orc8r.Entry.{
  adopt_orc8r, apply_orc8r, finish_orc8r, follow_secret, reconcile_orc8r, report_orc8r_ready,
  report_recreated, roll_out,
}
use magma_operator.Orc8r.Magmalte.{patch_first_container, patch_magmalte_for_http_node_port}
use magma_operator.Orc8r.Names.{orc8r_secret_hash_annotation}
use magma_operator.Orc8r.Rollout.{
  annotate_each_with_secret_hash, annotate_orc8r_deployments, recreate_orc8r_bootstrap_job,
  refresh_bootstrap_job,
}
use magma_operator.Orc8r.Status.{update_orc8r_status}

-- Reads, creations and updates; patches of deployments and jobs; deletions of jobs; keys, random
-- numbers and the clock.
abbrev pub is_phase_call : Call → Bool
is_phase_call (get k namespace name) = true
is_phase_call (get_manifest o) = true
is_phase_call (list Kind.deployment namespace labels) = true
is_phase_call (create k o) = true
is_phase_call (update k o) = true
is_phase_call (patch Kind.deployment old new) = true
is_phase_call (patch Kind.job old new) = true
is_phase_call (delete Kind.job o background) = true
is_phase_call (delete Kind.manifest o background) = true
is_phase_call (apply o) = true
is_phase_call generate_rsa_key = true
is_phase_call (random_below n) = true
is_phase_call now = true
is_phase_call _ = false

-- These, and the status of the resource and patches of it.
abbrev pub is_orc8r_call : Call → Bool
is_orc8r_call (update_status Kind.orc8r o) = true
is_orc8r_call (patch Kind.orc8r old new) = true
is_orc8r_call c = is_phase_call c

phase_allowed : (c : Call) → is_phase_call c ≡ true → is_orc8r_call c ≡ true
phase_allowed (update_status Kind.orc8r o) _ = refl
phase_allowed (patch Kind.orc8r old new) _ = refl
phase_allowed c phase = ground arith

native_allowed : (c : Call) → is_native_call c ≡ true → is_phase_call c ≡ true
native_allowed (get_manifest o) _ = refl
native_allowed (update Kind.manifest o) _ = refl
native_allowed (delete Kind.manifest o background) _ = refl
native_allowed (apply o) _ = refl
native_allowed _ bad = cc

-- A patch that returns its error, or goes on.
attempt_patch-Phase :
    (old new : Deployment) (rest : Prog (Option Error))
    → Only is_phase_call rest
    → Only is_phase_call (
        send (patch Kind.deployment old new) >>= λ failed.
        check_error failed (λ e. ret (some e)) rest)
attempt_patch-Phase old new rest r = search only_rules

annotate_each-Phase :
    (hash : String) (ds : List Deployment)
    → Only is_phase_call (annotate_each_with_secret_hash hash ds)
unfolding annotate_each_with_secret_hash
annotate_each-Phase hash [] = Only-ret none
annotate_each-Phase hash (d ∷ ds) =
    Only-if (entry orc8r_secret_hash_annotation d.template_annotations == hash) _ _
      (annotate_each-Phase hash ds) (attempt_patch-Phase d _ _ (annotate_each-Phase hash ds))

pub bootstrap_job-Phase :
    (namespace name hash : String)
    → Only is_phase_call (recreate_orc8r_bootstrap_job namespace name hash)
unfolding recreate_orc8r_bootstrap_job refresh_bootstrap_job
bootstrap_job-Phase namespace name hash = search only_rules depth 14

patch_first_container-Phase :
    (d : Deployment) (cs : List Container) → Only is_phase_call (patch_first_container d cs)
unfolding patch_first_container
patch_first_container-Phase d [] = search only_rules
patch_first_container-Phase d (c ∷ cs) = search only_rules

pub magmalte-Phase :
    (namespace : String) → Only is_phase_call (patch_magmalte_for_http_node_port namespace)
unfolding patch_magmalte_for_http_node_port
magmalte-Phase namespace = search (only_rules, patch_first_container-Phase) depth 9

module _ (L : Library) where
  pub native_release-Phase :
      (owner : Meta) (release : NativeRelease)
      → Only is_phase_call (reconcile_native_release L owner release)
  native_release-Phase owner release =
      Only-weaken _ native_allowed (native_release-Native L owner release)

  pub annotate-Phase :
      (namespace release_name secret_name : String)
      → Only is_phase_call (annotate_orc8r_deployments L namespace release_name secret_name)
  unfolding annotate_orc8r_deployments
  annotate-Phase namespace release_name secret_name =
      search (only_rules, annotate_each-Phase) depth 12

  create_certificate-Phase :
      (common_name : String) (sans : List String) (ca : Option Certificate)
      (public_key signer : String) (is_ca : Bool)
      → Only is_phase_call (create_certificate L common_name sans ca public_key signer is_ca)
  unfolding create_certificate
  create_certificate-Phase common_name sans ca public_key signer is_ca = search only_rules depth 9

  signed_cert-Phase :
      (common_name : String) (sans : List String) (ca : Certificate) (ca_key : String)
      → Only is_phase_call (signed_cert L common_name sans ca ca_key)
  unfolding signed_cert
  signed_cert-Phase common_name sans ca ca_key =
      search (only_rules, create_certificate-Phase) depth 9

  self_signed-Phase :
      (common_name key : String) → Only is_phase_call (self_signed L common_name key)
  unfolding self_signed
  self_signed-Phase common_name key = search (only_rules, create_certificate-Phase) depth 9

  sign_certificates-Phase :
      (domain_name controller_hostname : String) (root certifier vpn : Signed)
      → Only is_phase_call (sign_certificates L domain_name controller_hostname root certifier vpn)
  unfolding sign_certificates
  sign_certificates-Phase domain_name controller_hostname root certifier vpn =
      search (only_rules, signed_cert-Phase) depth 14

  generate-Phase :
      (domain_name controller_hostname : String)
      → Only is_phase_call (generate_orc8r_cert_secret_data L domain_name controller_hostname)
  unfolding generate_orc8r_cert_secret_data
  generate-Phase domain_name controller_hostname =
      search (only_rules, self_signed-Phase, sign_certificates-Phase) depth 24

module _ {L : Library} (lawful : IsLawful L) where
  create_or_update-Phase :
      (k : Kind) (o : Obj k) (mutate : Obj k → Prog (Result (Obj k)))
      → ((current : Obj k) → Only is_phase_call (mutate current))
      → Only is_phase_call (L.create_or_update k o mutate)
  create_or_update-Phase k o mutate m = record {
    at = λ h.
        lawful.create_or_update-calls (λ _ c. is_phase_call c ≡ true) k o mutate
          (λ h' c allowed. allowed_phase c allowed) (λ h' current. (m current).at h') h;
  }
    where
      allowed_phase : (c : Call) → reads_or_writes c ≡ true → is_phase_call c ≡ true
      allowed_phase (get k' namespace name) _ = refl
      allowed_phase (create k' o') _ = refl
      allowed_phase (update k' o') _ = refl
      allowed_phase _ bad = cc

  pub cert_secret-Phase :
      (orc8r : MagmaOrc8r) → Only is_phase_call (reconcile_orc8r_cert_secret L orc8r)
  unfolding reconcile_orc8r_cert_secret renew_cert_secret mutate_cert_secret
  cert_secret-Phase orc8r = search (only_rules, create_or_update-Phase, generate-Phase L) depth 14

  status-Calls :
      (orc8r : MagmaOrc8r) (release_name : String) (s : ConditionStatus) (reason message : String)
      → Only is_orc8r_call (update_orc8r_status L orc8r release_name s reason message)
  unfolding update_orc8r_status
  status-Calls orc8r release_name s reason message = search only_rules depth 9

  phase-Calls : {A : Type 0} (m : Prog A) → Only is_phase_call m → Only is_orc8r_call m
  phase-Calls m phase = Only-weaken m phase_allowed phase

  finish-Calls :
      (namespace : String) (orc8r : MagmaOrc8r) (port : Option ℤ)
      → Only is_orc8r_call (finish_orc8r L namespace orc8r port)
  unfolding finish_orc8r report_orc8r_ready
  finish-Calls namespace orc8r none = search (only_rules, status-Calls)
  finish-Calls namespace orc8r (some port) =
      search (only_rules, status-Calls, phase-Calls, magmalte-Phase) depth 9

  follow_secret-Calls :
      (namespace : String) (orc8r : MagmaOrc8r) (hash : String)
      → Only is_orc8r_call (follow_secret L namespace orc8r hash)
  unfolding follow_secret report_recreated
  follow_secret-Calls namespace orc8r hash =
      search (only_rules, status-Calls, phase-Calls, bootstrap_job-Phase, finish-Calls) depth 14

  -- Where `CreateOrUpdate` makes no calls but reads, creations and updates and those of its
  -- mutation: a reconcile of a `MagmaOrc8r` that is not being deleted makes no calls but reads,
  -- lists of deployments, creations, updates, applies, patches of resources of its kind, of
  -- deployments and of jobs, deletions of jobs and of manifest objects, status updates of its kind,
  -- RSA keys, random numbers and the clock.
  pub reconcile_orc8r-Calls :
      (namespace : String) (orc8r : MagmaOrc8r)
      → orc8r.meta.is_deleted ≡ false
      → Only is_orc8r_call (reconcile_orc8r L namespace orc8r)
  unfolding reconcile_orc8r adopt_orc8r apply_orc8r roll_out
  reconcile_orc8r-Calls namespace orc8r live = Only-else _ _ live (
      search
        (
          only_rules,
          status-Calls,
          phase-Calls,
          native_release-Phase L,
          cert_secret-Phase,
          annotate-Phase L,
          follow_secret-Calls,
        )
        depth 18)
