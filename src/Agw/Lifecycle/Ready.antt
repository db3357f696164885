-- ===== src/Agw/Lifecycle/Ready.antt =====
-- When `deploymentsReady` of internal/controller/agw_lifecycle.go says that deployments are ready.
use magma_operator.Agw.Lifecycle.{check_deployments, deployment_blocker, desired_replicas}
use magma_operator.Agw.Names.{root_ca_hash_annotation}
use magma_operator.Base.{
  Bool, List, Option, String, [], all, any, arith, entry, false, is_empty, leb, ltb, none, not,
  refl, some, suc, true, zero, ℕ, ◌&&◌, ◌==◌, ◌||◌, ◌∷◌, ◌≡◌,
}
use magma_operator.Kube.Objects.{Deployment}

-- One deployment that counts: it has the required hash, if one is required, its controller saw its
-- last generation, and as many replicas as it asks for are ready and available.
abbrev pub is_rolled_out : String → Deployment → Bool
is_rolled_out required_hash d =
    (is_empty required_hash
      || entry root_ca_hash_annotation d.template_annotations == required_hash)
    && leb d.meta.generation d.observed_generation
    && leb (desired_replicas d) d.ready_replicas
    && leb (desired_replicas d) d.available_replicas

abbrev is_nothing : Option String → Bool
is_nothing none = true
is_nothing (some _) = false

deployment_blocker-none :
    (namespace label required_hash : String) (d : Deployment)
    → is_nothing (deployment_blocker namespace label required_hash d)
      ≡ is_rolled_out required_hash d
unfolding deployment_blocker
deployment_blocker-none namespace label required_hash d = ground arith

module _ (namespace release_name label required_hash : String) (include : Deployment → Bool) where
  -- An included deployment does not hold the answer back.
  abbrev pub lets_pass : Deployment → Bool
  lets_pass d = not (include d) || is_rolled_out required_hash d

  check_deployments-exact :
      (ds : List Deployment) (matched : ℕ)
      → (check_deployments namespace release_name label required_hash include ds matched).0
        ≡ ((ltb 0 matched || any include ds) && all lets_pass ds)
  unfolding check_deployments
  check_deployments-exact [] zero = refl
  check_deployments-exact [] (suc n) = ground arith
  check_deployments-exact (d ∷ ds) matched =
      let step = deployment_blocker-none namespace label required_hash d in
      let counted = check_deployments-exact ds (suc matched) in
      let skipped = check_deployments-exact ds matched in ground (arith, step, counted, skipped)

  -- `deploymentsReady` says ready, of the deployments that were listed, exactly where some
  -- deployment is included and every included one is rolled out.
  pub check_deployments-ready :
      (ds : List Deployment)
      → (check_deployments namespace release_name label required_hash include ds 0).0
        ≡ (any include ds && all lets_pass ds)
  check_deployments-ready ds = check_deployments-exact ds 0
