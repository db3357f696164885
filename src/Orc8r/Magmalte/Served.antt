-- ===== src/Orc8r/Magmalte/Served.antt =====
-- What the patch of magmalte leaves: `patchMagmalteForHTTPNodePort` of
-- internal/controller/magmaorc8r_controller.go.
use magma_operator.Agw.Deletion.Facts.{Was}
use magma_operator.Agw.Names.{magmalte_deployment_name}
use magma_operator.Base.{Bool, List, String, [], false, inl, inr, none, refl, true, ◌∷◌, ◌≡◌}
use magma_operator.Kube.Frame.{IsStable}
use magma_operator.Kube.Objects.{Container, Deployment}
use magma_operator.Kube.Prog.{Answer, Call, Kind, get, ok, update, update_status}
use magma_operator.Kube.Sat.{History, Sat, Sat-call, Sat-check, Sat-ret, Sat-send}
use magma_operator.Orc8r.Magmalte.{
  patch_first_container, patch_magmalte_for_http_node_port, serve_plain_http,
}

-- The deployment of magmalte was read.
abbrev pub SawMagmalte : String → Deployment → (c : Call) → Answer c → Type 0
SawMagmalte namespace d (get Kind.deployment namespace' name) (ok found) =
    (namespace' ≡ namespace) × (name ≡ magmalte_deployment_name) × (found ≡ d)
SawMagmalte namespace d _ _ = ⊥

-- A deployment was updated.
abbrev pub Updated : Deployment → (c : Call) → Answer c → Type 0
Updated d (update Kind.deployment d') failed = (d' ≡ d) × (failed ≡ none)
Updated d _ _ = ⊥

-- The deployment of magmalte has no containers, or its first container serves plain HTTP.
pub data Served (namespace : String) (h : History) : Type 0 where
  no_containers :
      (d : Deployment) → d.containers ≡ [] → Was (SawMagmalte namespace d) h → Served namespace h
  served :
      (d : Deployment) (c : Container) (cs : List Container)
      → d.containers ≡ c ∷ cs
      → Was (SawMagmalte namespace d) h
      → Was (Updated (record d { containers = serve_plain_http c ∷ cs })) h
      → Served namespace h

pub Served-IsStable : (namespace : String) → IsStable (Served namespace)
Served-IsStable namespace h c r (no_containers d e s) = no_containers d e (inr s)
Served-IsStable namespace h c r (served d x xs e s u) = served d x xs e (inr s) (inr u)

-- A status update of a `MagmaOrc8r`.
abbrev pub is_orc8r_status : Call → Bool
is_orc8r_status (update_status Kind.orc8r o) = true
is_orc8r_status _ = false

abbrev pub NoStatus : History → Call → Type 0
NoStatus h c = is_orc8r_status c ≡ false

patch_first_container-Served :
    (namespace : String) (d : Deployment) (cs : List Container) (h : History)
    → d.containers ≡ cs
    → Was (SawMagmalte namespace d) h
    → Sat NoStatus (λ h' failed. failed ≡ none → Served namespace h') h (patch_first_container d cs)
unfolding patch_first_container
patch_first_container-Served namespace d [] h e seen = Sat-ret h none (λ _. no_containers d e seen)
patch_first_container-Served namespace d (c ∷ cs) h e seen =
    Sat-call h (update Kind.deployment (record d { containers = serve_plain_http c ∷ cs })) refl
      (λ r fine. served d c cs e (inr seen) (inl (refl, fine)))

pub patch_magmalte-Served :
    (namespace : String) (h : History)
    → Sat NoStatus
        (λ h' failed. failed ≡ none → Served namespace h')
        h
        (patch_magmalte_for_http_node_port namespace)
unfolding patch_magmalte_for_http_node_port
patch_magmalte-Served namespace h =
    Sat-send h (get Kind.deployment namespace magmalte_deployment_name) _ refl (λ r.
      Sat-check r _ _ _ (λ e _. Sat-ret _ _ (λ bad. cc))
        (λ d is_d.
          patch_first_container-Served namespace d d.containers _ refl
            (inl (rw is_d (refl, refl, refl)))))
