-- ===== src/Orc8r/Magmalte/Env.antt =====
-- What `setEnv` of internal/controller/magmaorc8r_controller.go leaves in an environment.
use magma_operator.Base.{
  List, Option, String, [], arith, eq_iff, if◌then◌else◌, none, refl, some, ◌==◌, ◌∷◌, ◌≡◌,
}
use magma_operator.Kube.Objects.{EnvVar}
use magma_operator.Orc8r.Magmalte.{set_env}

-- The value of the first variable of a name.
unfoldable pub env_value : List EnvVar → String → Option String
env_value [] name = none
env_value (v ∷ vs) name =
    let rest = env_value vs name in if v.name == name then some v.value else rest

-- After `setEnv`, a container's first variable of the name has the value, and under every other
-- name the environment has the value that it had.
pub env_value-set_env :
    (vs : List EnvVar) (name value asked : String)
    → env_value (set_env vs name value) asked
      ≡ (if name == asked then some value else env_value vs asked)
unfolding env_value set_env
env_value-set_env [] name value asked = refl
env_value-set_env (v ∷ vs) name value asked =
    let ih = env_value-set_env vs name value asked in
    ground (arith, ih, eq_iff v.name name, eq_iff v.name asked, eq_iff name asked)
