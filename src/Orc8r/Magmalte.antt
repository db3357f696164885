-- ===== src/Orc8r/Magmalte.antt =====
-- Plain HTTP for the NMS: `patchMagmalteForHTTPNodePort` and `setEnv` of
-- internal/controller/magmaorc8r_controller.go.
pub mod Env
pub mod Served
use magma_operator.Agw.Names.{magmalte_deployment_name}
use magma_operator.Base.{List, Option, String, [], if◌then◌else◌, none, some, ◌==◌, ◌∷◌}
use magma_operator.Kube.Objects.{Container, Deployment, EnvVar}
use magma_operator.Kube.Prog.{Error, Kind, Prog, check, get, ret, send, update, ◌>>=◌}

-- `setEnv` on the environment of a container: the first variable of the name is set, or one is
-- added.
unfoldable pub set_env : List EnvVar → String → String → List EnvVar
set_env [] name value = record { name = name; value = value } ∷ []
set_env (v ∷ vs) name value =
    let rest = set_env vs name value in
    if v.name == name then record v { value = value } ∷ vs else v ∷ rest

-- The first container of magmalte
unfoldable pub serve_plain_http : Container → Container
serve_plain_http c = record c {
  command = "node" ∷ [];
  args = "-r" ∷ "./babelRegister.js" ∷ "scripts/server" ∷ [];
  env = set_env c.env "NODE_ENV" "development";
}

-- What `patchMagmalteForHTTPNodePort` does with the deployment's containers.
unfoldable pub patch_first_container : Deployment → List Container → Prog (Option Error)
patch_first_container d [] = ret none
patch_first_container d (c ∷ cs) =
    send (update Kind.deployment (record d { containers = serve_plain_http c ∷ cs }))

-- `patchMagmalteForHTTPNodePort`
unfoldable pub patch_magmalte_for_http_node_port : String → Prog (Option Error)
patch_magmalte_for_http_node_port namespace = do
  found ← send (get Kind.deployment namespace magmalte_deployment_name)
  check found (λ e. ret (some e)) (λ d. patch_first_container d d.containers)
