-- ===== src/Native/Render.antt =====
-- `renderNativeManifest` of internal/controller/native_runner.go.
use magma_operator.Base.{String, ◌<>◌, List, [], ◌∷◌, Dict, entry, replace_pairs}
use magma_operator.Kube.Objects.{Manifest}
use magma_operator.Base.{Bool, Option}
use magma_operator.Native.Values.{value_or_default}

-- `nativeRelease`
pub record NativeRelease : Type 0 where
  pub release_name : String
  pub namespace : String
  pub manifest : String
  pub values : Dict String
  pub apply_filter : Option (Manifest → Bool)

unfoldable pub domain_name : Dict String → String
unfolding value_or_default
domain_name values =
    value_or_default values "global.domainName"
      (value_or_default values "config.domainName" "magma.local")

-- The map `replacements`, in the order of the source. Go walks it in any order.
unfoldable pub replacements : NativeRelease → List (String × String)
unfolding domain_name value_or_default
replacements release =
    let values = release.values in
    let domain = domain_name values in
    ("agwrel", release.release_name)
    ∷ ("agwns", release.namespace)
    ∷ ("orc8rrel", release.release_name)
    ∷ ("orc8rns", release.namespace)
    ∷ ("domain-placeholder.local", domain)
    ∷ (
      "controller-placeholder.local",
      value_or_default values "orc8r.nms.controllerHostname" ("controller." <> domain),
    )
    ∷ ("controller.magma.local", "controller." <> domain)
    ∷ ("bootstrapper-controller.magma.local", "bootstrapper-controller." <> domain)
    ∷ ("accessd-controller.magma.local", "accessd-controller." <> domain)
    ∷ ("certifier-controller.magma.local", "certifier-controller." <> domain)
    ∷ ("configurator-controller.magma.local", "configurator-controller." <> domain)
    ∷ ("device-controller.magma.local", "device-controller." <> domain)
    ∷ ("directoryd-controller.magma.local", "directoryd-controller." <> domain)
    ∷ ("dispatcher-controller.magma.local", "dispatcher-controller." <> domain)
    ∷ ("eventd-controller.magma.local", "eventd-controller." <> domain)
    ∷ ("metricsd-controller.magma.local", "metricsd-controller." <> domain)
    ∷ ("policydb-controller.magma.local", "policydb-controller." <> domain)
    ∷ ("state-controller.magma.local", "state-controller." <> domain)
    ∷ ("streamer-controller.magma.local", "streamer-controller." <> domain)
    ∷ ("subscriberdb-controller.magma.local", "subscriberdb-controller." <> domain)
    ∷ ("10.0.0.1", value_or_default values "orc8r.hostAliases.ip" "10.152.183.140")
    ∷ ("gwchallengeplaceholder", entry "config.gwChallenge" values)
    ∷ ("hardwareplaceholder", entry "gatewayIdentity.snowflake" values)
    ∷ ("s1placeholder", entry "nodePrep.interfaces.s1.parent" values)
    ∷ ("sgiplaceholder", entry "nodePrep.interfaces.nat.parent" values)
    ∷ ("orgplaceholder", value_or_default values "nmsAdmin.organization" "magma-test")
    ∷ ("emailplaceholder", value_or_default values "nmsAdmin.email" "admin")
    ∷ ("passwordplaceholder", value_or_default values "nmsAdmin.password" "admin")
    ∷ ("networkidplaceholder", value_or_default values "provisioning.network.id" "mpk_test")
    ∷ ("networknameplaceholder", value_or_default values "provisioning.network.name" "mpk_test")
    ∷ (
      "imsiplaceholder",
      value_or_default values "provisioning.subscriber.imsi" "IMSI001010000000001",
    )
    ∷ []

-- `renderNativeManifest`
unfoldable pub render_native_manifest : String → NativeRelease → String
unfolding replacements replace_pairs
render_native_manifest manifest release = replace_pairs (replacements release) manifest
