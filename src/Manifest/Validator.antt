-- ===== src/Manifest/Validator.antt =====
-- core/manifest/validator.py: the references between the resources of a manifest, and its secrets.
use clawrium.Prelude.{
  ◌||◌, String, Bool, false, not, Option, none, some, List, [], ◌∷◌, ◌++◌, ◌==◌, if◌then◌else◌,
  contains,
}
use clawrium.Json.{truthy}
use clawrium.Config.{Exec, pure, ◌>>=◌}
use clawrium.Text.{split_text}
use clawrium.Manifest.{
  agents, integrations, channels, hosts, providers, Kind, host_kind, provider_kind, channel_kind,
  integration_kind, ManifestResource, AgentResource, AgentSpec, HostResource, ProviderResource,
  ChannelResource, IntegrationResource,
}
use clawrium.Providers.{get_provider_api_key}

-- `agent/{name}: references {kind} {target!r} which is not declared in the manifest`
pub record RefError : Type 0 where
  pub agent : String
  pub kind : Kind
  pub target : String

unfoldable pub ref_error : String → Kind → String → RefError
ref_error name kind target = record { agent = name; kind = kind; target = target }

unfoldable pub host_names : List HostResource → List String
host_names [] = []
host_names (h ∷ hs) = h.metadata.name ∷ host_names hs

unfoldable pub provider_names : List ProviderResource → List String
provider_names [] = []
provider_names (p ∷ ps) = p.metadata.name ∷ provider_names ps

unfoldable pub channel_names : List ChannelResource → List String
channel_names [] = []
channel_names (c ∷ more) = c.metadata.name ∷ channel_names more

unfoldable pub integration_names : List IntegrationResource → List String
integration_names [] = []
integration_names (i ∷ more) = i.metadata.name ∷ integration_names more

-- `if target and target not in names`
unfoldable pub optional_ref : String → Kind → List String → Option String → List RefError
optional_ref name kind names none = []
optional_ref name kind names (some target) =
    if target == "" || contains names target then [] else ref_error name kind target ∷ []

-- `for target in targets: if target not in names`
unfoldable pub list_refs : String → Kind → List String → List String → List RefError
list_refs name kind names [] = []
list_refs name kind names (target ∷ targets) =
    let rest = list_refs name kind names targets in
    if contains names target then rest else ref_error name kind target ∷ rest

unfoldable pub agent_refs :
    List String → List String → List String → List String → String → AgentSpec → List RefError
agent_refs hosts' providers' channels' integrations' name spec =
    optional_ref name host_kind hosts' spec.host
    ++ (optional_ref name provider_kind providers' spec.provider
        ++ (list_refs name channel_kind channels' spec.channels
            ++ list_refs name integration_kind integrations' spec.integrations))

unfoldable pub agents_refs :
    List String → List String → List String → List String → List AgentResource → List RefError
agents_refs hosts' providers' channels' integrations' [] = []
agents_refs hosts' providers' channels' integrations' (a ∷ more) =
    agent_refs hosts' providers' channels' integrations' a.metadata.name a.spec
    ++ agents_refs hosts' providers' channels' integrations' more

unfoldable pub validate_refs : List ManifestResource → List RefError
validate_refs doc =
    agents_refs (host_names (hosts doc)) (provider_names (providers doc))
      (channel_names (channels doc)) (integration_names (integrations doc)) (agents doc)

unfoldable pub secret_ref_of : Option String → List String
secret_ref_of none = []
secret_ref_of (some ref) = if ref == "" then [] else ref ∷ []

unfoldable pub secret_refs_in : List ProviderResource → List String
secret_refs_in [] = []
secret_refs_in (p ∷ ps) = secret_ref_of p.spec.secret_ref ++ secret_refs_in ps

unfoldable pub collect_secret_refs : List ManifestResource → List String
collect_secret_refs doc = secret_refs_in (providers doc)

-- `ref.split("/")`, if it has the form `providers/<name>/…`.
unfoldable pub referred_provider : List String → Option String
referred_provider (scope ∷ name ∷ key ∷ []) = if scope == "providers" then some name else none
referred_provider _ = none

unfoldable pub is_missing : Option String → Exec Bool
is_missing none = pure false
is_missing (some provider_name) = do
  val ← get_provider_api_key provider_name
  pure (not (truthy val))

unfoldable pub secret_preflight : List String → Exec (List String)
secret_preflight [] = pure []
secret_preflight (ref ∷ refs) = do
  gone ← is_missing (referred_provider (split_text b'/' ref))
  missing ← secret_preflight refs
  pure (if gone then ref ∷ missing else missing)
