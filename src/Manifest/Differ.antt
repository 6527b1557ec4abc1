-- ===== src/Manifest/Differ.antt =====
-- core/manifest/differ.py: the changes from the fleet as it is to the fleet that a manifest wants.
use clawrium.Manifest.{
  hosts, providers, channels, integrations, channel_kind, agent_kind, provider_kind, no_changes,
  agents, known_agent, integration_kind, op, AttachOp, host_kind, has_record, ChangeSet,
  ActualAgent, ChannelResource, AgentSpec, HostResource, AgentResource, ManifestResource,
  ProviderResource, Kind, ActualState, IntegrationResource,
}
use clawrium.Prelude.{
  String, Bool, true, false, Option, none, some, List, [], ◌∷◌, ◌++◌, ◌==◌, ◌||◌, if◌then◌else◌,
}
use clawrium.Json.{Json, Items, str, nil, cons, is_str}
use clawrium.Json.Lists.{has_item}

-- The resource is there, or it is created.
unfoldable pub settle : Bool → Kind → String → ChangeSet → ChangeSet
settle known kind name cs =
    if known
    then record cs { noops = cs.noops ++ (op kind name ∷ []) }
    else record cs { creates = cs.creates ++ (op kind name ∷ []) }

unfoldable pub host_known : ActualState → HostResource → Bool
host_known actual h =
    has_record h.spec.hostname actual.hosts || has_record h.metadata.name actual.hosts

unfoldable pub compute_hosts : List HostResource → ActualState → ChangeSet → ChangeSet
compute_hosts [] actual cs = cs
compute_hosts (h ∷ hs) actual cs =
    compute_hosts hs actual (settle (host_known actual h) host_kind h.metadata.name cs)

unfoldable pub compute_providers : List ProviderResource → ActualState → ChangeSet → ChangeSet
compute_providers [] actual cs = cs
compute_providers (p ∷ ps) actual cs =
    compute_providers ps actual
      (settle (has_record p.metadata.name actual.providers) provider_kind p.metadata.name cs)

unfoldable pub compute_channels : List ChannelResource → ActualState → ChangeSet → ChangeSet
compute_channels [] actual cs = cs
compute_channels (c ∷ more) actual cs =
    compute_channels more actual
      (settle (has_record c.metadata.name actual.channels) channel_kind c.metadata.name cs)

unfoldable pub compute_integrations : List IntegrationResource → ActualState → ChangeSet → ChangeSet
compute_integrations [] actual cs = cs
compute_integrations (i ∷ more) actual cs =
    compute_integrations more actual
      (settle (has_record i.metadata.name actual.integrations) integration_kind i.metadata.name cs)

unfoldable pub attach_op : String → Kind → Json → AttachOp
attach_op name kind resource = record {
  agent = name;
  resource_kind = kind;
  resource_name = resource;
}

-- `for x in desired: if x not in actual: cs.attaches.append(…)`
unfoldable pub attach_missing : String → Kind → List String → Items → ChangeSet → ChangeSet
attach_missing name kind [] actual cs = cs
attach_missing name kind (x ∷ xs) actual cs = attach_missing name kind xs actual (
    if has_item x actual
    then cs
    else record cs { attaches = cs.attaches ++ (attach_op name kind (str x) ∷ []) })

-- `x in desired`, for a value of the file.
unfoldable pub is_desired : List String → Json → Bool
is_desired [] v = false
is_desired (d ∷ ds) v = is_str v d || is_desired ds v

unfoldable pub detach_extra : String → Kind → List String → Items → ChangeSet → ChangeSet
detach_extra name kind desired nil cs = cs
detach_extra name kind desired (cons x xs) cs = detach_extra name kind desired xs (
    if is_desired desired x
    then cs
    else record cs { detaches = cs.detaches ++ (attach_op name kind x ∷ []) })

unfoldable pub reconcile : String → Kind → List String → Items → ChangeSet → ChangeSet
reconcile name kind desired actual cs =
    detach_extra name kind desired actual (attach_missing name kind desired actual cs)

-- `[agent.spec.provider] if agent.spec.provider else []`
unfoldable pub desired_providers : Option String → List String
desired_providers none = []
desired_providers (some p) = if p == "" then [] else p ∷ []

unfoldable pub version_settled : Option String → Json → Bool
version_settled none actual = true
version_settled (some desired) actual = desired == "" || is_str actual desired

unfoldable pub desired_text : Option String → String
desired_text none = ""
desired_text (some v) = v

unfoldable pub upgrade : String → Option String → Json → ChangeSet → ChangeSet
upgrade name desired actual cs =
    if version_settled desired actual
    then record cs { noops = cs.noops ++ (op agent_kind name ∷ []) }
    else record cs {
      updates =
          cs.updates
          ++ (record {
            kind = agent_kind;
            name = name;
            details = some (actual, desired_text desired);
          }
              ∷ []);
      restarts = cs.restarts ++ (name ∷ []);
    }

-- Agents that are not there yet are created, and everything is attached.
unfoldable pub create_agent : String → AgentSpec → ChangeSet → ChangeSet
create_agent name spec cs =
    let created = record cs { creates = cs.creates ++ (op agent_kind name ∷ []) } in
    let attached = attach_missing name integration_kind spec.integrations nil (
      attach_missing name channel_kind spec.channels nil
        (attach_missing name provider_kind (desired_providers spec.provider) nil created)) in
    if spec.lifecycle.auto_start
    then record attached { starts = attached.starts ++ (name ∷ []) }
    else attached

unfoldable pub reconcile_agent : String → AgentSpec → ActualAgent → ChangeSet → ChangeSet
reconcile_agent name spec actual cs =
    reconcile name integration_kind spec.integrations actual.integrations (
      reconcile name channel_kind spec.channels actual.channels (
        reconcile name provider_kind (desired_providers spec.provider) actual.providers
          (upgrade name spec.version actual.version cs)))

unfoldable pub compute_agent : AgentResource → Option ActualAgent → ChangeSet → ChangeSet
compute_agent a none cs = create_agent a.metadata.name a.spec cs
compute_agent a (some actual) cs = reconcile_agent a.metadata.name a.spec actual cs

unfoldable pub compute_agents : List AgentResource → ActualState → ChangeSet → ChangeSet
compute_agents [] actual cs = cs
compute_agents (a ∷ more) actual cs =
    compute_agents more actual (compute_agent a (known_agent a.metadata.name actual.agents) cs)

unfoldable pub delete_agent : String → Bool → ChangeSet → ChangeSet
delete_agent name true cs = record cs { deletes = cs.deletes ++ (op agent_kind name ∷ []) }
delete_agent name false cs = record cs { noops = cs.noops ++ (op agent_kind name ∷ []) }

unfoldable pub is_there : Option ActualAgent → Bool
is_there none = false
is_there (some a) = true

unfoldable pub compute_deletes : List AgentResource → ActualState → ChangeSet → ChangeSet
compute_deletes [] actual cs = cs
compute_deletes (a ∷ more) actual cs =
    compute_deletes more actual
      (delete_agent a.metadata.name (is_there (known_agent a.metadata.name actual.agents)) cs)

unfoldable pub compute : List ManifestResource → ActualState → Bool → ChangeSet
compute doc actual true = compute_deletes (agents doc) actual no_changes
compute doc actual false = compute_agents (agents doc) actual (
    compute_integrations (integrations doc) actual (
      compute_channels (channels doc) actual
        (compute_providers (providers doc) actual (compute_hosts (hosts doc) actual no_changes))))
