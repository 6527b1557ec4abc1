-- ===== src/Manifest/Converged.antt =====
-- When a manifest and the fleet agree: the changes that `compute` finds, against a description of
-- the agreement that knows nothing of changes.
use clawrium.Manifest.Changes.{
  is_empty-restarts, is_empty-creates, is_empty-noops, is_empty-starts, same_members,
  reconcile-is_empty, and_false, is_empty-settle, holds_all, attach_missing-is_empty, and_true,
  and_assoc,
}
use clawrium.Prelude.{
  inr, inl, Bool-cases, all, ◌≡◌, refl, ap, ◌∙◌, sym, String, Bool, true, false, Option, none, some,
  List, [], ◌∷◌, ◌&&◌,
}
use clawrium.Json.{Json, nil}
use clawrium.Manifest.{
  agent_kind, op, no_changes, channels, providers, host_kind, hosts, integrations, provider_kind,
  agents, ActualAgent, known_agent, integration_kind, channel_kind, has_record, HostResource,
  IntegrationResource, ManifestResource, AgentSpec, ProviderResource, ChannelResource,
  AgentResource, ActualState, Kind, ChangeSet, is_empty,
}
use clawrium.Manifest.Differ.{
  desired_providers, host_known, compute_providers, compute_integrations, compute_channels,
  compute_hosts, compute, compute_agents, version_settled, reconcile_agent, compute_agent, settle,
  attach_missing, upgrade, create_agent,
}

and_chain : (a b c d e : Bool) → ((((a && b) && c) && d) && e) ≡ (a && (b && (c && (d && e))))
and_chain true true c d e = and_assoc c d e
and_chain true false c d e = refl
and_chain false b c d e = refl

upgrade-is_empty :
    (name : String) (desired : Option String) (version : Json) (cs : ChangeSet)
    → is_empty (upgrade name desired version cs) ≡ (is_empty cs && version_settled desired version)
unfolding upgrade
upgrade-is_empty name desired version cs = elim (Bool-cases (version_settled desired version)) [
  | inl t ↦ rw t (is_empty-noops cs (op agent_kind name) ∙ sym (and_true (is_empty cs)))
  | inr f ↦ rw f (is_empty-restarts cs _ _ ∙ sym (and_false (is_empty cs)))
]

no_changes-is_empty : is_empty no_changes ≡ true
unfolding is_empty
no_changes-is_empty = refl

-- A change that was made stays made.
not_undone :
    (name : String) (kind : Kind) (xs : List String) (cs : ChangeSet)
    → is_empty cs ≡ false
    → is_empty (attach_missing name kind xs nil cs) ≡ false
not_undone name kind xs cs e =
    attach_missing-is_empty name kind xs nil cs ∙ ap (λ b. b && holds_all xs nil) e

create_agent-is_empty :
    (name : String) (spec : AgentSpec) (cs : ChangeSet)
    → is_empty (create_agent name spec cs) ≡ false
unfolding create_agent
create_agent-is_empty name spec cs = elim (Bool-cases spec.lifecycle.auto_start) [
  | inl t ↦ rw t (is_empty-starts _ name)
  | inr f ↦ rw f (
      not_undone name integration_kind spec.integrations _ (
        not_undone name channel_kind spec.channels _ (
          not_undone name provider_kind (desired_providers spec.provider) _
            (is_empty-creates cs (op agent_kind name)))))
]

module _ {A : Type 0} (name_of : A → String) (known : A → Bool) (kind : Kind) where
  -- The four loops that create what is not there.
  settle_all : List A → ChangeSet → ChangeSet
  settle_all [] cs = cs
  settle_all (x ∷ xs) cs = settle_all xs (settle (known x) kind (name_of x) cs)

  settle_all-is_empty :
      (xs : List A) (cs : ChangeSet) → is_empty (settle_all xs cs) ≡ (is_empty cs && all known xs)
  unfolding settle_all
  settle_all-is_empty [] cs = sym (and_true (is_empty cs))
  settle_all-is_empty (x ∷ xs) cs =
      settle_all-is_empty xs _
      ∙ ap (λ b. b && all known xs) (is_empty-settle cs (known x) kind (name_of x))
      ∙ and_assoc (is_empty cs) (known x) (all known xs)

module _ (actual : ActualState) where
  abbrev pub provider_known : ProviderResource → Bool
  provider_known p = has_record p.metadata.name actual.providers

  abbrev pub channel_known : ChannelResource → Bool
  channel_known c = has_record c.metadata.name actual.channels

  abbrev pub integration_known : IntegrationResource → Bool
  integration_known i = has_record i.metadata.name actual.integrations

  compute_hosts-settle :
      (hs : List HostResource) (cs : ChangeSet)
      → compute_hosts hs actual cs
        ≡ settle_all (λ h. h.metadata.name) (host_known actual) host_kind hs cs
  unfolding compute_hosts settle_all
  compute_hosts-settle [] cs = refl
  compute_hosts-settle (h ∷ hs) cs = compute_hosts-settle hs _

  compute_providers-settle :
      (ps : List ProviderResource) (cs : ChangeSet)
      → compute_providers ps actual cs
        ≡ settle_all (λ p. p.metadata.name) provider_known provider_kind ps cs
  unfolding compute_providers settle_all
  compute_providers-settle [] cs = refl
  compute_providers-settle (p ∷ ps) cs = compute_providers-settle ps _

  compute_channels-settle :
      (xs : List ChannelResource) (cs : ChangeSet)
      → compute_channels xs actual cs
        ≡ settle_all (λ c. c.metadata.name) channel_known channel_kind xs cs
  unfolding compute_channels settle_all
  compute_channels-settle [] cs = refl
  compute_channels-settle (x ∷ xs) cs = compute_channels-settle xs _

  compute_integrations-settle :
      (xs : List IntegrationResource) (cs : ChangeSet)
      → compute_integrations xs actual cs
        ≡ settle_all (λ i. i.metadata.name) integration_known integration_kind xs cs
  unfolding compute_integrations settle_all
  compute_integrations-settle [] cs = refl
  compute_integrations-settle (x ∷ xs) cs = compute_integrations-settle xs _

  -- An agent is there, in the version that is wanted if one is, with what is wanted attached to it
  -- and nothing else.
  abbrev pub agent_settled : AgentSpec → Option ActualAgent → Bool
  agent_settled spec none = false
  agent_settled spec (some a) =
      version_settled spec.version a.version
      && (same_members (desired_providers spec.provider) a.providers
          && (same_members spec.channels a.channels
              && same_members spec.integrations a.integrations))

  abbrev pub agent_known : AgentResource → Bool
  agent_known a = agent_settled a.spec (known_agent a.metadata.name actual.agents)

  reconcile_agent-is_empty :
      (name : String) (spec : AgentSpec) (a : ActualAgent) (cs : ChangeSet)
      → is_empty (reconcile_agent name spec a cs) ≡ (is_empty cs && agent_settled spec (some a))
  unfolding reconcile_agent
  reconcile_agent-is_empty name spec a cs =
      reconcile-is_empty name integration_kind spec.integrations a.integrations _
      ∙ ap (λ b. b && same_members spec.integrations a.integrations)
          (reconcile-is_empty name channel_kind spec.channels a.channels _
            ∙ ap (λ b. b && same_members spec.channels a.channels)
                (reconcile-is_empty name provider_kind (desired_providers spec.provider) a.providers
                    _
                  ∙ ap (λ b. b && same_members (desired_providers spec.provider) a.providers)
                      (upgrade-is_empty name spec.version a.version cs)))
      ∙ and_chain (is_empty cs) (version_settled spec.version a.version) _ _ _

  compute_agent-is_empty :
      (a : AgentResource) (found : Option ActualAgent) (cs : ChangeSet)
      → is_empty (compute_agent a found cs) ≡ (is_empty cs && agent_settled a.spec found)
  unfolding compute_agent
  compute_agent-is_empty a none cs =
      create_agent-is_empty a.metadata.name a.spec cs ∙ sym (and_false (is_empty cs))
  compute_agent-is_empty a (some x) cs = reconcile_agent-is_empty a.metadata.name a.spec x cs

  compute_agents-is_empty :
      (xs : List AgentResource) (cs : ChangeSet)
      → is_empty (compute_agents xs actual cs) ≡ (is_empty cs && all agent_known xs)
  unfolding compute_agents
  compute_agents-is_empty [] cs = sym (and_true (is_empty cs))
  compute_agents-is_empty (x ∷ xs) cs =
      compute_agents-is_empty xs _
      ∙ ap (λ b. b && all agent_known xs)
          (compute_agent-is_empty x (known_agent x.metadata.name actual.agents) cs)
      ∙ and_assoc (is_empty cs) (agent_known x) (all agent_known xs)

  -- Every host, provider, channel, integration and agent of the manifest is as it says.
  abbrev pub fleet_agrees : List ManifestResource → Bool
  fleet_agrees doc =
      all (host_known actual) (hosts doc)
      && (all provider_known (providers doc)
          && (all channel_known (channels doc)
              && (all integration_known (integrations doc) && all agent_known (agents doc))))

  -- `compute` finds nothing to change exactly if the fleet agrees with the manifest: what it
  -- declares is there, and each of its agents has the version, if it names one, and just the
  -- provider, the channels and the integrations that it lists.
  pub compute-is_empty :
      (doc : List ManifestResource) → is_empty (compute doc actual false) ≡ fleet_agrees doc
  unfolding compute
  compute-is_empty doc =
      compute_agents-is_empty (agents doc) _
      ∙ ap (λ b. b && all agent_known (agents doc))
          (ap is_empty (compute_integrations-settle (integrations doc) _)
            ∙ settle_all-is_empty (λ i. i.metadata.name) integration_known integration_kind
                (integrations doc) _
            ∙ ap (λ b. b && all integration_known (integrations doc))
                (ap is_empty (compute_channels-settle (channels doc) _)
                  ∙ settle_all-is_empty (λ c. c.metadata.name) channel_known channel_kind
                      (channels doc) _
                  ∙ ap (λ b. b && all channel_known (channels doc))
                      (ap is_empty (compute_providers-settle (providers doc) _)
                        ∙ settle_all-is_empty (λ p. p.metadata.name) provider_known provider_kind
                            (providers doc) _
                        ∙ ap (λ b. b && all provider_known (providers doc))
                            (ap is_empty (compute_hosts-settle (hosts doc) no_changes)
                              ∙ settle_all-is_empty (λ h. h.metadata.name) (host_known actual)
                                  host_kind (hosts doc) no_changes
                              ∙ ap (λ b. b && all (host_known actual) (hosts doc))
                                  no_changes-is_empty))))
      ∙ and_chain (all (host_known actual) (hosts doc)) (all provider_known (providers doc)) _ _ _
