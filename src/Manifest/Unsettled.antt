-- ===== src/Manifest/Unsettled.antt =====
-- What `from_disk` does not read.
use clawrium.Records.{parse_records}
use clawrium.Providers.{load_providers}
use clawrium.Hosts.Store.{parse_hosts, load_hosts}
use clawrium.Prelude.{
  ok-injective, providers_corrupted, arith, all, ◌≡◌, refl, ap, ◌∙◌, sym, String, Bool, false, List,
  [], ◌∷◌, ◌&&◌, ok, Result-cases, inl, inr,
}
use clawrium.Config.{Config}
use clawrium.Manifest.{
  agents, providers, hosts, has_record, ManifestResource, ChannelResource, IntegrationResource,
  ActualState, is_empty, is_nil, channels, integrations,
}
use clawrium.Manifest.Differ.{host_known, compute}
use clawrium.Manifest.State.{read_providers, read_hosts, from_disk}
use clawrium.Manifest.Converged.{
  agent_known, provider_known, integration_known, channel_known, compute-is_empty,
}

from_disk-none :
    (now : String) (c : Config) (actual : ActualState)
    → (from_disk now c).0 ≡ ok actual
    → (actual.channels ≡ []) × (actual.integrations ≡ [])
unfolding from_disk load_hosts load_providers
from_disk-none now c actual e = elim (Result-cases (parse_hosts now c.hosts)) [
  | inr (x, p) ↦ let e' = rw p at e in cc
  | inl (hs, p) ↦ elim (Result-cases (read_hosts hs ([], []))) [
    | inr (x, q) ↦ let e' = rw (p, q) at e in cc
    | inl (found, q) ↦ elim (Result-cases (parse_records providers_corrupted c.providers)) [
      | inr (x, r) ↦ let e' = rw (p, q, r) at e in cc
      | inl (ps, r) ↦ elim (Result-cases (read_providers ps [])) [
        | inr (x, t) ↦ let e' = rw (p, q, r, t) at e in cc
        | inl (known, t) ↦
            let same = ok-injective _ _ (rw (p, q, r, t) at e) in rw (sym same) (refl, refl)
      ]
    ]
  ]
]

channels_unknown :
    (actual : ActualState) (xs : List ChannelResource)
    → actual.channels ≡ []
    → all (channel_known actual) xs ≡ is_nil xs
unfolding is_nil has_record
channels_unknown actual [] e = refl
channels_unknown actual (x ∷ xs) e = rw (e, has_record) refl

integrations_unknown :
    (actual : ActualState) (xs : List IntegrationResource)
    → actual.integrations ≡ []
    → all (integration_known actual) xs ≡ is_nil xs
unfolding is_nil has_record
integrations_unknown actual [] e = refl
integrations_unknown actual (x ∷ xs) e = rw (e, has_record) refl

one_false : (a b c d e : Bool) → (c && d) ≡ false → (a && (b && (c && (d && e)))) ≡ false
one_false a b c d e h = ground arith

-- A manifest with a channel or an integration is never found applied: in the state that is read
-- from the files, whatever they hold, `compute` finds something to change.
pub compute-from_disk :
    (now : String) (c : Config) (doc : List ManifestResource) (actual : ActualState)
    → (from_disk now c).0 ≡ ok actual
    → (is_nil (channels doc) && is_nil (integrations doc)) ≡ false
    → is_empty (compute doc actual false) ≡ false
compute-from_disk now c doc actual e h =
    let (no_channels, no_integrations) = from_disk-none now c actual e in
    compute-is_empty actual doc
    ∙ one_false (all (host_known actual) (hosts doc)) (all (provider_known actual) (providers doc))
        (all (channel_known actual) (channels doc))
        (all (integration_known actual) (integrations doc)) (all (agent_known actual) (agents doc))
        (ap (λ b. b && all (integration_known actual) (integrations doc))
            (channels_unknown actual (channels doc) no_channels)
          ∙ ap (λ b. is_nil (channels doc) && b)
              (integrations_unknown actual (integrations doc) no_integrations)
          ∙ h)
