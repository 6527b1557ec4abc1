-- ===== src/Manifest.antt =====
-- core/manifest/schema.py, state.py and differ.py: what a manifest wants of the fleet, what the fleet
-- is, and what changes are. The fields of a manifest have the annotated types.
pub mod Differ
pub mod State
pub mod Changes
pub mod Converged
pub mod Unsettled
pub mod Validator
pub mod Keys
pub mod Steps
pub mod Executor
pub mod NewAgents
pub mod Returns
pub mod NotFound
use clawrium.Prelude.{
  ℕ, String, Bool, true, false, not, Option, none, some, List, [], ◌∷◌, ◌++◌, ◌==◌, ◌&&◌, ◌||◌,
  if◌then◌else◌,
}
use clawrium.Json.{Json, Items, Dict, null, str, nil, cons, is_str}
use clawrium.Json.Lists.{has_item}

pub record ResourceMetadata : Type 0 where
  pub name : String
  pub labels : Dict

pub record HostSpec : Type 0 where
  pub hostname : String
  pub user : String
  pub port : ℕ
  pub bootstrap : Bool

pub record HostResource : Type 0 where
  pub metadata : ResourceMetadata
  pub spec : HostSpec

-- `default_model` is `config.defaultModel`, and `secret_ref` is `credentials.apiKey.secretRef`.
pub record ProviderSpec : Type 0 where
  pub provider_type : String
  pub default_model : Option String
  pub secret_ref : Option String

pub record ProviderResource : Type 0 where
  pub metadata : ResourceMetadata
  pub spec : ProviderSpec

pub record ChannelSpec : Type 0 where
  pub channel_type : String
  pub allowed_users : List String

pub record ChannelResource : Type 0 where
  pub metadata : ResourceMetadata
  pub spec : ChannelSpec

pub record IntegrationResource : Type 0 where
  pub metadata : ResourceMetadata
  pub integration_type : String

pub record AgentLifecycle : Type 0 where
  pub auto_start : Bool
  pub auto_restart : Bool

pub record AgentSpec : Type 0 where
  pub agent_type : String
  pub host : Option String
  pub provider : Option String
  pub channels : List String
  pub integrations : List String
  pub skills : List String
  pub version : Option String
  pub config : Dict
  pub lifecycle : AgentLifecycle

pub record AgentResource : Type 0 where
  pub metadata : ResourceMetadata
  pub spec : AgentSpec

pub data ManifestResource : Type 0 where
  host : HostResource → ManifestResource
  provider : ProviderResource → ManifestResource
  channel : ChannelResource → ManifestResource
  integration : IntegrationResource → ManifestResource
  agent : AgentResource → ManifestResource

-- `[r for r in self.resources if isinstance(r, HostResource)]`, and its siblings.
unfoldable pub hosts : List ManifestResource → List HostResource
hosts [] = []
hosts (host h ∷ rs) = h ∷ hosts rs
hosts (_ ∷ rs) = hosts rs

unfoldable pub providers : List ManifestResource → List ProviderResource
providers [] = []
providers (provider p ∷ rs) = p ∷ providers rs
providers (_ ∷ rs) = providers rs

unfoldable pub channels : List ManifestResource → List ChannelResource
channels [] = []
channels (channel c ∷ rs) = c ∷ channels rs
channels (_ ∷ rs) = channels rs

unfoldable pub integrations : List ManifestResource → List IntegrationResource
integrations [] = []
integrations (integration i ∷ rs) = i ∷ integrations rs
integrations (_ ∷ rs) = integrations rs

unfoldable pub agents : List ManifestResource → List AgentResource
agents [] = []
agents (agent a ∷ rs) = a ∷ agents rs
agents (_ ∷ rs) = agents rs

-- What hosts.json says of an agent, as it stands there.
pub record ActualAgent : Type 0 where
  pub name : String
  pub agent_type : Json
  pub host : Json
  pub status : Json
  pub version : Json
  pub providers : Items
  pub channels : Items
  pub integrations : Items
  pub skills : Items

-- A dict whose keys come out of a file.
abbrev pub Records : Type 0
Records = List (Json × Dict)

pub record ActualState : Type 0 where
  pub hosts : Records
  pub providers : Records
  pub channels : Records
  pub integrations : Records
  pub agents : List (String × ActualAgent)

-- `name in records`
unfoldable pub has_record : String → Records → Bool
has_record name [] = false
has_record name ((key, r) ∷ rs) = is_str key name || has_record name rs

unfoldable pub known_agent : String → List (String × ActualAgent) → Option ActualAgent
known_agent name [] = none
known_agent name ((key, a) ∷ as') = if key == name then some a else known_agent name as'

pub data Kind : Type 0 where
  host_kind provider_kind channel_kind integration_kind agent_kind : Kind

-- `details` are the versions in the text `old → new`.
pub record Op : Type 0 where
  pub kind : Kind
  pub name : String
  pub details : Option (Json × String)

pub record AttachOp : Type 0 where
  pub agent : String
  pub resource_kind : Kind
  pub resource_name : Json

pub record ChangeSet : Type 0 where
  pub creates : List Op
  pub updates : List Op
  pub deletes : List Op
  pub attaches : List AttachOp
  pub detaches : List AttachOp
  pub starts : List String
  pub restarts : List String
  pub noops : List Op

abbrev pub no_changes : ChangeSet
no_changes = record {
  creates = [];
  updates = [];
  deletes = [];
  attaches = [];
  detaches = [];
  starts = [];
  restarts = [];
  noops = [];
}

module _ {A : Type 0} where
  unfoldable pub is_nil : List A → Bool
  is_nil [] = true
  is_nil (x ∷ xs) = false

unfoldable pub is_empty : ChangeSet → Bool
unfolding is_nil
is_empty cs =
    is_nil cs.creates
    && is_nil cs.updates
    && is_nil cs.deletes
    && is_nil cs.attaches
    && is_nil cs.detaches
    && is_nil cs.starts
    && is_nil cs.restarts

unfoldable pub op : Kind → String → Op
op kind name = record { kind = kind; name = name; details = none }
