-- ===== src/Onboarding.antt =====
-- core/onboarding.py: the states of an agent's onboarding and its stages, kept in the agent's record.
-- The manifest of an agent type (core/registry.py reads it from YAML) is a parameter.
pub mod Resolve
pub mod Machine
pub mod Stages
pub mod Records
pub mod Completed
pub mod Completion
pub mod Patch
pub mod AutoSkip
pub mod Start
pub mod Run
pub mod Agreement
use clawrium.Prelude.{
  String, Bool, true, false, not, ◌&&◌, ◌||◌, Option, none, some, List, [], ◌∷◌, ◌==◌,
  if◌then◌else◌, contains, Result, ok, err, Error, agent_not_found, onboarding_not_found,
  invalid_transition, value_error, type_error, ◌>>=◌ as ◌>>=ʳ◌,
}
use clawrium.Json.{
  Json, Dict, null, bool, str, obj, empty, entry, find, has, get, get_or, put, index, truthy,
  as_dict, is_str,
}
use clawrium.Json.Subscript.{holds_key, mapping}
use clawrium.Config.{Exec, pure, raise, lift, ◌>>=◌, ◌>>◌}
use clawrium.Hosts.Store.{update_host}
use clawrium.Hosts.Registry.{get_host}
use clawrium.Hosts.Agents.{has_type, keys_where}

pub data OnboardingState : Type 0 where
  pending providers identity channels validate ready : OnboardingState

pub data StageStatus : Type 0 where
  stage_pending stage_complete stage_skipped : StageStatus

-- `state.value`
unfoldable pub state_value : OnboardingState → String
state_value pending = "pending"
state_value providers = "providers"
state_value identity = "identity"
state_value channels = "channels"
state_value validate = "validate"
state_value ready = "ready"

unfoldable pub status_value : StageStatus → String
status_value stage_pending = "pending"
status_value stage_complete = "complete"
status_value stage_skipped = "skipped"

-- `OnboardingState(state_value)`
unfoldable pub state_of_text : String → Result OnboardingState
state_of_text s =
    if s == "pending"
    then ok pending
    else if s == "providers"
    then ok providers
    else if s == "identity"
    then ok identity
    else if s == "channels"
    then ok channels
    else if s == "validate"
    then ok validate
    else if s == "ready"
    then ok ready
    else err onboarding_not_found

unfoldable pub state_of : Json → Result OnboardingState
state_of (str s) = state_of_text s
state_of _ = err onboarding_not_found

-- `TRANSITIONS`
unfoldable pub transitions : OnboardingState → List String
transitions pending = "providers" ∷ "ready" ∷ []
transitions providers = "identity" ∷ []
transitions identity = "channels" ∷ []
transitions channels = "validate" ∷ []
transitions validate = "ready" ∷ "channels" ∷ []
transitions ready = "ready" ∷ []

-- The records of which `agent_name` or `name` is the name.
unfoldable pub has_name : String → Json → Bool
has_name name (obj r) = is_str (get "agent_name" r) name || is_str (get "name" r) name
has_name name _ = false

unfoldable pub is_record : Json → Bool
is_record (obj r) = true
is_record _ = false

-- `if len(matches) == 1: return matches[0]`
unfoldable pub only : List String → Option String → Option String
only (k ∷ []) rest = some k
only _ rest = rest

unfoldable pub resolve_in : String → Dict → Option String
resolve_in claw_name agents =
    if has claw_name agents && is_record (get claw_name agents)
    then some claw_name
    else only (keys_where (has_name claw_name) agents)
        (only (keys_where (has_type claw_name) agents) none)

-- `_resolve_agent_key`
unfoldable pub resolve_agent_key : String → Json → Option String
resolve_agent_key claw_name (obj agents) = resolve_in claw_name agents
resolve_agent_key claw_name _ = none

-- The records that pass a test.
unfoldable pub records_where : (Json → Bool) → Dict → List Json
records_where p empty = []
records_where p (entry k v d) = let rest = records_where p d in if p v then v ∷ rest else rest

unfoldable pub only_record : List Json → Option Json → Option Json
only_record (r ∷ []) rest = some r
only_record _ rest = rest

unfoldable pub record_in : String → Dict → Option Json
record_in claw_name agents =
    if has claw_name agents && is_record (get claw_name agents)
    then some (get claw_name agents)
    else only_record (records_where (has_name claw_name) agents)
        (only_record (records_where (has_type claw_name) agents) none)

unfoldable pub record_of_agents : String → Json → Option Json
record_of_agents claw_name (obj agents) = record_in claw_name agents
record_of_agents claw_name _ = none

unfoldable pub record_of_host : String → Option Dict → Option Json
record_of_host claw_name none = none
record_of_host claw_name (some host_data) =
    record_of_agents claw_name (get_or "agents" (obj empty) host_data)

-- `_get_claw_record`
unfoldable pub get_claw_record : String → String → String → Exec (Option Json)
get_claw_record now host claw_name = do
  host_data ← get_host now host
  pure (record_of_host claw_name host_data)

-- `claw.get("onboarding")`, or the two exceptions.
unfoldable pub initialized : Json → Result Json
initialized null = err onboarding_not_found
initialized v = ok v

unfoldable pub onboarding_of : Option Json → Result Json
onboarding_of (some (obj claw)) = initialized (get "onboarding" claw)
onboarding_of _ = err agent_not_found

unfoldable pub state_in : Json → Result OnboardingState
state_in onboarding = as_dict onboarding >>=ʳ λ o. state_of (get_or "state" (str "pending") o)

unfoldable pub get_onboarding_state : String → String → String → Exec OnboardingState
get_onboarding_state now host claw_name = do
  claw ← get_claw_record now host claw_name
  onboarding ← lift (onboarding_of claw)
  lift (state_in onboarding)

unfoldable pub record_at : String → Dict → Json → Result (String × Dict × Dict)
record_at agent_key agents (obj r) = ok (agent_key, agents, r)
record_at agent_key agents _ = err type_error

-- `if not agent_key: raise AgentNotFoundError`, and `h["agents"][agent_key]`.
unfoldable pub resolved : Option String → Json → Result (String × Dict × Dict)
resolved none agents = err agent_not_found
resolved (some agent_key) agents =
    if agent_key == ""
    then err agent_not_found
    else (mapping agents >>=ʳ λ d. record_at agent_key d (get agent_key d))

-- An updater that changes the record of the resolved agent.
unfoldable pub edit_resolved : String → (Dict → Result Dict) → Dict → Result (Unit {0} × Dict)
edit_resolved claw_name edit h =
    let agents = get_or "agents" (obj empty) h in
    resolved (resolve_agent_key claw_name agents) agents >>=ʳ λ found.
    edit found.2 >>=ʳ λ r. ok (tt, put "agents" (obj (put found.0 (obj r) found.1)) h)

-- `update_host(host_data["hostname"], updater)`
unfoldable pub update_agent : String → (Dict → Result (Unit {0} × Dict)) → Option Dict → Exec Bool
update_agent now updater none = raise agent_not_found
update_agent now updater (some host_data) = do
  hostname ← lift (index "hostname" host_data)
  updated ← update_host now hostname tt updater
  pure updated.0

unfoldable pub set_state : OnboardingState → Dict → Result Dict
set_state to_state r =
    if has "onboarding" r
    then (mapping (get "onboarding" r) >>=ʳ λ o.
        ok (put "onboarding" (obj (put "state" (str (state_value to_state)) o)) r))
    else err onboarding_not_found

unfoldable pub transition_state : String → String → String → OnboardingState → Exec Bool
transition_state now host claw_name to_state = do
  current_state ← get_onboarding_state now host claw_name
  if not (contains (transitions current_state) (state_value to_state))
      then raise invalid_transition
      else do
        host_data ← get_host now host
        update_agent now (edit_resolved claw_name (set_state to_state)) host_data
