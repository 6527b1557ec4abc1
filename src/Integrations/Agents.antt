-- ===== src/Integrations/Agents.antt =====
-- core/integrations.py: the integrations of an agent, with at most one of a singleton type.
pub mod Singleton
pub mod Attempts
pub mod Added
use clawrium.Prelude.{
  String, Bool, true, false, not, Option, none, some, List, [], ◌∷◌, ◌==◌, if◌then◌else◌, Result,
  ok, err, type_error, singleton_violation, ◌>>=◌ as ◌>>=ʳ◌,
}
use clawrium.Json.{
  Json, Items, Dict, null, str, arr, obj, nil, cons, empty, get, get_or, put, index,
}
use clawrium.Json.Equality.{py_eq}
use clawrium.Json.Lists.{has_item, append_item}
use clawrium.Config.{File, Config, Exec, pure, raise, lift, reads, ◌>>=◌}
use clawrium.Records.{same, named, find_first, parse_records}
use clawrium.Hosts.Store.{update_host}
use clawrium.Hosts.Registry.{get_host}
use clawrium.Hosts.Agents.Edit.{
  list_or_empty, find_agent, field_of, detach, edit_agent, edit_agent_of,
}
use clawrium.Integrations.{load_integrations}

unfoldable pub integrations_of : String → Option Dict → Result Items
integrations_of agent_key none = ok nil
integrations_of agent_key (some host_data) =
    find_agent agent_key (get_or "agents" (obj empty) host_data) >>=ʳ λ found.
    ok (field_of "integrations" found)

unfoldable pub get_agent_integrations : String → String → String → Exec Items
get_agent_integrations now host agent_key = do
  host_data ← get_host now host
  lift (integrations_of agent_key host_data)

-- `update_host(host_data["hostname"], updater)`, whose answer is whether the host was found.
unfoldable pub set_on_host : String → (Dict → Result (Bool × Dict)) → Option Dict → Exec Bool
set_on_host now updater none = pure false
set_on_host now updater (some host_data) = do
  hostname ← lift (index "hostname" host_data)
  updated ← update_host now hostname false updater
  pure updated.0

unfoldable pub set_agent_integrations : String → String → String → Items → Exec Bool
set_agent_integrations now host agent_key integrations = do
  host_data ← get_host now host
  set_on_host now (edit_agent (λ r. some (put "integrations" (arr integrations) r)) agent_key)
      host_data

unfoldable pub remove_agent_integration : String → String → String → String → Exec Bool
remove_agent_integration now host claw_name integration_name =
    edit_agent_of now host claw_name (detach "integrations" integration_name)

-- What the updater of `add_agent_integration` leaves in `added` and `singleton_conflict`.
pub data Attempt : Type 0 where
  skipped refused attached : Attempt

-- Whether a value may be looked up in a set or a dict.
unfoldable pub hashable : Json → Result (Unit {0})
hashable (arr _) = err type_error
hashable (obj _) = err type_error
hashable _ = ok tt

-- `target_type in SINGLETON_INTEGRATION_TYPES`
unfoldable pub is_singleton : Json → Result Bool
is_singleton (str t) = ok (t == "git")
is_singleton v = hashable v >>=ʳ λ _. ok false

unfoldable pub all_hashable : List Dict → Result (Unit {0})
all_hashable [] = ok tt
all_hashable (i ∷ is) = hashable (get "name" i) >>=ʳ λ _. all_hashable is

-- `integ_map.get(other_name) or {}`: of two records of one name the later is in the map.
unfoldable pub later_of : Option Dict → Option Dict → Option Dict
later_of none first = first
later_of (some d) first = some d

unfoldable pub in_map : Json → List Dict → Option Dict
in_map other_name [] = none
in_map other_name (i ∷ is) =
    later_of (in_map other_name is) (if same "name" other_name i then some i else none)

-- `(record or {}).get("type")`
unfoldable pub type_of : Option Dict → Json
type_of none = null
type_of (some i) = get "type" i

-- Whether one of the names leads to an integration of the type.
unfoldable pub conflicts : Json → List Dict → Items → Result Bool
conflicts target_type is nil = ok false
conflicts target_type is (cons other_name xs) =
    let rest = conflicts target_type is xs in
    hashable other_name >>=ʳ λ _.
    if py_eq (type_of (in_map other_name is)) target_type then ok true else rest

-- The check for a type that may be attached once.
unfoldable pub check_singleton : Json → Result (List Dict) → Items → Result Bool
check_singleton target_type integrations current = is_singleton target_type >>=ʳ λ t.
    if t
    then (integrations >>=ʳ λ is. all_hashable is >>=ʳ λ _. conflicts target_type is current)
    else ok false

-- The updater on the record of the agent; none where it returns the host as it is.
unfoldable pub attach_integration :
    Json → Result (List Dict) → String → Dict → Result (Attempt × Option Dict)
attach_integration target_type integrations integration_name agent_data =
    let current = list_or_empty (get_or "integrations" (arr nil) agent_data) in
    if has_item integration_name current
    then ok (skipped, none)
    else (check_singleton target_type integrations current >>=ʳ λ conflict.
        if conflict
        then ok (refused, none)
        else ok (
          attached,
          some (put "integrations" (arr (append_item (str integration_name) current)) agent_data),
        ))

unfoldable pub store_attempt : String → Dict → Dict → Option Dict → Dict
store_attempt claw_name agents h none = h
store_attempt claw_name agents h (some r) = put "agents" (obj (put claw_name (obj r) agents)) h

unfoldable pub attach_found :
    Json
    → Result (List Dict)
    → String
    → String
    → Dict
    → Option (Dict × Dict)
    → Result (Attempt × Dict)
attach_found target_type integrations integration_name claw_name h none = ok (skipped, h)
attach_found target_type integrations integration_name claw_name h (some (agents, agent_data)) =
    attach_integration target_type integrations integration_name agent_data >>=ʳ λ r.
    ok (r.0, store_attempt claw_name agents h r.1)

unfoldable pub attach_on_host :
    Json → Result (List Dict) → String → String → Dict → Result (Attempt × Dict)
attach_on_host target_type integrations integration_name claw_name h =
    find_agent claw_name (get_or "agents" (obj empty) h)
    >>=ʳ attach_found target_type integrations integration_name claw_name h

-- `if singleton_conflict: raise …`, and the flag.
unfoldable pub report : Attempt → Exec Bool
report skipped = pure false
report refused = raise singleton_violation
report attached = pure true

unfoldable pub target_type_of : String → Exec Json
target_type_of integration_name = if integration_name == "" then pure null else do
  integrations ← load_integrations
  pure (type_of (find_first (named "name" integration_name) integrations))

unfoldable pub add_on_host : String → String → String → Option Dict → Exec Bool
add_on_host now claw_name integration_name none = pure false
add_on_host now claw_name integration_name (some host_data) = do
  hostname ← lift (index "hostname" host_data)
  target_type ← target_type_of integration_name
  integrations ← reads (λ c. ok (load_integrations c).0)
  attempt ←
      update_host now hostname skipped
        (attach_on_host target_type integrations integration_name claw_name)
  report attempt.1

unfoldable pub add_agent_integration : String → String → String → String → Exec Bool
add_agent_integration now host claw_name integration_name = do
  host_data ← get_host now host
  add_on_host now claw_name integration_name host_data
