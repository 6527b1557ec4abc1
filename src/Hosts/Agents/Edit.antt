-- ===== src/Hosts/Agents/Edit.antt =====
-- The lists of names that an agent's record holds, `channels` and `integrations`: reading one, and
-- changing it under update_host with a flag that tells whether the record was changed. The code of
-- core/channels.py and core/integrations.py that is the same but for the field.
pub mod Found
use clawrium.Prelude.{
  String, Bool, true, false, not, Option, none, some, List, [], ◌∷◌, if◌then◌else◌, Result, ok,
  ◌>>=◌ as ◌>>=ʳ◌,
}
use clawrium.Json.{Json, Items, Dict, arr, obj, str, nil, empty, entry, get, get_or, put, index}
use clawrium.Json.Lists.{has_item, append_item, remove_str}
use clawrium.Json.Subscript.{holds_key, mapping}
use clawrium.Config.{Exec, pure, lift, ◌>>=◌}
use clawrium.Hosts.Store.{update_host}
use clawrium.Hosts.Registry.{get_host}

-- `if not isinstance(v, list): v = []`
unfoldable pub list_or_empty : Json → Items
list_or_empty (arr xs) = xs
list_or_empty _ = nil

-- The agents of the host, and the record of one of them if that is a dict.
unfoldable pub agent_record : Dict → Json → Option (Dict × Dict)
agent_record agents (obj record') = some (agents, record')
agent_record agents _ = none

unfoldable pub find_agent : String → Json → Result (Option (Dict × Dict))
find_agent agent_key agents = holds_key agent_key agents >>=ʳ λ there.
    if not there then ok none else (mapping agents >>=ʳ λ d. ok (agent_record d (get agent_key d)))

unfoldable pub field_of : String → Option (Dict × Dict) → Items
field_of field none = nil
field_of field (some (agents, record')) = list_or_empty (get_or field (arr nil) record')

-- An edit of a record, or none where the function returns the host as it is.
unfoldable pub store_agent : String → Dict → Dict → Option Dict → Bool × Dict
store_agent agent_key agents h none = (false, h)
store_agent agent_key agents h (some record') =
    (true, put "agents" (obj (put agent_key (obj record') agents)) h)

unfoldable pub edit_found :
    (Dict → Option Dict) → String → Dict → Option (Dict × Dict) → Bool × Dict
edit_found edit agent_key h none = (false, h)
edit_found edit agent_key h (some (agents, record')) = store_agent agent_key agents h (edit record')

unfoldable pub edit_agent : (Dict → Option Dict) → String → Dict → Result (Bool × Dict)
edit_agent edit agent_key h = find_agent agent_key (get_or "agents" (obj empty) h) >>=ʳ λ found.
    ok (edit_found edit agent_key h found)

unfoldable pub attach : String → String → Dict → Option Dict
attach field name record' =
    let current = list_or_empty (get_or field (arr nil) record') in
    if has_item name current
    then none
    else some (put field (arr (append_item (str name) current)) record')

unfoldable pub detach : String → String → Dict → Option Dict
detach field name record' =
    let current = list_or_empty (get_or field (arr nil) record') in
    if has_item name current then some (put field (arr (remove_str name current)) record') else none

-- `hostname = host_data["hostname"]`, `update_host(hostname, updater)`, and the flag.
unfoldable pub edit_host : String → (Dict → Result (Bool × Dict)) → Option Dict → Exec Bool
edit_host now updater none = pure false
edit_host now updater (some host_data) = do
  hostname ← lift (index "hostname" host_data)
  updated ← update_host now hostname false updater
  pure updated.1

unfoldable pub edit_agent_of : String → String → String → (Dict → Option Dict) → Exec Bool
edit_agent_of now host agent_key edit = do
  host_data ← get_host now host
  edit_host now (edit_agent edit agent_key) host_data

-- The agents of one host that hold the name in the field: `(hostname, agent_key)`.
unfoldable pub is_user : String → String → Json → Bool
is_user field name (obj agent) = has_item name (list_or_empty (get_or field (arr nil) agent))
is_user field name _ = false

unfoldable pub users_in : String → String → Json → Dict → List (Json × String)
users_in field name hostname empty = []
users_in field name hostname (entry agent_key agent agents) =
    let rest = users_in field name hostname agents in
    if is_user field name agent then (hostname, agent_key) ∷ rest else rest
