-- ===== src/Hosts/Agents.antt =====
-- core/hosts.py: the agents of a host, the gateway's bearer token, and the search for an agent by
-- its name.
pub mod Names
pub mod Edit
use clawrium.Prelude.{
  String, Bool, true, false, ◌&&◌, ◌||◌, Option, none, some, List, [], ◌∷◌, ◌++◌, ◌==◌,
  if◌then◌else◌, Result, ok, err, value_error,
}
use clawrium.Json.{Json, Dict, str, obj, empty, entry, get, put, pop, has, is_str}
use clawrium.Config.{Exec, pure, lift, ◌>>=◌}
use clawrium.Text.{strip}
use clawrium.Hosts.Store.{load_hosts, update_host}

-- `isinstance(record, dict) and record.get("type") == name`
unfoldable pub has_type : String → Json → Bool
has_type name (obj r) = is_str (get "type" r) name
has_type name _ = false

-- The keys whose records pass the test.
unfoldable pub keys_where : (Json → Bool) → Dict → List String
keys_where p empty = []
keys_where p (entry k v d) = let rest = keys_where p d in if p v then k ∷ rest else rest

-- `if len(matches) == 1: del agents[matches[0]]`
unfoldable pub drop_unique : List String → Dict → Dict
drop_unique (k ∷ []) agents = pop k agents
drop_unique _ agents = agents

unfoldable pub drop_agent : String → Json → Dict → Dict
drop_agent name (obj agents) h =
    put "agents"
      (obj (
        if has name agents
        then pop name agents
        else drop_unique (keys_where (has_type name) agents) agents))
      h
drop_agent name _ h = h

unfoldable pub remove_agent_from_host : String → String → String → Exec (Bool × Unit {0})
remove_agent_from_host now hostname agent_identifier =
    update_host now (str hostname) tt (λ h. ok (tt, drop_agent agent_identifier (get "agents" h) h))

unfoldable pub token_of : Json → String
token_of (str s) = s
token_of _ = ""

-- The value under `auth`: the bare token, or a dict that holds it.
unfoldable pub auth_token : Json → String
unfolding token_of
auth_token (obj raw) = token_of (get "token" raw)
auth_token raw = token_of raw

unfoldable pub read_gateway_auth : Json → String
unfolding auth_token
read_gateway_auth (obj gateway_blob) = auth_token (get "auth" gateway_blob)
read_gateway_auth _ = ""

unfoldable pub set_gateway_auth : Dict → String → Dict
set_gateway_auth gateway_block token = put "auth" (str token) gateway_block

-- One installed agent: its host, its type, and its record.
pub record Match : Type 0 where
  pub host : Dict
  pub agent_type : String
  pub agent : Dict

-- The stored type, or the key of an old record.
unfoldable pub type_or_key : Json → String → String
type_or_key (str t) key = if t == "" then key else t
type_or_key _ key = key

-- The key, `agent_name` or `name` is the query.
unfoldable pub is_called : String → String → Dict → Bool
is_called query key agent =
    key == query || is_str (get "agent_name" agent) query || is_str (get "name" agent) query

unfoldable pub agent_matches : String → Dict → Dict → List Match
agent_matches query host empty = []
agent_matches query host (entry key (obj agent) d) =
    let rest = agent_matches query host d in
    if is_called query key agent
    then record { host = host; agent_type = type_or_key (get "type" agent) key; agent = agent }
      ∷ rest
    else rest
agent_matches query host (entry key _ d) = agent_matches query host d

unfoldable pub host_matches : String → Dict → Json → List Match
host_matches query host (obj agents) = agent_matches query host agents
host_matches query host _ = []

unfoldable pub all_matches : String → List Dict → List Match
all_matches query [] = []
all_matches query (h ∷ hs) = host_matches query h (get "agents" h) ++ all_matches query hs

unfoldable pub the_match : List Match → Result (Option Match)
the_match [] = ok none
the_match (m ∷ []) = ok (some m)
the_match _ = err value_error

unfoldable pub get_agent_by_name : String → String → Exec (Option Match)
get_agent_by_name now agent_name =
    let query = strip agent_name in
    if query == ""
    then pure none
    else do hosts ← load_hosts now; lift (the_match (all_matches query hosts))
