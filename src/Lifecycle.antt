-- ===== src/Lifecycle.antt =====
-- core/lifecycle.py: the search for the agent that a start, a stop or a configuration means, and
-- the record of its process. What these operations do on the hosts is not modelled.
pub mod Resolve
use clawrium.Prelude.{
  String, Bool, true, false, not, Option, none, some, List, [], ◌∷◌, ◌==◌, if◌then◌else◌, Result,
  ok, err, ◌>>=◌, lifecycle_error,
}
use clawrium.Json.{Json, Dict, str, obj, empty, entry, get, get_or, put}
use clawrium.Json.Subscript.{holds_key, mapping}
use clawrium.Config.{Exec}
use clawrium.Hosts.Store.{update_host}

-- The key of an agent, its type and its record.
pub record Found : Type 0 where
  pub agent_key : String
  pub agent_type : String
  pub agent : Dict

-- `ALIAS_TO_CANONICAL.get(agent_type, agent_type)`
unfoldable pub resolve_agent_type : String → String
resolve_agent_type agent_type =
    if agent_type == "opc"
    then "openclaw"
    else if agent_type == "zc"
    then "zeroclaw"
    else agent_type

unfoldable pub typed : String → Dict → Json → Option Found
typed key r (str t) =
    if t == "" then none else some (record { agent_key = key; agent_type = t; agent = r })
typed key r _ = none

-- A record that is a dict with a type.
unfoldable pub typed_record : String → Json → Option Found
unfolding typed
typed_record key (obj r) = typed key r (get "type" r)
typed_record key _ = none

-- `expected_type or identifier`, the type that the search is for.
unfoldable pub wanted_type : Option String → String → String
wanted_type none identifier = identifier
wanted_type (some expected) identifier = if expected == "" then identifier else expected

unfoldable pub with_match : String → Option Found → List Found → List Found
with_match wanted none rest = rest
with_match wanted (some f) rest = if f.agent_type == wanted then f ∷ rest else rest

unfoldable pub matches : String → Dict → List Found
matches wanted empty = []
matches wanted (entry key v more) = with_match wanted (typed_record key v) (matches wanted more)

unfoldable pub only_match : List Found → Result (Option Found)
only_match [] = ok none
only_match (f ∷ []) = ok (some f)
only_match (f ∷ g ∷ more) = err lifecycle_error

-- `if expected_type and direct_type != expected_type: return None`
unfoldable pub as_expected : Option String → Option Found → Option Found
as_expected expected none = none
as_expected expected (some f) =
    if wanted_type expected f.agent_type == f.agent_type then some f else none

unfoldable pub resolve_among : String → Option String → Json → Dict → Result (Option Found)
resolve_among identifier expected (obj direct) agents =
    ok (as_expected expected (typed_record identifier (obj direct)))
resolve_among identifier expected _ agents =
    only_match (matches (wanted_type expected identifier) agents)

unfoldable pub resolve_agents : String → Option String → Json → Result (Option Found)
resolve_agents identifier expected (obj agents) =
    resolve_among identifier expected (get identifier agents) agents
resolve_agents identifier expected _ = ok none

unfoldable pub resolve_agent_record : Dict → String → Option String → Result (Option Found)
resolve_agent_record host identifier expected =
    resolve_agents identifier expected (get_or "agents" (obj empty) host)

unfoldable pub set_runtime : String → Json → Dict → Result Dict
set_runtime agent_key runtime_data h = do
  there ← holds_key agent_key (get_or "agents" (obj empty) h)
  agents ← mapping (get_or "agents" (obj empty) h)
  agent ← mapping (if there then get agent_key agents else obj empty)
  ok (put "agents" (obj (put agent_key (obj (put "runtime" runtime_data agent)) agents)) h)

unfoldable pub update_agent_runtime : String → String → String → Json → Exec (Bool × Unit {0})
update_agent_runtime now hostname agent_key runtime_data =
    update_host now (str hostname) tt
      (λ h. do h1 ← set_runtime agent_key runtime_data h; ok (tt, h1))
