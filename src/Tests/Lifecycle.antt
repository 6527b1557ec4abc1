-- ===== src/Tests/Lifecycle.antt =====
-- core/lifecycle.py at a concrete input: `pi` is no key, and the type of one agent.
use clawrium.Lifecycle.{
  typed, typed_record, wanted_type, with_match, matches, only_match, resolve_among, resolve_agents,
  resolve_agent_record,
}
use clawrium.Lifecycle.Resolve.{Resolved, resolve_agent_record_lem}
use clawrium.Json.{Dict, str, obj, empty, entry, find, get, get_or}
use clawrium.Prelude.{refl, none}

abbrev ivy : Dict
ivy = entry "type" (str "pi") empty

abbrev agents : Dict
agents = entry "ivy" (obj ivy) (entry "scout" (obj (entry "type" (str "hermes") empty)) empty)

resolve_agent_record_lem_example :
    Resolved "pi" none agents (record { agent_key = "ivy"; agent_type = "pi"; agent = ivy })
unfolding find get get_or typed typed_record wanted_type with_match matches only_match resolve_among
    resolve_agents resolve_agent_record
resolve_agent_record_lem_example =
    resolve_agent_record_lem (entry "agents" (obj agents) empty) agents "pi" none
      (record { agent_key = "ivy"; agent_type = "pi"; agent = ivy }) refl (refl, (refl, tt)) refl
