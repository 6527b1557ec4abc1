-- ===== src/Tests/Integrations.antt =====
-- Witnesses of the properties of core/integrations.py.
use clawrium.Prelude.{◌≡◌, refl, true, not, List, [], ◌∷◌, ok, if◌then◌else◌}
use clawrium.Json.{
  Dict, str, empty, entry, find, get, get_or, put, index, has, truthy, as_dict, is_str,
}
use clawrium.Json.Subscript.{holds_key, mapping}
use clawrium.Json.Equality.{py_eq}
use clawrium.Json.Lists.{dicts, of_dicts, has_item, append_item}
use clawrium.Config.{Config, missing}
use clawrium.Records.{named, same, find_first, update_first, written, parse_records, list_of_dicts}
use clawrium.Hosts.Store.{saved, parse_hosts, update_host, commit_hosts, save_hosts}
use clawrium.Hosts.Registry.{get_host}
use clawrium.Hosts.Agents.Edit.{list_or_empty, find_agent, agent_record}
use clawrium.Integrations.{load_integrations}
use clawrium.Integrations.Agents.{
  add_agent_integration, get_agent_integrations, target_type_of, add_on_host, attach_on_host,
  attach_found, attach_integration, store_attempt, report, check_singleton, is_singleton,
  all_hashable, hashable, conflicts, type_of, in_map,
}
use clawrium.Integrations.Agents.Singleton.{integrations_in, IsFreeOf}
use clawrium.Integrations.Agents.Added.{add_agent_integration_lem}
use clawrium.Tests.Fleet.{lab, lab_old, scout}
use clawrium.Tests.Hosts.{open_load}
use clawrium.Tests.Channels.{lab-Unique, lab_scout}

-- One host, and one integration of type git.
abbrev works : Config
works = record {
  hosts = saved (lab_old ∷ []);
  providers = missing;
  channels = missing;
  integrations = written (entry "name" (str "repo") (entry "type" (str "git") empty) ∷ []);
  secrets = missing;
}

-- Opening this opens the attachment of an integration.
open_integrations : Unit {0}
unfolding open_load find_first update_first same py_eq get_host update_host commit_hosts save_hosts
    parse_records list_of_dicts dicts of_dicts load_integrations add_agent_integration
    target_type_of add_on_host attach_on_host attach_found attach_integration store_attempt report
    check_singleton is_singleton all_hashable hashable conflicts type_of in_map find_agent
    agent_record holds_key mapping has_item append_item list_or_empty named has get index get_or
    find put truthy as_dict is_str
open_integrations = tt

works_loaded : parse_hosts "t0" works.hosts ≡ ok (lab ∷ [])
unfolding open_load
works_loaded = refl

add_agent_integration_lem_example :
    (true ≡ not (has_item "repo" (integrations_in scout)))
    × ((get_agent_integrations "t1" "lab" "scout"
          (add_agent_integration "t0" "lab" "scout" "repo" works).1).0
        ≡ ok (
            if true
            then append_item (str "repo") (integrations_in scout)
            else integrations_in scout))
    × (true ≡ true
        → (target_type_of "repo" works).0 ≡ ok (str "git")
        → (is : List Dict) → (load_integrations works).0 ≡ ok is
        → IsFreeOf (str "git") is (integrations_in scout))
unfolding open_integrations
add_agent_integration_lem_example =
    add_agent_integration_lem "t0" "t1" "lab" "scout" "repo" works (lab ∷ []) works_loaded
      lab-Unique lab_scout true refl
