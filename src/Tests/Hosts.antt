-- ===== src/Tests/Hosts.antt =====
-- Witnesses of the properties of core/hosts.py.
use clawrium.Prelude.{
  ◌≡◌, ◌≢◌, refl, true, false, not, none, some, ok, err, Result, List, [], ◌∷◌, String, ◌⊎◌, sym,
  ok-injective, keep, All, value_error,
}
use clawrium.Json.{
  Dict, null, str, obj, nil, cons, has, get, get_or, find, put, pop, set_default, truthy, as_dict,
  is_str,
}
use clawrium.Json.Lists.{dicts, of_dicts}
use clawrium.Records.{named, find_first}
use clawrium.Text.{strip}
use clawrium.Hosts.Migrate.{
  migrate, ensure_addresses, apply_legacy_defaults, prune_agent_config_mirror, address_entry,
}
use clawrium.Hosts.Store.{
  parse_hosts, check_schema, any_claws, migrate_all, load_hosts, save_hosts, saved, update_host,
}
use clawrium.Hosts.Store.Reload.{load-save-load, UpdateOutcome, update_host-outcome}
use clawrium.Hosts.Registry.{get_host, add_host, remove_host, answers_to}
use clawrium.Hosts.Registry.Lookup.{get_host-add_host, remove_host_lem}
use clawrium.Hosts.Registry.Hostnames.{HasUniqueHosts, add_host-HasUniqueHosts}
use clawrium.Hosts.Addresses.{add_address_to_host, remove_address_from_host, set_primary_address}
use clawrium.Hosts.Addresses.Fleet.{
  HasConsistentHosts, add_address_to_host-HasConsistentHosts,
  remove_address_from_host-HasConsistentHosts, set_primary_address-HasConsistentHosts,
}
use clawrium.Hosts.Agents.{
  Match, get_agent_by_name, is_called, type_or_key, agent_matches, host_matches, all_matches,
  the_match,
}
use clawrium.Hosts.Agents.Names.{
  At, Installed, get_agent_by_name-Installed, get_agent_by_name_sound,
}
use clawrium.Tests.Fleet.{fleet, lab, desk, desk_new, scout}

-- Opening this opens the reading of hosts.json.
unfoldable pub open_load : Unit {0}
unfolding has get get_or find put pop set_default truthy as_dict is_str dicts of_dicts named migrate
    ensure_addresses apply_legacy_defaults prune_agent_config_mirror address_entry parse_hosts
    check_schema any_claws migrate_all load_hosts answers_to
open_load = tt

load-save-load_example :
    load_hosts "t1" (save_hosts (lab ∷ []) fleet).1
    ≡ (ok (lab ∷ []), record fleet { hosts = saved (lab ∷ []) })
unfolding open_load
load-save-load_example = load-save-load "t0" "t1" fleet (lab ∷ []) refl

abbrev rename : Dict → Result (Unit {0} × Dict)
rename h = ok (tt, put "alias" (str "bench") h)

update_host-outcome_example :
    UpdateOutcome "t1"
      (str "10.0.0.1")
      tt
      rename
      fleet
      (update_host "t1" (str "10.0.0.1") tt rename fleet)
update_host-outcome_example = update_host-outcome "t1" (str "10.0.0.1") tt rename fleet

get_host-add_host_example :
    ((add_host "t0" desk_new fleet).0 ≡ ok tt)
    × ((get_host "t1" "desk" (add_host "t0" desk_new fleet).1).0 ≡ ok (some desk))
unfolding open_load
get_host-add_host_example =
    get_host-add_host "t0" "t1" "desk" desk_new desk fleet (lab ∷ []) refl (refl, tt) refl refl refl

remove_host_lem_example :
    ((find_first (named "hostname" "10.0.0.1") (lab ∷ []) ≡ none)
      × (remove_host "t0" "10.0.0.1" fleet ≡ (ok false, fleet)))
    ⊎ ((hs' : List Dict) × (find_first (named "hostname" "10.0.0.1") (lab ∷ []) ≢ none)
        × ((remove_host "t0" "10.0.0.1" fleet).0 ≡ ok true)
        × (parse_hosts "t1" (remove_host "t0" "10.0.0.1" fleet).1.hosts ≡ ok hs')
        × (hs' ≡ keep (λ h. not (named "hostname" "10.0.0.1" h)) (lab ∷ []))
        × All (λ h. named "hostname" "10.0.0.1" h ≡ false) hs')
unfolding open_load
remove_host_lem_example = remove_host_lem "t0" "t1" "10.0.0.1" fleet (lab ∷ []) refl

fleet-HasUniqueHosts : HasUniqueHosts fleet
unfolding open_load
fleet-HasUniqueHosts now hs e = rw (sym (ok-injective _ _ e)) ((λ s n. tt), tt)

add_host-HasUniqueHosts_example : HasUniqueHosts (add_host "t0" desk_new fleet).1
unfolding open_load
add_host-HasUniqueHosts_example =
    add_host-HasUniqueHosts "t0" "desk" desk_new fleet refl fleet-HasUniqueHosts

fleet-HasConsistentHosts : HasConsistentHosts fleet
unfolding open_load
fleet-HasConsistentHosts now hs e = rw (sym (ok-injective _ _ e)) (
  record {
    name = "10.0.0.1";
    entries = cons (obj (address_entry (str "10.0.0.1") true null (str now))) nil;
    hostname = refl;
    addresses = refl;
    one_primary = refl;
    distinct = (tt, tt);
  },
  tt,
)

add_address_to_host-HasConsistentHosts_example :
    HasConsistentHosts (add_address_to_host "t0" "lab" "10.0.0.2" null fleet).1
add_address_to_host-HasConsistentHosts_example =
    add_address_to_host-HasConsistentHosts "t0" "lab" "10.0.0.2" null fleet fleet-HasConsistentHosts

remove_address_from_host-HasConsistentHosts_example :
    HasConsistentHosts (remove_address_from_host "t0" "lab" "10.0.0.2" fleet).1
remove_address_from_host-HasConsistentHosts_example =
    remove_address_from_host-HasConsistentHosts "t0" "lab" "10.0.0.2" fleet fleet-HasConsistentHosts

set_primary_address-HasConsistentHosts_example :
    HasConsistentHosts (set_primary_address "t0" "lab" "10.0.0.1" fleet).1
set_primary_address-HasConsistentHosts_example =
    set_primary_address-HasConsistentHosts "t0" "lab" "10.0.0.1" fleet fleet-HasConsistentHosts

scout-Installed : Installed "scout" scout lab (lab ∷ [])
unfolding open_load
scout-Installed = Installed.first refl At.here

get_agent_by_name-Installed_example :
    (get_agent_by_name "t0" "scout" fleet ≡ (
      ok (
          some (record {
            host = lab;
            agent_type = type_or_key (get "type" scout) "scout";
            agent = scout;
          })),
      fleet,
    ))
    ⊎ (get_agent_by_name "t0" "scout" fleet ≡ (err value_error, fleet))
unfolding open_load strip is_called
get_agent_by_name-Installed_example =
    get_agent_by_name-Installed "t0" "scout" "scout" scout lab (lab ∷ []) fleet refl refl
      scout-Installed refl

abbrev scout_match : Match
scout_match = record { host = lab; agent_type = "hermes"; agent = scout }

get_agent_by_name_sound_example :
    (key : String) × Installed key scout lab (lab ∷ [])
    × (is_called (strip " scout") key scout ≡ true)
unfolding open_load strip is_called get_agent_by_name agent_matches host_matches all_matches
    the_match type_or_key
get_agent_by_name_sound_example =
    get_agent_by_name_sound "t0" " scout" scout_match (lab ∷ []) fleet refl refl
