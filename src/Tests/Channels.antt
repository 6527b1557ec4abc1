-- ===== src/Tests/Channels.antt =====
-- Witnesses of the properties of core/channels.py.
use clawrium.Secrets.{save_secrets, parse_secrets, load_secrets, remove_instance_secrets}
use clawrium.Hosts.Agents.Edit.{list_or_empty, is_user, users_in}
use clawrium.Json.Equality.{py_eq}
use clawrium.Json.Subscript.{holds_key}
use clawrium.Hosts.Registry.{answers_to}
use clawrium.Text.{is_alnum, every_code, is_letter, matches_dollar}
use clawrium.Prelude.{
  ◌≡◌, refl, true, false, not, [], ◌∷◌, some, none, ok, if◌then◌else◌, ◌==◌, ◌&&◌,
}
use clawrium.Json.{
  set_default, is_str, as_dict, truthy, pop, str, obj, empty, entry, find, get, get_or, put, has,
}
use clawrium.Json.Lists.{of_dicts, dicts, has_item, append_item}
use clawrium.Config.{Config, missing, holds}
use clawrium.Records.{named, list_of_dicts, same, any_record, parse_records, find_first, written}
use clawrium.Hosts.Store.{saved, parse_hosts}
use clawrium.Hosts.Registry.Hostnames.{Unique}
use clawrium.Hosts.Agents.Edit.Found.{Resolves}
use clawrium.Channels.{
  remove_channel_credentials, refuse_used, agents_or_empty, users_of_channel, check_unused,
  validate_stream_mode, save_channels, load_channels, check_config, is_one_of,
  validate_channel_type, check_type, channel_name_pattern, validate_channel_name, add_channel,
  get_channel, remove_channel, stamp, get_channel_instance_key, find_agents_using_channel,
}
use clawrium.Channels.Agents.{get_agent_channels, add_agent_channel}
use clawrium.Channels.Removal.{remove_channel_lem}
use clawrium.Channels.Attached.{channels_in, get_agent_channels-add_agent_channel}
use clawrium.Secrets.View.{secret_at}
use clawrium.Tests.Fleet.{lab, lab_old, scout}
use clawrium.Tests.Hosts.{open_load}

-- Opening this opens the registry of channels.
unfoldable pub open_channels : Unit {0}
unfolding open_load add_channel validate_channel_name matches_dollar channel_name_pattern is_letter
    every_code is_alnum check_type validate_channel_type is_one_of check_config holds_key
    load_channels parse_records any_record same py_eq save_channels stamp validate_stream_mode
    list_of_dicts remove_channel check_unused find_agents_using_channel users_of_channel
    agents_or_empty refuse_used users_in is_user has_item list_or_empty remove_channel_credentials
    remove_instance_secrets load_secrets parse_secrets get_channel_instance_key save_secrets has
    find get get_or put pop truthy as_dict is_str dicts of_dicts set_default named
open_channels = tt

-- One host, one channel, one stored credential.
abbrev pub office : Config
office = record {
  hosts = saved (lab_old ∷ []);
  providers = missing;
  channels = written (entry "name" (str "ops") (entry "type" (str "slack") empty) ∷ []);
  integrations = missing;
  secrets = holds (
      obj (
        entry "channel:ops" (obj (entry "BOT_TOKEN" (obj (entry "value" (str "x") empty)) empty))
          empty));
}

remove_channel_lem_example :
    ((get_channel "ops" (remove_channel "t0" "ops" false office).1).0
      ≡ (if "ops" == "ops" then ok none else (get_channel "ops" office).0))
    × (secret_at "channel:ops" "BOT_TOKEN" (remove_channel "t0" "ops" false office).1 ≡ (
        if true && (get_channel_instance_key "ops" == "channel:ops")
        then none
        else secret_at "channel:ops" "BOT_TOKEN" office))
    × (true ≡ false → (remove_channel "t0" "ops" false office).1 ≡ office)
    × ((remove_channel "t0" "ops" false office).1.hosts ≡ office.hosts)
    × (false ≡ false → (find_agents_using_channel "t0" "ops" office).0 ≡ ok [])
unfolding open_channels
remove_channel_lem_example =
    remove_channel_lem "t0" "ops" "ops" "channel:ops" "BOT_TOKEN" false office true refl

pub lab-Unique : Unique (lab ∷ [])
lab-Unique = ((λ s n. tt), tt)

pub lab_facts :
    (find_first (answers_to "lab") (lab ∷ []) ≡ some lab)
    × (find "hostname" lab ≡ some (str "10.0.0.1"))
    × (find "agents" lab ≡ some (obj (entry "scout" (obj scout) empty)))
    × (find "scout" (entry "scout" (obj scout) empty) ≡ some (obj scout))
unfolding open_load find_first
lab_facts = (refl, refl, refl, refl)

abbrev pub lab_scout : Resolves "lab" "scout" (lab ∷ [])
lab_scout = record {
  name = "10.0.0.1";
  host_data = lab;
  agents = entry "scout" (obj scout) empty;
  agent = scout;
  found = lab_facts.0;
  hostname = lab_facts.1;
  agents_there = lab_facts.2;
  agent_there = lab_facts.3;
}

pub office_loaded : parse_hosts "t0" office.hosts ≡ ok (lab ∷ [])
unfolding open_load
office_loaded = refl

get_agent_channels-add_agent_channel_example :
    ((add_agent_channel "t0" "lab" "scout" "ops" office).0
      ≡ ok (not (has_item "ops" (channels_in scout))))
    × ((get_agent_channels "t1" "lab" "scout"
          (add_agent_channel "t0" "lab" "scout" "ops" office).1).0
        ≡ ok (
            if has_item "ops" (channels_in scout)
            then channels_in scout
            else append_item (str "ops") (channels_in scout)))
get_agent_channels-add_agent_channel_example =
    get_agent_channels-add_agent_channel "t0" "t1" "lab" "scout" office (lab ∷ []) office_loaded
      lab-Unique lab_scout "ops"
