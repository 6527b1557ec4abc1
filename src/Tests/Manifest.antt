-- ===== src/Tests/Manifest.antt =====
-- core/manifest at concrete inputs.
use clawrium.Manifest.Unsettled.{compute-from_disk}
use clawrium.Records.{parse_records}
use clawrium.Providers.{load_providers}
use clawrium.Manifest.NotFound.{execute_apply-new_agent, not_found, Reports, IsReported}
use clawrium.Manifest.Returns.{IsPlain}
use clawrium.Manifest.Converged.{fleet_agrees, compute-is_empty}
use clawrium.Hosts.Store.{parse_hosts, load_hosts, save_hosts}
use clawrium.Manifest.Executor.{
  installed, fresh_run, and_then, created, done, apply_host, create_hosts, create_providers,
  install_agent, installed_on, apply_install, install_agents, upgrade_agents, call_agent,
  configure_providers, call_agents, apply_rest, finish_apply, execute_apply,
}
use clawrium.Manifest.State.{read_providers, read_hosts, from_disk}
use clawrium.Prelude.{
  ok, err, invalid_key_id, Result, ◌≡◌, refl, String, true, false, none, some, List, [], ◌∷◌,
}
use clawrium.Json.{Json, empty, truthy, get_or, find, index, has, put}
use clawrium.Config.{Config, missing}
use clawrium.Manifest.{
  hosts, providers, has_record, op, known_agent, agents, channels, integrations, is_nil, is_empty,
  ResourceMetadata, ManifestResource, AgentResource, ChannelResource, channel, agent, host,
  HostResource, ActualState,
}
use clawrium.Manifest.Differ.{
  settle, host_known, compute_hosts, compute_providers, compute_channels, compute_integrations,
  attach_op, attach_missing, is_desired, detach_extra, reconcile, desired_providers,
  version_settled, desired_text, upgrade, create_agent, reconcile_agent, compute_agent,
  compute_agents, compute,
}
use clawrium.Manifest.Keys.{key_id_pattern, validate_key_id}
use clawrium.Hosts.Registry.{add_host, same_hostname}
use clawrium.Hosts.Migrate.{ensure_addresses}
use clawrium.Text.{codes, is_alnum, every_code, matches_dollar}
use clawrium.Manifest.Steps.{
  same_kind, emit, report_error, host_dict, find_record, named_host, resolved_host,
  resolve_hostname, later_or, by_name, host_failure, private_key, generated_key, bootstrap_key,
  added_host, create_host, Remote, Answer, answered,
}

abbrev titled : String → ResourceMetadata
titled name = record { name = name; labels = empty }

-- An agent that is to start, and a channel.
abbrev scout : AgentResource
scout = record {
  metadata = titled "scout";
  spec = record {
    agent_type = "pi";
    host = some "lab";
    provider = none;
    channels = [];
    integrations = [];
    skills = [];
    version = none;
    config = empty;
    lifecycle = record { auto_start = true; auto_restart = false };
  };
}

abbrev talk : ChannelResource
talk = record {
  metadata = titled "talk";
  spec = record { channel_type = "slack"; allowed_users = [] };
}

abbrev fleet_file : List ManifestResource
fleet_file = agent scout ∷ channel talk ∷ []

abbrev nothing : ActualState
nothing = record { hosts = []; providers = []; channels = []; integrations = []; agents = [] }

abbrev blank : Config
blank = record {
  hosts = missing;
  channels = missing;
  integrations = missing;
  secrets = missing;
  providers = missing;
}

compute-is_empty_example :
    is_empty (compute fleet_file nothing false) ≡ fleet_agrees nothing fleet_file
compute-is_empty_example = compute-is_empty nothing fleet_file

compute-from_disk_example : is_empty (compute fleet_file nothing false) ≡ false
unfolding from_disk load_hosts load_providers parse_hosts parse_records read_hosts read_providers
    is_nil channels integrations
compute-from_disk_example = compute-from_disk "t0" blank fleet_file nothing refl refl

-- A remote side on which all goes well.
abbrev fine : Json → Json → String → Config → Answer × Config
fine hostname claw_type name c = (answered true none, c)

abbrev calm : Remote
calm = record {
  message = λ e. "failed";
  upgrade_text = λ o. "";
  provider_text = λ o. "";
  has_private_key = λ h. ok false;
  generate_host_keypair = λ h. none;
  run_installation =
      λ force claw_type hostname name version c. record { failure = none; events = []; config = c };
  configure_agent = λ hostname claw_type name provider c. (answered true none, c);
  start_agent = fine;
  restart_agent = fine;
  stop_agent = fine;
  remove_agent = fine;
}

-- A new host whose name is no name of a directory, and one whose key is generated.
abbrev new_host : String → HostResource
new_host hostname = record {
  metadata = titled "lab";
  spec = record { hostname = hostname; user = "xclm"; port = 22; bootstrap = true };
}

abbrev applied : List ManifestResource → Result (List String)
applied doc = (execute_apply calm "t0" doc (compute doc nothing false) nothing false blank).0

open_executor : Unit {0}
unfolding known_agent agents settle host_known compute_hosts compute_providers compute_channels
    compute_integrations attach_op attach_missing is_desired detach_extra reconcile
    desired_providers version_settled desired_text upgrade create_agent reconcile_agent
    compute_agent compute_agents compute fresh_run and_then created done apply_host create_hosts
    create_providers install_agent installed_on apply_install install_agents upgrade_agents
    call_agent configure_providers call_agents apply_rest finish_apply execute_apply same_kind emit
    report_error host_dict find_record named_host resolved_host resolve_hostname later_or by_name
    host_failure private_key generated_key bootstrap_key added_host create_host hosts providers
    has_record op channels integrations key_id_pattern validate_key_id installed add_host load_hosts
    parse_hosts save_hosts codes is_alnum every_code matches_dollar truthy get_or find index
    same_hostname ensure_addresses has put
open_executor = tt

execute_apply-new_agent_example :
    Reports calm "t0"
      (not_found "start" "scout")
      (execute_apply calm "t0" fleet_file (compute fleet_file nothing false) nothing false blank)
    × (IsPlain fleet_file nothing
        → IsReported calm "t0" (not_found "start" "scout") (
            execute_apply calm "t0" fleet_file
              (compute fleet_file nothing false)
              nothing
              false
              blank))
unfolding open_executor
execute_apply-new_agent_example =
    execute_apply-new_agent calm "t0" fleet_file nothing "scout" blank refl refl

run_returns : applied fleet_file ≡ ok (not_found "start" "scout" ∷ [])
unfolding open_executor
run_returns = refl

key_raises : applied (host (new_host "fe80::1") ∷ fleet_file) ≡ err invalid_key_id
unfolding open_executor
key_raises = refl
