-- ===== src/Tests/Credentials.antt =====
-- Witnesses of the properties of the registry of core/integrations.py.
use clawrium.Prelude.{◌≡◌, refl, true, false, [], ◌∷◌, none, ok, if◌then◌else◌, ◌==◌, ◌&&◌}
use clawrium.Json.{Dict, str, obj, empty, entry}
use clawrium.Config.{Config, missing, holds}
use clawrium.Records.{written}
use clawrium.Hosts.Store.{saved}
use clawrium.Integrations.{
  integration_name_pattern, validate_integration_name, validate_integration_type,
  check_integration_type, load_integrations, save_integrations, add_integration, get_integration,
  get_integration_instance_key, users_of_integration, find_agents_using_integration,
  refuse_assigned, check_unassigned, remove_integration, remove_integration_credentials,
}
use clawrium.Integrations.Registry.{remove_integration_lem}
use clawrium.Secrets.View.{secret_at}
use clawrium.Tests.Fleet.{lab_old}
use clawrium.Tests.Channels.{open_channels}

-- One host, one integration and its credential.
abbrev forge : Config
forge = record {
  hosts = saved (lab_old ∷ []);
  providers = missing;
  channels = missing;
  integrations = written (entry "name" (str "repo") (entry "type" (str "git") empty) ∷ []);
  secrets = holds (
      obj (
        entry "integration:repo" (obj (entry "TOKEN" (obj (entry "value" (str "x") empty)) empty))
          empty));
}

abbrev wiki : Dict
wiki = entry "name" (str "wiki") (entry "type" (str "notion") empty)

-- Opening this opens the registry of integrations.
open_registry : Unit {0}
unfolding open_channels integration_name_pattern validate_integration_name validate_integration_type
    check_integration_type load_integrations save_integrations add_integration get_integration
    get_integration_instance_key users_of_integration find_agents_using_integration refuse_assigned
    check_unassigned remove_integration remove_integration_credentials
open_registry = tt

remove_integration_lem_example :
    ((get_integration "repo" (remove_integration "t0" "repo" false forge).1).0
      ≡ (if "repo" == "repo" then ok none else (get_integration "repo" forge).0))
    × (secret_at "integration:repo" "TOKEN" (remove_integration "t0" "repo" false forge).1 ≡ (
        if true && (get_integration_instance_key "repo" == "integration:repo")
        then none
        else secret_at "integration:repo" "TOKEN" forge))
    × (true ≡ false → (remove_integration "t0" "repo" false forge).1 ≡ forge)
    × ((remove_integration "t0" "repo" false forge).1.hosts ≡ forge.hosts)
    × (false ≡ false → (find_agents_using_integration "t0" "repo" forge).0 ≡ ok [])
unfolding open_registry
remove_integration_lem_example =
    remove_integration_lem "t0" "repo" "repo" "integration:repo" "TOKEN" false forge true refl
