-- ===== src/Integrations.antt =====
-- core/integrations.py: the registry of integrations, integrations.json.
pub mod Agents
pub mod Table
pub mod Registry
use clawrium.Prelude.{
  ℕ, String, ◌<>◌, Bool, true, false, not, ◌&&◌, ◌||◌, Option, none, some, List, [], ◌∷◌, ◌++◌,
  ◌==◌, leb, nat_eq, if◌then◌else◌, length, keep, contains, Result, ok, err, integrations_corrupted,
  duplicate_integration, invalid_integration_type, invalid_integration_name, integration_in_use,
  type_error, ◌>>=◌ as ◌>>=ʳ◌,
}
use clawrium.Json.{
  Json, Items, Dict, null, str, arr, obj, empty, entry, get, get_or, truthy, as_dict,
}
use clawrium.Config.{Config, Exec, pure, raise, lift, reads, modify, ◌>>=◌, ◌>>◌}
use clawrium.Text.{codes, every_code, is_letter, is_alnum, matches_dollar}
use clawrium.Records.{named, same, find_first, update_first, any_record, parse_records, written}
use clawrium.Hosts.Store.{load_hosts}
use clawrium.Hosts.Agents.Edit.{users_in}
use clawrium.Secrets.{set_instance_secret, get_instance_secrets, remove_instance_secrets}
use clawrium.Channels.{stamp}

-- `[a-zA-Z][a-zA-Z0-9_-]{0,63}`
unfoldable pub integration_name_pattern : List ℕ → Bool
integration_name_pattern [] = false
integration_name_pattern (c ∷ cs) =
    is_letter c
    && every_code (λ d. is_alnum d || nat_eq d b'_' || nat_eq d b'-') cs
    && leb (length cs) 63

unfoldable pub validate_integration_name : Json → Result (Unit {0})
validate_integration_name (str name) =
    if matches_dollar integration_name_pattern (codes name)
    then ok tt
    else err invalid_integration_name
validate_integration_name _ = err invalid_integration_name

-- The keys of `INTEGRATION_TYPES`.
abbrev pub integration_types : List String
integration_types =
    "github" ∷ "gitlab" ∷ "atlassian" ∷ "linear" ∷ "notion" ∷ "brave" ∷ "slack-user"
    ∷ "slack-cookie" ∷ "git" ∷ []

-- `in` of a dict wants a hashable value.
unfoldable pub validate_integration_type : Json → Result (Unit {0})
validate_integration_type (str t) =
    if contains integration_types t then ok tt else err invalid_integration_type
validate_integration_type (arr _) = err type_error
validate_integration_type (obj _) = err type_error
validate_integration_type _ = err invalid_integration_type

unfoldable pub get_integration_instance_key : String → String
get_integration_instance_key integration_name = "integration:" <> integration_name

unfoldable pub set_integration_credential : String → String → String → String → String → Exec Bool
set_integration_credential now integration_name key value description =
    set_instance_secret now (get_integration_instance_key integration_name) key value
      (if description == "" then key <> " for integration " <> integration_name else description)

-- `isinstance(entry, dict) and (v := entry.get("value")) is not None`
unfoldable pub value_or_none : Json → Option Json
value_or_none (obj e) = elim (get "value" e) [ null ↦ none | v ↦ some v ]
value_or_none _ = none

unfoldable pub keep_value : String → Option Json → Dict → Dict
keep_value key none d = d
keep_value key (some v) d = entry key v d

unfoldable pub credential_values : Dict → Dict
credential_values empty = empty
credential_values (entry key e d) = keep_value key (value_or_none e) (credential_values d)

unfoldable pub get_integration_credentials : String → Exec Dict
get_integration_credentials integration_name = do
  secrets ← get_instance_secrets (get_integration_instance_key integration_name)
  d ← lift (as_dict secrets)
  pure (credential_values d)

unfoldable pub remove_integration_credentials : String → Exec Bool
remove_integration_credentials integration_name =
    remove_instance_secrets (get_integration_instance_key integration_name)

unfoldable pub load_integrations : Exec (List Dict)
load_integrations = reads (λ c. parse_records integrations_corrupted c.integrations)

unfoldable pub save_integrations : List Dict → Exec (Unit {0})
save_integrations integrations = modify (λ c. record c { integrations = written integrations })

unfoldable pub check_integration_type : Json → Result (Unit {0})
check_integration_type integration_type =
    if truthy integration_type then validate_integration_type integration_type else ok tt

unfoldable pub add_integration : String → Dict → Exec (Unit {0})
add_integration now integration = do
  lift (validate_integration_name (get "name" integration))
  lift (check_integration_type (get "type" integration))
  integrations ← load_integrations
  if any_record (same "name" (get "name" integration)) integrations
      then raise duplicate_integration
      else save_integrations (integrations ++ (stamp now integration ∷ []))

unfoldable pub get_integration : String → Exec (Option Dict)
get_integration name = do
  integrations ← load_integrations
  pure (find_first (named "name" name) integrations)

unfoldable pub commit_integrations : Option (Unit {0} × List Dict) → Exec Bool
commit_integrations none = pure false
commit_integrations (some (u, integrations)) = do save_integrations integrations; pure true

unfoldable pub update_integration : String → (Dict → Result Dict) → Exec Bool
update_integration name updater = do
  integrations ← load_integrations
  updated ←
      lift (update_first (named "name" name) (λ i. updater i >>=ʳ λ i'. ok (tt, i')) integrations)
  commit_integrations updated

unfoldable pub users_of_integration : String → List Dict → Result (List (Json × String))
users_of_integration integration_name [] = ok []
users_of_integration integration_name (h ∷ hs) =
    as_dict (get_or "agents" (obj empty) h) >>=ʳ λ agents.
    users_of_integration integration_name hs >>=ʳ λ results.
    ok (users_in "integrations" integration_name (get_or "hostname" (str "") h) agents ++ results)

unfoldable pub find_agents_using_integration : String → String → Exec (List (Json × String))
find_agents_using_integration now integration_name = do
  hosts ← load_hosts now
  lift (users_of_integration integration_name hosts)

-- `if agents_using: raise IntegrationInUseError`
unfoldable pub refuse_assigned : List (Json × String) → Result (Unit {0})
refuse_assigned [] = ok tt
refuse_assigned (a ∷ agents_using) = err integration_in_use

unfoldable pub check_unassigned : String → String → Bool → Exec (Unit {0})
check_unassigned now name true = pure tt
check_unassigned now name false = do
  agents_using ← find_agents_using_integration now name
  lift (refuse_assigned agents_using)

unfoldable pub remove_integration : String → String → Bool → Exec Bool
remove_integration now name force = do
  check_unassigned now name force
  integrations ← load_integrations
  let filtered = keep (λ i. not (named "name" name i)) integrations
  if nat_eq (length filtered) (length integrations)
      then pure false
      else do remove_integration_credentials name; save_integrations filtered; pure true
