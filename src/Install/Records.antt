-- ===== src/Install/Records.antt =====
-- core/install.py: the installations that are not complete, their removal, the record of a failure,
-- and the name of a new agent.
use clawrium.Prelude.{
  attribute_error, String, Bool, true, false, not, ◌&&◌, ◌||◌, Option, none, some, List, [], ◌∷◌,
  ◌==◌, map, keep, if◌then◌else◌, Result, ok, err, ◌>>=◌, type_error, attribute_error,
  incomplete_installation, installation_error,
}
use clawrium.Json.{
  Json, Dict, null, str, arr, obj, empty, entry, get, get_or, put, pop, has, index, is_str, truthy,
  as_dict,
}
use clawrium.Json.Subscript.{holds_key, mapping}
use clawrium.Names.{is_name_available_on_host}

pub record Incomplete : Type 0 where
  pub status : Json
  pub installed_at : Json
  pub error : Json
  pub agent_name : String
  pub version : Json

unfoldable pub is_null : Json → Bool
is_null null = true
is_null _ = false

-- `status in {"installing", "failed"} or (status is not None and installed_at is None)`: a list
-- or a dict has no hash and raises `TypeError`.
unfoldable pub is_incomplete : Json → Json → Result Bool
is_incomplete (arr _) installed_at = err type_error
is_incomplete (obj _) installed_at = err type_error
is_incomplete status installed_at = ok (
    is_str status "installing"
    || is_str status "failed"
    || (not (is_null status) && is_null installed_at))

unfoldable pub details : String → Dict → Incomplete
details agent_key existing = record {
  status = get "status" existing;
  installed_at = get "installed_at" existing;
  error = get "error" existing;
  agent_name = agent_key;
  version = get "version" existing;
}

unfoldable pub add_incomplete :
    String → String → Dict → Result (List Incomplete) → Result (List Incomplete)
add_incomplete claw_name agent_key existing rest =
    if is_str (get "type" existing) claw_name
    then (do
      flag ← is_incomplete (get "status" existing) (get "installed_at" existing)
      more ← rest
      ok (if flag then details agent_key existing ∷ more else more))
    else rest

unfoldable pub incomplete_agents : String → Dict → Result (List Incomplete)
incomplete_agents claw_name empty = ok []
incomplete_agents claw_name (entry agent_key (obj existing) more) =
    add_incomplete claw_name agent_key existing (incomplete_agents claw_name more)
incomplete_agents claw_name (entry agent_key _ more) = incomplete_agents claw_name more

unfoldable pub incomplete_in : String → Json → Result (List Incomplete)
incomplete_in claw_name (obj agents) = incomplete_agents claw_name agents
incomplete_in claw_name _ = ok []

unfoldable pub get_incomplete_installation_details : Dict → String → Result (List Incomplete)
get_incomplete_installation_details host claw_name =
    incomplete_in claw_name (get_or "agents" (obj empty) host)

unfoldable pub agent_keys_to_remove : List Incomplete → List String
agent_keys_to_remove found = keep (λ k. not (k == "")) (map (λ i. i.agent_name) found)

unfoldable pub remove_keys : List String → Json → Result Json
remove_keys [] agents = ok agents
remove_keys (k ∷ ks) agents = do
  there ← holds_key k agents
  if there then (do d ← mapping agents; remove_keys ks (obj (pop k d))) else remove_keys ks agents

unfoldable pub cleanup_agents : List String → Dict → Result Dict
cleanup_agents ks h =
    if has "agents" h
    then (do agents ← remove_keys ks (get "agents" h); ok (put "agents" agents h))
    else ok h

-- `for locked_item in locked_incomplete_list`
unfoldable pub refuse_installing : Dict → List Incomplete → Result (Unit {0})
refuse_installing h [] = ok tt
refuse_installing h (item ∷ more) =
    if is_str item.status "installing"
    then (do hostname ← index "hostname" h; err incomplete_installation)
    else refuse_installing h more

unfoldable pub check_locked : Bool → Bool → String → Dict → Result (Unit {0})
check_locked cleanup_failed resume claw_name h =
    if not cleanup_failed && not resume
    then (do found ← get_incomplete_installation_details h claw_name; refuse_installing h found)
    else ok tt

-- `generated` are the names that `generate_random_name` returns at the ten attempts: the first that
-- is free is taken.
unfoldable pub first_available : Dict → List String → Result String
first_available h [] = err installation_error
first_available h (candidate ∷ more) = do
  free ← is_name_available_on_host candidate h
  if free then ok candidate else first_available h more

unfoldable pub may_replace : String → Json → Result String
may_replace name (obj existing) =
    if is_str (get "status" existing) "installed" || is_str (get "status" existing) "failed"
    then ok name
    else err installation_error
may_replace name existing = if truthy existing then err attribute_error else err installation_error

unfoldable pub choose_name : List String → Option String → Bool → Dict → Result String
choose_name generated none resume h = first_available h generated
choose_name generated (some name) true h = ok name
choose_name generated (some name) false h = do
  free ← is_name_available_on_host name h
  if free
      then ok name
      else (do agents ← as_dict (get_or "agents" (obj empty) h); may_replace name (get name agents))

-- What the installation keeps of the record that it replaces.
unfoldable pub preserve : Dict → Dict
preserve existing = entry "providers" (get "providers" existing) (
    entry "channels" (get "channels" existing) (
      entry "integrations" (get "integrations" existing)
        (entry "skills" (get "skills" existing) empty)))

-- `preserved_attachments`: the attachments of the record that the installation has replaced.
unfoldable pub restore : Dict → Dict → Dict
restore empty agent = agent
restore (entry key null more) agent = restore more agent
restore (entry key v more) agent = restore more (put key v agent)

unfoldable pub fresh_record : String → Json → String → Dict
fresh_record claw_name matched_version agent_name =
    entry "type" (str claw_name)
      (entry "version" matched_version (entry "agent_name" (str agent_name) empty))

unfoldable pub failed_record : String → String → Dict → Dict → Dict
failed_record claw_name error_msg preserved agent = restore preserved (
    put "installed_at" null (
      put "error" (str error_msg) (put "status" (str "failed") (put "type" (str claw_name) agent))))

unfoldable pub set_failed : String → String → Json → String → Dict → Dict → Result Dict
set_failed agent_name claw_name matched_version error_msg preserved h = do
  there ← holds_key agent_name (get_or "agents" (obj empty) h)
  agents ← mapping (get_or "agents" (obj empty) h)
  agent ← mapping (
      if there
      then get agent_name agents
      else obj (fresh_record claw_name matched_version agent_name))
  ok (
      put "agents"
        (obj (put agent_name (obj (failed_record claw_name error_msg preserved agent)) agents)) h)
