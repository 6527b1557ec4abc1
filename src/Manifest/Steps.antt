-- ===== src/Manifest/Steps.antt =====
-- core/manifest/executor.py: the calls that the executor makes, one by one. What install.py,
-- lifecycle.py and the key files of keys.py do is a parameter, and so are the texts of exceptions and of
-- what Python prints for a value.
use clawrium.Prelude.{
  String, ◌<>◌, Bool, true, false, Option, none, some, List, [], ◌∷◌, ◌++◌, ◌==◌, if◌then◌else◌,
  contains, ◌>>=◌, Result, ok, err, Error, duplicate_host, duplicate_provider,
}
use clawrium.Json.{
  is_str, Json, Dict, null, bool, num, str, arr, obj, nil, cons, empty, entry, index, truthy, put,
}
use clawrium.Config.{Config}
use clawrium.Hosts.Registry.{add_host}
use clawrium.Providers.{add_provider}
use clawrium.Manifest.Keys.{validate_key_id}
use clawrium.Manifest.{
  channel_kind, integration_kind, agent_kind, provider_kind, host_kind, Kind, Op, AttachOp,
  ActualState, Records, HostResource, ProviderResource,
}

-- What a call of lifecycle.py returns, `success` and `error`, or raises.
pub data Answer : Type 0 where
  raised : String → Answer
  answered : Bool → Option String → Answer

-- What an installation raises if it does, the events it emits, and the files it leaves.
pub record Installed : Type 0 where
  pub failure : Option String
  pub events : List (String × String)
  pub config : Config

-- `has_private_key` is the part of get_host_private_key that asks the file system, after the name of
-- the directory is validated: it may raise, if the directory leads out of the one of the keys.
pub record Remote : Type 0 where
  pub message : Error → String
  pub upgrade_text : Op → String
  pub provider_text : AttachOp → String
  pub has_private_key : String → Result Bool
  pub generate_host_keypair : String → Option String
  pub run_installation : Bool → String → Json → String → Option String → Config → Installed
  pub configure_agent : Json → Json → String → Json → Config → Answer × Config
  pub start_agent : Json → Json → String → Config → Answer × Config
  pub restart_agent : Json → Json → String → Config → Answer × Config
  pub stop_agent : Json → Json → String → Config → Answer × Config
  pub remove_agent : Json → Json → String → Config → Answer × Config

-- The files, the key pairs that were generated, what was emitted, and the errors, in the order in
-- which they came.
pub record Run : Type 0 where
  pub config : Config
  pub keys : List String
  pub events : List (String × String)
  pub errors : List String

unfoldable pub same_kind : Kind → Kind → Bool
same_kind host_kind host_kind = true
same_kind provider_kind provider_kind = true
same_kind channel_kind channel_kind = true
same_kind integration_kind integration_kind = true
same_kind agent_kind agent_kind = true
same_kind _ _ = false

unfoldable pub emit : String → String → Run → Run
emit action resource run = record run { events = run.events ++ ((action, resource) ∷ []) }

-- `if err: errors.append(f"{prefix}: {err}")`
unfoldable pub report_error : String → Option String → Run → Run
report_error prefix none run = run
report_error prefix (some e) run =
    if e == "" then run else record run { errors = run.errors ++ ((prefix <> ": " <> e) ∷ []) }

-- `result.get("error") or "unknown error"`
unfoldable pub known_error : Option String → String
known_error none = "unknown error"
known_error (some e) = if e == "" then "unknown error" else e

unfoldable pub failure_of : Answer → Option String
failure_of (raised e) = some e
failure_of (answered true e) = none
failure_of (answered false e) = some (known_error e)

-- `ok, err = configure_agent(…)`, and `if not ok: return err`.
unfoldable pub configure_failure : Answer → Option String
configure_failure (raised e) = some e
configure_failure (answered true e) = none
configure_failure (answered false e) = e

unfoldable pub host_dict : String → HostResource → Dict
host_dict now h =
    let record_of_host = entry "hostname" (str h.spec.hostname) (
      entry "key_id" (str h.spec.hostname) (
        entry "port" (num h.spec.port) (
          entry "user" (str h.spec.user) (
            entry "auth_method" (str "key") (
              entry "hardware" (obj empty) (
                entry "metadata"
                  (obj (
                    entry "added_at" (str now)
                      (entry "last_seen" null (entry "labels" (obj h.metadata.labels) empty))))
                  (entry "addresses"
                    (arr (
                      cons
                        (obj (
                          entry "address" (str h.spec.hostname) (
                            entry "is_primary" (bool true)
                              (entry "label" null (entry "added_at" (str now) empty)))))
                        nil))
                    (entry "agents" (obj empty) empty)))))))) in
    if h.metadata.name == h.spec.hostname
    then record_of_host
    else put "alias" (str h.metadata.name) record_of_host

-- `if prov_res.spec.config.defaultModel`
unfoldable pub model_of : Option String → Dict
model_of none = empty
model_of (some m) = if m == "" then empty else entry "model" (str m) empty

unfoldable pub provider_dict : ProviderResource → Dict
provider_dict p =
    entry "name" (str p.metadata.name)
      (entry "type" (str p.spec.provider_type) (model_of p.spec.default_model))

-- `actual.hosts.get(spec_host)`
unfoldable pub find_record : Option String → Records → Option Dict
find_record none rs = none
find_record (some name) [] = none
find_record (some name) ((key, r) ∷ rs) =
    if is_str key name then some r else find_record (some name) rs

unfoldable pub named_host : Option String → Json
named_host none = null
named_host (some name) = str name

unfoldable pub resolved_host : Option String → Option Dict → Result Json
resolved_host spec_host (some r) =
    if truthy (obj r) then index "hostname" r else ok (named_host spec_host)
resolved_host spec_host none = ok (named_host spec_host)

unfoldable pub resolve_hostname : Option String → ActualState → Result Json
resolve_hostname spec_host actual = resolved_host spec_host (find_record spec_host actual.hosts)

-- The dict of the resources by their names: of two with one name, the last.
module _ {A : Type 0} where
  unfoldable pub later_or : Option A → Bool → A → Option A
  later_or (some y) same x = some y
  later_or none true x = some x
  later_or none false x = none

module _ {A : Type 0} (name_of : A → String) where
  unfoldable pub by_name : String → List A → Option A
  by_name name [] = none
  by_name name (x ∷ xs) = later_or (by_name name xs) (name_of x == name) x

module _ (remote : Remote) (now : String) where
  -- `except DuplicateHostError: pass`
  unfoldable pub host_failure : Result (Unit {0}) → Option String
  host_failure (ok u) = none
  host_failure (err duplicate_host) = none
  host_failure (err x) = some (remote.message x)

  -- `get_host_private_key(key_id)`: a pair that was generated before is there.
  unfoldable pub private_key : String → Run → Result Bool
  private_key key_id run = do
    valid ← validate_key_id key_id
    if contains run.keys valid then ok true else remote.has_private_key valid

  unfoldable pub generated_key : String → Option String → Run → Option String × Run
  generated_key key_id none run = (none, record run { keys = key_id ∷ run.keys })
  generated_key key_id (some e) run =
      (some ("SSH key generation failed for " <> key_id <> ": " <> e), run)

  -- What get_host_private_key raises is caught by nothing.
  unfoldable pub bootstrap_key : String → Result Bool → Run → Result (Option String) × Run
  bootstrap_key key_id (err x) run = (err x, run)
  bootstrap_key key_id (ok true) run = (ok none, run)
  bootstrap_key key_id (ok false) run =
      let (failure, after) = generated_key key_id (remote.generate_host_keypair key_id) run in
      (ok failure, after)

  unfoldable pub added_host : Option String → HostResource → Run → Result (Option String) × Run
  added_host (some e) h run = (ok (some e), run)
  added_host none h run =
      if h.spec.bootstrap
      then bootstrap_key h.spec.hostname (private_key h.spec.hostname run) run
      else (ok none, run)

  unfoldable pub create_host : HostResource → Run → Result (Option String) × Run
  create_host h run =
      let (added, c) = add_host now (host_dict now h) run.config in
      added_host (host_failure added) h (record run { config = c })

  unfoldable pub provider_failure : Result (Unit {0}) → Option String
  provider_failure (ok u) = none
  provider_failure (err duplicate_provider) = none
  provider_failure (err x) = some (remote.message x)

  unfoldable pub create_provider : ProviderResource → Config → Option String × Config
  create_provider p c =
      let (added, c') = add_provider (provider_dict p) c in (provider_failure added, c')

  unfoldable pub removal_failure : Result Bool → Option String
  removal_failure (ok b) = none
  removal_failure (err x) = some (remote.message x)
