-- ===== src/Hosts/Migrate.antt =====
-- core/hosts.py: the migrations that `load_hosts` applies to each host record.
-- `now` is what the clock shows.
pub mod Idempotent
pub mod Agents
use clawrium.Prelude.{
  ◌≡◌, refl, ap, ◌∙◌, String, Bool, true, false, Option, none, some, arith, ◌==◌, eq_iff,
  if◌then◌else◌, Result, ok, err, ◌>>=◌, ◌⊎◌, sym, ok-injective, >>=-eq-ok, Bool-cases, inl, inr,
}
use clawrium.Json.{
  Json, Dict, empty, entry, null, bool, str, arr, obj, nil, cons, find, has, get, get_or, put, pop,
  set_default, truthy, as_dict,
}
use clawrium.Json.Laws.{
  dict_laws, find-put, find-pop, get-put, put-put, has-put, put_of_find, pop_of_absent,
}

-- `{"address": …, "is_primary": …, "label": …, "added_at": …}`
unfoldable pub address_entry : Json → Bool → Json → Json → Dict
address_entry address primary label added_at =
    entry "address" address
      (entry "is_primary" (bool primary) (entry "label" label (entry "added_at" added_at empty)))

unfoldable pub ensure_addresses : String → Dict → Result Dict
ensure_addresses now host =
    if has "addresses" host
    then ok host
    else let hostname = get_or "hostname" (str "") host in
      if truthy hostname
      then (do
        metadata ← as_dict (get_or "metadata" (obj empty) host)
        let added_at = get_or "added_at" (str now) metadata
        ok (
            put "addresses" (arr (cons (obj (address_entry hostname true null added_at)) nil))
              host))
      else ok (put "addresses" (arr nil) host)

-- `for key in _PRUNED_AGENT_CONFIG_KEYS: config.pop(key, None)`
prune_keys : Dict → Dict
prune_keys config = pop "provider" (pop "providers" (pop "channels" config))

prune_config : Json → Dict → Dict
prune_config (obj config) record' = put "config" (obj (prune_keys config)) record'
prune_config _ record' = record'

pub prune_record : Json → Json
unfolding prune_config prune_keys
prune_record (obj r) = obj (prune_config (get "config" r) r)
prune_record v = v

prune_records : Dict → Dict
prune_records empty = empty
prune_records (entry k v d) = entry k (prune_record v) (prune_records d)

prune_agents : Json → Dict → Dict
prune_agents (obj agents) host = put "agents" (obj (prune_records agents)) host
prune_agents _ host = host

unfoldable pub prune_agent_config_mirror : Dict → Dict
unfolding prune_agents prune_records prune_record
prune_agent_config_mirror host = prune_agents (get "agents" host) host

unfoldable pub apply_legacy_defaults : Dict → Dict
apply_legacy_defaults host = set_default "os_family" (str "linux") host

-- The record as `load_hosts` returns it.
unfoldable pub migrate : String → Dict → Result Dict
migrate now host = do
  h ← ensure_addresses now host
  ok (prune_agent_config_mirror (apply_legacy_defaults h))

-- What a migrated record has.
pub record IsMigrated (h : Dict) : Type 0 where
  pub addressed : has "addresses" h ≡ true
  pub family : has "os_family" h ≡ true
  pub pruned : prune_agent_config_mirror h ≡ h
