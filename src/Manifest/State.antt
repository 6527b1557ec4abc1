-- ===== src/Manifest/State.antt =====
-- `ActualState.from_disk`: the fleet as hosts.json and providers.json have it.
use clawrium.Prelude.{
  String, List, [], ◌∷◌, ◌==◌, if◌then◌else◌, Result, ok, err, ◌>>=◌ as ◌>>=ʳ◌, type_error,
}
use clawrium.Json.{
  Json, Items, Dict, str, arr, obj, nil, empty, entry, get, get_or, index, truthy, as_dict,
}
use clawrium.Json.Equality.{py_eq}
use clawrium.Config.{Exec, pure, lift, ◌>>=◌}
use clawrium.Hosts.Store.{load_hosts}
use clawrium.Providers.{load_providers}
use clawrium.Manifest.{ActualAgent, ActualState, Records}

-- `records[key] = r`: a list or a dict as a key raises `TypeError`.
unfoldable pub put_record : Json → Dict → Records → Records
put_record key r [] = (key, r) ∷ []
put_record key r ((k, old) ∷ rs) =
    let rest = put_record key r rs in if py_eq k key then (k, r) ∷ rs else (k, old) ∷ rest

unfoldable pub key_record : Json → Dict → Records → Result Records
key_record (arr xs) r rs = err type_error
key_record (obj d) r rs = err type_error
key_record key r rs = ok (put_record key r rs)

unfoldable pub put_agent :
    String → ActualAgent → List (String × ActualAgent) → List (String × ActualAgent)
put_agent name a [] = (name, a) ∷ []
put_agent name a ((k, old) ∷ more) =
    let rest = put_agent name a more in if k == name then (k, a) ∷ more else (k, old) ∷ rest

-- `agent_data.get(key) or {}`
unfoldable pub dict_or_empty : String → Dict → Result Dict
dict_or_empty key d = let v = get key d in if truthy v then as_dict v else ok empty

unfoldable pub actual_status : Dict → Dict → Dict → Json
actual_status runtime onboarding agent_data =
    if truthy (get "status" runtime)
    then get "status" runtime
    else if truthy (get "state" onboarding)
    then get "state" onboarding
    else get_or "status" (str "unknown") agent_data

-- `list(v) if isinstance(v, (list, tuple)) else []`
unfoldable pub as_list : Json → Items
as_list (arr xs) = xs
as_list _ = nil

unfoldable pub actual_agent : String → Json → Dict → Result ActualAgent
actual_agent name hostname agent_data = dict_or_empty "runtime" agent_data >>=ʳ λ runtime.
    dict_or_empty "onboarding" agent_data >>=ʳ λ onboarding. ok (record {
      name = name;
      agent_type = get_or "type" (str "") agent_data;
      host = hostname;
      status = actual_status runtime onboarding agent_data;
      version = get "version" agent_data;
      providers = as_list (get "providers" agent_data);
      channels = as_list (get "channels" agent_data);
      integrations = as_list (get "integrations" agent_data);
      skills = as_list (get "skills" agent_data);
    })

unfoldable pub read_agents :
    Json → Dict → List (String × ActualAgent) → Result (List (String × ActualAgent))
read_agents hostname empty found = ok found
read_agents hostname (entry name v more) found = as_dict v >>=ʳ λ agent_data.
    actual_agent name hostname agent_data >>=ʳ λ a.
    read_agents hostname more (put_agent name a found)

unfoldable pub key_alias : Json → Dict → Records → Result Records
key_alias alias h found = if truthy alias then key_record alias h found else ok found

unfoldable pub read_hosts :
    List Dict
    → Records × List (String × ActualAgent)
    → Result (Records × List (String × ActualAgent))
read_hosts [] found = ok found
read_hosts (h ∷ hs) found = index "hostname" h >>=ʳ λ hostname.
    key_record hostname h found.0 >>=ʳ λ by_name.
    key_alias (get "alias" h) h by_name >>=ʳ λ by_alias. dict_or_empty "agents" h >>=ʳ λ here.
    read_agents hostname here found.1 >>=ʳ λ agents'. read_hosts hs (by_alias, agents')

unfoldable pub read_providers : List Dict → Records → Result Records
read_providers [] found = ok found
read_providers (p ∷ ps) found =
    index "name" p >>=ʳ λ name. key_record name p found >>=ʳ λ found'. read_providers ps found'

unfoldable pub from_disk : String → Exec ActualState
from_disk now = do
  hosts_raw ← load_hosts now
  found ← lift (read_hosts hosts_raw ([], []))
  providers_raw ← load_providers
  known ← lift (read_providers providers_raw [])
  pure (record {
    hosts = found.0;
    providers = known;
    channels = [];
    integrations = [];
    agents = found.1;
  })
