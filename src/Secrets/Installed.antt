-- ===== src/Secrets/Installed.antt =====
-- core/secrets.py: `get_installed_claw`, the host, type and name of an installed agent.
use clawrium.Prelude.{
  String, Bool, ◌||◌, Option, none, some, List, [], ◌∷◌, ◌==◌, if◌then◌else◌, Result, ok, err,
  attribute_error, agent_not_found, ◌>>=◌ as ◌>>=ʳ◌,
}
use clawrium.Json.{Json, Dict, str, obj, empty, entry, get, get_or, truthy, as_dict, is_str}
use clawrium.Config.{Exec, lift, ◌>>=◌}
use clawrium.Hosts.Store.{load_hosts}

-- `v or w`
unfoldable pub or_else : Json → Json → Json
or_else v w = if truthy v then v else w

unfoldable pub claw_names : String → String → Dict → Bool
claw_names claw_name dict_key claw_data =
    is_str (get "agent_name" claw_data) claw_name
    || is_str (get "name" claw_data) claw_name
    || dict_key == claw_name

-- The loop over the agents of a host: type and canonical name of the first that has the name.
unfoldable pub find_claw : String → Dict → Result (Option (Json × Json))
find_claw claw_name empty = ok none
find_claw claw_name (entry dict_key (obj claw_data) agents) =
    let rest = find_claw claw_name agents in
    if claw_names claw_name dict_key claw_data
    then ok (
        some (
          or_else (get "type" claw_data) (str dict_key),
          or_else (get "agent_name" claw_data) (or_else (get "name" claw_data) (str dict_key)),
        ))
    else rest
find_claw claw_name (entry dict_key _ agents) = err attribute_error

unfoldable pub in_host :
    Json → Option (Json × Json) → Result (Json × Json × Json) → Result (Json × Json × Json)
in_host host_key none rest = rest
in_host host_key (some (claw_type, canonical_name)) rest = ok (host_key, claw_type, canonical_name)

unfoldable pub find_installed : String → List Dict → Result (Json × Json × Json)
find_installed claw_name [] = err agent_not_found
find_installed claw_name (h ∷ hs) =
    let rest = find_installed claw_name hs in
    as_dict (get_or "agents" (obj empty) h) >>=ʳ λ agents. find_claw claw_name agents >>=ʳ λ found.
    in_host (or_else (get "key_id" h) (get_or "hostname" (str "") h)) found rest

unfoldable pub get_installed_claw : String → String → Exec (Json × Json × Json)
get_installed_claw now claw_name = do hosts ← load_hosts now; lift (find_installed claw_name hosts)
