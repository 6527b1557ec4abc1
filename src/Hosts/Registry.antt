-- ===== src/Hosts/Registry.antt =====
-- core/hosts.py: adding, removing and finding hosts.
pub mod Hostnames
pub mod Lookup
use clawrium.Prelude.{
  String, Bool, true, false, not, ◌&&◌, ◌||◌, Option, none, some, List, [], ◌∷◌, ◌++◌, ◌==◌,
  if◌then◌else◌, duplicate_host, length, nat_eq, keep,
}
use clawrium.Json.{Json, Dict, null, get}
use clawrium.Json.Equality.{py_eq}
use clawrium.Config.{Exec, pure, raise, lift, ◌>>=◌, ◌>>◌}
use clawrium.Records.{named, find_first}
use clawrium.Hosts.Migrate.{ensure_addresses}
use clawrium.Hosts.Store.{load_hosts, save_hosts}

unfoldable pub same_hostname : Json → List Dict → Bool
same_hostname hostname [] = false
same_hostname hostname (h ∷ hs) = py_eq (get "hostname" h) hostname || same_hostname hostname hs

unfoldable pub add_host : String → Dict → Exec (Unit {0})
add_host now host = do
  let hostname = get "hostname" host
  hosts ← load_hosts now
  if same_hostname hostname hosts
      then raise duplicate_host
      else do host' ← lift (ensure_addresses now host); save_hosts (hosts ++ (host' ∷ []))

unfoldable pub remove_host : String → String → Exec Bool
remove_host now hostname = do
  hosts ← load_hosts now
  let filtered = keep (λ h. not (named "hostname" hostname h)) hosts
  if nat_eq (length filtered) (length hosts) then pure false else do save_hosts filtered; pure true

-- The three tests of the loop in `get_host`.
unfoldable pub answers_to : String → Dict → Bool
answers_to identifier h =
    named "hostname" identifier h || named "alias" identifier h || named "key_id" identifier h

unfoldable pub get_host : String → String → Exec (Option Dict)
get_host now identifier = do hosts ← load_hosts now; pure (find_first (answers_to identifier) hosts)

unfoldable pub get_host_by_key_id : String → String → Exec (Option Dict)
get_host_by_key_id now key_id = do
  hosts ← load_hosts now
  pure (find_first (named "key_id" key_id) hosts)

-- `exclude_hostname and host_hostname == exclude_hostname`
unfoldable pub excluded : Option String → Dict → Bool
excluded none h = false
excluded (some name) h = not (name == "") && named "hostname" name h

unfoldable pub alias_loop : String → Option String → List Dict → Bool × Json
alias_loop alias exclude [] = (false, null)
alias_loop alias exclude (h ∷ hs) =
    let rest = alias_loop alias exclude hs in
    if excluded exclude h
    then rest
    else if named "hostname" alias h
    then (true, get "hostname" h)
    else if named "alias" alias h
    then (true, get "hostname" h)
    else rest

unfoldable pub alias_exists : String → String → Option String → Exec (Bool × Json)
alias_exists now alias exclude = do hosts ← load_hosts now; pure (alias_loop alias exclude hosts)
