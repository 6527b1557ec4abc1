-- ===== src/Hosts/Store.antt =====
-- core/hosts.py: reading and writing hosts.json, and `update_host`.
pub mod Reload
pub mod Invariant
use clawrium.Prelude.{
  String, Bool, true, false, ◌||◌, Option, none, some, List, [], ◌∷◌, if◌then◌else◌, Result, ok,
  err, hosts_corrupted, ◌>>=◌ as ◌>>=ʳ◌,
}
use clawrium.Json.{Json, Items, Dict, arr, has}
use clawrium.Json.Lists.{dicts, of_dicts}
use clawrium.Config.{
  File, missing, corrupted, holds, Config, Exec, pure, lift, reads, modify, ◌>>=◌, ◌>>◌,
}
use clawrium.Records.{same, update_first}
use clawrium.Hosts.Migrate.{migrate}

-- `any("claws" in host for host in data)`
unfoldable pub any_claws : List Dict → Bool
any_claws [] = false
any_claws (h ∷ hs) = has "claws" h || any_claws hs

unfoldable pub migrate_all : String → List Dict → Result (List Dict)
migrate_all now [] = ok []
migrate_all now (h ∷ hs) = migrate now h >>=ʳ λ h'. migrate_all now hs >>=ʳ λ hs'. ok (h' ∷ hs')

unfoldable pub check_schema : String → Option (List Dict) → Result (List Dict)
check_schema now none = err hosts_corrupted
check_schema now (some hs) = if any_claws hs then err hosts_corrupted else migrate_all now hs

-- What `load_hosts` makes of the file.
unfoldable pub parse_hosts : String → File → Result (List Dict)
parse_hosts now missing = ok []
parse_hosts now (holds (arr xs)) = check_schema now (dicts xs)
parse_hosts now _ = err hosts_corrupted

unfoldable pub load_hosts : String → Exec (List Dict)
load_hosts now = reads (λ c. parse_hosts now c.hosts)

-- The file that `json.dump` writes.
abbrev pub saved : List Dict → File
saved ds = holds (arr (of_dicts ds))

unfoldable pub save_hosts : List Dict → Exec (Unit {0})
save_hosts hosts = modify (λ c. record c { hosts = saved hosts })

module _ {A : Type 0} where
  unfoldable pub commit_hosts : A → Option (A × List Dict) → Exec (Bool × A)
  commit_hosts unset none = pure (false, unset)
  commit_hosts unset (some (a, hosts)) = do save_hosts hosts; pure (true, a)

  -- Whether the host was found; beside it what `updater` leaves in the caller's variables, or
  -- their first value if `updater` is not called.
  unfoldable pub update_host : String → Json → A → (Dict → Result (A × Dict)) → Exec (Bool × A)
  update_host now hostname unset updater = do
    hosts ← load_hosts now
    updated ← lift (update_first (same "hostname" hostname) updater hosts)
    commit_hosts unset updated
