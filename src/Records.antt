-- ===== src/Records.antt =====
-- The registries of the configuration directory are lists of records. The loops over them, shared
-- by core/hosts.py, core/channels.py and core/integrations.py: the first record that passes a test,
-- and `for i, r in enumerate(records): if …: records[i] = updater(r); break`.
pub mod Updates
pub mod Names
use clawrium.Prelude.{
  String, Bool, Option, none, some, List, [], ◌∷◌, if◌then◌else◌, Result, ok, err, Error, ◌>>=◌,
  ◌||◌, false,
}
use clawrium.Json.{Json, Dict, arr, get, is_str}
use clawrium.Json.Lists.{dicts, of_dicts}
use clawrium.Config.{File, missing, corrupted, holds}
use clawrium.Json.Equality.{py_eq}

-- `record.get(field) == s`
unfoldable pub named : String → String → Dict → Bool
named field s record' = is_str (get field record') s

-- `record.get(field) == v`
unfoldable pub same : String → Json → Dict → Bool
same field v record' = py_eq (get field record') v

unfoldable pub find_first : (Dict → Bool) → List Dict → Option Dict
find_first p [] = none
find_first p (d ∷ ds) = if p d then some d else find_first p ds

module _ {A : Type 0} where
  past : Dict → Option (A × List Dict) → Option (A × List Dict)
  past d none = none
  past d (some (a, ds)) = some (a, d ∷ ds)

  -- The updater may raise; `a` is what it leaves in the variables of the function around it.
  unfoldable pub update_first :
      (Dict → Bool) → (Dict → Result (A × Dict)) → List Dict → Result (Option (A × List Dict))
  unfolding past
  update_first p f [] = ok none
  update_first p f (d ∷ ds) =
      let rest = update_first p f ds in
      if p d then (do (a, d') ← f d; ok (some (a, d' ∷ ds))) else (do r ← rest; ok (past d r))

-- What `json.load` gives for a list of records that needs no migration.
unfoldable pub list_of_dicts : Error → Option (List Dict) → Result (List Dict)
list_of_dicts wrong none = err wrong
list_of_dicts wrong (some ds) = ok ds

unfoldable pub parse_records : Error → File → Result (List Dict)
unfolding list_of_dicts
parse_records wrong missing = ok []
parse_records wrong (holds (arr xs)) = list_of_dicts wrong (dicts xs)
parse_records wrong _ = err wrong

-- The file that `json.dump` writes for a list of records.
abbrev pub written : List Dict → File
written ds = holds (arr (of_dicts ds))

unfoldable pub any_record : (Dict → Bool) → List Dict → Bool
any_record p [] = false
any_record p (d ∷ ds) = p d || any_record p ds
