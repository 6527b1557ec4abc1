-- ===== src/Tests/Install.antt =====
-- core/install.py at concrete inputs.
use clawrium.Install.{
  pick_per_instance_port, port_of, walk, peer_port, with_port, used_ports, is_used, next_port,
  free_port, in_window, first_port, found_port, pick_new_port,
}
use clawrium.Install.Ports.{Taken, InWindow, pick_per_instance_port_lem}
use clawrium.Install.Records.{
  Incomplete, is_null, is_incomplete, details, add_incomplete, incomplete_agents, incomplete_in,
  get_incomplete_installation_details, agent_keys_to_remove, cleanup_agents, may_replace,
  choose_name, preserve, fresh_record, set_failed,
}
use clawrium.Install.Cleanup.{cleanup_agents_lem}
use clawrium.Install.Failure.{attachment_keys, set_failed_lem}
use clawrium.Install.Choice.{choose_name_lem}
use clawrium.Names.{is_name_available_on_host}
use clawrium.Json.{
  Json, Dict, null, num, str, arr, obj, empty, entry, find, get, get_or, has, put, is_str, as_dict,
}
use clawrium.Json.Lists.{strs}
use clawrium.Json.Subscript.{holds_key}
use clawrium.Prelude.{
  ℕ, ◌≡◌, ◌≢◌, ◌⊎◌, ◌||◌, ◌==◌, refl, String, true, false, Option, some, List, [], ◌∷◌, map,
  contains, ok, err, installation_error, arith,
}

-- The agent that has failed before, with its channels, beside another one.
abbrev scout : Dict
scout = entry "type" (str "hermes") (
    entry "status" (str "failed")
      (entry "installed_at" null (entry "channels" (arr (strs ("ops" ∷ []))) empty)))

abbrev ivy : Dict
ivy =
    entry "type" (str "pi")
      (entry "config" (obj (entry "gateway" (obj (entry "port" (num 40000) empty)) empty)) empty)

abbrev agents : Dict
agents = entry "scout" (obj scout) (entry "ivy" (obj ivy) empty)

abbrev lab : Dict
lab = entry "hostname" (str "lab") (entry "agents" (obj agents) empty)

abbrev gateway_port : List String
gateway_port = "gateway" ∷ "port" ∷ []

-- Opening this opens the records of the installation.
open_install : Unit {0}
unfolding find has get get_or is_str is_null is_incomplete details add_incomplete incomplete_agents
    incomplete_in get_incomplete_installation_details agent_keys_to_remove may_replace choose_name
    fresh_record preserve is_name_available_on_host holds_key strs
open_install = tt

-- The first port of the window is taken, and the second is chosen.
picked : pick_per_instance_port (λ _. 2) lab "scout" 40000 2 gateway_port null ≡ ok 40001
unfolding open_install pick_per_instance_port port_of walk peer_port with_port used_ports is_used
    next_port free_port in_window first_port found_port pick_new_port as_dict
picked = refl

pick_per_instance_port_lem_example :
    ((p : ℕ) × (pick_per_instance_port (λ _. 2) lab "scout" 40000 2 gateway_port null ≡ ok p)
      × InWindow 40000 2 p
      × ((null ≡ num p) ⊎ (¬ Taken "scout" gateway_port agents p)))
    ⊎ ((pick_per_instance_port (λ _. 2) lab "scout" 40000 2 gateway_port null
          ≡ err installation_error)
        × ((q : ℕ) → InWindow 40000 2 q → Taken "scout" gateway_port agents q))
unfolding open_install as_dict
pick_per_instance_port_lem_example =
    pick_per_instance_port_lem (λ _. 2) lab agents (str "lab") null "scout" 40000 2 gateway_port
      (omega arith) refl refl

choose_name_lem_example :
    (◌≡◌ {A = Option String} (some "scout") (some "scout"))
    × (a : Dict) × (obj scout ≡ obj a)
    × ((is_str (get "status" a) "installed" || is_str (get "status" a) "failed") ≡ true)
unfolding open_install as_dict
choose_name_lem_example =
    choose_name_lem [] (some "scout") "scout" lab agents (obj scout) refl refl refl

abbrev failed : List Incomplete
failed = details "scout" scout ∷ []

cleanup_agents_lem_example :
    (agents1 : Dict) × (cleanup_agents (agent_keys_to_remove failed) lab
      ≡ ok (put "agents" (obj agents1) lab))
    × (get_incomplete_installation_details (put "agents" (obj agents1) lab) "hermes" ≡ ok [])
    × ((j : String)
        → contains (map (λ i. i.agent_name) failed) j ≡ false
        → find j agents1 ≡ find j agents)
unfolding open_install as_dict
cleanup_agents_lem_example = cleanup_agents_lem "hermes" lab agents failed refl refl refl

set_failed_lem_example :
    (agents1 r : Dict) × (set_failed "scout" "hermes" (str "1.2") "no route" (preserve scout) lab
      ≡ ok (put "agents" (obj agents1) lab))
    × (find "scout" agents1 ≡ some (obj r))
    × (find "type" r ≡ some (str "hermes"))
    × (find "status" r ≡ some (str "failed"))
    × (find "error" r ≡ some (str "no route"))
    × (find "installed_at" r ≡ some null)
    × ((found : List Incomplete)
        → incomplete_agents "hermes" agents1 ≡ ok found
        → contains (map (λ i. i.agent_name) found) "scout" ≡ true)
    × ((k : String) (v : Json)
        → contains attachment_keys k ≡ true
        → find k scout ≡ some v
        → v ≢ null
        → find k r ≡ some v)
    × ((j : String) → ("scout" == j) ≡ false → find j agents1 ≡ find j agents)
unfolding open_install as_dict
set_failed_lem_example =
    set_failed_lem "scout" "hermes" "no route" (str "1.2") scout lab agents scout refl refl
