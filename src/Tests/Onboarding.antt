-- ===== src/Tests/Onboarding.antt =====
-- Witnesses of the properties of core/onboarding.py.
use clawrium.Onboarding.Agreement.{record_in-resolve_in, at_key}
use clawrium.Prelude.{
  ◌↔◌, String, none, ◌≡◌, refl, true, false, [], ◌∷◌, some, ok, err, Result, if◌then◌else◌,
  value_error,
}
use clawrium.Json.{
  bool, Json, Dict, str, arr, obj, nil, empty, entry, find, has, get, get_or, put, index, is_str,
  truthy, as_dict,
}
use clawrium.Json.Subscript.{holds_key, mapping}
use clawrium.Config.{Config, missing}
use clawrium.Records.{find_first, update_first, same}
use clawrium.Json.Equality.{py_eq}
use clawrium.Hosts.Store.{saved, parse_hosts, save_hosts, update_host, commit_hosts}
use clawrium.Hosts.Registry.{answers_to, get_host}
use clawrium.Hosts.Registry.Hostnames.{Unique}
use clawrium.Hosts.Agents.Edit.Found.{Resolves}
use clawrium.Onboarding.{
  providers, OnboardingState, identity, ready, stage_complete, get_onboarding_state,
  get_claw_record, transition_state, transitions, state_value, state_of, state_of_text, state_in,
  initialized, onboarding_of, record_in, record_of_agents, record_of_host, is_record, resolve_in,
  resolve_agent_key, resolved, record_at, edit_resolved, update_agent, set_state, status_value,
}
use clawrium.Onboarding.Stages.{
  initial_stage, is_true, skips, skip_all, or_empty, manifest_stages, initial_onboarding,
  is_initialized, initialize_claw, complete_stage, update_stage_metadata, initialize_onboarding,
  completed, put_all, check_stage, check_reserved, check_completable, check_allowed, completable,
  set_stage, patch_stage, member, agent_type_of, auto_skipped,
}
use clawrium.Onboarding.Machine.{
  provided, transition_state-taken, Step, state_of_record, transition_state-Step,
}
use clawrium.Onboarding.Records.{StageAt, with_stage}
use clawrium.Onboarding.Completed.{IsCompletable, completed_field}
use clawrium.Onboarding.Completion.{complete_stage_lem}
use clawrium.Onboarding.Patch.{update_stage_metadata_lem}
use clawrium.Onboarding.Start.{Starts, initialize_onboarding_lem}
use clawrium.Onboarding.AutoSkip.{IsTypeOf}
use clawrium.Tests.Fleet.{lab, scout}
use clawrium.Tests.Hosts.{open_load}
use clawrium.Tests.Channels.{office, office_loaded, lab-Unique, lab_scout}

-- An agent that is in the first stage, which is complete.
abbrev pilot : Dict
pilot = entry "type" (str "hermes") (
    entry "onboarding"
      (obj (
        entry "state" (str "providers") (
          entry "stages"
            (obj (
              entry "providers"
                (obj (entry "status" (str "complete") (entry "completed_at" (str "t0") empty)))
                empty))
            empty)))
      empty)

abbrev base : Dict
base = entry "hostname" (str "base") (
    entry "addresses" (arr nil) (
      entry "os_family" (str "linux")
        (entry "agents" (obj (entry "pilot" (obj pilot) empty)) empty)))

abbrev camp : Config
camp = record {
  hosts = saved (base ∷ []);
  providers = missing;
  channels = missing;
  integrations = missing;
  secrets = missing;
}

camp_loaded : parse_hosts "t0" camp.hosts ≡ ok (base ∷ [])
unfolding open_load
camp_loaded = refl

base-Unique : Unique (base ∷ [])
base-Unique = ((λ s n. tt), tt)

base_facts :
    (find_first (answers_to "base") (base ∷ []) ≡ some base)
    × (find "hostname" base ≡ some (str "base"))
    × (find "agents" base ≡ some (obj (entry "pilot" (obj pilot) empty)))
    × (find "pilot" (entry "pilot" (obj pilot) empty) ≡ some (obj pilot))
unfolding open_load find_first
base_facts = (refl, refl, refl, refl)

abbrev base_pilot : Resolves "base" "pilot" (base ∷ [])
base_pilot = record {
  name = "base";
  host_data = base;
  agents = entry "pilot" (obj pilot) empty;
  agent = pilot;
  found = base_facts.0;
  hostname = base_facts.1;
  agents_there = base_facts.2;
  agent_there = base_facts.3;
}

-- Opening this opens the operations on an onboarding.
open_onboarding : Unit {0}
unfolding open_load find_first update_first same py_eq get_host update_host commit_hosts save_hosts
    get_onboarding_state get_claw_record transition_state transitions state_value state_of
    state_of_text state_in initialized onboarding_of record_in record_of_agents record_of_host
    is_record resolve_in resolve_agent_key resolved record_at edit_resolved update_agent set_state
    status_value complete_stage update_stage_metadata completed put_all check_stage check_reserved
    check_completable check_allowed completable set_stage patch_stage member holds_key mapping has
    get index get_or find put truthy as_dict is_str
open_onboarding = tt

transition_state-Step_example :
    (from : OnboardingState) × ((get_onboarding_state "t0" "base" "pilot" camp).0 ≡ ok from)
    × Step from identity
    × (true ≡ true)
    × ((get_onboarding_state "t1" "base" "pilot"
          (transition_state "t0" "base" "pilot" identity camp).1).0
        ≡ ok identity)
unfolding open_onboarding
transition_state-Step_example =
    transition_state-Step "t0" "t1" "base" "pilot" identity camp (base ∷ []) true camp_loaded
      base-Unique base_pilot refl refl

complete_stage_lem_example :
    IsCompletable "providers" stage_complete (get_onboarding_state "t0" "base" "pilot" camp).0
    × (true ≡ true)
    × (x : StageAt "providers" pilot) × (d : Dict) × ((get_claw_record "t2" "base" "pilot"
          (complete_stage "t1" "base" "pilot" "providers" stage_complete
            (entry "provider_id" (str "p") empty)
            camp).1).0
        ≡ ok (some (obj (with_stage "providers" d pilot x))))
    × ((k : String)
        → find k d
          ≡ completed_field "t1" stage_complete
              (entry "provider_id" (str "p") empty)
              x.stage_data
              k)
    × ((get_onboarding_state "t2" "base" "pilot"
          (complete_stage "t1" "base" "pilot" "providers" stage_complete
            (entry "provider_id" (str "p") empty)
            camp).1).0
        ≡ state_of_record pilot)
unfolding open_onboarding
complete_stage_lem_example =
    complete_stage_lem "t1" "t2" "base" "pilot" "providers" camp (base ∷ []) refl base-Unique
      base_pilot refl stage_complete (entry "provider_id" (str "p") empty) true (refl, tt) refl

update_stage_metadata_lem_example :
    (true ≡ true)
    × (x : StageAt "providers" pilot) × (is_str (get "status" x.stage_data) "complete" ≡ true)
    × ((get_claw_record "t2" "base" "pilot"
          (update_stage_metadata "t1" "base" "pilot" "providers"
            (entry "provider_id" (str "p") empty)
            camp).1).0
        ≡ ok (
            some (
              obj (
                with_stage "providers"
                  (put_all (entry "provider_id" (str "p") empty) x.stage_data)
                  pilot
                  x))))
    × (find "status" (put_all (entry "provider_id" (str "p") empty) x.stage_data)
        ≡ find "status" x.stage_data)
    × (find "completed_at" (put_all (entry "provider_id" (str "p") empty) x.stage_data)
        ≡ find "completed_at" x.stage_data)
    × ((get_onboarding_state "t2" "base" "pilot"
          (update_stage_metadata "t1" "base" "pilot" "providers"
            (entry "provider_id" (str "p") empty)
            camp).1).0
        ≡ state_of_record pilot)
unfolding open_onboarding
update_stage_metadata_lem_example =
    update_stage_metadata_lem "t1" "t2" "base" "pilot" "providers"
      (entry "provider_id" (str "p") empty) camp (base ∷ []) refl base-Unique base_pilot refl true
      refl

-- Hermes skips all stages, and no other type has a manifest.
abbrev skipped_stage : Json
skipped_stage = obj (entry "auto_skip" (bool true) empty)

abbrev hermes_manifest : Dict
hermes_manifest =
    entry "onboarding"
      (obj (
        entry "stages"
          (obj (
            entry "providers" skipped_stage (
              entry "identity" skipped_stage
                (entry "channels" skipped_stage (entry "validate" skipped_stage empty)))))
          empty))
      empty

abbrev only_hermes : Json → Result Dict
only_hermes v = if is_str v "hermes" then ok hermes_manifest else err value_error

-- The start by the stored type reaches the ready state at once.
ready_at_once :
    (get_onboarding_state "t1" "lab" "scout"
      (initialize_onboarding only_hermes "t0" "lab" "scout" office).1).0
    ≡ ok ready
unfolding open_onboarding initialize_onboarding initialize_claw is_initialized initial_onboarding
    auto_skipped agent_type_of manifest_stages or_empty skip_all skips is_true initial_stage
ready_at_once = refl

initialize_onboarding_lem_example :
    ((initialize_onboarding only_hermes "t0" "lab" "scout" office).0 ≡ ok true)
    × (has "onboarding" scout ≡ true
        → (initialize_onboarding only_hermes "t0" "lab" "scout" office).1 ≡ office)
    × (has "onboarding" scout ≡ false
        → (t : Json) × IsTypeOf "scout" scout t
          × Starts only_hermes "t0" "t1" "lab" "scout" office
              (lab ∷ [])
              office_loaded
              lab-Unique
              lab_scout
              refl
              t)
initialize_onboarding_lem_example =
    initialize_onboarding_lem only_hermes "t0" "t1" "lab" "scout" office (lab ∷ []) office_loaded
      lab-Unique lab_scout refl

record_in-resolve_in_example :
    (record_in "hermes" (entry "pilot" (obj pilot) empty)
      ≡ at_key
          (entry "pilot" (obj pilot) empty)
          (resolve_in "hermes" (entry "pilot" (obj pilot) empty)))
    × ((record_in "hermes" (entry "pilot" (obj pilot) empty) ≡ none)
        ↔ (resolve_in "hermes" (entry "pilot" (obj pilot) empty) ≡ none))
unfolding find
record_in-resolve_in_example =
    record_in-resolve_in "hermes" (entry "pilot" (obj pilot) empty) (refl, tt)

transition_state-taken_example : (transition_state "t0" "base" "pilot" identity camp).0 ≡ ok true
unfolding open_onboarding
transition_state-taken_example =
    transition_state-taken "t0" "base" "pilot" providers identity camp (base ∷ []) camp_loaded
      base-Unique base_pilot refl refl provided
