-- ===== src/Onboarding/Stages.antt =====
-- core/onboarding.py: the stages of an onboarding, and its start.
use clawrium.Prelude.{
  String, Bool, true, false, not, ◌||◌, Option, none, some, List, [], ◌∷◌, if◌then◌else◌, contains,
  Result, ok, err, agent_not_found, onboarding_not_found, invalid_transition, value_error,
  ◌>>=◌ as ◌>>=ʳ◌,
}
use clawrium.Json.{
  Json, Dict, null, bool, str, obj, empty, entry, has, get, get_or, put, truthy, as_dict, is_str,
}
use clawrium.Json.Subscript.{holds_key, mapping}
use clawrium.Config.{Exec, pure, raise, lift, ◌>>=◌, ◌>>◌}
use clawrium.Hosts.Registry.{get_host}
use clawrium.Onboarding.{
  OnboardingState, pending, providers, identity, channels, validate, ready, StageStatus,
  stage_skipped, status_value, get_claw_record, onboarding_of, get_onboarding_state, edit_resolved,
  update_agent,
}

abbrev pub stage_names : List String
stage_names = "providers" ∷ "identity" ∷ "channels" ∷ "validate" ∷ []

unfoldable pub check_stage : String → Result (Unit {0})
check_stage stage = if contains stage_names stage then ok tt else err value_error

-- `state_to_allowed_stages`
unfoldable pub completable : OnboardingState → List String
completable pending = "providers" ∷ []
completable providers = "providers" ∷ []
completable identity = "identity" ∷ []
completable channels = "channels" ∷ []
completable validate = "validate" ∷ []
completable ready = stage_names

-- `for key, value in metadata.items(): stage_data[key] = value`
unfoldable pub put_all : Dict → Dict → Dict
put_all empty d = d
put_all (entry k v metadata) d = put_all metadata (put k v d)

-- A write to `record["onboarding"]["stages"][stage]`, under the three tests of membership.
unfoldable pub member : String → Json → Result Json
member key v = holds_key key v >>=ʳ λ there.
    if there then (mapping v >>=ʳ λ d. ok (get key d)) else err onboarding_not_found

unfoldable pub set_stage : String → (Dict → Dict) → Dict → Result Dict
set_stage stage edit r =
    if not (has "onboarding" r)
    then err onboarding_not_found
    else (let onboarding = get "onboarding" r in
        member "stages" onboarding >>=ʳ λ stages. member stage stages >>=ʳ λ stage_data.
        mapping stage_data >>=ʳ λ d. mapping stages >>=ʳ λ s. mapping onboarding >>=ʳ λ o.
        ok (put "onboarding" (obj (put "stages" (obj (put stage (obj (edit d)) s)) o)) r))

unfoldable pub completed : String → StageStatus → Dict → Dict → Dict
completed now status metadata stage_data =
    put_all metadata
      (put "completed_at" (str now) (put "status" (str (status_value status)) stage_data))

unfoldable pub check_allowed : String → String → String → String → Exec (Unit {0})
check_allowed now host claw_name stage = do
  current_state ← get_onboarding_state now host claw_name
  if contains (completable current_state) stage then pure tt else raise invalid_transition

unfoldable pub check_completable : String → String → String → String → StageStatus → Exec (Unit {0})
check_completable now host claw_name stage stage_skipped = pure tt
check_completable now host claw_name stage _ = check_allowed now host claw_name stage

-- `metadata` is empty where the caller gives none.
unfoldable pub complete_stage : String → String → String → String → StageStatus → Dict → Exec Bool
complete_stage now host claw_name stage status metadata = do
  lift (check_stage stage)
  claw ← get_claw_record now host claw_name
  lift (onboarding_of claw)
  check_completable now host claw_name stage status
  host_data ← get_host now host
  update_agent now (edit_resolved claw_name (set_stage stage (completed now status metadata)))
      host_data

unfoldable pub check_reserved : Dict → Result (Unit {0})
check_reserved metadata =
    if has "status" metadata || has "completed_at" metadata then err value_error else ok tt

-- `record.get("onboarding", {}).get("stages", {})`, and the stage in it.
unfoldable pub patch_stage : String → Dict → Dict → Result Dict
patch_stage stage metadata r = as_dict (get_or "onboarding" (obj empty) r) >>=ʳ λ o.
    member stage (get_or "stages" (obj empty) o) >>=ʳ λ stage_data. as_dict stage_data >>=ʳ λ d.
    mapping (get_or "stages" (obj empty) o) >>=ʳ λ s.
    if is_str (get "status" d) "complete"
    then ok
        (put "onboarding" (obj (put "stages" (obj (put stage (obj (put_all metadata d)) s)) o)) r)
    else err invalid_transition

unfoldable pub update_stage_metadata : String → String → String → String → Dict → Exec Bool
update_stage_metadata now host claw_name stage metadata = do
  lift (check_stage stage)
  lift (check_reserved metadata)
  claw ← get_claw_record now host claw_name
  lift (onboarding_of claw)
  host_data ← get_host now host
  update_agent now (edit_resolved claw_name (patch_stage stage metadata)) host_data

-- `v or {}`
unfoldable pub or_empty : Json → Json
or_empty v = if truthy v then v else obj empty

-- `(manifest_stages.get(s) or {}).get("auto_skip") is True`
unfoldable pub is_true : Json → Bool
is_true (bool true) = true
is_true _ = false

unfoldable pub skips : String → Dict → Result Bool
skips stage stages =
    as_dict (or_empty (get stage stages)) >>=ʳ λ d. ok (is_true (get "auto_skip" d))

unfoldable pub skip_all : List String → Dict → Result Bool
skip_all [] stages = ok true
skip_all (s ∷ ss) stages =
    let rest = skip_all ss stages in skips s stages >>=ʳ λ t. if t then rest else ok false

unfoldable pub manifest_stages : Dict → Result Json
manifest_stages manifest =
    as_dict (or_empty (get "onboarding" manifest)) >>=ʳ λ o. ok (or_empty (get "stages" o))

-- Whether all stages of the manifest are skipped; an exception counts as no.
unfoldable pub auto_skipped : Result Dict → Bool
auto_skipped manifest =
    elim (manifest >>=ʳ λ m. manifest_stages m >>=ʳ λ stages.
    if truthy stages then (as_dict stages >>=ʳ skip_all stage_names) else ok false) [
      | ok b ↦ b
      | err e ↦ false
    ]

unfoldable pub initial_stage : Bool → String → Dict → Json
initial_stage skipped now more = obj (
    entry "status" (str (if skipped then "skipped" else "pending"))
      (entry "completed_at" (if skipped then str now else null) more))

unfoldable pub initial_onboarding : Bool → String → Json
initial_onboarding skipped now = obj (
    entry "state" (str (if skipped then "ready" else "pending")) (
      entry "started_at" (str now) (
        entry "stages"
          (obj (
            entry "providers" (initial_stage skipped now (entry "provider_id" null empty)) (
              entry "identity" (initial_stage skipped now empty) (
                entry "channels" (initial_stage skipped now empty)
                  (entry "validate" (initial_stage skipped now empty) empty)))))
          empty)))

unfoldable pub agent_type_of : String → Json → Json
agent_type_of claw_name (obj claw) =
    if truthy (get "type" claw) then get "type" claw else str claw_name
agent_type_of claw_name _ = str claw_name

unfoldable pub is_initialized : Json → Bool
is_initialized (obj claw) = has "onboarding" claw
is_initialized _ = false

-- What is not yet initialized; `load_manifest` is the registry's function of the agent type.
unfoldable pub initialize_claw :
    (Json → Result Dict) → String → String → String → Option Json → Exec Bool
initialize_claw load_manifest now host claw_name none = raise agent_not_found
initialize_claw load_manifest now host claw_name (some claw) =
    if is_initialized claw then pure true else do
      host_data ← get_host now host
      let skipped = auto_skipped (load_manifest (agent_type_of claw_name claw))
      update_agent now
          (edit_resolved claw_name (λ r. ok (put "onboarding" (initial_onboarding skipped now) r)))
          host_data

unfoldable pub initialize_onboarding : (Json → Result Dict) → String → String → String → Exec Bool
initialize_onboarding load_manifest now host claw_name = do
  claw ← get_claw_record now host claw_name
  initialize_claw load_manifest now host claw_name claw
