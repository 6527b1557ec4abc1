-- ===== src/Onboarding/Run.antt =====
-- core/onboarding.py: `can_skip_stage`, `get_stage_tasks` and `run_stage`. `load_manifest` is the
-- registry's function of the agent type; where it raises, the code goes on without a manifest.
use clawrium.Prelude.{String, Bool, true, false, if◌then◌else◌, Result, ok, err, ◌>>=◌ as ◌>>=ʳ◌}
use clawrium.Json.{Json, Dict, str, arr, obj, nil, empty, get, get_or, as_dict}
use clawrium.Json.Subscript.{holds_key}
use clawrium.Config.{Exec, pure, lift, ◌>>=◌, ◌>>◌}
use clawrium.Onboarding.{stage_complete, stage_skipped}
use clawrium.Onboarding.Stages.{or_empty, skips, complete_stage}

unfoldable pub skip_in : String → Dict → Result Bool
skip_in stage manifest = holds_key stage (get_or "skip_stages" (arr nil) manifest) >>=ʳ λ listed.
    if listed
    then ok true
    else (as_dict (or_empty (get "onboarding" manifest)) >>=ʳ λ o.
        as_dict (or_empty (get "stages" o)) >>=ʳ skips stage)

unfoldable pub skip_with : String → Result Dict → Result Bool
skip_with stage (ok manifest) = skip_in stage manifest
skip_with stage (err e) = ok false

unfoldable pub can_skip_stage : (Json → Result Dict) → String → String → Result Bool
can_skip_stage load_manifest agent_type stage = skip_with stage (load_manifest (str agent_type))

unfoldable pub tasks_with : String → Result Dict → Result Json
tasks_with stage (ok manifest) =
    as_dict (get_or "onboarding" (obj empty) manifest) >>=ʳ λ onboarding_config.
    as_dict (get_or "stages" (obj empty) onboarding_config) >>=ʳ λ stages_config.
    as_dict (get_or stage (obj empty) stages_config) >>=ʳ λ stage_config.
    ok (get_or "tasks" (arr nil) stage_config)
tasks_with stage (err e) = ok (arr nil)

unfoldable pub get_stage_tasks : (Json → Result Dict) → String → String → Result Json
get_stage_tasks load_manifest agent_type stage = tasks_with stage (load_manifest (str agent_type))

-- With or without tasks the stage is completed: the code does not execute them.
unfoldable pub run_stage :
    (Json → Result Dict) → String → String → String → String → String → Exec Bool
run_stage load_manifest now agent_type host claw_name stage = do
  skip ← lift (can_skip_stage load_manifest agent_type stage)
  if skip then (do complete_stage now host claw_name stage stage_skipped empty; pure true) else do
    tasks ← lift (get_stage_tasks load_manifest agent_type stage)
    complete_stage now host claw_name stage stage_complete empty
    pure true
