-- ===== src/Onboarding/Start.antt =====
-- `initialize_onboarding`: it starts an onboarding once.
use clawrium.Prelude.{
  ◌⊎◌, ◌≡◌, refl, ap, All, [], ◌∷◌, some, Option, ◌∙◌, String, Bool, true, false, List, ok, Result,
  Bool-cases, inl, inr, if◌then◌else◌, ◌==◌,
}
use clawrium.Json.{null, str, find, get_or, as_dict, Json, Dict, obj, has, put}
use clawrium.Json.Laws.{find-put_self, get-put}
use clawrium.Config.{Config}
use clawrium.Hosts.Migrate.Agents.{IsPruned-put}
use clawrium.Hosts.Store.{parse_hosts, load_hosts}
use clawrium.Hosts.Registry.{get_host}
use clawrium.Hosts.Registry.Hostnames.{Unique}
use clawrium.Hosts.Agents.Edit.Found.{Resolves}
use clawrium.Onboarding.AutoSkip.{SkipsAll, IsTypeOf, agent_type, auto_skipped-cases}
use clawrium.Onboarding.{
  OnboardingState, get_claw_record, pending, ready, onboarding_of, initialized, state_in, state_of,
  state_of_text, get_onboarding_state,
}
use clawrium.Onboarding.Resolve.{
  get_claw_record_found, get_onboarding_state_found, update_agent_found,
}
use clawrium.Onboarding.Machine.{state_of_record}
use clawrium.Onboarding.Stages.{
  auto_skipped, initial_onboarding, agent_type_of, initial_stage, is_initialized, initialize_claw,
  initialize_onboarding,
}

-- A stage with a status and a time of completion.
abbrev pub StageIs : Dict → String → Json → String → Type 0
StageIs stages word time s =
    (d : Dict) × (find s stages ≡ some (obj d))
    × (find "status" d ≡ some (str word))
    × (find "completed_at" d ≡ some time)

initial_state :
    (skipped : Bool) (now : String) (agent : Dict)
    → state_of_record (put "onboarding" (initial_onboarding skipped now) agent)
      ≡ ok (if skipped then ready else pending)
unfolding onboarding_of initialized state_in as_dict state_of state_of_text initial_onboarding
    get_or find
initial_state true now agent = rw get-put refl
initial_state false now agent = rw get-put refl

module _ (load_manifest : Json → Result Dict) (now later host claw_name : String) (c : Config)
    (hs : List Dict) (e : parse_hosts now c.hosts ≡ ok hs) (u : Unique hs)
    (a : Resolves host claw_name hs) (ne : (claw_name == "") ≡ false) where
  -- What a reading finds after the start.
  abbrev pub started : Result OnboardingState
  started =
      (get_onboarding_state later host claw_name
        (initialize_onboarding load_manifest now host claw_name c).1).0

  -- The record that a reading finds has the four stages, each with this status and time.
  abbrev pub HasStages : String → Json → Type 0
  HasStages word time =
      (o stages : Dict) × ((get_claw_record later host claw_name
          (initialize_onboarding load_manifest now host claw_name c).1).0
        ≡ ok (some (obj (put "onboarding" (obj o) a.agent))))
      × (find "started_at" o ≡ some (str now))
      × (find "stages" o ≡ some (obj stages))
      × All (StageIs stages word time) ("providers" ∷ "identity" ∷ "channels" ∷ "validate" ∷ [])

  -- The state is ready if the manifest skips all stages, and pending if it does not.
  abbrev pub Starts : Json → Type 0
  Starts t =
      (SkipsAll (load_manifest t) × (started ≡ ok ready) × HasStages "skipped" (str now))
      ⊎ ((¬ SkipsAll (load_manifest t)) × (started ≡ ok pending) × HasStages "pending" null)

  Starts-of_state :
      (t : Json) (skipped : Bool)
      → auto_skipped (load_manifest t) ≡ skipped
      → started ≡ ok (if skipped then ready else pending)
      → (get_claw_record later host claw_name
          (initialize_onboarding load_manifest now host claw_name c).1).0
        ≡ ok (some (obj (put "onboarding" (initial_onboarding skipped now) a.agent)))
      → Starts t
  unfolding initial_onboarding initial_stage find
  Starts-of_state t true y e r = elim (auto_skipped-cases (load_manifest t)) [
    | inl (z, all_skipped) ↦ inl (
      all_skipped,
      e,
      (
        _,
        _,
        r,
        refl,
        refl,
        (
          (_, refl, refl, refl),
          ((_, refl, refl, refl), ((_, refl, refl, refl), ((_, refl, refl, refl), tt))),
        ),
      ),
    )
    | inr (n, not_all) ↦ cc
  ]
  Starts-of_state t false y e r = elim (auto_skipped-cases (load_manifest t)) [
    | inl (z, all_skipped) ↦ cc
    | inr (n, not_all) ↦ inr (
      not_all,
      e,
      (
        _,
        _,
        r,
        refl,
        refl,
        (
          (_, refl, refl, refl),
          ((_, refl, refl, refl), ((_, refl, refl, refl), ((_, refl, refl, refl), tt))),
        ),
      ),
    )
  ]

  initialize_onboarding-started :
      ((initialize_onboarding load_manifest now host claw_name c).0 ≡ ok true)
      × (has "onboarding" a.agent ≡ true
          → (initialize_onboarding load_manifest now host claw_name c).1 ≡ c)
      × (has "onboarding" a.agent ≡ false
          → (get_onboarding_state later host claw_name
              (initialize_onboarding load_manifest now host claw_name c).1).0
            ≡ ok (
                if auto_skipped (load_manifest (agent_type_of claw_name (obj a.agent)))
                then ready
                else pending))
      × (has "onboarding" a.agent ≡ false
          → (get_claw_record later host claw_name
              (initialize_onboarding load_manifest now host claw_name c).1).0
            ≡ ok (
                some (
                  obj (
                    put "onboarding"
                      (initial_onboarding
                        (auto_skipped (load_manifest (agent_type_of claw_name (obj a.agent))))
                        now)
                      a.agent))))
  unfolding initialize_onboarding initialize_claw is_initialized get_host load_hosts
  initialize_onboarding-started =
      let record' =
        get_claw_record_found now host claw_name c hs a.host_data a.agents a.agent e a.found
          a.agents_there a.agent_there in
      elim (Bool-cases (has "onboarding" a.agent)) [
        | inl t ↦ rw (record', t) (refl, λ y. refl, λ f. cc, λ f. cc)
        | inr f ↦
            let skipped = auto_skipped (load_manifest (agent_type_of claw_name (obj a.agent))) in
            let (hs', upd, load, found) =
              update_agent_found now later host claw_name c hs e u a ne
                (λ r. ok (put "onboarding" (initial_onboarding skipped now) r)) _ refl
                (IsPruned-put "onboarding" _ a.agent refl) in
            rw (record', f, e, a.found, upd)
              (
                refl,
                λ t. cc,
                λ y.
                    get_onboarding_state_found later host claw_name _ hs' _ _ _ load found
                      (find-put_self "agents" _ _) (find-put_self claw_name _ _)
                    ∙ initial_state skipped now a.agent,
                λ y.
                    ap (λ (r : Result (Option Json) × Config). r.0)
                      (get_claw_record_found later host claw_name _ hs' _ _ _ load found
                        (find-put_self "agents" _ _) (find-put_self claw_name _ _)),
              )
      ]

  -- The start of the onboarding of an agent under its own key on a host that the identifier leads
  -- to, in a file of distinct hostnames, answers `True`. An onboarding that is there is left alone,
  -- and no file changes. Else there is the type of the agent, the stored one or else its name, and a
  -- later reading finds the state ready and the four stages skipped at this time, if the manifest of
  -- this type has the sections of the four stages, each with `auto_skip: true`; if it does not, it
  -- finds the state and the stages pending.
  pub initialize_onboarding_lem :
      ((initialize_onboarding load_manifest now host claw_name c).0 ≡ ok true)
      × (has "onboarding" a.agent ≡ true
          → (initialize_onboarding load_manifest now host claw_name c).1 ≡ c)
      × (has "onboarding" a.agent ≡ false → (t : Json) × IsTypeOf claw_name a.agent t × Starts t)
  initialize_onboarding_lem =
      let start = initialize_onboarding-started in
      (
        start.0,
        start.1,
        λ f. (
          agent_type_of claw_name (obj a.agent),
          agent_type claw_name a.agent,
          Starts-of_state _ _ refl (start.2 f) (start.3 f),
        ),
      )
