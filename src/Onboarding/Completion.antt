-- ===== src/Onboarding/Completion.antt =====
-- `complete_stage` and `initialize_onboarding`: what a later reading finds.
use clawrium.Onboarding.Completed.{
  MayComplete, IsCompletable, completed_field, MayComplete-of_completable, find-completed,
}
use clawrium.Prelude.{
  Option, ◌≡◌, refl, ap, ◌∙◌, sym, String, Bool, true, false, some, List, ok, Result, contains,
  Bool-cases, Result-cases, inl, inr, ok-injective, ◌==◌,
}
use clawrium.Json.{Json, Dict, obj, find}
use clawrium.Json.Laws.{find-put_self, DistinctKeys}
use clawrium.Config.{Config}
use clawrium.Hosts.Migrate.Agents.{IsPruned-put}
use clawrium.Hosts.Store.{saved, parse_hosts, load_hosts}
use clawrium.Hosts.Registry.{get_host}
use clawrium.Hosts.Registry.Hostnames.{Unique}
use clawrium.Hosts.Agents.Edit.Found.{Resolves}
use clawrium.Onboarding.{
  edit_resolved, update_agent, OnboardingState, StageStatus, stage_complete, stage_skipped,
  onboarding_of, get_onboarding_state, get_claw_record,
}
use clawrium.Onboarding.Resolve.{
  get_claw_record_found, get_onboarding_state_found, update_agent_found, update_agent-eq-ok,
}
use clawrium.Onboarding.Machine.{state_of_record, get_onboarding_state-config}
use clawrium.Onboarding.Stages.{
  check_stage, check_allowed, check_completable, completable, completed, set_stage, complete_stage,
}
use clawrium.Onboarding.Records.{StageAt, with_stage, state_with_stage, set_stage-eq-ok}

check_allowed-eq-ok :
    (now host claw_name stage : String) (c : Config) (u : Unit {0})
    → (check_allowed now host claw_name stage c).0 ≡ ok u
    → ((s : OnboardingState) × ((get_onboarding_state now host claw_name c).0 ≡ ok s)
        × MayComplete s stage)
      × ((check_allowed now host claw_name stage c).1 ≡ c)
unfolding check_allowed
check_allowed-eq-ok now host claw_name stage c u e =
    let same = get_onboarding_state-config now host claw_name c in
    elim (Result-cases (get_onboarding_state now host claw_name c).0) [
      | inr (x, p) ↦ let e' = rw p at e in cc
      | inl (s, p) ↦ elim (Bool-cases (contains (completable s) stage)) [
        | inr f ↦ let e' = rw (p, same, f) at e in cc
        | inl t ↦ ((s, p, MayComplete-of_completable s stage t), rw (p, same, t) refl)
      ]
    ]

check_completable-eq-ok :
    (now host claw_name stage : String) (status : StageStatus) (c : Config) (u : Unit {0})
    → (check_completable now host claw_name stage status c).0 ≡ ok u
    → IsCompletable stage status (get_onboarding_state now host claw_name c).0
      × ((check_completable now host claw_name stage status c).1 ≡ c)
unfolding check_completable
check_completable-eq-ok now host claw_name stage stage_skipped c u e = (tt, refl)
check_completable-eq-ok now host claw_name stage stage_complete c u e =
    check_allowed-eq-ok now host claw_name stage c u e
check_completable-eq-ok now host claw_name stage _ c u e =
    check_allowed-eq-ok now host claw_name stage c u e

module _ (now later host claw_name stage : String) (c : Config) (hs : List Dict)
    (e : parse_hosts now c.hosts ≡ ok hs) (u : Unique hs) (a : Resolves host claw_name hs)
    (ne : (claw_name == "") ≡ false) where
  abbrev pub agent_update : (Dict → Result Dict) → Result Bool × Config
  agent_update f = update_agent now (edit_resolved claw_name f) (some a.host_data) c

  -- An update that gives a stage other data changes nothing else that is read.
  pub stage_update :
      (f : Dict → Result Dict) (d : Dict) (x : StageAt stage a.agent)
      → f a.agent ≡ ok (with_stage stage d a.agent x)
      → ((agent_update f).0 ≡ ok true)
        × ((get_claw_record later host claw_name (agent_update f).1).0
            ≡ ok (some (obj (with_stage stage d a.agent x))))
        × ((get_onboarding_state later host claw_name (agent_update f).1).0
            ≡ state_of_record a.agent)
  stage_update f d x ed =
      let (hs', upd, load, found) =
        update_agent_found now later host claw_name c hs e u a ne f _ ed
          (IsPruned-put "onboarding" _ a.agent refl) in
      let record' : get_claw_record later host claw_name (record c { hosts = saved hs' })
          ≡ (ok (some (obj (with_stage stage d a.agent x))), record c { hosts = saved hs' }) =
        get_claw_record_found later host claw_name _ hs' _ _ _ load found
          (find-put_self "agents" _ _) (find-put_self claw_name _ _) in
      (
        rw upd refl,
        rw upd (ap (λ (y : Result (Option Json) × Config). y.0) record'),
        rw upd (
            get_onboarding_state_found later host claw_name _ hs' _ _ _ load found
              (find-put_self "agents" _ _) (find-put_self claw_name _ _)
            ∙ state_with_stage stage _ a.agent x),
      )

  module _ (status : StageStatus) (metadata : Dict) where
    complete_stage-eq-ok :
        (b : Bool)
        → (complete_stage now host claw_name stage status metadata c).0 ≡ ok b
        → IsCompletable stage status (get_onboarding_state now host claw_name c).0
          × (complete_stage now host claw_name stage status metadata c
              ≡ agent_update (set_stage stage (completed now status metadata)))
    unfolding complete_stage get_host load_hosts
    complete_stage-eq-ok b k =
        let record' =
          get_claw_record_found now host claw_name c hs a.host_data a.agents a.agent e a.found
            a.agents_there a.agent_there in
        elim (Result-cases (check_stage stage)) [
          | inr (x, p) ↦ let k' = rw p at k in cc
          | inl (v, p) ↦ elim (Result-cases (onboarding_of (some (obj a.agent)))) [
            | inr (x, q) ↦ let k' = rw (p, record', q) at k in cc
            | inl (w, q) ↦
                elim (Result-cases (check_completable now host claw_name stage status c).0) [
                  | inr (x, r) ↦ let k' = rw (p, record', q, r) at k in cc
                  | inl (z, r) ↦
                      let (may, same) =
                        check_completable-eq-ok now host claw_name stage status c z r in
                      (may, rw (p, record', q, r, same, e, a.found) refl)
                ]
          ]
        ]

    -- A completion that does not raise, of a stage of an agent under its own key on a host that the
    -- identifier leads to, in a file of distinct hostnames: the stage might be completed in the state
    -- that was there, or it is skipped; the answer is `True`, and the state is unchanged. A later
    -- reading finds the record with another dict in that stage: under each key it has what the
    -- metadata has, else the word of the status and the time of the completion, else what was there.
    pub complete_stage_lem :
        (b : Bool)
        → DistinctKeys metadata
        → (complete_stage now host claw_name stage status metadata c).0 ≡ ok b
        → IsCompletable stage status (get_onboarding_state now host claw_name c).0
          × (b ≡ true)
          × (x : StageAt stage a.agent) × (d : Dict) × ((get_claw_record later host claw_name
                (complete_stage now host claw_name stage status metadata c).1).0
              ≡ ok (some (obj (with_stage stage d a.agent x))))
          × ((k : String) → find k d ≡ completed_field now status metadata x.stage_data k)
          × ((get_onboarding_state later host claw_name
                (complete_stage now host claw_name stage status metadata c).1).0
              ≡ state_of_record a.agent)
    complete_stage_lem b unique k =
        let (may, same) = complete_stage-eq-ok b k in
        let l : (agent_update (set_stage stage (completed now status metadata))).0 ≡ ok b =
          rw same at k in
        let (r', ed) =
          update_agent-eq-ok now later host claw_name c hs e u a ne
            (set_stage stage (completed now status metadata)) b l in
        let (x, is) = set_stage-eq-ok stage (completed now status metadata) a.agent r' ed in
        let (answer, record', state) =
          stage_update (set_stage stage (completed now status metadata))
            (completed now status metadata x.stage_data) x (ed ∙ ap ok is) in
        (
          may,
          ok-injective b true (sym l ∙ answer),
          x,
          completed now status metadata x.stage_data,
          rw same record',
          λ j. find-completed now status metadata x.stage_data j unique,
          rw same state,
        )
