-- ===== src/Onboarding/Machine.antt =====
-- The state machine of an onboarding, as a relation, and `transition_state` on it.
use clawrium.Prelude.{
  ◌≡◌, refl, ap, ◌∙◌, sym, String, Bool, true, false, some, List, ◌==◌, ok, err, Result, contains,
  Bool-cases, Result-cases, inl, inr, ok-injective, ◌>>=◌ as ◌>>=ʳ◌,
}
use clawrium.Json.{Json, Dict, null, str, obj, find, get, put, as_dict}
use clawrium.Json.Laws.{find-put_self, get-put, get_of_find, get_or_of_find, has_of_find}
use clawrium.Json.Subscript.{mapping}
use clawrium.Config.{lift, continue, Config}
use clawrium.Hosts.Migrate.Agents.{find_of_get, IsPruned-put}
use clawrium.Hosts.Store.{parse_hosts, load_hosts}
use clawrium.Hosts.Registry.{get_host}
use clawrium.Hosts.Registry.Hostnames.{Unique}
use clawrium.Hosts.Agents.Edit.Found.{Resolves}
use clawrium.Onboarding.{
  OnboardingState, pending, providers, identity, channels, validate, ready, state_value, state_of,
  state_of_text, transitions, onboarding_of, initialized, state_in, get_onboarding_state,
  get_claw_record, set_state, transition_state,
}
use clawrium.Onboarding.Resolve.{get_onboarding_state_found, update_agent_found}

-- The workflow: the stages in their order, a shortcut for agents with nothing to do, the way back
-- from a failed validation, and a reinstall.
pub data Step : OnboardingState → OnboardingState → Type 0 where
  begin : Step pending providers
  shortcut : Step pending ready
  provided : Step providers identity
  identified : Step identity channels
  connected : Step channels validate
  validated : Step validate ready
  failed : Step validate channels
  reinstalled : Step ready ready

Step-of_transitions :
    (s t : OnboardingState) → contains (transitions s) (state_value t) ≡ true → Step s t
unfolding transitions state_value
Step-of_transitions pending providers e = begin
Step-of_transitions pending ready e = shortcut
Step-of_transitions pending _ e = cc
Step-of_transitions providers identity e = provided
Step-of_transitions providers _ e = cc
Step-of_transitions identity channels e = identified
Step-of_transitions identity _ e = cc
Step-of_transitions channels validate e = connected
Step-of_transitions channels _ e = cc
Step-of_transitions validate ready e = validated
Step-of_transitions validate channels e = failed
Step-of_transitions validate _ e = cc
Step-of_transitions ready ready e = reinstalled
Step-of_transitions ready _ e = cc

state_of-value : (s : OnboardingState) → state_of (str (state_value s)) ≡ ok s
unfolding state_of state_of_text state_value
state_of-value pending = refl
state_of-value providers = refl
state_of-value identity = refl
state_of-value channels = refl
state_of-value validate = refl
state_of-value ready = refl

-- What the record of an agent says of its state.
abbrev pub state_of_record : Dict → Result OnboardingState
state_of_record agent = onboarding_of (some (obj agent)) >>=ʳ state_in

onboarding_there :
    (v : Json) (s : OnboardingState)
    → (initialized v >>=ʳ state_in) ≡ ok s
    → (o : Dict) × (v ≡ obj o)
unfolding initialized state_in as_dict
onboarding_there (obj o) s e = (o, refl)
onboarding_there null s e = cc
onboarding_there _ s e = cc

pub onboarding_of_state :
    (agent : Dict) (s : OnboardingState)
    → state_of_record agent ≡ ok s
    → (o : Dict) × (find "onboarding" agent ≡ some (obj o))
unfolding onboarding_of
onboarding_of_state agent s e =
    let (o, there) = onboarding_there (get "onboarding" agent) s e in
    (o, find_of_get "onboarding" o agent there)

set_state_there :
    (to : OnboardingState) (agent o : Dict)
    → find "onboarding" agent ≡ some (obj o)
    → set_state to agent ≡ ok (put "onboarding" (obj (put "state" (str (state_value to)) o)) agent)
unfolding set_state mapping
set_state_there to agent o f =
    rw (has_of_find "onboarding" (obj o) agent f, get_of_find "onboarding" (obj o) agent f) refl

state_after :
    (to : OnboardingState) (agent o : Dict)
    → state_of_record (put "onboarding" (obj (put "state" (str (state_value to)) o)) agent) ≡ ok to
unfolding onboarding_of initialized state_in as_dict
state_after to agent o = rw (get-put) (
    ap state_of
      (get_or_of_find "state" (str "pending") (str (state_value to)) _ (find-put_self "state" _ o))
    ∙ state_of-value to)

continue-config :
    {A B : Type 0} (m : Result A) (f : A → Result B) (c : Config)
    → (continue m (λ x. lift (f x)) c).1 ≡ c
continue-config (ok x) f c = refl
continue-config (err x) f c = refl

pub get_onboarding_state-config :
    (now host claw_name : String) (c : Config) → (get_onboarding_state now host claw_name c).1 ≡ c
unfolding get_onboarding_state get_claw_record get_host load_hosts
get_onboarding_state-config now host claw_name c = elim (Result-cases (parse_hosts now c.hosts)) [
  | inr (x, p) ↦ rw p refl
  | inl (hs, p) ↦ rw p (continue-config _ state_in c)
]

-- A transition that does not raise, of an agent under its own key on a host that the identifier
-- leads to, in a file of distinct hostnames: it is a step of the workflow from the state that was
-- there before, the answer is `True`, and a later reading finds the new state.
pub transition_state-Step :
    (now later host claw_name : String) (to : OnboardingState) (c : Config) (hs : List Dict)
    (b : Bool)
    → parse_hosts now c.hosts ≡ ok hs
    → Unique hs
    → Resolves host claw_name hs
    → (claw_name == "") ≡ false
    → (transition_state now host claw_name to c).0 ≡ ok b
    → (from : OnboardingState) × ((get_onboarding_state now host claw_name c).0 ≡ ok from)
      × Step from to
      × (b ≡ true)
      × ((get_onboarding_state later host claw_name (transition_state now host claw_name to c).1).0
          ≡ ok to)
unfolding transition_state get_host load_hosts
transition_state-Step now later host claw_name to c hs b e u a ne k =
    let same = get_onboarding_state-config now host claw_name c in
    let before =
      get_onboarding_state_found now host claw_name c hs a.host_data a.agents a.agent e a.found
        a.agents_there a.agent_there in
    elim (Result-cases (get_onboarding_state now host claw_name c).0) [
      | inr (x, p) ↦ let k' = rw p at k in cc
      | inl (from, p) ↦ elim (Bool-cases (contains (transitions from) (state_value to))) [
        | inr f ↦ let k' = rw (p, same, f) at k in cc
        | inl t ↦
            let (o, found) = onboarding_of_state a.agent from (sym before ∙ p) in
            let (hs', upd, load, find') =
              update_agent_found now later host claw_name c hs e u a ne (set_state to) _
                (set_state_there to a.agent o found) (IsPruned-put "onboarding" _ a.agent refl) in
            let answer : true ≡ b = ok-injective _ _ (rw (p, same, t, e, a.found, upd) at k) in
            (
              from,
              p,
              Step-of_transitions from to t,
              sym answer,
              rw (p, same, t, e, a.found, upd)
                  (get_onboarding_state_found later host claw_name _ hs' _ _ _ load find'
                      (find-put_self "agents" _ _) (find-put_self claw_name _ _)
                    ∙ state_after to a.agent o),
            )
      ]
    ]

transitions_of_Step :
    (s t : OnboardingState) → Step s t → contains (transitions s) (state_value t) ≡ true
unfolding transitions state_value
transitions_of_Step _ _ begin = refl
transitions_of_Step _ _ shortcut = refl
transitions_of_Step _ _ provided = refl
transitions_of_Step _ _ identified = refl
transitions_of_Step _ _ connected = refl
transitions_of_Step _ _ validated = refl
transitions_of_Step _ _ failed = refl
transitions_of_Step _ _ reinstalled = refl

-- Every step of the workflow can be taken: if the state of an agent can be read, the agent being
-- under its own key on a host that the identifier leads to, in a file of distinct hostnames, then a
-- transition along a step raises nothing and answers `True`.
pub transition_state-taken :
    (now host claw_name : String) (from to : OnboardingState) (c : Config) (hs : List Dict)
    → parse_hosts now c.hosts ≡ ok hs
    → Unique hs
    → Resolves host claw_name hs
    → (claw_name == "") ≡ false
    → (get_onboarding_state now host claw_name c).0 ≡ ok from
    → Step from to
    → (transition_state now host claw_name to c).0 ≡ ok true
unfolding transition_state get_host load_hosts
transition_state-taken now host claw_name from to c hs e u a ne p s =
    let before =
      get_onboarding_state_found now host claw_name c hs a.host_data a.agents a.agent e a.found
        a.agents_there a.agent_there in
    let (o, found) = onboarding_of_state a.agent from (sym before ∙ p) in
    let (hs', upd, load, find') =
      update_agent_found now now host claw_name c hs e u a ne (set_state to) _
        (set_state_there to a.agent o found) (IsPruned-put "onboarding" _ a.agent refl) in
    rw
      (
        p,
        get_onboarding_state-config now host claw_name c,
        transitions_of_Step from to s,
        e,
        a.found,
        upd,
      )
      refl
