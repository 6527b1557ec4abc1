-- ===== src/Manifest/NewAgents.antt =====
-- A new agent that is to start: the change set lists it, and the executor looks for it in the state
-- from before the run.
use clawrium.Json.Lists.{has_item}
use clawrium.Prelude.{
  inr, eq_iff, inl, eq_refl, Bool-cases, ◌&&◌, if◌then◌else◌, arith, ◌≡◌, refl, ap, ◌∙◌, String,
  Bool, true, false, Option, none, some, List, [], ◌∷◌, ◌++◌, ◌==◌, ◌||◌, contains,
}
use clawrium.Json.{Json, Items, nil, cons}
use clawrium.Manifest.{
  agent_kind, op, provider_kind, channel_kind, integration_kind, ActualAgent, AgentSpec,
  known_agent, has_item, Kind, ChangeSet, ActualState, AgentResource,
}
use clawrium.Manifest.Differ.{
  desired_providers, version_settled, is_desired, upgrade, reconcile, reconcile_agent, detach_extra,
  compute_agents, compute_agent, create_agent, attach_missing,
}

pub contains-append :
    (xs ys : List String) (s : String) → contains xs s ≡ true → contains (xs ++ ys) s ≡ true
contains-append [] ys s h = cc
contains-append (x ∷ xs) ys s h = ground (arith, contains-append xs ys s)

pub contains-append_last : (xs : List String) (s : String) → contains (xs ++ (s ∷ [])) s ≡ true
contains-append_last [] s = ground (arith, eq_refl s)
contains-append_last (x ∷ xs) s = ground (arith, contains-append_last xs s)

if_starts :
    (b : Bool) (cs changed : ChangeSet)
    → changed.starts ≡ cs.starts
    → (if b then cs else changed).starts ≡ cs.starts
if_starts true cs changed e = refl
if_starts false cs changed e = e

-- The differ: nothing but a new agent touches the list of the agents to start.
module _ (name : String) (kind : Kind) where
  attach_missing-starts :
      (xs : List String) (actual : Items) (cs : ChangeSet)
      → (attach_missing name kind xs actual cs).starts ≡ cs.starts
  unfolding attach_missing
  attach_missing-starts [] actual cs = refl
  attach_missing-starts (x ∷ xs) actual cs =
      attach_missing-starts xs actual _ ∙ if_starts (has_item x actual) cs _ refl

  detach_extra-starts :
      (desired : List String) (xs : Items) (cs : ChangeSet)
      → (detach_extra name kind desired xs cs).starts ≡ cs.starts
  unfolding detach_extra
  detach_extra-starts desired nil cs = refl
  detach_extra-starts desired (cons x xs) cs =
      detach_extra-starts desired xs _ ∙ if_starts (is_desired desired x) cs _ refl

  reconcile-starts :
      (desired : List String) (actual : Items) (cs : ChangeSet)
      → (reconcile name kind desired actual cs).starts ≡ cs.starts
  unfolding reconcile
  reconcile-starts desired actual cs =
      detach_extra-starts desired actual _ ∙ attach_missing-starts desired actual cs

upgrade-starts :
    (name : String) (desired : Option String) (version : Json) (cs : ChangeSet)
    → (upgrade name desired version cs).starts ≡ cs.starts
unfolding upgrade
upgrade-starts name desired version cs = elim (Bool-cases (version_settled desired version)) [
  | inl t ↦ rw t refl
  | inr f ↦ rw f refl
]

reconcile_agent-starts :
    (name : String) (spec : AgentSpec) (a : ActualAgent) (cs : ChangeSet)
    → (reconcile_agent name spec a cs).starts ≡ cs.starts
unfolding reconcile_agent
reconcile_agent-starts name spec a cs =
    reconcile-starts name integration_kind spec.integrations a.integrations _
    ∙ reconcile-starts name channel_kind spec.channels a.channels _
    ∙ reconcile-starts name provider_kind (desired_providers spec.provider) a.providers _
    ∙ upgrade-starts name spec.version a.version cs

create_agent-starts :
    (name : String) (spec : AgentSpec) (cs : ChangeSet)
    → (create_agent name spec cs).starts
      ≡ (if spec.lifecycle.auto_start then cs.starts ++ (name ∷ []) else cs.starts)
unfolding create_agent
create_agent-starts name spec cs =
    let same =
      attach_missing-starts name integration_kind spec.integrations nil _
      ∙ attach_missing-starts name channel_kind spec.channels nil _
      ∙ attach_missing-starts name provider_kind (desired_providers spec.provider) nil
          (record cs { creates = cs.creates ++ (op agent_kind name ∷ []) }) in
    elim (Bool-cases spec.lifecycle.auto_start) [
      | inl t ↦ rw t (ap (λ (xs : List String). xs ++ (name ∷ [])) same)
      | inr f ↦ rw f same
    ]

compute_agent-starts :
    (a : AgentResource) (found : Option ActualAgent) (s : String) (cs : ChangeSet)
    → contains cs.starts s ≡ true
    → contains (compute_agent a found cs).starts s ≡ true
unfolding compute_agent
compute_agent-starts a none s cs h = elim (Bool-cases a.spec.lifecycle.auto_start) [
  | inl t ↦ rw (create_agent-starts a.metadata.name a.spec cs, t) (contains-append cs.starts _ s h)
  | inr f ↦ rw (create_agent-starts a.metadata.name a.spec cs, f) h
]
compute_agent-starts a (some x) s cs h = rw (reconcile_agent-starts a.metadata.name a.spec x cs) h

compute_agents-starts :
    (xs : List AgentResource) (actual : ActualState) (s : String) (cs : ChangeSet)
    → contains cs.starts s ≡ true
    → contains (compute_agents xs actual cs).starts s ≡ true
unfolding compute_agents
compute_agents-starts [] actual s cs h = h
compute_agents-starts (x ∷ xs) actual s cs h =
    compute_agents-starts xs actual s _
      (compute_agent-starts x (known_agent x.metadata.name actual.agents) s cs h)

new_starts :
    (a : AgentResource) (actual : ActualState) (s : String) (cs : ChangeSet)
    → known_agent s actual.agents ≡ none
    → a.metadata.name ≡ s
    → a.spec.lifecycle.auto_start ≡ true
    → contains (compute_agent a (known_agent a.metadata.name actual.agents) cs).starts s ≡ true
unfolding compute_agent
new_starts a actual s cs absent same starts =
    rw (same, absent, create_agent-starts s a.spec cs, starts) (contains-append_last cs.starts s)

-- An agent that is to start, among the declared ones.
abbrev pub starts_in : String → List AgentResource → Bool
starts_in name [] = false
starts_in name (a ∷ more) =
    (a.metadata.name == name && a.spec.lifecycle.auto_start) || starts_in name more

pub compute_agents-starts_new :
    (xs : List AgentResource) (actual : ActualState) (s : String) (cs : ChangeSet)
    → known_agent s actual.agents ≡ none
    → starts_in s xs ≡ true
    → contains (compute_agents xs actual cs).starts s ≡ true
unfolding compute_agents
compute_agents-starts_new [] actual s cs absent h = cc
compute_agents-starts_new (x ∷ xs) actual s cs absent h =
    elim (Bool-cases (x.metadata.name == s && x.spec.lifecycle.auto_start)) [
      | inl t ↦
          let same : x.metadata.name ≡ s = (eq_iff x.metadata.name s).0 (ground arith) in
          let starts : x.spec.lifecycle.auto_start ≡ true = ground arith in
          compute_agents-starts xs actual s _ (new_starts x actual s cs absent same starts)
      | inr f ↦ compute_agents-starts_new xs actual s _ absent (rw f at h)
    ]
