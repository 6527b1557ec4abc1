-- ===== src/Onboarding/Resolve.antt =====
-- The agent that a name leads to: what the reading of its onboarding sees, and what an update of
-- its record leaves for later readings.
use clawrium.Prelude.{
  inr, inl, Result-cases, Bool, Error, ◌≡◌, refl, ap, ◌∙◌, String, true, false, some, List, ◌==◌,
  ok, Result, ◌>>=◌ as ◌>>=ʳ◌,
}
use clawrium.Json.{Dict, str, obj, empty, find, is_str}
use clawrium.Json.Laws.{has-put, get_of_find, get_or_of_find, has_of_find, is_str_self}
use clawrium.Json.Subscript.{mapping}
use clawrium.Config.{continue, lift, Config}
use clawrium.Records.{named, find_first}
use clawrium.Hosts.Migrate.Agents.{IsPruned, IsPruned-of_IsMigrated, IsMigrated-put_agent}
use clawrium.Hosts.Store.{update_host, parse_hosts, load_hosts, saved}
use clawrium.Hosts.Store.Reload.{
  IsCurrent, parse_hosts-IsCurrent, parse_hosts-saved, update_host_found,
}
use clawrium.Hosts.Registry.{get_host, answers_to}
use clawrium.Hosts.Registry.Hostnames.{Unique}
use clawrium.Hosts.Agents.Edit.Found.{
  update_first-raises, Resolves, with_agent, find_first-All, find_first_passes,
  find_first-UpdatesFirst, answers-with_agent, index_found,
}
use clawrium.Onboarding.{
  Bool, Error, err, is_record, record_in, record_of_agents, record_of_host, resolve_in,
  resolve_agent_key, resolved, record_at, edit_resolved, update_agent, get_claw_record,
  onboarding_of, state_in, get_onboarding_state,
}

record_in_found :
    (claw_name : String) (agents agent : Dict)
    → find claw_name agents ≡ some (obj agent)
    → record_in claw_name agents ≡ some (obj agent)
unfolding record_in is_record
record_in_found claw_name agents agent f =
    rw (has_of_find claw_name (obj agent) agents f, get_of_find claw_name (obj agent) agents f) refl

resolve_in_found :
    (claw_name : String) (agents agent : Dict)
    → find claw_name agents ≡ some (obj agent)
    → resolve_in claw_name agents ≡ some claw_name
unfolding resolve_in is_record
resolve_in_found claw_name agents agent f =
    rw (has_of_find claw_name (obj agent) agents f, get_of_find claw_name (obj agent) agents f) refl

record_of_host_found :
    (claw_name : String) (h agents agent : Dict)
    → find "agents" h ≡ some (obj agents)
    → find claw_name agents ≡ some (obj agent)
    → record_of_host claw_name (some h) ≡ some (obj agent)
unfolding record_of_host record_of_agents
record_of_host_found claw_name h agents agent a f =
    rw (get_or_of_find "agents" (obj empty) (obj agents) h a)
      (record_in_found claw_name agents agent f)

-- The record of the agent that `_get_claw_record` finds, in any configuration.
pub get_claw_record_found :
    (now host claw_name : String) (c : Config) (hs : List Dict) (h agents agent : Dict)
    → parse_hosts now c.hosts ≡ ok hs
    → find_first (answers_to host) hs ≡ some h
    → find "agents" h ≡ some (obj agents)
    → find claw_name agents ≡ some (obj agent)
    → get_claw_record now host claw_name c ≡ (ok (some (obj agent)), c)
unfolding get_claw_record get_host load_hosts
get_claw_record_found now host claw_name c hs h agents agent e f a g =
    rw (e, f, record_of_host_found claw_name h agents agent a g) refl

continue-lift :
    {A B : Type 0} (m : Result A) (f : A → Result B) (c : Config)
    → (continue m (λ x. lift (f x)) c).0 ≡ (m >>=ʳ f)
continue-lift (ok x) f c = refl
continue-lift (err x) f c = refl

pub get_onboarding_state_found :
    (now host claw_name : String) (c : Config) (hs : List Dict) (h agents agent : Dict)
    → parse_hosts now c.hosts ≡ ok hs
    → find_first (answers_to host) hs ≡ some h
    → find "agents" h ≡ some (obj agents)
    → find claw_name agents ≡ some (obj agent)
    → (get_onboarding_state now host claw_name c).0
      ≡ (onboarding_of (some (obj agent)) >>=ʳ state_in)
unfolding get_onboarding_state
get_onboarding_state_found now host claw_name c hs h agents agent e f a g =
    rw (get_claw_record_found now host claw_name c hs h agents agent e f a g)
      (continue-lift (onboarding_of (some (obj agent))) state_in c)

edit_resolved_found :
    (claw_name : String) (edit : Dict → Result Dict) (h agents agent r : Dict)
    → (claw_name == "") ≡ false
    → find "agents" h ≡ some (obj agents)
    → find claw_name agents ≡ some (obj agent)
    → edit agent ≡ ok r
    → edit_resolved claw_name edit h ≡ ok (tt, with_agent claw_name r agents h)
unfolding edit_resolved resolve_agent_key resolved mapping record_at
edit_resolved_found claw_name edit h agents agent r ne a g ed =
    rw
      (
        get_or_of_find "agents" (obj empty) (obj agents) h a,
        resolve_in_found claw_name agents agent g,
        ne,
        get_of_find claw_name (obj agent) agents g,
        ed,
      )
      refl

edit_resolved_raises :
    (claw_name : String) (edit : Dict → Result Dict) (h agents agent : Dict) (x : Error)
    → (claw_name == "") ≡ false
    → find "agents" h ≡ some (obj agents)
    → find claw_name agents ≡ some (obj agent)
    → edit agent ≡ err x
    → edit_resolved claw_name edit h ≡ err x
unfolding edit_resolved resolve_agent_key resolved mapping record_at
edit_resolved_raises claw_name edit h agents agent x ne a g ed =
    rw
      (
        get_or_of_find "agents" (obj empty) (obj agents) h a,
        resolve_in_found claw_name agents agent g,
        ne,
        get_of_find claw_name (obj agent) agents g,
        ed,
      )
      refl

module _ (now later host claw_name : String) (c : Config) (hs : List Dict)
    (e : parse_hosts now c.hosts ≡ ok hs) (u : Unique hs) (a : Resolves host claw_name hs)
    (ne : (claw_name == "") ≡ false) where
  -- An update of the agent's record, and what a later load finds.
  pub update_agent_found :
      (edit : Dict → Result Dict) (r : Dict)
      → edit a.agent ≡ ok r
      → (IsPruned a.agent → IsPruned r)
      → (hs' : List Dict) × (update_agent now (edit_resolved claw_name edit) (some a.host_data) c
          ≡ (ok true, record c { hosts = saved hs' }))
        × (parse_hosts later (saved hs') ≡ ok hs')
        × (find_first (answers_to host) hs' ≡ some (with_agent claw_name r a.agents a.host_data))
  unfolding update_agent named
  update_agent_found edit r ed keeps =
      let all_current = parse_hosts-IsCurrent now c.hosts hs e in
      let current = find_first-All IsCurrent (answers_to host) hs a.host_data a.found all_current in
      let here : named "hostname" a.name a.host_data ≡ true =
        ap (λ v. is_str v a.name) (get_of_find "hostname" (str a.name) a.host_data a.hostname)
        ∙ is_str_self a.name in
      let passes = find_first_passes (answers_to host) hs a.host_data a.found in
      let (hs', v, found, current') =
        find_first-UpdatesFirst (answers_to host) (edit_resolved claw_name edit) a.name hs tt
          a.host_data (with_agent claw_name r a.agents a.host_data) u a.found here
          (answers-with_agent host claw_name r a.agents a.host_data ∙ passes)
          (edit_resolved_found claw_name edit a.host_data a.agents a.agent r ne a.agents_there
            a.agent_there ed)
          (record {
            migrated =
                IsMigrated-put_agent claw_name r a.agents a.host_data current.migrated
                  a.agents_there
                  (keeps (
                    IsPruned-of_IsMigrated claw_name a.host_data a.agents a.agent current.migrated
                      a.agents_there a.agent_there));
            schema = has-put "agents" "claws" _ a.host_data ∙ current.schema;
          })
          all_current in
      (
        hs',
        rw
            (
              index_found "hostname" (str a.name) a.host_data a.hostname,
              update_host_found now (str a.name) tt (edit_resolved claw_name edit) c hs hs' tt e v,
            )
            refl,
        parse_hosts-saved later hs' current',
        found,
      )

  -- What an update answers comes from an edit that did not raise.
  pub update_agent-eq-ok :
      (edit : Dict → Result Dict) (b : Bool)
      → (update_agent now (edit_resolved claw_name edit) (some a.host_data) c).0 ≡ ok b
      → (r : Dict) × (edit a.agent ≡ ok r)
  unfolding update_agent update_host load_hosts named
  update_agent-eq-ok edit b k = elim (Result-cases (edit a.agent)) [
    | inl (r, ed) ↦ (r, ed)
    | inr (x, ed) ↦
        let here : named "hostname" a.name a.host_data ≡ true =
          ap (λ v. is_str v a.name) (get_of_find "hostname" (str a.name) a.host_data a.hostname)
          ∙ is_str_self a.name in
        let raises =
          update_first-raises (answers_to host) (edit_resolved claw_name edit) a.name hs x
            a.host_data u a.found here
            (edit_resolved_raises claw_name edit a.host_data a.agents a.agent x ne a.agents_there
              a.agent_there ed) in
        let k' = rw (index_found "hostname" (str a.name) a.host_data a.hostname, e, raises) at k in
        cc
  ]
