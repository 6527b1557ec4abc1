-- ===== src/Integrations/Agents/Attempts.antt =====
-- The update that an attempt to add an integration makes, and what a later reading finds.
use clawrium.Prelude.{Error, ◌≡◌, refl, ap, ◌∙◌, String, true, Option, some, List, Result, ok, err}
use clawrium.Json.{Json, Items, Dict, str, arr, obj, nil, find, put, is_str}
use clawrium.Json.Laws.{find-put_self, get_of_find, get_or_of_find, is_str_self, has-put}
use clawrium.Json.Lists.{append_item}
use clawrium.Config.{Config}
use clawrium.Records.{named}
use clawrium.Hosts.Migrate.Agents.{IsPruned-put, IsPruned-of_IsMigrated, IsMigrated-put_agent}
use clawrium.Hosts.Store.{parse_hosts, load_hosts, saved, update_host}
use clawrium.Hosts.Store.Reload.{
  IsCurrent, parse_hosts-IsCurrent, parse_hosts-saved, update_host_found,
}
use clawrium.Hosts.Registry.{get_host, answers_to}
use clawrium.Hosts.Registry.Hostnames.{Unique}
use clawrium.Hosts.Agents.Edit.{list_or_empty, field_of}
use clawrium.Hosts.Agents.Edit.Found.{
  Resolves, with_agent, find_agent_found, find_first-All, find_first_passes,
  find_first-UpdatesFirst, answers-with_agent,
}
use clawrium.Integrations.Agents.{
  Attempt, skipped, attached, attach_integration, store_attempt, attach_found, attach_on_host,
  integrations_of, get_agent_integrations,
}
use clawrium.Integrations.Agents.Singleton.{integrations_in, Attached, attach_integration-Attached}

integrations_of_found :
    (claw_name : String) (h agents agent : Dict)
    → find "agents" h ≡ some (obj agents)
    → find claw_name agents ≡ some (obj agent)
    → integrations_of claw_name (some h) ≡ ok (integrations_in agent)
unfolding integrations_of field_of
integrations_of_found claw_name h agents agent a f =
    rw (find_agent_found claw_name h agents agent a f) refl

integrations-put : (xs : Items) (r : Dict) → integrations_in (put "integrations" (arr xs) r) ≡ xs
unfolding list_or_empty
integrations-put xs r =
    ap list_or_empty
      (get_or_of_find "integrations" (arr nil) (arr xs) _ (find-put_self "integrations" (arr xs) r))

-- The list after an attempt.
abbrev pub after_attempt : Attempt → String → Items → Items
after_attempt attached name xs = append_item (str name) xs
after_attempt _ name xs = xs

module _ (host claw_name name : String) (hs : List Dict) (a : Resolves host claw_name hs)
    (target_type : Json) (loaded : Result (List Dict)) where
  -- The host after an attempt is one that a load leaves alone, answers to the same names, and holds
  -- the list of the attempt.
  stored :
      (t : Attempt) (m : Option Dict)
      → Attached target_type loaded name a.agent t m
      → IsCurrent a.host_data
      → IsCurrent (store_attempt claw_name a.agents a.host_data m)
        × (answers_to host (store_attempt claw_name a.agents a.host_data m)
            ≡ answers_to host a.host_data)
        × (integrations_of claw_name (some (store_attempt claw_name a.agents a.host_data m))
            ≡ ok (after_attempt t name (integrations_in a.agent)))
  unfolding store_attempt
  stored _ _ (Attached.as_before y) c = (
    c,
    refl,
    integrations_of_found claw_name a.host_data a.agents a.agent a.agents_there a.agent_there,
  )
  stored _ _ Attached.in_conflict c = (
    c,
    refl,
    integrations_of_found claw_name a.host_data a.agents a.agent a.agents_there a.agent_there,
  )
  stored _ _ (Attached.added n k) c =
      let r = put "integrations" (arr (append_item (str name) (integrations_in a.agent))) a.agent in
      (
        record {
          migrated =
              IsMigrated-put_agent claw_name r a.agents a.host_data c.migrated a.agents_there (
                IsPruned-put "integrations" _ a.agent refl (
                  IsPruned-of_IsMigrated claw_name a.host_data a.agents a.agent c.migrated
                    a.agents_there a.agent_there));
          schema = has-put "agents" "claws" _ a.host_data ∙ c.schema;
        },
        answers-with_agent host claw_name r a.agents a.host_data,
        integrations_of_found claw_name (with_agent claw_name r a.agents a.host_data) _ r
              (find-put_self "agents" _ a.host_data) (find-put_self claw_name _ a.agents)
            ∙ ap ok (integrations-put _ a.agent),
      )

  attach_on_host_found :
      (t : Attempt) (m : Option Dict)
      → attach_integration target_type loaded name a.agent ≡ ok (t, m)
      → attach_on_host target_type loaded name claw_name a.host_data
        ≡ ok (t, store_attempt claw_name a.agents a.host_data m)
  unfolding attach_on_host attach_found
  attach_on_host_found t m e =
      rw (find_agent_found claw_name a.host_data a.agents a.agent a.agents_there a.agent_there, e)
        refl

  pub attach_on_host_raises :
      (x : Error)
      → attach_integration target_type loaded name a.agent ≡ err x
      → attach_on_host target_type loaded name claw_name a.host_data ≡ err x
  unfolding attach_on_host attach_found
  attach_on_host_raises x e =
      rw (find_agent_found claw_name a.host_data a.agents a.agent a.agents_there a.agent_there, e)
        refl

  module _ (now later : String) (c : Config) (e : parse_hosts now c.hosts ≡ ok hs)
      (u : Unique hs) where
    pub name_here : named "hostname" a.name a.host_data ≡ true
    unfolding named
    name_here =
        ap (λ v. is_str v a.name) (get_of_find "hostname" (str a.name) a.host_data a.hostname)
        ∙ is_str_self a.name

    -- The update that an attempt makes, and what a later reading finds.
    pub attempted :
        (t : Attempt) (m : Option Dict)
        → attach_integration target_type loaded name a.agent ≡ ok (t, m)
        → (d : Config) × (update_host now
              (str a.name)
              skipped
              (attach_on_host target_type loaded name claw_name)
              c
            ≡ (ok (true, t), d))
          × ((get_agent_integrations later host claw_name d).0
              ≡ ok (after_attempt t name (integrations_in a.agent)))
    unfolding get_agent_integrations get_host load_hosts
    attempted t m at =
        let all_current = parse_hosts-IsCurrent now c.hosts hs e in
        let current =
          find_first-All IsCurrent (answers_to host) hs a.host_data a.found all_current in
        let (current', answers, reads') =
          stored t m (attach_integration-Attached target_type loaded name a.agent t m at) current in
        let (hs', v, found, all_current') =
          find_first-UpdatesFirst (answers_to host)
            (attach_on_host target_type loaded name claw_name) a.name hs t a.host_data
            (store_attempt claw_name a.agents a.host_data m) u a.found name_here
            (answers ∙ find_first_passes (answers_to host) hs a.host_data a.found)
            (attach_on_host_found t m at) current' all_current in
        (
          record c { hosts = saved hs' },
          update_host_found now (str a.name) skipped
              (attach_on_host target_type loaded name claw_name) c hs hs' t e v,
          rw (parse_hosts-saved later hs' all_current', found) reads',
        )
