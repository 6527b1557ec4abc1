-- ===== src/Manifest/Executor.antt =====
-- core/manifest/executor.py: a change set, applied.
use clawrium.Manifest.Steps.{
  by_name, report_error, emit, create_host, same_kind, failure_of, resolve_hostname,
  create_provider, configure_failure, Installed, removal_failure, Run, Answer, Remote,
}
use clawrium.Prelude.{
  String, ◌<>◌, Bool, true, false, Option, none, some, List, [], ◌∷◌, ◌++◌, if◌then◌else◌, Result,
  ok, err,
}
use clawrium.Json.{Json, truthy}
use clawrium.Config.{Config}
use clawrium.Providers.{remove_provider}
use clawrium.Manifest.{
  agents, hosts, providers, agent_kind, provider_kind, host_kind, Op, AttachOp, ChangeSet,
  ActualState, ActualAgent, ManifestResource, HostResource, ProviderResource, AgentResource,
  known_agent,
}

unfoldable pub fresh_run : Config → Run
fresh_run c = record { config = c; keys = []; events = []; errors = [] }

-- A run, or an exception that escapes from it, with what it has done until then.
abbrev pub Attempt : Type 0
Attempt = Result (Unit {0}) × Run

unfoldable pub and_then : Attempt → (Run → Attempt) → Attempt
and_then (err x, run) next = (err x, run)
and_then (ok u, run) next = next run

unfoldable pub created : String → Result (Option String) × Run → Attempt
created name (err x, run) = (err x, run)
created name (ok failure, run) = (ok tt, report_error ("host/" <> name) failure run)

module _ (remote : Remote) (now : String) where
  -- A call that was made: its files, and its failure if there is one.
  unfoldable pub done : String → Option String × Config → Run → Run
  done prefix (failure, c) run = report_error prefix failure (record run { config = c })

  -- 1. and 2.: hosts, then providers.
  unfoldable pub apply_host : String → Option HostResource → Run → Attempt
  apply_host name none run = (ok tt, run)
  apply_host name (some h) run =
      created name (create_host remote now h (emit "create" ("host/" <> name) run))

  unfoldable pub create_hosts : List ManifestResource → List Op → Run → Attempt
  create_hosts doc [] run = (ok tt, run)
  create_hosts doc (o ∷ ops) run =
      and_then
        (if same_kind o.kind host_kind
          then apply_host o.name (by_name (λ h. h.metadata.name) o.name (hosts doc)) run
          else (ok tt, run))
        (create_hosts doc ops)

  unfoldable pub apply_provider : String → Option ProviderResource → Run → Run
  apply_provider name none run = run
  apply_provider name (some p) run =
      done ("provider/" <> name) (create_provider remote now p run.config)
        (emit "create" ("provider/" <> name) run)

  unfoldable pub create_providers : List ManifestResource → List Op → Run → Run
  create_providers doc [] run = run
  create_providers doc (o ∷ ops) run = create_providers doc ops (
      if same_kind o.kind provider_kind
      then apply_provider o.name (by_name (λ p. p.metadata.name) o.name (providers doc)) run
      else run)

  -- 3. and 3b.: new agents, then new versions.
  unfoldable pub installed : String → Installed → Run → Run
  installed name i run =
      report_error ("agent/" <> name) i.failure
        (record run { config = i.config; events = run.events ++ i.events })

  unfoldable pub install_agent : Bool → AgentResource → Json → String → Run → Run
  install_agent force a hostname name run =
      if truthy hostname
      then installed name
          (remote.run_installation force a.spec.agent_type hostname a.metadata.name a.spec.version
            run.config)
          run
      else report_error ("agent/" <> name) (some "agent has no host specified") run

  unfoldable pub installed_on : Result Json → AgentResource → String → Run → Attempt
  installed_on (err x) a name run = (err x, run)
  installed_on (ok hostname) a name run =
      (ok tt, install_agent false a hostname name (emit "install" ("agent/" <> name) run))

  unfoldable pub apply_install : ActualState → String → Option AgentResource → Run → Attempt
  apply_install actual name none run = (ok tt, run)
  apply_install actual name (some a) run =
      installed_on (resolve_hostname a.spec.host actual) a name run

  unfoldable pub install_agents : List ManifestResource → ActualState → List Op → Run → Attempt
  install_agents doc actual [] run = (ok tt, run)
  install_agents doc actual (o ∷ ops) run =
      and_then
        (if same_kind o.kind agent_kind
          then apply_install actual o.name (by_name (λ a. a.metadata.name) o.name (agents doc)) run
          else (ok tt, run))
        (install_agents doc actual ops)

  unfoldable pub apply_upgrade :
      String → String → Option AgentResource → Option ActualAgent → Run → Run
  apply_upgrade name details (some a) (some found) run =
      install_agent true a found.host name
        (emit "upgrade" ("agent/" <> name <> "  (" <> details <> ")") run)
  apply_upgrade name details _ _ run = run

  unfoldable pub upgrade_agents : List ManifestResource → ActualState → List Op → Run → Run
  upgrade_agents doc actual [] run = run
  upgrade_agents doc actual (o ∷ ops) run = upgrade_agents doc actual ops (
      if same_kind o.kind agent_kind
      then apply_upgrade o.name (remote.upgrade_text o)
          (by_name (λ a. a.metadata.name) o.name (agents doc)) (known_agent o.name actual.agents)
          run
      else run)

  -- 4., 5., 6.: calls for agents that the state from before the run has.
  unfoldable pub call_agent :
      (Json → Json → String → Config → Answer × Config)
      → String
      → String
      → Option ActualAgent
      → Config
      → Option String × Config
  call_agent call verb name none c =
      (some ("agent '" <> name <> "' not found in fleet state; cannot " <> verb), c)
  call_agent call verb name (some a) c =
      let (answer, c') = call a.host a.agent_type name c in (failure_of answer, c')

  unfoldable pub configure_provider :
      String → Json → Option ActualAgent → Config → Option String × Config
  configure_provider name provider_name none c =
      (some ("agent '" <> name <> "' not found in fleet state; cannot configure"), c)
  configure_provider name provider_name (some a) c =
      let (answer, c') = remote.configure_agent a.host a.agent_type name provider_name c in
      (configure_failure answer, c')

  unfoldable pub configure_providers : ActualState → List AttachOp → Run → Run
  configure_providers actual [] run = run
  configure_providers actual (o ∷ ops) run = configure_providers actual ops (
      if same_kind o.resource_kind provider_kind
      then done ("agent/" <> o.agent)
          (configure_provider o.agent o.resource_name (known_agent o.agent actual.agents)
            run.config)
          (emit "configure" ("agent/" <> o.agent <> "  provider " <> remote.provider_text o) run)
      else run)

  unfoldable pub call_agents :
      (Json → Json → String → Config → Answer × Config)
      → String
      → ActualState
      → List String
      → Run
      → Run
  call_agents call verb actual [] run = run
  call_agents call verb actual (name ∷ names) run = call_agents call verb actual names (
      done ("agent/" <> name)
        (call_agent call verb name (known_agent name actual.agents) run.config)
        (emit verb ("agent/" <> name) run))

  unfoldable pub apply_rest : List ManifestResource → ChangeSet → ActualState → Run → Run
  apply_rest doc cs actual run = call_agents remote.restart_agent "restart" actual cs.restarts (
      call_agents remote.start_agent "start" actual cs.starts
        (configure_providers actual cs.attaches (upgrade_agents doc actual cs.updates run)))

  -- The list of errors, unless an exception escapes.
  unfoldable pub finish_apply :
      List ManifestResource → ChangeSet → ActualState → Attempt → Result (List String) × Run
  finish_apply doc cs actual (err x, run) = (err x, run)
  finish_apply doc cs actual (ok u, run) =
      let last = apply_rest doc cs actual run in (ok last.errors, last)

  unfoldable pub execute_apply :
      List ManifestResource → ChangeSet → ActualState → Bool → Config → Result (List String) × Run
  execute_apply doc cs actual true c = (ok [], fresh_run c)
  execute_apply doc cs actual false c = finish_apply doc cs actual (
      and_then (create_hosts doc cs.creates (fresh_run c))
        (λ run. install_agents doc actual cs.creates (create_providers doc cs.creates run)))

  -- `execute_delete`: each agent is stopped and removed, whatever the stop answers.
  unfoldable pub delete_agents : ActualState → List Op → Run → Run
  delete_agents actual [] run = run
  delete_agents actual (o ∷ ops) run =
      let found = known_agent o.name actual.agents in
      let stopped =
        done ("agent/" <> o.name <> " (stop)")
          (call_agent remote.stop_agent "stop" o.name found run.config)
          (emit "stop" ("agent/" <> o.name) run) in
      let removed =
        done ("agent/" <> o.name <> " (delete)")
          (call_agent remote.remove_agent "remove" o.name found stopped.config)
          (emit "delete" ("agent/" <> o.name) stopped) in
      delete_agents actual ops (if same_kind o.kind agent_kind then removed else run)

  unfoldable pub delete_provider : String → Config → Option String × Config
  delete_provider name c =
      let (removed, c') = remove_provider name c in (removal_failure remote now removed, c')

  unfoldable pub delete_providers : List String → Run → Run
  delete_providers [] run = run
  delete_providers (name ∷ names) run = delete_providers names (
      done ("provider/" <> name) (delete_provider name run.config)
        (emit "delete" ("provider/" <> name) run))

  -- `provider_names` are the names of the manifest's providers, each once, as the set has them.
  unfoldable pub execute_delete : List String → ChangeSet → ActualState → Bool → Run → Run
  execute_delete provider_names cs actual true run =
      delete_providers provider_names (delete_agents actual cs.deletes run)
  execute_delete provider_names cs actual false run = delete_agents actual cs.deletes run
