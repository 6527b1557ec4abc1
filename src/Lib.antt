-- ===== src/Lib.antt =====
-- clawrium manages a fleet of AI agents on remote hosts. Its core keeps a few registries as JSON
-- files in a configuration directory (core/config.py), and every command of the command line and
-- of the web interface reads and writes them through the modules of src/clawrium/core.
--
-- Parts, and the files that model them:
-- - Prelude (with Outcome, Tests, Lists): shared names and lemmas, the exceptions of the modules
--   (`Error`), results that may be one (`Result`).
-- - Json (with Laws, Lists, Equality, Subscript): the values of Python's `json` and the dict operations the code
--   uses, `get`, `in`, `d[k] = v`, `pop`, `setdefault`, in the order of insertion. Numbers are natural.
-- - Config: the files of the directory as the state, `Exec` as the type of an operation: from the
--   state to a result or an exception, and the state after it. What was written before an exception
--   stays written. Config/Keeps: invariants of an operation along its steps.
-- - Text (with Ip, Strip, Order): code points, `strip`, `split`, the anchors of a pattern,
--   `ipaddress.ip_address`, the order of texts and `sorted(set(…))`.
-- - Records (with Updates, Names): the loops over a list of records that hosts.py and its siblings share.
-- - Hosts: src/clawrium/core/hosts.py. Migrate: the migrations of a record as it is read. Store:
--   load_hosts, save_hosts, update_host. Registry: add_host, remove_host, get_host, alias_exists.
--   Address: _validate_address. Addresses: add_address_to_host, remove_address_from_host,
--   set_primary_address, get_host_addresses. Agents: remove_agent_from_host, read_gateway_auth,
--   set_gateway_auth, get_agent_by_name.
-- - Attachments: src/clawrium/core/provider_attachments.py.
-- - Channels: src/clawrium/core/channels.py. Channels: validation, tokens, the registry. Agents: the
--   channels of an agent, by way of Hosts/Agents/Edit, the part that integrations.py shares.
-- - Integrations: src/clawrium/core/integrations.py. Integrations: validation, credentials, the registry.
--   Table: the types and their credentials. Registry: the registry as a map, and removal. Agents: the
--   integrations of an agent, with the rule for singleton types; Singleton, Attempts, Added: its proofs.
-- - Onboarding: src/clawrium/core/onboarding.py. Onboarding: the states, the lookup of an agent,
--   transition_state. Stages: complete_stage, update_stage_metadata, initialize_onboarding. Run: run_stage.
--   Machine: the workflow as a step relation. Agreement: its two
--   searches for an agent. Resolve, Records, Completed, Completion, Patch, Start: proofs. AutoSkip: when a
--   manifest skips the onboarding.
-- - Secrets: src/clawrium/core/secrets.py, which channels and integrations use for
--   their tokens. View, Removal, Restore: the secrets as a map. Batch: several at once. Installed: get_installed_claw.
-- - Providers: src/clawrium/core/providers/storage.py, the registry of model providers and their keys. Registry: as a map.
-- - Registry: src/clawrium/core/registry.py. Registry: how a section of a manifest is validated. Sections:
--   the sections. Idempotent, Manifests: what is validated is its own validation. Load: load_manifest.
--   Version, Compatibility, Latest: the versions, and the entry that fits the hardware. Fits, Order, Best: proofs.
-- - Manifest: src/clawrium/core/manifest. Manifest: schema.py and the types of state.py and differ.py. Differ, State,
--   Validator: the rest of these, and validator.py. Steps, Executor: executor.py. Changes, Converged, Unsettled,
--   NewAgents, Returns, NotFound: proofs. Keys: validate_key_id of src/clawrium/core/keys.py.
-- - Install: src/clawrium/core/install.py. Install: _pick_per_instance_port. Records: the incomplete installations, and the updaters
--   cleanup_agents, set_failed and the first part of set_installing. Ports, Search, Cleanup, Failure, Choice: proofs.
-- - Lifecycle: src/clawrium/core/lifecycle.py, _resolve_agent_type, _resolve_agent_record, _update_agent_runtime. Resolve: its proof.
-- - Skills: src/clawrium/core/skills_state.py. Sets: the state as a finite set, by Text/Order, the order of texts.
-- - Names: src/clawrium/core/names.py. Generated, Checked: proofs.
-- - Tests: the properties at concrete inputs.
--
-- Conventions: `now` is the time that one operation reads from the clock, the same at each reading. An updater, a closure that
-- update_host calls on a record, returns the new record and what it leaves in the variables of the
-- function around it. Loops are structural recursion; the search for a port counts down the ports of its window, as the
-- range of the source does, and Install.Ports shows that these steps reach every port.
--
-- Not modelled: the lock of each file and the temporary file of a write (an operation is one step),
-- errors of the operating system, log lines and the texts of exceptions, numbers that are negative or
-- have a fraction; the YAML files that core/registry.py and core/manifest/parser.py read (their values are a
-- parameter), and the order of packaging.version (a parameter, with its laws where a theorem needs them);
-- what install.py, lifecycle.py and the key files of keys.py do (a parameter of the executor), and all of install.py and
-- lifecycle.py that Install and Lifecycle do not name; the other modules of core, the command line, the web interface, the playbooks and everything over SSH.
pub mod Prelude
pub mod Json
pub mod Config
pub mod Text
pub mod Records
pub mod Attachments
pub mod Channels
pub mod Hosts
pub mod Install
pub mod Integrations
pub mod Lifecycle
pub mod Manifest
pub mod Names
pub mod Onboarding
pub mod Providers
pub mod Registry
pub mod Secrets
pub mod Skills
pub mod Tests
