-- ===== src/Channels/Agents.antt =====
-- core/channels.py: the channels that are attached to an agent.
use clawrium.Prelude.{String, Bool, Option, none, some, Result, ok, ◌>>=◌ as ◌>>=ʳ◌, if◌then◌else◌}
use clawrium.Json.{Items, Dict, arr, obj, nil, empty, get_or, put, truthy}
use clawrium.Config.{Exec, lift, ◌>>=◌}
use clawrium.Hosts.Registry.{get_host}
use clawrium.Hosts.Agents.Edit.{find_agent, field_of, attach, detach, edit_agent_of}

-- `host_data` is a record with the identifier in it, so it is not empty.
unfoldable pub channels_of : String → Option Dict → Result Items
channels_of agent_key none = ok nil
channels_of agent_key (some host_data) =
    let agents = get_or "agents" (obj empty) host_data in
    find_agent agent_key (if truthy agents then agents else obj empty) >>=ʳ λ found.
    ok (field_of "channels" found)

unfoldable pub get_agent_channels : String → String → String → Exec Items
get_agent_channels now host agent_key = do
  host_data ← get_host now host
  lift (channels_of agent_key host_data)

unfoldable pub set_agent_channels : String → String → String → Items → Exec Bool
set_agent_channels now host agent_key channels =
    edit_agent_of now host agent_key (λ r. some (put "channels" (arr channels) r))

unfoldable pub add_agent_channel : String → String → String → String → Exec Bool
add_agent_channel now host agent_key channel_name =
    edit_agent_of now host agent_key (attach "channels" channel_name)

unfoldable pub remove_agent_channel : String → String → String → String → Exec Bool
remove_agent_channel now host agent_key channel_name =
    edit_agent_of now host agent_key (detach "channels" channel_name)
