-- ===== src/Channels.antt =====
-- core/channels.py: the registry of channels, channels.json.
pub mod Agents
pub mod Registry
pub mod Removal
pub mod Attached
use clawrium.Prelude.{
  ℕ, String, ◌<>◌, Bool, true, false, not, ◌&&◌, ◌||◌, Option, none, some, List, [], ◌∷◌, ◌++◌,
  ◌==◌, leb, nat_eq, if◌then◌else◌, length, keep, contains, Result, ok, err, channels_corrupted,
  duplicate_channel, invalid_channel_type, invalid_channel_name, invalid_stream_mode,
  channel_in_use, value_error, ◌>>=◌ as ◌>>=ʳ◌,
}
use clawrium.Json.{
  Json, Items, Dict, null, str, arr, obj, nil, cons, empty, get, get_or, set_default, truthy,
  as_dict,
}
use clawrium.Json.Lists.{has_item}
use clawrium.Json.Subscript.{holds_key}
use clawrium.Config.{Config, Exec, pure, raise, lift, reads, modify, ◌>>=◌, ◌>>◌}
use clawrium.Text.{codes, strip, any_code, every_code, is_letter, is_alnum, matches_dollar}
use clawrium.Records.{named, same, find_first, update_first, any_record, parse_records, written}
use clawrium.Hosts.Store.{load_hosts}
use clawrium.Hosts.Agents.Edit.{users_in}
use clawrium.Secrets.{set_instance_secret, get_instance_secrets, remove_instance_secrets}

-- `[a-zA-Z][a-zA-Z0-9_-]{0,63}`
unfoldable pub channel_name_pattern : List ℕ → Bool
channel_name_pattern [] = false
channel_name_pattern (c ∷ cs) =
    is_letter c
    && every_code (λ d. is_alnum d || nat_eq d b'_' || nat_eq d b'-') cs
    && leb (length cs) 63

unfoldable pub validate_channel_name : Json → Result (Unit {0})
validate_channel_name (str name) =
    if matches_dollar channel_name_pattern (codes name) then ok tt else err invalid_channel_name
validate_channel_name _ = err invalid_channel_name

-- `v in (…)` for a tuple of texts.
unfoldable pub is_one_of : List String → Json → Bool
is_one_of names (str s) = contains names s
is_one_of names _ = false

abbrev pub channel_types : List String
channel_types = "discord" ∷ "slack" ∷ []

abbrev pub stream_modes : List String
stream_modes = "replace" ∷ "append" ∷ []

unfoldable pub validate_channel_type : Json → Result (Unit {0})
validate_channel_type channel_type =
    if is_one_of channel_types channel_type then ok tt else err invalid_channel_type

unfoldable pub validate_stream_mode : Json → Result (Unit {0})
validate_stream_mode null = ok tt
validate_stream_mode mode = if is_one_of stream_modes mode then ok tt else err invalid_stream_mode

-- `_ID_FORBIDDEN`
unfoldable pub is_forbidden : ℕ → Bool
is_forbidden c =
    leb c 0x1f
    || (leb 0x7f c && leb c 0x9f)
    || nat_eq c 0x61c
    || (leb 0x200b c && leb c 0x200f)
    || (leb 0x2028 c && leb c 0x2029)
    || (leb 0x202a c && leb c 0x202e)
    || nat_eq c 0x2060
    || (leb 0x2066 c && leb c 0x2069)
    || nat_eq c 0xfeff

unfoldable pub validate_id : Json → Result String
validate_id (str item) =
    if strip item == ""
    then err value_error
    else if any_code is_forbidden (codes item)
    then err value_error
    else ok (strip item)
validate_id _ = err value_error

unfoldable pub validate_ids : Items → Result (List String)
validate_ids nil = ok []
validate_ids (cons item items) =
    validate_id item >>=ʳ λ s. validate_ids items >>=ʳ λ out. ok (s ∷ out)

unfoldable pub validate_id_list : Json → Result (List String)
validate_id_list null = ok []
validate_id_list (arr items) = validate_ids items
validate_id_list _ = err value_error

unfoldable pub get_channel_instance_key : String → String
get_channel_instance_key channel_name = "channel:" <> channel_name

unfoldable pub set_channel_token : String → String → String → String → Exec Bool
set_channel_token now channel_name key value =
    set_instance_secret now (get_channel_instance_key channel_name) key value
      (key <> " for channel " <> channel_name)

unfoldable pub token_value : Json → Json
token_value (obj e) = get "value" e
token_value _ = null

unfoldable pub get_channel_token : String → String → Exec Json
get_channel_token channel_name key = do
  secrets ← get_instance_secrets (get_channel_instance_key channel_name)
  d ← lift (as_dict secrets)
  pure (token_value (get key d))

unfoldable pub remove_channel_credentials : String → Exec Bool
remove_channel_credentials channel_name =
    remove_instance_secrets (get_channel_instance_key channel_name)

unfoldable pub load_channels : Exec (List Dict)
load_channels = reads (λ c. parse_records channels_corrupted c.channels)

unfoldable pub save_channels : List Dict → Exec (Unit {0})
save_channels channels = modify (λ c. record c { channels = written channels })

-- `if ctype: validate_channel_type(ctype)`
unfoldable pub check_type : Json → Result (Unit {0})
check_type ctype = if truthy ctype then validate_channel_type ctype else ok tt

-- `cfg = channel.get("config") or {}` and the test of its `stream_mode`.
unfoldable pub check_config : Json → Result (Unit {0})
check_config config =
    let cfg = if truthy config then config else obj empty in
    holds_key "stream_mode" cfg >>=ʳ λ there.
    if there then (as_dict cfg >>=ʳ λ d. validate_stream_mode (get "stream_mode" d)) else ok tt

unfoldable pub stamp : String → Dict → Dict
stamp now channel = set_default "updated_at" (str now) (set_default "created_at" (str now) channel)

unfoldable pub add_channel : String → Dict → Exec (Unit {0})
add_channel now channel = do
  lift (validate_channel_name (get "name" channel))
  lift (check_type (get "type" channel))
  lift (check_config (get "config" channel))
  channels ← load_channels
  if any_record (same "name" (get "name" channel)) channels
      then raise duplicate_channel
      else save_channels (channels ++ (stamp now channel ∷ []))

unfoldable pub get_channel : String → Exec (Option Dict)
get_channel name = do channels ← load_channels; pure (find_first (named "name" name) channels)

unfoldable pub commit_channels : Option (Unit {0} × List Dict) → Exec Bool
commit_channels none = pure false
commit_channels (some (u, channels)) = do save_channels channels; pure true

unfoldable pub update_channel : String → (Dict → Result Dict) → Exec Bool
update_channel name updater = do
  channels ← load_channels
  updated ← lift (update_first (named "name" name) (λ c. updater c >>=ʳ λ c'. ok (tt, c')) channels)
  commit_channels updated

-- `host.get("agents", {}) or {}`
unfoldable pub agents_or_empty : Json → Result Dict
agents_or_empty agents = if truthy agents then as_dict agents else ok empty

unfoldable pub users_of_channel : String → List Dict → Result (List (Json × String))
users_of_channel channel_name [] = ok []
users_of_channel channel_name (h ∷ hs) =
    agents_or_empty (get_or "agents" (obj empty) h) >>=ʳ λ agents.
    users_of_channel channel_name hs >>=ʳ λ out.
    ok (users_in "channels" channel_name (get_or "hostname" (str "") h) agents ++ out)

unfoldable pub find_agents_using_channel : String → String → Exec (List (Json × String))
find_agents_using_channel now channel_name = do
  hosts ← load_hosts now
  lift (users_of_channel channel_name hosts)

-- `if attached: raise ChannelInUseError`
unfoldable pub refuse_used : List (Json × String) → Result (Unit {0})
refuse_used [] = ok tt
refuse_used (a ∷ attached) = err channel_in_use

unfoldable pub check_unused : String → String → Bool → Exec (Unit {0})
check_unused now name true = pure tt
check_unused now name false = do
  attached ← find_agents_using_channel now name
  lift (refuse_used attached)

unfoldable pub remove_channel : String → String → Bool → Exec Bool
remove_channel now name force = do
  check_unused now name force
  channels ← load_channels
  let remaining = keep (λ c. not (named "name" name c)) channels
  if nat_eq (length remaining) (length channels)
      then pure false
      else do remove_channel_credentials name; save_channels remaining; pure true
