-- ===== src/Registry/Sections.antt =====
-- The sections of a manifest: `_validate_manifest` and the functions that it calls.
use clawrium.Prelude.{
  nat_eq, ◌&&◌, false, leb, ◌||◌, contains, all, ℕ, String, Bool, List, [], ◌∷◌, ◌==◌,
  if◌then◌else◌, Result, ok, err, manifest_parse_error,
}
use clawrium.Json.{Json, nil, null, num, str, arr}
use clawrium.Text.{is_alnum, every_code, is_letter, codes, strip, split_on}
use clawrium.Registry.{
  text_or_flag, any_object, any_text, table_of, filled_text, list_of, flag, natural, Field, needed,
  optional, otherwise, object_of,
}

abbrev pub requirements_fields : List Field
requirements_fields =
    record { key = "min_memory_mb"; presence = needed; check = natural }
    ∷ record { key = "gpu_required"; presence = needed; check = flag }
    ∷ record { key = "dependencies"; presence = needed; check = table_of filled_text }
    ∷ []

abbrev pub platform_fields : List Field
platform_fields =
    record { key = "version"; presence = needed; check = filled_text }
    ∷ record { key = "os"; presence = needed; check = filled_text }
    ∷ record { key = "os_version"; presence = needed; check = filled_text }
    ∷ record { key = "arch"; presence = needed; check = filled_text }
    ∷ record { key = "requirements"; presence = needed; check = object_of requirements_fields }
    ∷ record { key = "sha256"; presence = optional; check = filled_text }
    ∷ []

abbrev pub definition_fields : List Field
definition_fields =
    record { key = "key"; presence = needed; check = filled_text }
    ∷ record { key = "description"; presence = needed; check = filled_text }
    ∷ []

abbrev pub secrets_fields : List Field
secrets_fields =
    record { key = "required"; presence = optional; check = list_of (object_of definition_fields) }
    ∷ record {
      key = "optional";
      presence = optional;
      check = list_of (object_of definition_fields);
    }
    ∷ []

abbrev pub task_fields : List Field
task_fields =
    record { key = "id"; presence = needed; check = filled_text }
    ∷ record { key = "name"; presence = needed; check = filled_text }
    ∷ record { key = "type"; presence = needed; check = filled_text }
    ∷ record { key = "path"; presence = optional; check = any_text }
    ∷ record { key = "template"; presence = optional; check = any_text }
    ∷ record { key = "prompt"; presence = optional; check = any_text }
    ∷ record { key = "message"; presence = optional; check = any_text }
    ∷ record { key = "command"; presence = optional; check = any_text }
    ∷ record { key = "options"; presence = optional; check = list_of any_text }
    ∷ record { key = "paths"; presence = optional; check = list_of any_text }
    ∷ record { key = "fields"; presence = optional; check = list_of any_object }
    ∷ record { key = "default"; presence = optional; check = text_or_flag }
    ∷ record { key = "min_select"; presence = optional; check = natural }
    ∷ []

abbrev pub stage_fields : List Field
stage_fields =
    record { key = "description"; presence = needed; check = filled_text }
    ∷ record { key = "required"; presence = optional; check = flag }
    ∷ record { key = "auto_skip"; presence = optional; check = flag }
    ∷ record { key = "tasks"; presence = optional; check = list_of (object_of task_fields) }
    ∷ []

abbrev pub onboarding_fields : List Field
onboarding_fields =
    record { key = "stages"; presence = optional; check = table_of (object_of stage_fields) } ∷ []

abbrev pub workspace_fields : List Field
workspace_fields = record { key = "memory_path"; presence = optional; check = filled_text } ∷ []

abbrev pub chat_types : List String
chat_types = "openai" ∷ "websocket" ∷ "zeroclaw" ∷ "claude" ∷ "codex" ∷ "pi" ∷ []

abbrev pub web_ui_binds : List String
web_ui_binds = "loopback" ∷ "wildcard" ∷ []

-- `v in (…)`
unfoldable pub choice : List String → Json → Result Json
choice options (str s) = if contains options s then ok (str s) else err manifest_parse_error
choice options _ = err manifest_parse_error

unfoldable pub web_ui_port : Json → Result Json
web_ui_port (num n) = if leb 1024 n && leb n 65535 then ok (num n) else err manifest_parse_error
web_ui_port _ = err manifest_parse_error

-- `[a-zA-Z_][a-zA-Z0-9_]*`
unfoldable pub is_identifier : List ℕ → Bool
is_identifier [] = false
is_identifier (c ∷ cs) =
    (is_letter c || nat_eq c b'_') && every_code (λ d. is_alnum d || nat_eq d b'_') cs

-- `_PORT_FIELD_RE.fullmatch`
unfoldable pub is_port_field : String → Bool
unfolding is_identifier
is_port_field s = all is_identifier (split_on b'.' (codes s))

unfoldable pub port_field : Json → Result Json
unfolding is_port_field
port_field (str s) =
    if strip s == ""
    then err manifest_parse_error
    else if is_port_field s
    then ok (str s)
    else err manifest_parse_error
port_field _ = err manifest_parse_error

abbrev pub web_ui_fields : List Field
web_ui_fields =
    record { key = "enabled"; presence = needed; check = flag }
    ∷ record { key = "bind"; presence = needed; check = choice web_ui_binds }
    ∷ record { key = "port_field"; presence = needed; check = port_field }
    ∷ record { key = "default_port"; presence = optional; check = web_ui_port }
    ∷ []

unfoldable pub starts_with : ℕ → List ℕ → Bool
starts_with c [] = false
starts_with c (d ∷ ds) = nat_eq c d

-- `dest.startswith("/") or dest.startswith("~")`, for what is left of `dest` between its spaces.
unfoldable pub rooted : String → Result Json
unfolding starts_with
rooted dest =
    if dest == ""
    then err manifest_parse_error
    else if starts_with b'/' (codes dest) || starts_with b'~' (codes dest)
    then ok (str dest)
    else err manifest_parse_error

unfoldable pub destination_root : Json → Result Json
destination_root (str s) = rooted (strip s)
destination_root _ = err manifest_parse_error

-- `p == ".."`
unfoldable pub is_parent : List ℕ → Bool
is_parent (c ∷ d ∷ []) = nat_eq c b'.' && nat_eq d b'.'
is_parent _ = false

unfoldable pub any_part : (List ℕ → Bool) → List (List ℕ) → Bool
any_part p [] = false
any_part p (s ∷ ss) = p s || any_part p ss

-- `stripped.startswith("/") or ".." in stripped.split("/")`
unfoldable pub leaves_workspace : String → Bool
unfolding starts_with any_part is_parent
leaves_workspace s = starts_with b'/' (codes s) || any_part is_parent (split_on b'/' (codes s))

unfoldable pub relative : String → Result Json
unfolding leaves_workspace
relative s =
    if s == ""
    then err manifest_parse_error
    else if leaves_workspace s
    then err manifest_parse_error
    else ok (str s)

unfoldable pub exclude : Json → Result Json
exclude (str s) = relative (strip s)
exclude _ = err manifest_parse_error

-- No `excludes`, or `null`, is none.
unfoldable pub excludes : Json → Result Json
unfolding list_of
excludes null = ok (arr nil)
excludes v = list_of exclude v

abbrev pub overlay_fields : List Field
overlay_fields =
    record { key = "destination_root"; presence = needed; check = destination_root }
    ∷ record { key = "excludes"; presence = needed; check = excludes }
    ∷ []

abbrev pub chat_fields : List Field
chat_fields = record { key = "type"; presence = needed; check = choice chat_types } ∷ []

abbrev pub features_fields : List Field
features_fields =
    record { key = "memory"; presence = optional; check = flag }
    ∷ record { key = "chat"; presence = optional; check = object_of chat_fields }
    ∷ record { key = "web_ui"; presence = optional; check = object_of web_ui_fields }
    ∷ record { key = "workspace_overlay"; presence = optional; check = object_of overlay_fields }
    ∷ []

-- `manifest_agent_type != agent_type`
unfoldable pub own_type : String → Json → Result Json
own_type agent_type (str s) =
    if s == ""
    then err manifest_parse_error
    else if s == agent_type
    then ok (str s)
    else err manifest_parse_error
own_type agent_type _ = err manifest_parse_error

abbrev pub agent_fields : String → List Field
agent_fields agent_type =
    record { key = "type"; presence = needed; check = own_type agent_type }
    ∷ record { key = "description"; presence = otherwise (str ""); check = any_text }
    ∷ []

unfoldable pub platforms : Json → Result Json
unfolding list_of
platforms (arr nil) = err manifest_parse_error
platforms v = list_of (object_of platform_fields) v

abbrev pub manifest_fields : String → List Field
manifest_fields agent_type =
    record { key = "agent"; presence = needed; check = object_of (agent_fields agent_type) }
    ∷ record { key = "platforms"; presence = needed; check = platforms }
    ∷ record { key = "secrets"; presence = optional; check = object_of secrets_fields }
    ∷ record { key = "onboarding"; presence = optional; check = object_of onboarding_fields }
    ∷ record { key = "workspace"; presence = optional; check = object_of workspace_fields }
    ∷ record { key = "features"; presence = optional; check = object_of features_fields }
    ∷ []

unfoldable pub validate_manifest : Json → String → Result Json
validate_manifest manifest_data agent_type = object_of (manifest_fields agent_type) manifest_data
