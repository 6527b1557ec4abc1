-- ===== src/Registry/Load.antt =====
-- `validate_agent_type`, `load_manifest` and what it is asked for. What the package holds under the
-- name of a type is a parameter: nothing, a text that is no YAML, or a value.
use clawrium.Json.Lists.{dicts}
use clawrium.Prelude.{
  type_error, none, some, nat_eq, not, false, manifest_parse_error, ℕ, invalid_agent_type,
  manifest_not_found, String, Bool, List, [], ◌∷◌, ◌==◌, ◌||◌, if◌then◌else◌, Result, ok, err,
  ◌>>=◌,
}
use clawrium.Json.{Json, Dict, obj, arr, nil, empty, get_or, index, as_dict}
use clawrium.Text.{codes, every_code, is_alnum, matches_dollar, has_sub}
use clawrium.Registry.Sections.{validate_manifest}

pub data Bundled : Type 0 where
  absent malformed : Bundled
  parsed : Json → Bundled

-- `[a-zA-Z0-9_-]+`
unfoldable pub agent_type_pattern : List ℕ → Bool
agent_type_pattern [] = false
agent_type_pattern (c ∷ cs) =
    every_code (λ d. is_alnum d || nat_eq d b'_' || nat_eq d b'-') (c ∷ cs)

unfoldable pub traverses : String → Bool
traverses s =
    has_sub (codes "..") (codes s)
    || has_sub (codes "/") (codes s)
    || has_sub (codes "\\") (codes s)

unfoldable pub validate_agent_type : String → Result (Unit {0})
validate_agent_type agent_type =
    if agent_type == ""
    then err invalid_agent_type
    else if not (matches_dollar agent_type_pattern (codes agent_type))
    then err invalid_agent_type
    else if traverses agent_type
    then err invalid_agent_type
    else ok tt

unfoldable pub manifest_of : Bundled → String → Result Json
manifest_of absent claw_name = err manifest_not_found
manifest_of malformed claw_name = err manifest_parse_error
manifest_of (parsed manifest_data) claw_name = validate_manifest manifest_data claw_name

unfoldable pub load_manifest : (String → Bundled) → String → Result Json
load_manifest registry_package claw_name = do
  checked ← validate_agent_type claw_name
  manifest_of (registry_package claw_name) claw_name

-- `manifest.get("secrets", {}).get(secret_class, [])`
unfoldable pub secrets_of_class : String → Json → Result Json
secrets_of_class secret_class manifest = do
  root ← as_dict manifest
  secrets ← as_dict (get_or "secrets" (obj empty) root)
  ok (get_or secret_class (arr nil) secrets)

unfoldable pub get_required_secrets : (String → Bundled) → String → Result Json
get_required_secrets registry_package claw_name = do
  manifest ← load_manifest registry_package claw_name
  secrets_of_class "required" manifest

unfoldable pub get_optional_secrets : (String → Bundled) → String → Result Json
get_optional_secrets registry_package claw_name = do
  manifest ← load_manifest registry_package claw_name
  secrets_of_class "optional" manifest

-- The dicts of a list of dicts, such as the validated platforms are.
unfoldable pub dicts_in : Json → Result (List Dict)
dicts_in (arr xs) = elim (dicts xs) [ none ↦ err type_error | some ds ↦ ok ds ]
dicts_in _ = err type_error

-- `manifest["platforms"]`
unfoldable pub platforms_of : Json → Result (List Dict)
platforms_of manifest = do root ← as_dict manifest; value ← index "platforms" root; dicts_in value
