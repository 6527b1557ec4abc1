-- ===== src/Registry/Latest.antt =====
-- `latest_supported_version`, the latest version of `get_claw_info`, and `parse_hermes_version`.
use Prim.Native.Char.{code}
use clawrium.Text.{is_digit}
use clawrium.Prelude.{
  ℕ, ◌<>◌, nat_eq, String, Bool, false, not, Option, none, some, List, [], ◌∷◌, if◌then◌else◌,
  Result, ok, err, ◌>>=◌, type_error, value_error, manifest_not_found,
}
use clawrium.Json.{Json, Dict, str, find, get, get_or}
use clawrium.Json.Equality.{py_eq}
use clawrium.Registry.Load.{Bundled, load_manifest, platforms_of}
use clawrium.Registry.Version.{Versions, version_matches}

module _ (V : Versions) where
  -- `except ValueError: continue`
  unfoldable pub unless_value_error : Result Bool → Result Bool
  unless_value_error (err value_error) = ok false
  unless_value_error (err x) = err x
  unless_value_error (ok b) = ok b

  -- `Version(platform["version"])`, or `continue`
  unfoldable pub version_of : Option Json → Result (Option V.Version)
  version_of none = ok none
  version_of (some (str text)) = ok (V.parse text)
  version_of (some _) = err type_error

  -- The version that one round of the loop appends.
  unfoldable pub supported_version : Dict → Dict → Result (Option V.Version)
  supported_version hardware platform =
      if not (py_eq (get "os" platform) (get "os" hardware)) then ok none else (do
        matches ← unless_value_error (
            version_matches V (get_or "os_version" (str "") platform)
              (get_or "os_version" (str "") hardware))
        if not matches
            then ok none
            else if not (py_eq (get "arch" platform) (get "architecture" hardware))
            then ok none
            else version_of (find "version" platform))

  unfoldable pub supported_versions : Dict → List Dict → Result (List V.Version)
  supported_versions hardware [] = ok []
  supported_versions hardware (platform ∷ platforms) = do
    version ← supported_version hardware platform
    rest ← supported_versions hardware platforms
    ok (elim version [ none ↦ rest | some v ↦ v ∷ rest ])

  -- `max`: of equal ones the first.
  unfoldable pub max_from : V.Version → List V.Version → V.Version
  max_from v [] = v
  max_from v (w ∷ ws) = max_from (if V.le w v then v else w) ws

  unfoldable pub latest_of : List V.Version → Option String
  latest_of [] = none
  latest_of (v ∷ vs) = some (V.show (max_from v vs))

  unfoldable pub latest_in : Dict → Result Json → Result (Option String)
  latest_in hardware (err manifest_not_found) = ok none
  latest_in hardware (err x) = err x
  latest_in hardware (ok manifest) = do
    platforms ← platforms_of manifest
    versions ← supported_versions hardware platforms
    ok (latest_of versions)

  unfoldable pub latest_supported_version :
      (String → Bundled) → String → Dict → Result (Option String)
  latest_supported_version registry_package claw_name hardware =
      latest_in hardware (load_manifest registry_package claw_name)

unfoldable pub take_digits : String → String × String
take_digits String.[] = ("", "")
take_digits (String.◌∷◌ c s) =
    let (digits, rest) = take_digits s in
    if is_digit (code c) then (String.◌∷◌ c digits, rest) else ("", String.◌∷◌ c s)

-- `[0-9]+` and then the character.
unfoldable pub digits_until : ℕ → String × String → Option (String × String)
digits_until stop (String.[], rest) = none
digits_until stop (digits, String.[]) = none
digits_until stop (digits, String.◌∷◌ c rest) =
    if nat_eq (code c) stop then some (digits, rest) else none

unfoldable pub digits_before : ℕ → String → Option (String × String)
digits_before stop s = digits_until stop (take_digits s)

-- `[0-9]+\.[0-9]+\.[0-9]+\)`
infixl 5 ◌>>=ᵒ◌
abbrev ◌>>=ᵒ◌ : {A B : Type 0} → Option A → (A → Option B) → Option B
none >>=ᵒ next = none
some a >>=ᵒ next = next a

unfoldable pub release_tag : String → Option String
release_tag s = digits_before b'.' s >>=ᵒ λ major. digits_before b'.' major.1 >>=ᵒ λ minor.
    digits_before b')' minor.1 >>=ᵒ λ patch. some (major.0 <> "." <> minor.0 <> "." <> patch.0)

-- `_HERMES_VERSION_RE.search`
unfoldable pub first_found : Option String → Option String → Option String
first_found none later = later
first_found (some tag) later = some tag

unfoldable pub find_tag : String → Option String
find_tag String.[] = none
find_tag (String.◌∷◌ c s) =
    let later = find_tag s in
    if nat_eq (code c) b'(' then first_found (release_tag s) later else later

unfoldable pub parse_hermes_version : Option String → String
parse_hermes_version none = ""
parse_hermes_version (some output) = elim (find_tag output) [ none ↦ "" | some tag ↦ tag ]
